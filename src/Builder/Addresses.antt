-- ===== src/Builder/Addresses.antt =====
-- How often the addresses stand in the outputs that the builder makes.
use okx_ord.Common.{
  ℕ, ◌≤◌, ◌≡◌, refl, List, Option, none, some, true, ltb, arith, Bool-cases, inl, inr, le→leb,
}
use okx_ord.Builder.State.{Sizes, contains, set_of_two}
use okx_ord.Builder.Steps.{addresses}
use okx_ord.Builder.Build.{count, at_most_once}
use okx_ord.Builder.Counts.{==-refl, ==-false-sym}
use okx_ord.Builder.Request.{Request, IsChecked}
use okx_ord.Builder.Funds.{outputs_of, change_address}

module _ (sizes : Sizes) (q : Request) (checked : IsChecked sizes q) where
  pub count-recipient :
      (a : Option ℕ) (v : ℕ) (change : Option ℕ)
      → count q.recipient (addresses (outputs_of q a v change)) ≡ 1
  unfolding count
  count-recipient none v none = rw (==-refl q.recipient) refl
  count-recipient (some p) v none = rw (==-refl q.recipient, checked.not_second) refl
  count-recipient none v (some s) = rw (==-refl q.recipient, checked.not_second) refl
  count-recipient (some p) v (some s) =
      rw (==-refl q.recipient, checked.not_second, checked.not_first) refl

  count-first :
      (a : Option ℕ) (v : ℕ) (change : Option ℕ)
      → count q.first (addresses (outputs_of q a v change)) ≤ 1
  unfolding count
  count-first none v none = rw (==-false-sym q.recipient q.first checked.not_first) (omega arith)
  count-first (some p) v none =
      rw (==-false-sym q.recipient q.first checked.not_first, checked.different) (omega arith)
  count-first none v (some s) =
      rw (==-false-sym q.recipient q.first checked.not_first, checked.different) (omega arith)
  count-first (some p) v (some s) =
      rw (==-false-sym q.recipient q.first checked.not_first, checked.different, ==-refl q.first)
        (omega arith)

  count-second :
      (a : Option ℕ) (v : ℕ) (change : Option ℕ)
      → count q.second (addresses (outputs_of q a v change)) ≤ 1
  unfolding count
  count-second none v none = rw (==-false-sym q.recipient q.second checked.not_second) (omega arith)
  count-second (some p) v none =
      rw (==-false-sym q.recipient q.second checked.not_second, ==-refl q.second) (omega arith)
  count-second none v (some s) =
      rw (==-false-sym q.recipient q.second checked.not_second, ==-refl q.second) (omega arith)
  count-second (some p) v (some s) =
      rw
        (
          ==-false-sym q.recipient q.second checked.not_second,
          ==-refl q.second,
          ==-false-sym q.first q.second checked.different,
        )
        (omega arith)

  pub at_most_once-set_of_two :
      (outs : List ℕ)
      → count q.first outs ≤ 1
      → count q.second outs ≤ 1
      → at_most_once (set_of_two q.first q.second) outs ≡ true
  at_most_once-set_of_two outs f s =
      rw checked.different (elim (Bool-cases (ltb q.first q.second)) [
        | inl less ↦
            rw (less, le→leb (count q.first outs) 1 f, le→leb (count q.second outs) 1 s) refl
        | inr more ↦
            rw (more, le→leb (count q.first outs) 1 f, le→leb (count q.second outs) 1 s) refl
      ])

  pub change_once :
      (a : Option ℕ) (v : ℕ) (change : Option ℕ)
      → at_most_once (set_of_two q.first q.second) (addresses (outputs_of q a v change)) ≡ true
  change_once a v change =
      at_most_once-set_of_two (addresses (outputs_of q a v change)) (count-first a v change)
        (count-second a v change)

  pub contains-first : contains q.first (set_of_two q.first q.second) ≡ true
  unfolding contains
  contains-first = rw checked.different (elim (Bool-cases (ltb q.first q.second)) [
    | inl less ↦ rw (less, ==-refl q.first) refl
    | inr more ↦ rw (more, checked.different, ==-refl q.first) refl
  ])

  pub contains-second : contains q.second (set_of_two q.first q.second) ≡ true
  unfolding contains
  contains-second = rw checked.different (elim (Bool-cases (ltb q.first q.second)) [
    | inl less ↦ rw (less, ==-refl q.second, ==-false-sym q.first q.second checked.different) refl
    | inr more ↦ rw (more, ==-refl q.second) refl
  ])

  pub contains-change_address :
      (a : Option ℕ) → contains (change_address q a) (set_of_two q.first q.second) ≡ true
  contains-change_address none = contains-second
  contains-change_address (some p) = contains-first
