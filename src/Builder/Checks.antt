-- ===== src/Builder/Checks.antt =====
-- The assertions of `build`, of the builder's last state.
use okx_ord.Common.{
  ℕ, ◌+◌, ◌-◌, ◌≤◌, ◌≡◌, refl, sym, ap, List, [], ◌∷◌, Option, none, some, false, ◌==◌, ltb, arith,
  All, Bool-cases, inl, inr, le→leb, lt→ltb, ==_iff, unwrap_or,
}
use okx_ord.Common.Dict.{Dict, lookup}
use okx_ord.Common.Outcome.{u64_max}
use okx_ord.Builder.State.{Sizes, built, keys}
use okx_ord.Builder.Build.{count, count_amounts, find_output, sum_inputs, less_outputs, check_dust}
use okx_ord.Builder.Counts.{worth, value_of-some, ==-refl, ==-false-sym}
use okx_ord.Builder.Safe.{add-built, sub-built}
use okx_ord.Builder.Request.{Request}
use okx_ord.Builder.Funds.{outputs_of, padding}
use okx_ord.Builder.Padding.{IsClear}
use okx_ord.Builder.Deducting.{IsTidy}

count_amounts-absent :
    (k offset : ℕ) (d : Dict ℕ) → count k (keys d) ≡ 0 → count_amounts k offset d ≡ 0
unfolding count count_amounts
count_amounts-absent k offset [] h = refl
count_amounts-absent k offset ((j, a) ∷ d) h = elim (Bool-cases (k == j)) [
  | inl same ↦ absurd (let h = rw same at h in omega (arith, h))
  | inr other ↦
      let h = rw other at h in
      rw (==-false-sym k j other)
        (omega (arith, count_amounts-absent k offset d (omega (arith, h))))
]

pub count_amounts-once :
    (k offset a : ℕ) (d : Dict ℕ)
    → lookup k d ≡ some a
    → offset + 1 ≤ a
    → count k (keys d) ≤ 1
    → count_amounts k offset d ≡ 1
unfolding count count_amounts lookup
count_amounts-once k offset a [] found more once = cc
count_amounts-once k offset a ((j, b) ∷ d) found more once = elim (Bool-cases (k == j)) [
  | inl same ↦
      let found = rw same at found in
      let once = rw same at once in
      let e : k ≡ j = (==_iff k j).0 same in
      let b_a : b ≡ a = cc in
      rw
        (
          sym e,
          ==-refl k,
          lt→ltb offset b (omega (arith, b_a, more)),
          count_amounts-absent k offset d (omega (arith, once)),
        )
        (omega arith)
  | inr other ↦
      let found = rw other at found in
      let once = rw other at once in
      rw (==-false-sym k j other)
        (omega (arith, count_amounts-once k offset a d found more (omega (arith, once))))
]

pub sum_inputs_lem :
    (amounts : Dict ℕ) (sum : ℕ) (is : List ℕ)
    → All (λ i. (a : ℕ) × (lookup i amounts ≡ some a)) is
    → sum + worth amounts is ≤ u64_max
    → sum_inputs amounts sum is ≡ built (sum + worth amounts is)
unfolding sum_inputs worth
sum_inputs_lem amounts sum [] known fits = ap built (omega arith)
sum_inputs_lem amounts sum (i ∷ is) ((a, priced), known) fits =
    let w = value_of-some amounts i a priced in
    rw
      (
        priced,
        add-built sum a (omega (arith, w, fits)),
        sum_inputs_lem amounts (sum + a) is known (omega (arith, w, fits)),
      )
      (ap built (omega (arith, w)))

-- What outputs are worth.
unfoldable pub paid : List (ℕ × ℕ) → ℕ
paid [] = 0
paid ((a, v) ∷ outs) = v + paid outs

pub less_outputs_lem :
    (outs : List (ℕ × ℕ)) (sum cost : ℕ)
    → sum ≡ paid outs + cost
    → less_outputs sum outs ≡ built cost
unfolding less_outputs paid
less_outputs_lem [] sum cost e = ap built (omega (arith, e))
less_outputs_lem ((a, v) ∷ outs) sum cost e =
    rw (sub-built sum v (omega (arith, e)))
      (less_outputs_lem outs (sum - v) cost (omega (arith, e)))

module _ (q : Request) where
  pub paid-outputs_of :
      (a : Option ℕ) (v : ℕ) (change : Option ℕ)
      → paid (outputs_of q a v change) ≡ padding q a + (v + unwrap_or change 0)
  unfolding paid
  paid-outputs_of none v none = omega arith
  paid-outputs_of none v (some s) = omega arith
  paid-outputs_of (some p) v none = omega arith
  paid-outputs_of (some p) v (some s) = omega arith

  find-recipient :
      (p v sum : ℕ) (outs : List (ℕ × ℕ))
      → sum ≡ p
      → 1 ≤ v
      → p + v ≤ u64_max
      → find_output q.recipient p sum ((q.recipient, v) ∷ outs) ≡ built tt
  unfolding find_output
  find-recipient p v sum outs e positive fits =
      rw
        (
          add-built sum v (omega (arith, e, fits)),
          lt→ltb p (sum + v) (omega (arith, e, positive)),
          ==-refl q.recipient,
        )
        refl

  find-second :
      (p v : ℕ) (outs : List (ℕ × ℕ))
      → 1 ≤ v
      → p + v ≤ u64_max
      → find_output q.recipient p 0 ((q.second, p) ∷ (q.recipient, v) ∷ outs) ≡ built tt
  unfolding find_output
  find-second p v outs positive fits =
      rw (add-built 0 p (omega (arith, fits)), ltb-self p)
        (find-recipient p v (0 + p) outs (omega arith) positive fits)
    where
      ltb-self : (n : ℕ) → ltb n (0 + n) ≡ false
      ltb-self n = ground arith

  pub find_output_lem :
      (a : Option ℕ) (v : ℕ) (change : Option ℕ)
      → 1 ≤ v
      → padding q a + v ≤ u64_max
      → find_output q.recipient (padding q a) 0 (outputs_of q a v change) ≡ built tt
  find_output_lem none v none positive fits = find-recipient 0 v 0 [] refl positive fits
  find_output_lem none v (some s) positive fits = find-recipient 0 v 0 _ refl positive fits
  find_output_lem (some p) v none positive fits = find-second p v [] positive fits
  find_output_lem (some p) v (some s) positive fits = find-second p v _ positive fits

module _ (sizes : Sizes) (q : Request) where
  pub check_dust_lem :
      (a : Option ℕ) (v : ℕ) (change : Option ℕ)
      → IsClear sizes q a
      → sizes.dust_value q.recipient ≤ v
      → IsTidy sizes q a change
      → check_dust sizes (outputs_of q a v change) ≡ built tt
  unfolding check_dust
  check_dust_lem none v none clear least tidy =
      rw (le→leb (sizes.dust_value q.recipient) v least) refl
  check_dust_lem none v (some s) clear least tidy =
      rw (le→leb (sizes.dust_value q.recipient) v least, le→leb (sizes.dust_value q.second) s tidy)
        refl
  check_dust_lem (some p) v none clear least tidy =
      rw
        (
          le→leb (sizes.dust_value q.second) p clear.0,
          le→leb (sizes.dust_value q.recipient) v least,
        )
        refl
  check_dust_lem (some p) v (some s) clear least tidy =
      rw
        (
          le→leb (sizes.dust_value q.second) p clear.0,
          le→leb (sizes.dust_value q.recipient) v least,
          le→leb (sizes.dust_value q.first) s tidy,
        )
        refl
