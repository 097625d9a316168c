-- ===== src/Builder/Slop.antt =====
-- The assertions of `build` on each output: its address, its offset, and the recipient's value.
use okx_ord.Common.{
  ℕ, ◌+◌, ◌-◌, ◌≤◌, ◌≡◌, refl, List, [], ◌∷◌, Option, none, some, true, false, ◌==◌, arith, inl,
  inr, ◌⊎◌, le→leb, unwrap_or,
}
use okx_ord.Common.Outcome.{u64_max}
use okx_ord.Builder.FeeRate.{fee}
use okx_ord.Builder.State.{Sizes, Target, TransactionBuilder, built, contains, set_of_two}
use okx_ord.Builder.Steps.{
  strip_limits, min_value, additional_output_vbytes, max_postage, target_postage,
}
use okx_ord.Builder.Build.{greatest_dust, check_slop, check_outputs}
use okx_ord.Builder.Counts.{==-refl, ==-false-sym}
use okx_ord.Builder.Safe.{add-built, sub-built}
use okx_ord.Builder.Request.{Request, IsWallet, IsRegular, IsChecked}
use okx_ord.Builder.Funds.{outputs_of, padding, change_address}
use okx_ord.Builder.Deducting.{IsWithin}
use okx_ord.Builder.Addresses.{contains-first, contains-second}

-- Not the exact postage: its assertion does not hold of all that the steps make.
abbrev pub IsInexact : Target → Type 0
IsInexact Target.postage = Unit
IsInexact (Target.value v) = Unit
IsInexact (Target.exact_postage v) = ⊥

module _ (sizes : Sizes) (q : Request) (wallet : IsWallet sizes q)
    (regular : IsRegular sizes q) where
  greatest-set_of_two :
      (a b : ℕ)
      → (sizes.dust_value a ≤ greatest_dust sizes (set_of_two a b))
        × (greatest_dust sizes (set_of_two a b) ≤ target_postage)
  greatest-set_of_two a b =
      let da = regular.dust_small a in let db = regular.dust_small b in ground (arith, da, db)

  dust-le-greatest :
      (a : Option ℕ)
      → sizes.dust_value (change_address q a) ≤ greatest_dust sizes (set_of_two q.first q.second)
  dust-le-greatest none =
      let g = greatest-set_of_two q.first q.second in
      let s = regular.dust_same in omega (arith, g.0, s)
  dust-le-greatest (some p) = (greatest-set_of_two q.first q.second).0

  pub check_slop_lem :
      (b : TransactionBuilder) (a : Option ℕ) (v : ℕ)
      → b.target ≡ q.target
      → b.change_addresses ≡ set_of_two q.first q.second
      → IsInexact q.target
      → min_value sizes q.target q.recipient ≤ v
      → IsWithin sizes q a v
      → check_slop sizes b v ≡ built tt
  unfolding check_slop
  check_slop_lem b a v et ec inexact least within = go q.target et inexact least within
    where
      small : greatest_dust sizes (set_of_two q.first q.second) ≤ target_postage
      small = (greatest-set_of_two q.first q.second).1

      go :
          (t : Target)
          → b.target ≡ t
          → IsInexact t
          → min_value sizes t q.recipient ≤ v
          → (v ≤ (strip_limits t).0)
            ⊎ (v
                ≤ (strip_limits t).1
                  + sizes.dust_value (change_address q a)
                  + fee sizes.rate additional_output_vbytes)
          → check_slop sizes b v ≡ built tt
      go Target.postage e i l w =
          let limit : v ≤ max_postage + fee sizes.rate additional_output_vbytes = elim w [
            | inl x ↦ omega (arith, x)
            | inr x ↦ omega (arith, x, regular.dust_small (change_address q a))
          ] in
          rw
            (
              e,
              add-built max_postage (fee sizes.rate additional_output_vbytes)
                  (omega (arith, wallet.fits)),
              le→leb v (max_postage + fee sizes.rate additional_output_vbytes) limit,
            )
            refl
      go (Target.value target) e i l w =
          let gd = greatest_dust sizes (set_of_two q.first q.second) in
          let limit : v - target ≤ gd + fee sizes.rate additional_output_vbytes = elim w [
            | inl x ↦ omega (arith, x)
            | inr x ↦ omega (arith, x, dust-le-greatest a)
          ] in
          rw
            (
              e,
              ec,
              sub-built v target l,
              add-built gd (fee sizes.rate additional_output_vbytes)
                  (omega (arith, small, wallet.fits)),
              le→leb (v - target) (gd + fee sizes.rate additional_output_vbytes) limit,
            )
            refl
      go (Target.exact_postage v) e i l w = absurd i

  module _ (b : TransactionBuilder) (p : ℕ) where
    pay_recipient :
        (v offset : ℕ) (outs : List (ℕ × ℕ))
        → b.recipient ≡ q.recipient
        → check_slop sizes b v ≡ built tt
        → offset ≡ p
        → offset + v ≤ u64_max
        → check_outputs sizes b p (offset + v) outs ≡ built tt
        → check_outputs sizes b p offset ((q.recipient, v) ∷ outs) ≡ built tt
    unfolding check_outputs
    pay_recipient v offset outs er slop eo fits rest =
        rw (er, ==-refl q.recipient, slop, eo, ==-refl p)
          (let r = rw eo at rest in let f = rw eo at fits in rw (add-built p v f, r) refl)

    pay_change :
        (a s offset : ℕ) (outs : List (ℕ × ℕ))
        → b.recipient ≡ q.recipient
        → b.change_addresses ≡ set_of_two q.first q.second
        → (q.recipient == a) ≡ false
        → contains a (set_of_two q.first q.second) ≡ true
        → offset + s ≤ u64_max
        → check_outputs sizes b p (offset + s) outs ≡ built tt
        → check_outputs sizes b p offset ((a, s) ∷ outs) ≡ built tt
    unfolding check_outputs
    pay_change a s offset outs er ec other listed fits rest =
        rw (er, ==-false-sym q.recipient a other, ec, listed, add-built offset s fits, rest) refl

  module _ (checked : IsChecked sizes q) (b : TransactionBuilder) where
    -- The outputs in the order of the builder: each passes, from the offset that the ones before add up to.
    pub check_outputs_lem :
        (a : Option ℕ) (v : ℕ) (change : Option ℕ)
        → b.recipient ≡ q.recipient
        → b.change_addresses ≡ set_of_two q.first q.second
        → check_slop sizes b v ≡ built tt
        → padding q a + (v + unwrap_or change 0) ≤ u64_max
        → check_outputs sizes b (padding q a) 0 (outputs_of q a v change) ≡ built tt
    unfolding check_outputs
    check_outputs_lem none v none er ec slop fits =
        pay_recipient b 0 v 0 [] er slop refl (omega (arith, fits)) refl
    check_outputs_lem none v (some s) er ec slop fits =
        pay_recipient b 0 v 0 ((q.second, s) ∷ []) er slop refl (omega (arith, fits)) (
          pay_change b 0 q.second s (0 + v) [] er ec checked.not_second
            (contains-second sizes q checked) (omega (arith, fits)) refl)
    check_outputs_lem (some p) v none er ec slop fits =
        pay_change b p q.second p 0 ((q.recipient, v) ∷ []) er ec checked.not_second
          (contains-second sizes q checked) (omega (arith, fits))
          (pay_recipient b p v (0 + p) [] er slop (omega arith) (omega (arith, fits)) refl)
    check_outputs_lem (some p) v (some s) er ec slop fits =
        pay_change b p q.second p 0 ((q.recipient, v) ∷ (q.first, s) ∷ []) er ec checked.not_second
          (contains-second sizes q checked) (omega (arith, fits))
          (pay_recipient b p v (0 + p) ((q.first, s) ∷ []) er slop (omega arith)
            (omega (arith, fits))
            (pay_change b p q.first s (0 + p + v) [] er ec checked.not_first
              (contains-first sizes q checked) (omega (arith, fits)) refl))
