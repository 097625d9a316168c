-- ===== src/Builder/Outputs.antt =====
-- The builder's outputs: their sum, and what its steps find and change in them.
use okx_ord.Common.{
  ℕ, ◌+◌, ◌≤◌, ◌≡◌, refl, ap, [], ◌∷◌, ◌++◌, Option, none, some, true, ◌==◌, arith, Bool-cases, inl,
  inr,
}
use okx_ord.Common.Outcome.{u64_max}
use okx_ord.Builder.State.{built, contains, last, set_last, without_last}
use okx_ord.Builder.Steps.{sum_outputs, addresses}
use okx_ord.Builder.Counts.{==-refl}
use okx_ord.Builder.Safe.{add-built}
use okx_ord.Builder.Request.{Request}
use okx_ord.Builder.Funds.{
  plain_outputs, stripped_outputs, padding, unused, unused_after, change_address,
}

module _ (q : Request) where
  pub sum-plain_outputs :
      (a : Option ℕ) (v : ℕ)
      → padding q a + v ≤ u64_max
      → sum_outputs 0 (plain_outputs q a v) ≡ built (padding q a + v)
  unfolding sum_outputs
  sum-plain_outputs none v fits = rw (add-built 0 v fits) refl
  sum-plain_outputs (some p) v fits =
      rw (add-built 0 p (omega (arith, fits)), add-built (0 + p) v (omega (arith, fits)))
        (ap built (omega arith))

  pub sum-stripped_outputs :
      (a : Option ℕ) (v s : ℕ)
      → padding q a + v + s ≤ u64_max
      → sum_outputs 0 (stripped_outputs q a v s) ≡ built (padding q a + v + s)
  unfolding sum_outputs
  sum-stripped_outputs none v s fits =
      rw (add-built 0 v (omega (arith, fits)), add-built (0 + v) s (omega (arith, fits)))
        (ap built (omega arith))
  sum-stripped_outputs (some p) v s fits =
      rw
        (
          add-built 0 p (omega (arith, fits)),
          add-built (0 + p) v (omega (arith, fits)),
          add-built (0 + p + v) s (omega (arith, fits)),
        )
        (ap built (omega arith))

  pub contains-plain_outputs :
      (a : Option ℕ) (v : ℕ) → contains q.recipient (addresses (plain_outputs q a v)) ≡ true
  unfolding contains
  contains-plain_outputs none v = rw (==-refl q.recipient) refl
  contains-plain_outputs (some p) v =
      rw (==-refl q.recipient) (elim (Bool-cases (q.recipient == q.second)) [
        | inl same ↦ rw same refl
        | inr other ↦ rw other refl
      ])

  pub last-unused : (a : Option ℕ) → last (unused q a) ≡ some (change_address q a)
  unfolding last
  last-unused none = refl
  last-unused (some p) = refl

  pub without_last-unused : (a : Option ℕ) → without_last (unused q a) ≡ unused_after q a
  unfolding without_last
  without_last-unused none = refl
  without_last-unused (some p) = refl

  pub set_last-stripped_outputs :
      (a : Option ℕ) (v w s : ℕ)
      → set_last w (plain_outputs q a v) ++ (change_address q a, s) ∷ [] ≡ stripped_outputs q a w s
  unfolding set_last
  set_last-stripped_outputs none v w s = refl
  set_last-stripped_outputs (some p) v w s = refl
