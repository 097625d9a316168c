-- ===== src/Builder/Padding.antt =====
-- `pad_alignment_output`.
use okx_ord.Common.{
  ℕ, zero, suc, ◌+◌, ◌-◌, ◌≤◌, ◌≡◌, refl, List, [], ◌∷◌, Option, none, some, true, leb, arith, All,
  Bool-cases, inl, inr, length,
}
use okx_ord.Builder.State.{Sizes, TransactionBuilder, remove_utxo, last}
use okx_ord.Builder.Steps.{pad_loop, pad_alignment_output}
use okx_ord.Builder.Counts.{==-refl, ==-false-sym, length-remove_utxo}
use okx_ord.Builder.Choice.{Taken, select_cardinal_utxo-Safe}
use okx_ord.Builder.Safe.{Safe, Safe-bind, add-built}
use okx_ord.Builder.Request.{Request, IsWallet, IsRegular, IsChecked}
use okx_ord.Builder.Funds.{
  Ledger, Ledger-before, Chosen-state, state, aligned, plain_outputs, padding, unused,
}
use okx_ord.Builder.Outgoing.{Aligned}

-- An alignment output that is no dust.
abbrev pub IsClear : Sizes → Request → Option ℕ → Type 0
IsClear sizes q a = All (λ (o : ℕ × ℕ). sizes.dust_value o.0 ≤ o.1) (aligned q a)

-- The builder after `pad_alignment_output`.
abbrev pub Padded : Sizes → Request → TransactionBuilder → Type 0
Padded sizes q b =
    (before : List ℕ) × (a : Option ℕ) × (v : ℕ) × (utxos : List ℕ) × Ledger q before []
      (padding q a) v utxos
    × IsClear sizes q a
    × (b ≡ state q before [] (plain_outputs q a v) (unused q a) utxos)

module _ (sizes : Sizes) (q : Request) (wallet : IsWallet sizes q) (regular : IsRegular sizes q)
    (checked : IsChecked sizes q) where
  pad_loop-Safe :
      (fuel : ℕ) (before : List ℕ) (p v : ℕ) (utxos : List ℕ)
      → length utxos + 1 ≤ fuel
      → Ledger q before [] p v utxos
      → Safe (Padded sizes q) (
          pad_loop sizes fuel
            (sizes.dust_value q.first)
            (state q before [] (plain_outputs q (some p) v) (q.first ∷ []) utxos))
  unfolding pad_loop
  pad_loop-Safe zero before p v utxos enough h = absurd (omega (arith, enough))
  pad_loop-Safe (suc fuel) before p v utxos enough h =
      elim (Bool-cases (leb (sizes.dust_value q.first) p)) [
        | inl full ↦ rw full (
          before,
          some p,
          v,
          utxos,
          h,
          ((let d = regular.dust_same in ground (arith, d, full)), tt),
          refl,
        )
        | inr short ↦ rw short (
            Safe-bind (Taken (state q before [] (plain_outputs q (some p) v) (q.first ∷ []) utxos))
              (Padded sizes q) _ _
              (select_cardinal_utxo-Safe
                (state q before [] (plain_outputs q (some p) v) (q.first ∷ []) utxos)
                (sizes.dust_value q.first - p) true h.known_utxos)
              (λ r (good, e).
                let good = Chosen-state q before [] _ _ utxos r.0 good in
                let l = length-remove_utxo r.0.0 utxos in
                rw
                  (
                    e,
                    add-built p r.0.1 (
                        let m = Ledger-before q before [] p v utxos r.0 h good in
                        omega (arith, m.budget, wallet.fits)),
                  )
                  (pad_loop-Safe fuel (r.0.0 ∷ before) (p + r.0.1) v (remove_utxo r.0.0 utxos)
                    (omega (arith, l, good.listed, enough))
                    (Ledger-before q before [] p v utxos r.0 h good))))
      ]

  pub pad_alignment_output-Safe :
      (b : TransactionBuilder) → Aligned q b → Safe (Padded sizes q) (pad_alignment_output sizes b)
  unfolding pad_alignment_output last
  pad_alignment_output-Safe b (none, v, utxos, h, e) =
      rw (e, ==-refl q.recipient) ([], none, v, utxos, h, tt, refl)
  pad_alignment_output-Safe b (some p, v, utxos, h, e) =
      rw (e, ==-false-sym q.recipient q.second checked.not_second)
        (pad_loop-Safe (suc (length utxos)) [] p v utxos (omega arith) h)
