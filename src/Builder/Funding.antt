-- ===== src/Builder/Funding.antt =====
-- `add_value`.
use okx_ord.Common.{
  ℕ, zero, suc, ◌+◌, ◌-◌, ◌≤◌, ◌≡◌, refl, sym, ap, ◌∙◌, List, [], ◌∷◌, ◌++◌, Option, none, some,
  false, leb, ltb, if◌then◌else◌, arith, Bool-cases, inl, inr, length, ltb→lt, leb→le,
}
use okx_ord.Common.Outcome.{u64_max}
use okx_ord.Builder.FeeRate.{fee, fee_mono, fee_add}
use okx_ord.Builder.State.{Sizes, TransactionBuilder, remove_utxo, last, set_last}
use okx_ord.Builder.Steps.{add_loop, add_value, addresses, min_value, additional_input_vbytes}
use okx_ord.Builder.Counts.{length_one_more, length-remove_utxo}
use okx_ord.Builder.Choice.{Taken, select_cardinal_utxo-Safe}
use okx_ord.Builder.Safe.{Ends, Safe, Safe-bind, add-built}
use okx_ord.Builder.Request.{Request, IsWallet, IsRegular}
use okx_ord.Builder.Funds.{
  length-inputs_of, Ledger, Ledger-after, Chosen-state, state, plain_outputs, padding, unused,
  inputs_of,
}
use okx_ord.Builder.Padding.{IsClear, Padded}

module _ (q : Request) where
  pub last-plain_outputs :
      (a : Option ℕ) (v : ℕ) → last (plain_outputs q a v) ≡ some (q.recipient, v)
  unfolding last
  last-plain_outputs none v = refl
  last-plain_outputs (some p) v = refl

  pub set_last-plain_outputs :
      (a : Option ℕ) (v w : ℕ) → set_last w (plain_outputs q a v) ≡ plain_outputs q a w
  unfolding set_last
  set_last-plain_outputs none v w = refl
  set_last-plain_outputs (some p) v w = refl

  pub addresses-plain_outputs :
      (a : Option ℕ) (v w : ℕ) → addresses (plain_outputs q a v) ≡ addresses (plain_outputs q a w)
  addresses-plain_outputs none v w = refl
  addresses-plain_outputs (some p) v w = refl

  two_payees : (a : Option ℕ) (v : ℕ) → length (addresses (plain_outputs q a v)) ≤ 2
  two_payees none v = omega arith
  two_payees (some p) v = omega arith

  append-inputs :
      (c : ℕ) (before after : List ℕ)
      → inputs_of q before after ++ c ∷ [] ≡ inputs_of q before (after ++ c ∷ [])
  append-inputs c [] after = refl
  append-inputs c (b ∷ before) after = ap (λ is. b ∷ is) (append-inputs c before after)

module _ (sizes : Sizes) (q : Request) where
  -- The fee with the two outputs at most, and the least value that pays for it.
  abbrev pub plain_fee : List ℕ → List ℕ → Option ℕ → ℕ → ℕ
  plain_fee before after a v =
      fee sizes.rate
        (sizes.vsize (length (inputs_of q before after)) (addresses (plain_outputs q a v)))

  -- The builder after `add_value`.
  abbrev pub Funded : TransactionBuilder → Type 0
  Funded b =
      (before : List ℕ) × (after : List ℕ) × (a : Option ℕ) × (v : ℕ) × (utxos : List ℕ) × Ledger q
        before after (padding q a) v utxos
      × IsClear sizes q a
      × (min_value sizes q.target q.recipient + plain_fee before after a v ≤ v)
      × (b ≡ state q before after (plain_outputs q a v) (unused q a) utxos)

  module _ (wallet : IsWallet sizes q) (regular : IsRegular sizes q) where
    plain_fee-after :
        (before after : List ℕ) (a : Option ℕ) (v w c : ℕ)
        → length before + length after + 2 ≤ 252
        → plain_fee before (after ++ c ∷ []) a w
          ≤ plain_fee before after a v + fee sizes.rate additional_input_vbytes
    plain_fee-after before after a v w c few =
        let l = length-inputs_of q before after in
        let n = length (inputs_of q before after) in
        let outs = addresses (plain_outputs q a v) in
        let longer : length (inputs_of q before (after ++ c ∷ [])) ≡ suc n =
          ap length (sym (append-inputs q c before after))
          ∙ length_one_more c (inputs_of q before after) in
        let same : plain_fee before (after ++ c ∷ []) a w
            ≡ fee sizes.rate (sizes.vsize (suc n) outs) =
          ap (λ m. fee sizes.rate (sizes.vsize m (addresses (plain_outputs q a w)))) longer
          ∙ ap (λ l. fee sizes.rate (sizes.vsize (suc n) l)) (addresses-plain_outputs q a w v) in
        omega (
          arith,
          same,
          fee_mono sizes.rate regular.whole (sizes.vsize (suc n) outs)
              (sizes.vsize n outs + additional_input_vbytes)
              (regular.more_inputs n outs (omega (arith, l)) (omega (arith, l, few))
                (omega (arith, two_payees q a v))),
          fee_add sizes.rate regular.whole (sizes.vsize n outs) additional_input_vbytes,
        )

    due_after :
        (before after : List ℕ) (a : Option ℕ) (v c value deficit : ℕ)
        → length before + length after + 2 ≤ 252
        → fee sizes.rate additional_input_vbytes ≤ value
        → min_value sizes q.target q.recipient + plain_fee before after a v ≤ v + deficit
        → min_value sizes q.target q.recipient + plain_fee before (after ++ c ∷ []) a (v + value)
          ≤ v
            + value
            + (if ltb deficit (value - fee sizes.rate additional_input_vbytes)
                then 0
                else deficit - (value - fee sizes.rate additional_input_vbytes))
    due_after before after a v c value deficit few pays due =
        let f = plain_fee-after before after a v (v + value) c few in
        elim (Bool-cases (ltb deficit (value - fee sizes.rate additional_input_vbytes))) [
          | inl more ↦ rw more (
              omega (
                arith,
                f,
                due,
                pays,
                ltb→lt deficit (value - fee sizes.rate additional_input_vbytes) more,
              ))
          | inr less ↦ rw less (omega (arith, f, due, pays))
        ]

    add_loop-Safe :
        (fuel deficit : ℕ) (before after : List ℕ) (a : Option ℕ) (v : ℕ) (utxos : List ℕ)
        → length utxos + 1 ≤ fuel
        → Ledger q before after (padding q a) v utxos
        → IsClear sizes q a
        → min_value sizes q.target q.recipient + plain_fee before after a v ≤ v + deficit
        → Safe Funded (
            add_loop sizes fuel deficit
              (state q before after (plain_outputs q a v) (unused q a) utxos))
    unfolding add_loop
    add_loop-Safe zero deficit before after a v utxos enough h clear due =
        absurd (omega (arith, enough))
    add_loop-Safe (suc fuel) zero before after a v utxos enough h clear due =
        (before, after, a, v, utxos, h, clear, omega (arith, due), refl)
    add_loop-Safe (suc fuel) (suc deficit) before after a v utxos enough h clear due =
        elim (Bool-cases (leb (suc deficit + fee sizes.rate additional_input_vbytes) u64_max)) [
          | inr large ↦ rw large tt
          | inl small ↦ rw small (
              Safe-bind (Taken (state q before after (plain_outputs q a v) (unused q a) utxos))
                Funded _ _
                (select_cardinal_utxo-Safe
                  (state q before after (plain_outputs q a v) (unused q a) utxos)
                  (suc deficit + fee sizes.rate additional_input_vbytes) false h.known_utxos)
                (λ r (good, e).
                  let chosen = Chosen-state q before after _ _ utxos r.0 good in
                  let m = Ledger-after q before after (padding q a) v utxos r.0 h chosen in
                  let l = length-remove_utxo r.0.0 utxos in
                  elim (Bool-cases (leb (fee sizes.rate additional_input_vbytes) r.0.1)) [
                    | inr poor ↦ rw poor tt
                    | inl pays ↦
                        rw
                          (
                            e,
                            pays,
                            last-plain_outputs q a v,
                            add-built v r.0.1 (omega (arith, m.budget, wallet.fits)),
                            set_last-plain_outputs q a v (v + r.0.1),
                            append-inputs q r.0.0 before after,
                          )
                          (add_loop-Safe fuel _ before (after ++ r.0.0 ∷ []) a (v + r.0.1)
                            (remove_utxo r.0.0 utxos) (omega (arith, l, chosen.listed, enough)) m
                            clear
                            (due_after before after a v r.0.0 r.0.1 (suc deficit)
                              (omega (arith, m.room, length_one_more r.0.0 after, wallet.few))
                              (leb→le (fee sizes.rate additional_input_vbytes) r.0.1 pays) due))
                  ]))
        ]

    add_value-funds :
        (before : List ℕ) (a : Option ℕ) (v : ℕ) (utxos : List ℕ)
        → Ledger q before [] (padding q a) v utxos
        → IsClear sizes q a
        → Safe Funded (add_value sizes (state q before [] (plain_outputs q a v) (unused q a) utxos))
    unfolding add_value
    add_value-funds before a v utxos h clear =
        let total = min_value sizes q.target q.recipient + plain_fee before [] a v in
        rw (last-plain_outputs q a v) (elim (Bool-cases (leb total u64_max)) [
          | inr large ↦ rw large tt
          | inl fits ↦ rw fits (elim (Bool-cases (leb v total)) [
            | inr over ↦
                rw (Ends, over) (before, [], a, v, utxos, h, clear, ground (arith, over), refl)
            | inl under ↦
                rw (Ends, under)
                  (add_loop-Safe (suc (length utxos)) (total - v) before [] a v utxos (omega arith)
                    h clear (omega (arith, leb→le v total under)))
          ])
        ])

    pub add_value-Safe :
        (b : TransactionBuilder) → Padded sizes q b → Safe Funded (add_value sizes b)
    add_value-Safe b (before, a, v, utxos, h, clear, e) =
        rw e (add_value-funds before a v utxos h clear)
