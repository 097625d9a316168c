-- ===== src/Builder/Stripping.antt =====
-- `strip_value`.
use okx_ord.Common.{
  ℕ, ◌+◌, ◌-◌, ◌≤◌, ◌<◌, ◌≡◌, refl, List, [], ◌∷◌, Option, none, some, false, leb, ltb, arith,
  Bool-cases, inl, inr, ◌⊎◌, length, ltb→lt, unwrap_or,
}
use okx_ord.Builder.FeeRate.{fee, fee_mono, fee_add}
use okx_ord.Builder.State.{Sizes, Target, TransactionBuilder}
use okx_ord.Builder.Steps.{
  strip_value, strip_to, strip_limits, addresses, min_value, additional_output_vbytes,
}
use okx_ord.Builder.Safe.{Ends, Sure, add-built, sub-built}
use okx_ord.Builder.Request.{Request, IsWallet, IsRegular}
use okx_ord.Builder.Funds.{
  Ledger, state, plain_outputs, outputs_of, unused_of, padding, unused, change_address, inputs_of,
  same_worth, length-inputs_of,
}
use okx_ord.Builder.Padding.{IsClear}
use okx_ord.Builder.Funding.{Funded, plain_fee}
use okx_ord.Builder.Offset.{calculate_sat_offset_lem}
use okx_ord.Builder.Outputs.{
  sum-plain_outputs, contains-plain_outputs, last-unused, without_last-unused,
  set_last-stripped_outputs,
}

not_lt : (a b : ℕ) → ltb a b ≡ false → b ≤ a
not_lt a b h = ground arith

not_le : (a b : ℕ) → leb a b ≡ false → b < a
not_le a b h = ground arith

-- What is stripped to is no more than what is not stripped.
pub strip_limits-le : (t : Target) → (strip_limits t).1 ≤ (strip_limits t).0
strip_limits-le Target.postage = omega arith
strip_limits-le (Target.value v) = omega arith
strip_limits-le (Target.exact_postage v) = omega arith

module _ (sizes : Sizes) (q : Request) where
  abbrev pub fee_of : List ℕ → List ℕ → Option ℕ → ℕ → Option ℕ → ℕ
  fee_of before after a v change =
      fee sizes.rate
        (sizes.vsize (length (inputs_of q before after)) (addresses (outputs_of q a v change)))

  -- Without a change output the value pays the fee and is not much larger than the target asks for; a
  -- change output pays the fee and is no dust after it.
  abbrev pub IsSettled : List ℕ → List ℕ → Option ℕ → ℕ → Option ℕ → Type 0
  IsSettled before after a v none =
      (min_value sizes q.target q.recipient + plain_fee sizes q before after a v ≤ v)
      × ((v ≤ (strip_limits q.target).0 + plain_fee sizes q before after a v)
          ⊎ (v
              ≤ (strip_limits q.target).1
                + sizes.dust_value (change_address q a)
                + plain_fee sizes q before after a v
                + fee sizes.rate additional_output_vbytes))
  IsSettled before after a v (some s) =
      (v ≡ (strip_limits q.target).1)
      × (sizes.dust_value (change_address q a) + fee_of before after a v (some s) ≤ s)

  -- The builder after `strip_value`.
  abbrev pub Stripped : TransactionBuilder → Type 0
  Stripped b =
      (before : List ℕ) × (after : List ℕ) × (a : Option ℕ) × (v : ℕ) × (change : Option ℕ)
      × (utxos : List ℕ) × Ledger q before after (padding q a) (v + unwrap_or change 0) utxos
      × IsClear sizes q a
      × IsSettled before after a v change
      × (b ≡ state q before after (outputs_of q a v change) (unused_of q a change) utxos)

  module _ (wallet : IsWallet sizes q) (regular : IsRegular sizes q) where
    one_more_output :
        (before after : List ℕ) (a : Option ℕ) (v w s : ℕ)
        → length before + length after + 1 ≤ 252
        → fee_of before after a w (some s)
          ≤ fee sizes.rate (
              sizes.vsize (length (inputs_of q before after)) (addresses (plain_outputs q a v))
              + additional_output_vbytes)
    one_more_output before after none v w s few =
        let n = length (inputs_of q before after) in
        let size = length-inputs_of q before after in
        fee_mono sizes.rate regular.whole _ _ (
          regular.second_output n (q.recipient ∷ []) (omega (arith, size))
            (omega (arith, size, few)) (omega arith))
    one_more_output before after (some p) v w s few =
        let n = length (inputs_of q before after) in
        let size = length-inputs_of q before after in
        fee_mono sizes.rate regular.whole _ _ (
          regular.first_output n (q.second ∷ q.recipient ∷ []) (omega (arith, size))
            (omega (arith, size, few)) (omega arith))

    strip_to-Sure :
        (before after : List ℕ) (a : Option ℕ) (v : ℕ) (utxos : List ℕ)
        → Ledger q before after (padding q a) v utxos
        → IsClear sizes q a
        → min_value sizes q.target q.recipient + plain_fee sizes q before after a v ≤ v
        → (strip_limits q.target).1 ≤ v
        → Sure Stripped (
            strip_to sizes
              (strip_limits q.target).1
              v
              (state q before after (plain_outputs q a v) (unused q a) utxos))
    unfolding strip_to
    strip_to-Sure before after a v utxos h clear paid enough =
        let target = (strip_limits q.target).1 in
        let dust = sizes.dust_value (change_address q a) in
        let vbytes =
          sizes.vsize (length (inputs_of q before after)) (addresses (plain_outputs q a v)) in
        let limit = dust + fee sizes.rate (vbytes + additional_output_vbytes) in
        let sum = fee_add sizes.rate regular.whole vbytes additional_output_vbytes in
        let small = regular.dust_small (change_address q a) in
        rw
          (
            last-unused q a,
            sub-built v target enough,
            add-built dust (fee sizes.rate (vbytes + additional_output_vbytes))
                (omega (arith, sum, small, paid, h.budget, wallet.fits)),
          )
          (elim (Bool-cases (ltb limit (v - target))) [
            | inr little ↦
                rw (Ends, little)
                  (
                    before,
                    after,
                    a,
                    v,
                    none,
                    utxos,
                    same_worth q before after (padding q a) v (v + 0) utxos (omega arith) h,
                    clear,
                    (paid, inr (omega (arith, sum, not_lt limit (v - target) little))),
                    refl,
                  )
            | inl much ↦
                rw
                  (
                    much,
                    set_last-stripped_outputs q a v target (v - target),
                    without_last-unused q a,
                  )
                  (
                    before,
                    after,
                    a,
                    target,
                    some (v - target),
                    utxos,
                    same_worth q before after (padding q a) v (target + (v - target)) utxos
                        (omega (arith, enough)) h,
                    clear,
                    (
                      refl,
                      omega (
                        arith,
                        one_more_output before after a v target (v - target),
                        ltb→lt limit (v - target) much,
                      ),
                    ),
                    refl,
                  )
          ])

    strip_value-settles :
        (before after : List ℕ) (a : Option ℕ) (v : ℕ) (utxos : List ℕ)
        → Ledger q before after (padding q a) v utxos
        → IsClear sizes q a
        → min_value sizes q.target q.recipient + plain_fee sizes q before after a v ≤ v
        → Sure Stripped
            (strip_value sizes (state q before after (plain_outputs q a v) (unused q a) utxos))
    unfolding strip_value
    strip_value-settles before after a v utxos h clear paid =
        let p = padding q a in
        let cost = plain_fee sizes q before after a v in
        let value : p + v - p ≡ v = omega arith in
        rw
          (
            calculate_sat_offset_lem sizes q before after p v utxos (plain_outputs q a v)
                (unused q a) wallet h,
            sum-plain_outputs q a v (omega (arith, h.budget, wallet.fits)),
            contains-plain_outputs q a v,
            sub-built (p + v) p (omega arith),
            value,
          )
          (elim (Bool-cases (leb cost v)) [
            | inr under ↦ absurd (let u = not_le cost v under in omega (arith, u, paid))
            | inl over ↦
                rw (Ends, over)
                  (elim (Bool-cases (ltb (strip_limits q.target).0 (v - cost))) [
                    | inr little ↦
                        rw (Ends, little)
                          (
                            before,
                            after,
                            a,
                            v,
                            none,
                            utxos,
                            same_worth q before after p v (v + 0) utxos (omega arith) h,
                            clear,
                            (
                              paid,
                              inl (
                                  omega
                                    (arith, not_lt (strip_limits q.target).0 (v - cost) little)),
                            ),
                            refl,
                          )
                    | inl much ↦
                        rw (Ends, much)
                          (strip_to-Sure before after a v utxos h clear paid (
                            omega (
                              arith,
                              strip_limits-le q.target,
                              ltb→lt (strip_limits q.target).0 (v - cost) much,
                            )))
                  ])
          ])

    pub strip_value-Sure :
        (b : TransactionBuilder) → Funded sizes q b → Sure Stripped (strip_value sizes b)
    strip_value-Sure b (before, after, a, v, utxos, h, clear, paid, e) =
        rw e (strip_value-settles before after a v utxos h clear paid)
