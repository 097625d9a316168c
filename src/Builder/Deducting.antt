-- ===== src/Builder/Deducting.antt =====
-- `deduct_fee`.
use okx_ord.Common.{
  ℕ, ◌+◌, ◌-◌, ◌≤◌, ◌≡◌, refl, ap, List, Option, none, some, arith, inl, inr, ◌⊎◌, length, le→leb,
  lt→ltb, unwrap_or,
}
use okx_ord.Builder.FeeRate.{fee}
use okx_ord.Builder.State.{Sizes, Target, TransactionBuilder, last, set_last}
use okx_ord.Builder.Steps.{deduct_fee, strip_limits, addresses, min_value, additional_output_vbytes}
use okx_ord.Builder.Safe.{Sure, sub-built}
use okx_ord.Builder.Request.{Request, IsWallet, IsRegular, IsChecked}
use okx_ord.Builder.Funds.{
  Ledger, state, plain_outputs, stripped_outputs, outputs_of, unused_of, padding, unused,
  unused_after, change_address, inputs_of, same_worth,
}
use okx_ord.Builder.Padding.{IsClear}
use okx_ord.Builder.Funding.{
  plain_fee, last-plain_outputs, set_last-plain_outputs, addresses-plain_outputs,
}
use okx_ord.Builder.Outputs.{sum-plain_outputs, sum-stripped_outputs}
use okx_ord.Builder.Stripping.{Stripped, IsSettled, fee_of, strip_limits-le}
use okx_ord.Builder.Offset.{calculate_sat_offset_lem}

module _ (q : Request) where
  last-stripped_outputs :
      (a : Option ℕ) (v s : ℕ) → last (stripped_outputs q a v s) ≡ some (change_address q a, s)
  unfolding last
  last-stripped_outputs none v s = refl
  last-stripped_outputs (some p) v s = refl

  set_last-stripped_outputs :
      (a : Option ℕ) (v s w : ℕ) → set_last w (stripped_outputs q a v s) ≡ stripped_outputs q a v w
  unfolding set_last
  set_last-stripped_outputs none v s w = refl
  set_last-stripped_outputs (some p) v s w = refl

  addresses-stripped_outputs :
      (a : Option ℕ) (v s w : ℕ)
      → addresses (stripped_outputs q a v s) ≡ addresses (stripped_outputs q a v w)
  addresses-stripped_outputs none v s w = refl
  addresses-stripped_outputs (some p) v s w = refl

module _ (sizes : Sizes) (q : Request) where
  -- The recipient's value is not much larger than the target asks for.
  abbrev pub IsWithin : Option ℕ → ℕ → Type 0
  IsWithin a v =
      (v ≤ (strip_limits q.target).0)
      ⊎ (v
          ≤ (strip_limits q.target).1
            + sizes.dust_value (change_address q a)
            + fee sizes.rate additional_output_vbytes)

  -- A change output that is no dust.
  abbrev pub IsTidy : Option ℕ → Option ℕ → Type 0
  IsTidy a none = Unit
  IsTidy a (some s) = sizes.dust_value (change_address q a) ≤ s

  -- The inputs and outputs of a transaction that pays its fee.
  pub record IsPaid (before after : List ℕ) (a : Option ℕ) (v : ℕ) (change : Option ℕ)
      (utxos : List ℕ) : Type 0 where
    pub ledger :
        Ledger q before after
          (padding q a)
          (v + unwrap_or change 0 + fee_of sizes q before after a v change)
          utxos
    pub clear : IsClear sizes q a
    pub tidy : IsTidy a change
    pub least : min_value sizes q.target q.recipient ≤ v
    pub within : IsWithin a v

  -- The builder after `deduct_fee`.
  abbrev pub Deducted : TransactionBuilder → Type 0
  Deducted b =
      (before : List ℕ) × (after : List ℕ) × (a : Option ℕ) × (v : ℕ) × (change : Option ℕ)
      × (utxos : List ℕ) × IsPaid before after a v change utxos
      × (b ≡ state q before after (outputs_of q a v change) (unused_of q a change) utxos)

  module _ (wallet : IsWallet sizes q) (regular : IsRegular sizes q)
      (checked : IsChecked sizes q) where
    min_value-le : min_value sizes q.target q.recipient ≤ (strip_limits q.target).1
    min_value-le = go q.target
      where
        go : (t : Target) → min_value sizes t q.recipient ≤ (strip_limits t).1
        go Target.postage = regular.dust_small q.recipient
        go (Target.value v) = omega arith
        go (Target.exact_postage v) = omega arith

    deduct-plain :
        (before after : List ℕ) (a : Option ℕ) (v : ℕ) (utxos : List ℕ)
        → Ledger q before after (padding q a) (v + 0) utxos
        → IsClear sizes q a
        → IsSettled sizes q before after a v none
        → Sure Deducted
            (deduct_fee sizes (state q before after (plain_outputs q a v) (unused q a) utxos))
    unfolding deduct_fee
    deduct-plain before after a v utxos h clear (paid, within) =
        let p = padding q a in
        let cost = plain_fee sizes q before after a v in
        let positive = regular.dust_positive q.recipient in
        let more = checked.no_dust in
        let same : fee_of sizes q before after a (v - cost) none ≡ cost =
          ap (λ l. fee sizes.rate (sizes.vsize (length (inputs_of q before after)) l))
            (addresses-plain_outputs q a (v - cost) v) in
        rw
          (
            calculate_sat_offset_lem sizes q before after p (v + 0) utxos (plain_outputs q a v)
                (unused q a) wallet h,
            sum-plain_outputs q a v (omega (arith, h.budget, wallet.fits)),
            last-plain_outputs q a v,
            sub-built (p + v) cost (omega (arith, paid)),
            lt→ltb p (p + v - cost) (omega (arith, paid, positive, more)),
            le→leb cost v (omega (arith, paid)),
            set_last-plain_outputs q a v (v - cost),
          )
          (
            before,
            after,
            a,
            v - cost,
            none,
            utxos,
            (record {
              ledger =
                  same_worth q before after p (v + 0)
                    (v - cost + 0 + fee_of sizes q before after a (v - cost) none) utxos
                    (omega (arith, same, paid)) h;
              clear = clear;
              tidy = tt;
              least = omega (arith, paid);
              within = elim within [
                | inl l ↦ inl (omega (arith, l))
                | inr l ↦ inr (omega (arith, l))
              ];
            }),
            refl,
          )

    deduct-stripped :
        (before after : List ℕ) (a : Option ℕ) (v s : ℕ) (utxos : List ℕ)
        → Ledger q before after (padding q a) (v + s) utxos
        → IsClear sizes q a
        → IsSettled sizes q before after a v (some s)
        → Sure Deducted (
            deduct_fee sizes
              (state q before after (stripped_outputs q a v s) (unused_after q a) utxos))
    unfolding deduct_fee
    deduct-stripped before after a v s utxos h clear (stripped, paid) =
        let p = padding q a in
        let cost = fee_of sizes q before after a v (some s) in
        let positive = regular.dust_positive (change_address q a) in
        let same : fee_of sizes q before after a v (some (s - cost)) ≡ cost =
          ap (λ l. fee sizes.rate (sizes.vsize (length (inputs_of q before after)) l))
            (addresses-stripped_outputs q a v (s - cost) s) in
        rw
          (
            calculate_sat_offset_lem sizes q before after p (v + s) utxos (stripped_outputs q a v s)
                (unused_after q a) wallet h,
            sum-stripped_outputs q a v s (omega (arith, h.budget, wallet.fits)),
            last-stripped_outputs q a v s,
            sub-built (p + v + s) cost (omega (arith, paid)),
            lt→ltb p (p + v + s - cost) (omega (arith, paid, positive)),
            le→leb cost s (omega (arith, paid)),
            set_last-stripped_outputs q a v s (s - cost),
          )
          (
            before,
            after,
            a,
            v,
            some (s - cost),
            utxos,
            (record {
              ledger =
                  same_worth q before after p (v + s)
                    (v + (s - cost) + fee_of sizes q before after a v (some (s - cost))) utxos
                    (omega (arith, same, paid)) h;
              clear = clear;
              tidy = omega (arith, paid);
              least = omega (arith, stripped, min_value-le);
              within = inl (omega (arith, stripped, strip_limits-le q.target));
            }),
            refl,
          )

    pub deduct_fee-Sure :
        (b : TransactionBuilder) → Stripped sizes q b → Sure Deducted (deduct_fee sizes b)
    deduct_fee-Sure b (before, after, a, v, none, utxos, h, clear, settled, e) =
        rw e (deduct-plain before after a v utxos h clear settled)
    deduct_fee-Sure b (before, after, a, v, some s, utxos, h, clear, settled, e) =
        rw e (deduct-stripped before after a v s utxos h clear settled)
