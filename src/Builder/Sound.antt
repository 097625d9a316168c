-- ===== src/Builder/Sound.antt =====
-- `prepare` and `build`: no assertion fails.
use okx_ord.Common.{
  ℕ, ◌+◌, ◌≤◌, ◌≡◌, refl, List, [], ◌∷◌, Option, ◌==◌, if◌then◌else◌, arith, All, length, unwrap_or,
}
use okx_ord.Common.Outcome.{u64_max}
use okx_ord.Builder.FeeRate.{fee}
use okx_ord.Builder.State.{Sizes, Transaction, TransactionBuilder, built, ◌>>=◌}
use okx_ord.Builder.Steps.{addresses, min_value}
use okx_ord.Builder.Build.{count, count_amounts, sum_inputs, less_outputs, build, prepare}
use okx_ord.Builder.Counts.{worth, value_of, value_of-some, worth-append, count-append, ==-refl}
use okx_ord.Builder.Choice.{IsCardinal, Known}
use okx_ord.Builder.Safe.{Safe, Sure, Safe-bind, Sure-Safe}
use okx_ord.Builder.Request.{Request, IsWallet, IsRegular, IsChecked, order}
use okx_ord.Builder.Funds.{state, outputs_of, unused_of, padding, inputs_of}
use okx_ord.Builder.Offset.{calculate_sat_offset_lem}
use okx_ord.Builder.Outgoing.{Selected, Aligned, select_outgoing-Safe, align_outgoing-Safe}
use okx_ord.Builder.Padding.{IsClear, Padded, pad_alignment_output-Safe}
use okx_ord.Builder.Funding.{Funded, add_value-Safe}
use okx_ord.Builder.Stripping.{Stripped, strip_value-Sure, fee_of}
use okx_ord.Builder.Deducting.{IsWithin, IsTidy, IsPaid, Deducted, deduct_fee-Sure}
use okx_ord.Builder.Addresses.{count-recipient, change_once}
use okx_ord.Builder.Checks.{
  count_amounts-once, sum_inputs_lem, less_outputs_lem, paid, paid-outputs_of, find_output_lem,
  check_dust_lem,
}
use okx_ord.Builder.Slop.{IsInexact, check_slop_lem, check_outputs_lem}

module _ (sizes : Sizes) (q : Request) where
  -- A transaction as it should be.
  pub record IsSent (t : Transaction) : Type 0 where
    pub before : List ℕ
    pub after : List ℕ
    pub alignment : Option ℕ
    pub value : ℕ
    pub change : Option ℕ
    pub inputs : t.input ≡ inputs_of q before after
    pub outputs : t.output ≡ outputs_of q alignment value change
    pub cardinal_before : All (IsCardinal (order q)) before
    pub cardinal_after : All (IsCardinal (order q)) after
    pub once : (u : ℕ) → count u t.input ≤ 1
    pub place : worth q.amounts before + q.outgoing.offset ≡ padding q alignment
    pub balance :
        worth q.amounts t.input
        ≡ paid t.output + fee sizes.rate (sizes.vsize (length t.input) (addresses t.output))
    pub clear : IsClear sizes q alignment
    pub tidy : IsTidy sizes q alignment change
    pub least : min_value sizes q.target q.recipient ≤ value
    pub within : IsWithin sizes q alignment value

  module _ (wallet : IsWallet sizes q) (regular : IsRegular sizes q) where
    prepare-Safe : IsChecked sizes q → Safe (Deducted sizes q) (prepare sizes (order q))
    unfolding prepare
    prepare-Safe checked =
        Safe-bind (Selected q) (Deducted sizes q) _ _ (select_outgoing-Safe sizes q wallet regular)
          (λ b h.
            Safe-bind (Aligned q) (Deducted sizes q) _ _
              (align_outgoing-Safe sizes q wallet regular b h)
              (λ b h.
                Safe-bind (Padded sizes q) (Deducted sizes q) _ _
                  (pad_alignment_output-Safe sizes q wallet regular checked b h)
                  (λ b h.
                    Safe-bind (Funded sizes q) (Deducted sizes q) _ _
                      (add_value-Safe sizes q wallet regular b h)
                      (λ b h.
                        Safe-bind (Stripped sizes q) (Deducted sizes q) _ _
                          (Sure-Safe (Stripped sizes q) _
                            (strip_value-Sure sizes q wallet regular b h))
                          (λ b h.
                            Sure-Safe (Deducted sizes q) _
                              (deduct_fee-Sure sizes q wallet regular checked b h))))))

    inputs_worth :
        (before after : List ℕ)
        → worth q.amounts (inputs_of q before after)
          ≡ worth q.amounts before + value_of q.amounts q.outgoing.outpoint + worth q.amounts after
    unfolding worth
    inputs_worth before after =
        omega (arith, worth-append q.amounts before (q.outgoing.outpoint ∷ after))

    inputs_count :
        (u : ℕ) (before after : List ℕ)
        → count u (inputs_of q before after)
          ≡ count u before + ((if u == q.outgoing.outpoint then 1 else 0) + count u after)
    unfolding count
    inputs_count u before after = count-append u before (q.outgoing.outpoint ∷ after)

    Known-inputs :
        (before after : List ℕ)
        → All (Known (order q)) before
        → Known (order q) q.outgoing.outpoint
        → All (Known (order q)) after
        → All (Known (order q)) (inputs_of q before after)
    Known-inputs [] after h o g = (o, g)
    Known-inputs (b ∷ before) after h o g = (h.0, Known-inputs before after h.1 o g)

    module _ (checked : IsChecked sizes q) (inexact : IsInexact q.target) where
      build_lem :
          (before after : List ℕ) (a : Option ℕ) (v : ℕ) (change : Option ℕ) (utxos : List ℕ)
          → IsPaid sizes q before after a v change utxos
          → build sizes
              (state q before after (outputs_of q a v change) (unused_of q a change) utxos)
            ≡ built (record { input = inputs_of q before after; output = outputs_of q a v change })
      unfolding build
      build_lem before after a v change utxos h =
          let b = state q before after (outputs_of q a v change) (unused_of q a change) utxos in
          let p = padding q a in
          let cost = fee_of sizes q before after a v change in
          let o = q.outgoing.outpoint in
          let inputs = inputs_of q before after in
          let outs = outputs_of q a v change in
          let ledger = h.ledger in
          let (amount, priced) = ledger.outgoing in
          let once = ledger.once o in
          let same = ==-refl o in
          let once = rw same at once in
          let held : count_amounts o q.outgoing.offset q.amounts ≡ 1 =
            count_amounts-once o q.outgoing.offset amount q.amounts priced
              (omega (arith, ledger.inside, value_of-some q.amounts o amount priced))
              (wallet.once o) in
          let spent : count o inputs ≡ 1 =
            (let c = inputs_count o before after in
              let c = rw same at c in omega (arith, c, once)) in
          let value : worth q.amounts inputs ≡ paid outs + cost =
            omega (arith, inputs_worth before after, ledger.total, paid-outputs_of q a v change) in
          let fits : worth q.amounts inputs ≤ u64_max =
            omega (arith, inputs_worth before after, ledger.total, ledger.budget, wallet.fits) in
          let sum : sum_inputs q.amounts 0 inputs ≡ built (0 + worth q.amounts inputs) =
            sum_inputs_lem q.amounts 0 inputs
              (Known-inputs before after ledger.known_before ledger.outgoing ledger.known_after)
              (omega (arith, fits)) in
          let less : less_outputs (0 + worth q.amounts inputs) outs ≡ built cost =
            less_outputs_lem outs (0 + worth q.amounts inputs) cost (omega (arith, value)) in
          let positive : 1 ≤ v =
            omega (arith, h.least, checked.no_dust, regular.dust_positive q.recipient) in
          rw
            (
              held,
              spent,
              calculate_sat_offset_lem sizes q before after p (v + unwrap_or change 0 + cost) utxos
                  outs (unused_of q a change) wallet ledger,
              find_output_lem q a v change positive (omega (arith, ledger.budget, wallet.fits)),
              count-recipient sizes q checked a v change,
              change_once sizes q checked a v change,
              check_outputs_lem sizes q wallet regular checked b a v change refl refl
                  (check_slop_lem sizes q wallet regular b a v refl refl inexact h.least h.within)
                  (omega (arith, ledger.budget, wallet.fits)),
              sum,
              less,
              ==-refl cost,
              check_dust_lem sizes q a v change h.clear (omega (arith, h.least, checked.no_dust))
                  h.tidy,
            )
            refl

      pub build-Sure : (b : TransactionBuilder) → Deducted sizes q b → Sure IsSent (build sizes b)
      build-Sure b (before, after, a, v, change, utxos, h, e) =
          rw (e, build_lem before after a v change utxos h)
            (record {
              before = before;
              after = after;
              alignment = a;
              value = v;
              change = change;
              inputs = refl;
              outputs = refl;
              cardinal_before = h.ledger.cardinal_before;
              cardinal_after = h.ledger.cardinal_after;
              once =
                  λ u. (let o = h.ledger.once u in omega (arith, o, inputs_count u before after));
              place = h.ledger.place;
              balance =
                  omega (
                    arith,
                    inputs_worth before after,
                    h.ledger.total,
                    paid-outputs_of q a v change,
                  );
              clear = h.clear;
              tidy = h.tidy;
              least = h.least;
              within = h.within;
            })

    pub steps-Safe :
        IsChecked sizes q
        → IsInexact q.target
        → Safe IsSent (prepare sizes (order q) >>= λ b. build sizes b)
    steps-Safe checked inexact =
        Safe-bind (Deducted sizes q) IsSent (prepare sizes (order q)) _ (prepare-Safe checked)
          (λ b h. Sure-Safe IsSent _ (build-Sure checked inexact b h))
