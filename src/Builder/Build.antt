-- ===== src/Builder/Build.antt =====
-- `build` with its assertions, and `build_transaction`.
use okx_ord.Common.{ℕ, ◌+◌, List, [], ◌∷◌, Bool, true, ltb, leb, ◌==◌, ◌&&◌, if◌then◌else◌, length}
use okx_ord.Common.Dict.{Dict}
use okx_ord.Builder.FeeRate.{fee}
use okx_ord.Builder.State.{
  Sizes, Target, TransactionBuilder, Transaction, Built, built, panicked, failed, ◌>>=◌, ◌>>◌,
  assert, expect, add, sub, contains, index, duplicate_address, dust,
}
use okx_ord.Builder.Select.{calculate_sat_offset}
use okx_ord.Builder.Steps.{
  head, addresses, select_outgoing, align_outgoing, pad_alignment_output, add_value, strip_value,
  deduct_fee, max_postage, additional_output_vbytes,
}

-- How often a number stands in a list.
unfoldable pub count : ℕ → List ℕ → ℕ
count x [] = 0
count x (y ∷ ys) = (if x == y then 1 else 0) + count x ys

-- `amounts` with the outgoing outpoint and more than the offset.
unfoldable pub count_amounts : ℕ → ℕ → Dict ℕ → ℕ
count_amounts outpoint offset [] = 0
count_amounts outpoint offset ((k, a) ∷ d) =
    (if k == outpoint && ltb offset a then 1 else 0) + count_amounts outpoint offset d

-- The search for the output that the outgoing sat is in.
unfoldable pub find_output : ℕ → ℕ → ℕ → List (ℕ × ℕ) → Built (Unit {0})
find_output recipient sat_offset end [] = panicked
find_output recipient sat_offset end ((a, v) ∷ outs) = do
  end' ← add end v
  if ltb sat_offset end'
      then assert (a == recipient)
      else find_output recipient sat_offset end' outs

abbrev pub at_most_once : List ℕ → List ℕ → Bool
at_most_once [] outs = true
at_most_once (c ∷ cs) outs = leb (count c outs) 1 && at_most_once cs outs

-- `actual_fee`: the values of the inputs, less those of the outputs.
unfoldable pub sum_inputs : Dict ℕ → ℕ → List ℕ → Built ℕ
sum_inputs amounts sum [] = built sum
sum_inputs amounts sum (i ∷ is) = do
  a ← index amounts i
  sum' ← add sum a
  sum_inputs amounts sum' is

unfoldable pub less_outputs : ℕ → List (ℕ × ℕ) → Built ℕ
less_outputs sum [] = built sum
less_outputs sum ((a, v) ∷ outs) = do sum' ← sub sum v; less_outputs sum' outs

module _ (sizes : Sizes) where
  open sizes use {dust_value, rate, vsize}

  -- `max().unwrap_or_default()` of the change addresses' dust values.
  abbrev pub greatest_dust : List ℕ → ℕ
  greatest_dust [] = 0
  greatest_dust (c ∷ cs) =
      let rest = greatest_dust cs in if ltb rest (dust_value c) then dust_value c else rest

  -- The assertion on the recipient's value, by target.
  unfoldable pub check_slop : TransactionBuilder → ℕ → Built (Unit {0})
  check_slop b v = elim b.target [
    | Target.postage ↦ do
      limit ← add max_postage (fee rate additional_output_vbytes)
      assert (leb v limit)
    | Target.exact_postage p ↦ do
      limit ← add p (fee rate additional_output_vbytes)
      assert (leb v limit)
    | Target.value target ↦ do
      excess ← sub v target
      limit ← add (greatest_dust b.change_addresses) (fee rate additional_output_vbytes)
      assert (leb excess limit)
  ]

  -- The loop over the outputs with their offsets.
  unfoldable pub check_outputs : TransactionBuilder → ℕ → ℕ → List (ℕ × ℕ) → Built (Unit {0})
  unfolding check_slop contains
  check_outputs b sat_offset offset [] = built tt
  check_outputs b sat_offset offset ((a, v) ∷ outs) = do
    if a == b.recipient
        then (do check_slop b v; assert (offset == sat_offset))
        else assert (contains a b.change_addresses)
    offset' ← add offset v
    check_outputs b sat_offset offset' outs

  unfoldable pub check_dust : List (ℕ × ℕ) → Built (Unit {0})
  check_dust [] = built tt
  check_dust ((a, v) ∷ outs) = do assert (leb (dust_value a) v); check_dust outs

  -- `build`
  unfoldable pub build : TransactionBuilder → Built Transaction
  unfolding count count_amounts calculate_sat_offset find_output sum_inputs less_outputs
      check_outputs check_dust
  build b = do
    assert (count_amounts b.outgoing.outpoint b.outgoing.offset b.amounts == 1)
    assert (count b.outgoing.outpoint b.inputs == 1)
    sat_offset ← calculate_sat_offset b
    find_output b.recipient sat_offset 0 b.outputs
    assert (count b.recipient (addresses b.outputs) == 1)
    assert (at_most_once b.change_addresses (addresses b.outputs))
    check_outputs b sat_offset 0 b.outputs
    spent ← sum_inputs b.amounts 0 b.inputs
    actual_fee ← less_outputs spent b.outputs
    assert (actual_fee == fee rate (vsize (length b.inputs) (addresses b.outputs)))
    check_dust b.outputs
    built (record { input = b.inputs; output = b.outputs })

  -- The test of a given output value for dust.
  abbrev pub check_target : Target → ℕ → Built (Unit {0})
  check_target Target.postage recipient = built tt
  check_target (Target.value v) recipient =
      if ltb v (dust_value recipient) then failed (dust v (dust_value recipient)) else built tt
  check_target (Target.exact_postage v) recipient =
      if ltb v (dust_value recipient) then failed (dust v (dust_value recipient)) else built tt

  -- The tests of the addresses.
  abbrev pub check_addresses : TransactionBuilder → Built (Unit {0})
  check_addresses b =
      if ltb (length b.change_addresses) 2
      then (do a ← expect (head b.change_addresses); failed (duplicate_address a))
      else if contains b.recipient b.change_addresses
      then failed (duplicate_address b.recipient)
      else built tt

  -- The steps from `select_outgoing` to `deduct_fee`.
  unfoldable pub prepare : TransactionBuilder → Built TransactionBuilder
  unfolding select_outgoing align_outgoing pad_alignment_output add_value strip_value deduct_fee
  prepare b = do
    selected ← select_outgoing sizes b
    aligned ← align_outgoing sizes selected
    padded ← pad_alignment_output sizes aligned
    funded ← add_value sizes padded
    stripped ← strip_value sizes funded
    deduct_fee sizes stripped

  -- `build_transaction`
  unfoldable pub build_transaction : TransactionBuilder → Built Transaction
  unfolding contains prepare build
  build_transaction b = do
    check_addresses b
    check_target b.target b.recipient
    prepared ← prepare b
    build prepared
