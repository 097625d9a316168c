-- ===== src/Builder/Steps.antt =====
-- The steps of `build_transaction` before the last.
use okx_ord.Common.{
  ℕ, zero, suc, ◌+◌, ◌-◌, List, [], ◌∷◌, ◌++◌, Option, none, some, true, false, not, ltb, leb, ◌==◌,
  ◌&&◌, if◌then◌else◌, length,
}
use okx_ord.Common.Dict.{lookup}
use okx_ord.Builder.FeeRate.{fee}
use okx_ord.Builder.State.{
  SatPoint, Sizes, Target, TransactionBuilder, Built, built, panicked, failed, ◌>>=◌, ◌>>◌, assert,
  expect, ok_or, add, sub, checked_add, checked_sub, contains, last, without_last, set_last,
  remove_utxo, not_enough_cardinal_utxos, not_in_wallet, out_of_range,
  utxo_contains_additional_inscription, value_overflow,
}
use okx_ord.Builder.Select.{select_cardinal_utxo, calculate_sat_offset}

abbrev pub additional_input_vbytes : ℕ
additional_input_vbytes = 58

abbrev pub additional_output_vbytes : ℕ
additional_output_vbytes = 43

abbrev pub max_postage : ℕ
max_postage = 20000

abbrev pub target_postage : ℕ
target_postage = 10000

-- The loop over the inscriptions, from the last to the first.
unfoldable pub check_inscriptions : SatPoint → ℕ → List (SatPoint × ℕ) → Built (Unit {0})
check_inscriptions outgoing dust_limit [] = built tt
check_inscriptions outgoing dust_limit ((s, id) ∷ inscriptions) = do
  check_inscriptions outgoing dust_limit inscriptions
  if outgoing.outpoint == s.outpoint && not (outgoing.offset == s.offset)
      then (do
        limit ← add s.offset dust_limit
        if ltb outgoing.offset limit
            then failed (utxo_contains_additional_inscription outgoing s id)
            else built tt)
      else built tt

-- The address of an output, and the first output.
abbrev pub addresses : List (ℕ × ℕ) → List ℕ
addresses [] = []
addresses ((a, v) ∷ outs) = a ∷ addresses outs

abbrev pub head {ℓ} : {A : Type ℓ} → List A → Option A
head [] = none
head (x ∷ xs) = some x

-- The sum of the outputs' amounts.
unfoldable pub sum_outputs : ℕ → List (ℕ × ℕ) → Built ℕ
sum_outputs sum [] = built sum
sum_outputs sum ((a, v) ∷ outs) = do sum' ← add sum v; sum_outputs sum' outs

-- `outputs[0].1 += size`
abbrev pub grow_first : ℕ → List (ℕ × ℕ) → Built (List (ℕ × ℕ))
grow_first size [] = panicked
grow_first size ((a, v) ∷ outs) = do v' ← add v size; built ((a, v') ∷ outs)

-- `outputs.last_mut().unwrap().1 += value`
abbrev pub grow_last : ℕ → List (ℕ × ℕ) → Built (List (ℕ × ℕ))
grow_last value outs = do out ← expect (last outs); v ← add out.1 value; built (set_last v outs)

-- The greatest value that is not stripped, and the value to strip to.
abbrev pub strip_limits : Target → ℕ × ℕ
strip_limits (Target.exact_postage p) = (p, p)
strip_limits Target.postage = (max_postage, target_postage)
strip_limits (Target.value v) = (v, v)

module _ (sizes : Sizes) where
  open sizes use {dust_value, rate, vsize}

  -- `estimate_vbytes` and `estimate_fee`
  abbrev pub estimate_vbytes : TransactionBuilder → ℕ
  estimate_vbytes b = vsize (length b.inputs) (addresses b.outputs)

  abbrev pub estimate_fee : TransactionBuilder → ℕ
  estimate_fee b = fee rate (estimate_vbytes b)

  unfoldable pub select_outgoing : TransactionBuilder → Built TransactionBuilder
  unfolding check_inscriptions last remove_utxo
  select_outgoing b = do
    change ← expect (last b.unused_change_addresses)
    check_inscriptions b.outgoing (dust_value change) b.inscriptions
    amount ← ok_or (lookup b.outgoing.outpoint b.amounts) (not_in_wallet b.outgoing)
    if leb amount b.outgoing.offset
        then (do greatest ← sub amount 1; failed (out_of_range b.outgoing greatest))
        else built (record b {
          utxos = remove_utxo b.outgoing.outpoint b.utxos;
          inputs = b.inputs ++ b.outgoing.outpoint ∷ [];
          outputs = b.outputs ++ (b.recipient, amount) ∷ [];
        })

  unfoldable pub align_outgoing : TransactionBuilder → Built TransactionBuilder
  unfolding calculate_sat_offset last without_last set_last
  align_outgoing b = do
    assert (length b.outputs == 1)
    first ← expect (head b.outputs)
    assert (first.0 == b.recipient)
    sat_offset ← calculate_sat_offset b
    if sat_offset == 0 then built b else (do
      change ← expect (last b.unused_change_addresses)
      out ← expect (last b.outputs)
      rest ← sub out.1 sat_offset
      built (record b {
        unused_change_addresses = without_last b.unused_change_addresses;
        outputs = (change, sat_offset) ∷ set_last rest b.outputs;
      }))

  -- The `while` loop of `pad_alignment_output`, on fuel.
  unfoldable pub pad_loop : ℕ → ℕ → TransactionBuilder → Built TransactionBuilder
  unfolding select_cardinal_utxo
  pad_loop zero dust_limit b = panicked
  pad_loop (suc fuel) dust_limit b = do
    first ← expect (head b.outputs)
    if leb dust_limit first.1 then built b else (do
      (chosen, b') ← select_cardinal_utxo b (dust_limit - first.1) true
      outputs ← grow_first chosen.1 b'.outputs
      pad_loop fuel dust_limit (record b' { inputs = chosen.0 ∷ b'.inputs; outputs = outputs }))

  -- `pad_alignment_output`: each round but the last takes one of the outputs that are left.
  unfoldable pub pad_alignment_output : TransactionBuilder → Built TransactionBuilder
  unfolding pad_loop last
  pad_alignment_output b = do
    first ← expect (head b.outputs)
    if first.0 == b.recipient then built b else (do
      change ← expect (last b.unused_change_addresses)
      pad_loop (suc (length b.utxos)) (dust_value change) b)

  -- The `while` loop of `add_value`, on fuel.
  unfoldable pub add_loop : ℕ → ℕ → TransactionBuilder → Built TransactionBuilder
  unfolding select_cardinal_utxo last set_last
  add_loop fuel zero b = built b
  add_loop zero (suc deficit) b = panicked
  add_loop (suc fuel) (suc deficit) b = do
    needed ← ok_or (checked_add (suc deficit) (fee rate additional_input_vbytes)) value_overflow
    (chosen, b') ← select_cardinal_utxo b needed false
    benefit ←
        ok_or (checked_sub chosen.1 (fee rate additional_input_vbytes)) not_enough_cardinal_utxos
    outputs ← grow_last chosen.1 b'.outputs
    add_loop fuel (if ltb (suc deficit) benefit then 0 else suc deficit - benefit)
        (record b' { inputs = b'.inputs ++ chosen.0 ∷ []; outputs = outputs })

  abbrev pub min_value : Target → ℕ → ℕ
  min_value Target.postage address = dust_value address
  min_value (Target.value v) address = v
  min_value (Target.exact_postage v) address = v

  -- `add_value`: each round but the last takes one of the outputs that are left.
  unfoldable pub add_value : TransactionBuilder → Built TransactionBuilder
  unfolding add_loop last
  add_value b = do
    out ← expect (last b.outputs)
    total ← ok_or (checked_add (min_value b.target out.0) (estimate_fee b)) value_overflow
    elim (checked_sub total out.1) [
      | none ↦ built b
      | some deficit ↦ add_loop (suc (length b.utxos)) deficit b
    ]

  -- The second half of the test in `strip_value`, and the new output.
  unfoldable pub strip_to : ℕ → ℕ → TransactionBuilder → Built TransactionBuilder
  unfolding last without_last set_last
  strip_to target value b = do
    change ← expect (last b.unused_change_addresses)
    surplus ← sub value target
    least ← add (dust_value change) (fee rate (estimate_vbytes b + additional_output_vbytes))
    if ltb least surplus
        then built (record b {
          outputs = set_last target b.outputs ++ (change, surplus) ∷ [];
          unused_change_addresses = without_last b.unused_change_addresses;
        })
        else built b

  unfoldable pub strip_value : TransactionBuilder → Built TransactionBuilder
  unfolding calculate_sat_offset sum_outputs strip_to contains
  strip_value b = do
    sat_offset ← calculate_sat_offset b
    total ← sum_outputs 0 b.outputs
    assert (contains b.recipient (addresses b.outputs))
    value ← sub total sat_offset
    elim (checked_sub value (fee rate (estimate_vbytes b))) [
      | none ↦ built b
      | some excess ↦
          if ltb (strip_limits b.target).0 excess
          then strip_to (strip_limits b.target).1 value b
          else built b
    ]

  unfoldable pub deduct_fee : TransactionBuilder → Built TransactionBuilder
  unfolding calculate_sat_offset sum_outputs last set_last
  deduct_fee b = do
    sat_offset ← calculate_sat_offset b
    total ← sum_outputs 0 b.outputs
    out ← expect (last b.outputs)
    left ← sub total (estimate_fee b)
    assert (ltb sat_offset left)
    assert (leb (estimate_fee b) out.1)
    built (record b { outputs = set_last (out.1 - estimate_fee b) b.outputs })
