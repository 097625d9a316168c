-- ===== src/Builder/Tests.antt =====
-- Runs of the model of the transaction builder.
use okx_ord.Common.{
  ℕ, suc, ◌+◌, ◌*◌, ◌≡◌, refl, [], ◌∷◌, length, length-append, arith, some, ◌⊎◌, true, ◌≤◌, ◌/◌,
  ◌++◌, leb, List, if◌then◌else◌,
}
use okx_ord.Common.Dict.{lookup}
use okx_ord.Builder.FeeRate.{fee}
use okx_ord.Builder.State.{
  SatPoint, Sizes, Target, Transaction, built, panicked, failed, contains, last, without_last,
  set_last, remove_utxo,
}
use okx_ord.Builder.Select.{match_loop, select_cardinal_utxo, offset_loop, calculate_sat_offset}
use okx_ord.Builder.Steps.{
  select_outgoing, align_outgoing, pad_alignment_output, pad_loop, add_value, add_loop, strip_value,
  strip_to, deduct_fee, check_inscriptions, sum_outputs,
}
use okx_ord.Builder.Build.{
  build_transaction, prepare, build, count, count_amounts, find_output, sum_inputs, less_outputs,
  check_outputs, check_slop, check_dust,
}
use okx_ord.Builder.State.{Error, not_enough_cardinal_utxos}
use okx_ord.Common.Outcome.{u64_max}
use okx_ord.Builder.Choice.{Chosen, select_cardinal_utxo-Chosen}
use okx_ord.Builder.Counts.{worth}
use okx_ord.Builder.Request.{Request, IsWallet, IsRegular, order}
use okx_ord.Builder.Sound.{IsSent}
use okx_ord.Builder.Whole.{build_transaction-IsSent}
use okx_ord.Builder.Exact.{build_transaction-exact_postage}
use okx_ord.Builder.Enough.{build_transaction-built}
use okx_ord.Builder.Nearest.{IsNearest, select_cardinal_utxo-IsNearest}

-- The bytes of a number of inputs or outputs.
abbrev compact : ℕ → ℕ
compact n = if leb n 252 then 1 else if leb n 65535 then 3 else 5

-- The virtual size of a transaction to taproot addresses, with a signature of 64 bytes for each input: a
-- byte of a witness is a quarter of another.
abbrev taproot_vsize : ℕ → List ℕ → ℕ
taproot_vsize inputs outputs =
    let base = 8 + compact inputs + 41 * inputs + compact (length outputs) + 43 * length outputs in
    (4 * base + 2 + 66 * inputs + 3) / 4

-- Taproot addresses at a rate.
abbrev taproot : ℕ → ℕ → Sizes
taproot numerator denominator = record {
  dust_value = λ a. 330;
  rate = record { numerator = numerator; denominator = denominator };
  vsize = taproot_vsize;
}

-- One sat for each virtual byte.
abbrev whole_rate : Sizes
whole_rate = taproot 1 1

compact-few : (n : ℕ) → n ≤ 252 → compact n ≡ 1
compact-few n h = ground arith

more_inputs :
    (n : ℕ) (outs : List ℕ)
    → suc n ≤ 252
    → length outs ≤ 252
    → taproot_vsize (suc n) outs ≤ taproot_vsize n outs + 58
more_inputs n outs few short =
    rw (compact-few (suc n) few, compact-few n (omega (arith, few))) (omega arith)

more_outputs :
    (n : ℕ) (outs : List ℕ) (a : ℕ)
    → length outs + 1 ≤ 252
    → taproot_vsize n (outs ++ a ∷ []) ≤ taproot_vsize n outs + 43
more_outputs n outs a short =
    rw
      (
        length-append outs (a ∷ []),
        compact-few (length outs + 1) short,
        compact-few (length outs) (omega (arith, short)),
      )
      (omega arith)

abbrev point : ℕ → ℕ → SatPoint
point outpoint offset = record { outpoint = outpoint; offset = offset }

-- An inscribed output, and two cardinal ones.
abbrev plan : ℕ → ℕ → Target → Request
plan outpoint offset target = record {
  outgoing = point outpoint offset;
  inscriptions = (point outpoint offset, 7) ∷ [];
  amounts = (1, 10000) ∷ (2, 5000) ∷ (3, 400) ∷ [];
  locked_utxos = [];
  runic_utxos = [];
  recipient = 100;
  first = 200;
  second = 201;
  target = target;
}

plan-IsWallet :
    (outpoint offset : ℕ) (target : Target)
    → ((a : ℕ) → lookup outpoint (plan outpoint offset target).amounts ≡ some a → 1 ≤ a)
    → offset + 10000 ≤ u64_max
    → IsWallet whole_rate (plan outpoint offset target)
unfolding worth count lookup fee
plan-IsWallet outpoint offset target filled fits = record {
  once = λ u. ground arith;
  few = omega arith;
  fits = omega arith;
  filled = filled;
  places = (fits, tt);
}

whole_rate-IsRegular :
    (outpoint offset : ℕ) (target : Target) → IsRegular whole_rate (plan outpoint offset target)
whole_rate-IsRegular outpoint offset target = record {
  whole = refl;
  more_inputs = λ n outs some_input few short. more_inputs n outs few short;
  first_output = λ n outs some_input few short. more_outputs n outs 200 short;
  second_output = λ n outs some_input few short. more_outputs n outs 201 short;
  dust_positive = λ a. omega arith;
  dust_small = λ a. omega arith;
  dust_same = refl;
}

positive : (m a : ℕ) → some (suc m) ≡ some a → 1 ≤ a
positive m a h = let e : suc m ≡ a = cc in omega (arith, e)

-- The outgoing output is large enough, and its rest covers the fee.
sends :
    build_transaction whole_rate (order (plan 1 0 Target.postage))
    ≡ built (record { input = 1 ∷ []; output = (100, 9889) ∷ [] })
unfolding build_transaction prepare build select_outgoing align_outgoing pad_alignment_output
    pad_loop add_value add_loop strip_value strip_to deduct_fee check_inscriptions sum_outputs
    match_loop select_cardinal_utxo offset_loop calculate_sat_offset contains last without_last
    set_last remove_utxo count count_amounts find_output sum_inputs less_outputs check_outputs
    check_slop check_dust lookup fee
sends = refl

-- The padding takes the third output, the value the first one, and the rest is change.
moves :
    build_transaction whole_rate (order (plan 2 100 (Target.value 6000)))
    ≡ built
        (record { input = 3 ∷ 2 ∷ 1 ∷ []; output = (201, 500) ∷ (100, 6000) ∷ (200, 8588) ∷ [] })
unfolding build_transaction prepare build select_outgoing align_outgoing pad_alignment_output
    pad_loop add_value add_loop strip_value strip_to deduct_fee check_inscriptions sum_outputs
    match_loop select_cardinal_utxo offset_loop calculate_sat_offset contains last without_last
    set_last remove_utxo count count_amounts find_output sum_inputs less_outputs check_outputs
    check_slop check_dust lookup fee
moves = refl

-- Two cardinal outputs are too little for the value.
falls_short :
    build_transaction whole_rate (order (plan 2 100 (Target.value 60000)))
    ≡ failed not_enough_cardinal_utxos
unfolding build_transaction prepare build select_outgoing align_outgoing pad_alignment_output
    pad_loop add_value add_loop strip_value strip_to deduct_fee check_inscriptions sum_outputs
    match_loop select_cardinal_utxo offset_loop calculate_sat_offset contains last without_last
    set_last remove_utxo count count_amounts find_output sum_inputs less_outputs check_outputs
    check_slop check_dust lookup fee
falls_short = refl

-- A value of 6000 from outputs of 5000 and 1236.
abbrev tight : Request
tight = record {
  outgoing = point 1 0;
  inscriptions = (point 1 0, 7) ∷ [];
  amounts = (1, 5000) ∷ (2, 1236) ∷ [];
  locked_utxos = [];
  runic_utxos = [];
  recipient = 100;
  first = 200;
  second = 201;
  target = Target.value 6000;
}

-- At 7 / 5 sats for a virtual byte the fee for both inputs, 237, is a sat more than the fee for one and that for
-- another: `add_value` takes 6236 for enough, and 5999 are left for the recipient.
rounds : build_transaction (taproot 7 5) (order tight) ≡ panicked
unfolding build_transaction prepare build select_outgoing align_outgoing pad_alignment_output
    pad_loop add_value add_loop strip_value strip_to deduct_fee check_inscriptions sum_outputs
    match_loop select_cardinal_utxo offset_loop calculate_sat_offset contains last without_last
    set_last remove_utxo count count_amounts find_output sum_inputs less_outputs check_outputs
    check_slop check_dust lookup fee
rounds = refl

build_transaction-IsSent_example :
    ((e : Error) × (build_transaction whole_rate (order (plan 2 100 (Target.value 6000)))
        ≡ failed e))
    ⊎ ((t : Transaction) × (build_transaction whole_rate (order (plan 2 100 (Target.value 6000)))
          ≡ built t)
        × IsSent whole_rate (plan 2 100 (Target.value 6000)) t)
unfolding lookup fee
build_transaction-IsSent_example =
    build_transaction-IsSent whole_rate (plan 2 100 (Target.value 6000))
      (plan-IsWallet 2 100 (Target.value 6000) (positive 4999) (omega arith))
      (whole_rate-IsRegular 2 100 (Target.value 6000)) tt

build_transaction-exact_postage_example :
    build_transaction whole_rate (order (plan 1 0 (Target.exact_postage 9688))) ≡ panicked
unfolding lookup check_inscriptions fee
build_transaction-exact_postage_example =
    build_transaction-exact_postage whole_rate (plan 1 0 Target.postage) 9688 10000
      (plan-IsWallet 1 0 (Target.exact_postage 9688) (positive 9999) (omega arith))
      (whole_rate-IsRegular 1 0 (Target.exact_postage 9688))
      (record { different = refl; not_first = refl; not_second = refl; no_dust = omega arith }) refl
      refl refl (omega arith) (omega arith)

select_cardinal_utxo-IsNearest_example : IsNearest true 230 400 10000
unfolding select_cardinal_utxo match_loop lookup contains remove_utxo count
select_cardinal_utxo-IsNearest_example =
    select_cardinal_utxo-IsNearest (order (plan 2 100 Target.postage)) 230 true (3, 400)
      (record (order (plan 2 100 Target.postage)) { utxos = 1 ∷ 2 ∷ [] }) 1 10000 refl (omega arith)
      refl refl

select_cardinal_utxo-Chosen_example :
    (select_cardinal_utxo (order (plan 2 100 Target.postage)) 230 true
      ≡ failed not_enough_cardinal_utxos)
    ⊎ ((c : ℕ × ℕ) × Chosen (order (plan 2 100 Target.postage)) (1 ∷ 2 ∷ 3 ∷ []) c
        × (select_cardinal_utxo (order (plan 2 100 Target.postage)) 230 true
            ≡ built (
              c,
              record (order (plan 2 100 Target.postage)) {
                utxos = remove_utxo c.0 (1 ∷ 2 ∷ 3 ∷ []);
              },
            )))
unfolding lookup
select_cardinal_utxo-Chosen_example =
    select_cardinal_utxo-Chosen (order (plan 2 100 Target.postage)) 230 true
      ((10000, refl), ((5000, refl), ((400, refl), tt)))

build_transaction-built_example :
    (t : Transaction) × (build_transaction whole_rate (order (plan 1 400 Target.postage)) ≡ built t)
    × IsSent whole_rate (plan 1 400 Target.postage) t
unfolding lookup check_inscriptions fee
build_transaction-built_example =
    build_transaction-built whole_rate (plan 1 400 Target.postage) (some 400) 9600
      (plan-IsWallet 1 400 Target.postage (positive 9999) (omega arith))
      (whole_rate-IsRegular 1 400 Target.postage)
      (record { different = refl; not_first = refl; not_second = refl; no_dust = omega arith }) refl
      refl (omega arith, tt) refl (omega arith) tt
