-- ===== src/SatRanges/Tests.antt =====
-- Runs of the assignment of sat ranges.
use okx_ord.Common.{ℕ, ◌≡◌, refl, List, [], ◌∷◌, none, some, true, arith}
use okx_ord.Common.Dict.{insert, lookup, remove}
use okx_ord.Common.Outcome.{done, sub_checked, add_checked, rem_checked, div_checked, mul_checked}
use okx_ord.Ordinals.Constants.{bitcoin}
use okx_ord.Ordinals.Epoch.{
  epoch_of_sat, epoch_starting_sat, epoch_subsidy, height_subsidy, height_starting_sat,
  epoch_of_height, starting_height,
}
use okx_ord.Ordinals.Sat.{is_common}
use okx_ord.SatRanges.{SatUpdater, enter_sat, assign_ranges, index_transaction_sats}
use okx_ord.SatRanges.Block.{
  index_block_sats, mine, load_inputs, load_ranges, index_rest, index_coinbase, index_lost,
  lose_ranges,
}
use okx_ord.SatRanges.Sats.{sats_of, sats_from}
use okx_ord.SatRanges.Fifo.{index_transaction_sats-IsFifo, IsFifo, sum}

abbrev fresh : SatUpdater
fresh = record {
  range_cache = [];
  sat_to_satpoint = [];
  sat_ranges_since_flush = 0;
  outputs_inserted_since_flush = 0;
  sat_ranges_written = 0;
  outputs_traversed = 0;
  outpoint_to_sat_ranges = [];
  outputs_cached = 0;
  lost_sats = 0;
}

-- Two ranges and three outputs: the second one has the rest of the first range and a part of the other.
abbrev two_ranges : List (ℕ × ℕ)
two_ranges = (0, 5) ∷ (10, 14) ∷ []

abbrev three_outputs : List (ℕ × ℕ)
three_outputs = (70, 3) ∷ (71, 4) ∷ (72, 0) ∷ []

divides :
    index_transaction_sats true bitcoin fresh three_outputs two_ranges
    ≡ done (
        some (
          record {
            range_cache = (70, (0, 3) ∷ []) ∷ (71, (3, 5) ∷ (10, 12) ∷ []) ∷ (72, []) ∷ [];
            sat_to_satpoint = (0, (70, 0)) ∷ [];
            sat_ranges_since_flush = 2;
            outputs_inserted_since_flush = 3;
            sat_ranges_written = 3;
            outputs_traversed = 3;
            outpoint_to_sat_ranges = [];
            outputs_cached = 0;
            lost_sats = 0;
          },
          (12, 14) ∷ [],
        ))
unfolding index_transaction_sats assign_ranges enter_sat is_common epoch_of_sat epoch_starting_sat
    epoch_subsidy sub_checked add_checked rem_checked div_checked mul_checked insert
divides = refl

-- Outputs that are worth more than the ranges.
falls_short : index_transaction_sats true bitcoin fresh ((70, 10) ∷ []) two_ranges ≡ done none
unfolding index_transaction_sats assign_ranges enter_sat is_common epoch_of_sat epoch_starting_sat
    epoch_subsidy sub_checked add_checked rem_checked div_checked mul_checked insert
falls_short = refl

index_transaction_sats-IsFifo_example :
    (s' : SatUpdater) × (left : List (ℕ × ℕ)) × (index_transaction_sats true bitcoin fresh
        three_outputs two_ranges
      ≡ done (some (s', left)))
    × IsFifo fresh three_outputs two_ranges s' left
unfolding sats_of sats_from sum
index_transaction_sats-IsFifo_example =
    index_transaction_sats-IsFifo true fresh three_outputs two_ranges
      ((omega arith, omega arith), ((omega arith, omega arith), tt)) (omega arith)

-- A block at height 1: a transaction that leaves a fee of 10 sats, and a coinbase that claims all but 5 of
-- the mined sats and the fee.
mines :
    index_block_sats true bitcoin
      (record fresh { outpoint_to_sat_ranges = (1, (100, 200) ∷ []) ∷ [] })
      1
      (record { inputs = []; outputs = (80, 5000000005) ∷ [] }
        ∷ record { inputs = 1 ∷ []; outputs = (81, 90) ∷ [] }
        ∷ [])
    ≡ done (
        some (record {
          range_cache =
              (81, (100, 190) ∷ []) ∷ (80, (5000000000, 10000000000) ∷ (190, 195) ∷ []) ∷ [];
          sat_to_satpoint = (5000000000, (80, 0)) ∷ [];
          sat_ranges_since_flush = 3;
          outputs_inserted_since_flush = 2;
          sat_ranges_written = 3;
          outputs_traversed = 2;
          outpoint_to_sat_ranges = (0, (195, 200) ∷ []) ∷ [];
          outputs_cached = 0;
          lost_sats = 5;
        }))
unfolding index_block_sats mine load_inputs load_ranges index_rest index_coinbase index_lost
    lose_ranges index_transaction_sats assign_ranges enter_sat is_common epoch_of_sat
    epoch_starting_sat epoch_subsidy height_subsidy height_starting_sat epoch_of_height
    starting_height sub_checked add_checked rem_checked div_checked mul_checked insert lookup remove
mines = refl
