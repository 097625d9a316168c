-- ===== src/SatRanges.antt =====
-- The assignment of sat ranges to outputs: `index_transaction_sats` and the loop over lost ranges of
-- src/index/updater.rs. Outpoints stand as numbers, and a range is kept as its bounds.
pub mod Block
mod Sats
mod Fifo
mod Tests
use okx_ord.Common.{
  ℕ, zero, suc, ◌+◌, ◌-◌, List, [], ◌∷◌, ◌++◌, Option, none, some, Bool, ltb, if◌then◌else◌,
}
use okx_ord.Common.Dict.{Dict, insert, lookup, remove}
use okx_ord.Common.Outcome.{Outcome, done, panic, ◌>>=◌, u64_max, sub_checked, add_checked}
use okx_ord.Ordinals.Constants.{Constants}
use okx_ord.Ordinals.Sat.{is_common}

-- What the code changes: the tables of ranges and of satpoints, and the counts, which do not come near
-- the end of a u64.
pub record SatUpdater : Type 0 where
  pub range_cache : Dict (List (ℕ × ℕ))
  pub sat_to_satpoint : Dict (ℕ × ℕ)
  pub sat_ranges_since_flush : ℕ
  pub outputs_inserted_since_flush : ℕ
  pub sat_ranges_written : ℕ
  pub outputs_traversed : ℕ
  pub outpoint_to_sat_ranges : Dict (List (ℕ × ℕ))
  pub outputs_cached : ℕ
  pub lost_sats : ℕ

module _ (checks : Bool) (c : Constants) where
  -- A range's first sat is entered, with its place in the output, if it is no common one.
  unfoldable pub enter_sat : ℕ × ℕ → SatUpdater → ℕ → ℕ → Outcome SatUpdater
  enter_sat output s remaining sat = do
    common ← is_common checks c sat
    if common then done s else (do
      offset ← sub_checked checks u64_max output.1 remaining
      done (record s { sat_to_satpoint = insert sat (output.0, offset) s.sat_to_satpoint }))

  -- The `while` loop for one output: what it is assigned, and the ranges that are left; `none` is the
  -- error of insufficient inputs. After a range is divided nothing remains, and the loop ends.
  unfoldable pub assign_ranges :
      ℕ × ℕ
      → SatUpdater
      → ℕ
      → List (ℕ × ℕ)
      → Outcome (Option (SatUpdater × List (ℕ × ℕ) × List (ℕ × ℕ)))
  unfolding enter_sat
  assign_ranges output s zero ranges = done (some (s, [], ranges))
  assign_ranges output s (suc remaining) [] = done none
  assign_ranges output s (suc remaining) ((start, end) ∷ ranges) = do
    entered ← enter_sat output s (suc remaining) start
    count ← sub_checked checks u64_max end start
    let written = record entered { sat_ranges_written = entered.sat_ranges_written + 1 } in
        if ltb (suc remaining) count
        then (do
          middle ← add_checked checks u64_max start (suc remaining)
          done (
              some (
                record written { sat_ranges_since_flush = written.sat_ranges_since_flush + 1 },
                (start, middle) ∷ [],
                (middle, end) ∷ ranges,
              )))
        else (do
          rest ← assign_ranges output written (suc remaining - count) ranges
          elim rest [
            | none ↦ done none
            | some (s', sats, left) ↦ done (some (s', (start, end) ∷ sats, left))
          ])

  -- `index_transaction_sats`, for outputs with their outpoints and values.
  unfoldable pub index_transaction_sats :
      SatUpdater → List (ℕ × ℕ) → List (ℕ × ℕ) → Outcome (Option (SatUpdater × List (ℕ × ℕ)))
  unfolding assign_ranges
  index_transaction_sats s [] ranges = done (some (s, ranges))
  index_transaction_sats s (output ∷ outputs) ranges = do
    assigned ← assign_ranges output s output.1 ranges
    elim assigned [
      | none ↦ done none
      | some (s', sats, left) ↦
          index_transaction_sats
            (record s' {
              range_cache = insert output.0 sats s'.range_cache;
              outputs_traversed = s'.outputs_traversed + 1;
              outputs_inserted_since_flush = s'.outputs_inserted_since_flush + 1;
            })
            outputs left
    ]
