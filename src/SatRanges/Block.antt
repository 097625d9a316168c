-- ===== src/SatRanges/Block.antt =====
-- The sat ranges of a block: `index_block` of src/index/updater.rs, as far as it is about sats.
use okx_ord.Common.{
  ℕ, ◌+◌, List, [], ◌∷◌, ◌++◌, Option, none, some, Bool, ltb, if◌then◌else◌, unwrap_or,
}
use okx_ord.Common.Dict.{insert, lookup, remove}
use okx_ord.Common.Outcome.{Outcome, done, ◌>>=◌, u64_max, sub_checked, add_checked}
use okx_ord.Ordinals.Constants.{Constants}
use okx_ord.Ordinals.Epoch.{height_subsidy, height_starting_sat}
use okx_ord.Ordinals.Sat.{is_common}
use okx_ord.SatRanges.{SatUpdater, index_transaction_sats}

-- The inputs' outpoints, and the outputs with their outpoints and values.
pub record SatTransaction : Type 0 where
  pub inputs : List ℕ
  pub outputs : List (ℕ × ℕ)

-- `OutPoint::null()`
abbrev pub null_outpoint : ℕ
null_outpoint = 0

-- The ranges of an output that is spent: from the cache, or else from the table.
unfoldable pub load_ranges : SatUpdater → ℕ → Option (SatUpdater × List (ℕ × ℕ))
load_ranges s outpoint = elim (lookup outpoint s.range_cache) [
  | some ranges ↦ some (
    record s { range_cache = remove outpoint s.range_cache; outputs_cached = s.outputs_cached + 1 },
    ranges,
  )
  | none ↦ elim (lookup outpoint s.outpoint_to_sat_ranges) [
    | none ↦ none
    | some ranges ↦
        some
          (record s { outpoint_to_sat_ranges = remove outpoint s.outpoint_to_sat_ranges }, ranges)
  ]
]

unfoldable pub load_inputs : SatUpdater → List ℕ → Option (SatUpdater × List (ℕ × ℕ))
unfolding load_ranges
load_inputs s [] = some (s, [])
load_inputs s (input ∷ inputs) = elim (load_ranges s input) [
  | none ↦ none
  | some (loaded, ranges) ↦ elim (load_inputs loaded inputs) [
    | none ↦ none
    | some (s', rest) ↦ some (s', ranges ++ rest)
  ]
]

module _ (checks : Bool) (c : Constants) where
  -- The transactions after the first one; their ranges that are left go to the coinbase.
  unfoldable pub index_rest :
      SatUpdater → List SatTransaction → List (ℕ × ℕ) → Outcome (Option (SatUpdater × List (ℕ × ℕ)))
  unfolding load_inputs index_transaction_sats
  index_rest s [] coinbase_inputs = done (some (s, coinbase_inputs))
  index_rest s (tx ∷ txs) coinbase_inputs = elim (load_inputs s tx.inputs) [
    | none ↦ done none
    | some (loaded, ranges) ↦ do
      indexed ← index_transaction_sats checks c loaded tx.outputs ranges
      elim indexed [
        | none ↦ done none
        | some (s', left) ↦ index_rest s' txs (coinbase_inputs ++ left)
      ]
  ]

  -- The loop over the ranges that the coinbase does not claim.
  unfoldable pub lose_ranges :
      SatUpdater → List (ℕ × ℕ) → List (ℕ × ℕ) → Outcome (SatUpdater × List (ℕ × ℕ))
  unfolding is_common
  lose_ranges s lost [] = done (s, lost)
  lose_ranges s lost ((start, end) ∷ ranges) = do
    common ← is_common checks c start
    count ← sub_checked checks u64_max end start
    lost_sats ← add_checked checks u64_max s.lost_sats count
    lose_ranges
        (record s {
          sat_to_satpoint =
              if common
              then s.sat_to_satpoint
              else insert start (null_outpoint, s.lost_sats) s.sat_to_satpoint;
          lost_sats = lost_sats;
        })
        (lost ++ (start, end) ∷ []) ranges

  unfoldable pub index_lost : SatUpdater → List (ℕ × ℕ) → Outcome SatUpdater
  unfolding lose_ranges
  index_lost s [] = done s
  index_lost s (range ∷ ranges) = do
    (s', lost) ←
        lose_ranges
          (record s { outpoint_to_sat_ranges = remove null_outpoint s.outpoint_to_sat_ranges })
          (unwrap_or (lookup null_outpoint s.outpoint_to_sat_ranges) []) (range ∷ ranges)
    done
        (record s' { outpoint_to_sat_ranges = insert null_outpoint lost s'.outpoint_to_sat_ranges })

  -- The range that the block mines.
  unfoldable pub mine : SatUpdater → ℕ → Outcome (SatUpdater × List (ℕ × ℕ))
  mine s height = do
    subsidy ← height_subsidy checks c height
    if ltb 0 subsidy
        then (do
          start ← height_starting_sat checks c height
          end ← add_checked checks u64_max start subsidy
          done (
            record s { sat_ranges_since_flush = s.sat_ranges_since_flush + 1 },
            (start, end) ∷ [],
          ))
        else done (s, [])

  -- The coinbase comes last; a block without transactions has none.
  unfoldable pub index_coinbase :
      SatUpdater → List SatTransaction → List (ℕ × ℕ) → Outcome (Option (SatUpdater × List (ℕ × ℕ)))
  unfolding index_transaction_sats
  index_coinbase s [] coinbase_inputs = done (some (s, coinbase_inputs))
  index_coinbase s (tx ∷ txs) coinbase_inputs =
      index_transaction_sats checks c s tx.outputs coinbase_inputs

  abbrev after_first : List SatTransaction → List SatTransaction
  after_first [] = []
  after_first (tx ∷ txs) = txs

  unfoldable pub index_block_sats :
      SatUpdater → ℕ → List SatTransaction → Outcome (Option SatUpdater)
  unfolding mine index_rest index_coinbase index_lost
  index_block_sats s height txs = do
    (mined, coinbase_inputs) ← mine s height
    others ← index_rest mined (after_first txs) coinbase_inputs
    elim others [
      | none ↦ done none
      | some (s', inputs) ↦ do
        claimed ← index_coinbase s' txs inputs
        elim claimed [
          | none ↦ done none
          | some (s'', left) ↦ do lost ← index_lost s'' left; done (some lost)
        ]
    ]
