-- ===== src/Runes/Updater/Index.antt =====
-- `RuneUpdater::index_runes` on one transaction, and the flush of the updates after a block.
use okx_ord.Common.{◌+◌, ℕ, List, [], ◌∷◌, Option, none, some, Bool, true, false, length, replicate}
use okx_ord.Common.Dict.{Dict, lookup, insert}
use okx_ord.Common.Outcome.{Outcome, done, ◌>>=◌, add_checked, unwrap, u64_max, u128_max}
use okx_ord.Runes.Types.{Etching, Runestone, RuneEntry, Transaction}
use okx_ord.Runes.Updater.State.{RuneUpdater, RuneUpdate}
use okx_ord.Runes.Updater.Inputs.{load_inputs}
use okx_ord.Runes.Updater.Etch.{Allocation, etch, enter}
use okx_ord.Runes.Updater.Edicts.{Pools, apply_edicts}
use okx_ord.Runes.Updater.Mints.{mintable_of, count_mints}
use okx_ord.Runes.Updater.Settle.{settle, store_outputs, count_burned}

abbrev pub is_burn : Option Runestone → Bool
is_burn none = false
is_burn (some stone) = stone.burn

abbrev pub default_of : Option Runestone → Option ℕ
default_of none = none
default_of (some stone) = stone.default_output

-- `match runestone.etching`
unfoldable pub etching_of :
    Bool → RuneUpdater → ℕ → Option Etching → Outcome (RuneUpdater × Option Allocation)
etching_of checks s index none = done (s, none)
etching_of checks s index (some etching) = etch checks s index etching

-- `if let Some(Allocation { .. }) = allocation`
unfoldable pub enter_all : Bool → RuneUpdater → ℕ → Bool → Option Allocation → Outcome RuneUpdater
enter_all checks s txid burn none = done s
enter_all checks s txid burn (some a) = enter checks s txid burn a

-- `if !burn`: the edicts, and the count of the mints.
unfoldable pub run_edicts :
    Bool → List Bool → Runestone → RuneUpdater → Pools → Outcome (RuneUpdater × Pools)
run_edicts checks outputs stone s p = elim stone.burn [
  | true ↦ done (s, p)
  | false ↦ do
    p' ← apply_edicts checks outputs stone.edicts p
    updates ← count_mints checks p.mintable p'.mintable s.updates
    done (record s { updates = updates }, p')
]

-- `if let Some(runestone) = runestone`
unfoldable pub apply_runestone :
    Bool
    → ℕ
    → Transaction
    → ℕ
    → Option Runestone
    → RuneUpdater
    → Dict ℕ
    → Outcome (RuneUpdater × Dict ℕ × List (Dict ℕ))
unfolding etching_of run_edicts enter_all
apply_runestone checks index tx txid none s unallocated =
    done (s, unallocated, replicate (length tx.is_op_return) [])
apply_runestone checks index tx txid (some stone) s unallocated = do
  (s1, allocation) ← etching_of checks s index stone.etching
  (s2, p) ← run_edicts checks tx.is_op_return stone s1 (record {
    allocation = allocation;
    mintable = mintable_of s1 stone.edicts;
    unallocated = unallocated;
    allocated = replicate (length tx.is_op_return) [];
  })
  s3 ← enter_all checks s2 txid stone.burn p.allocation
  done (s3, p.unallocated, p.allocated)

-- `RuneUpdater::index_runes`: `runestone` is what `Runestone::from_transaction` finds.
unfoldable pub index_runes :
    Bool → ℕ → Transaction → ℕ → Option Runestone → RuneUpdater → Outcome RuneUpdater
unfolding apply_runestone
index_runes checks index tx txid runestone s = do
  (table, unallocated) ← load_inputs checks tx.input s.outpoint_to_balances []
  (s', unallocated', allocated) ←
      apply_runestone checks index tx txid runestone (record s { outpoint_to_balances = table })
        unallocated
  (allocated', burned) ←
      settle checks (is_burn runestone) (default_of runestone) tx.is_op_return unallocated'
        allocated
  (table', burned') ←
      store_outputs checks txid 0 tx.is_op_return allocated' s'.outpoint_to_balances burned
  updates ← count_burned checks burned' s'.updates
  done (record s' { outpoint_to_balances = table'; updates = updates })

-- `for (i, (tx, txid)) in block.txdata.iter().enumerate()` of src/index/updater.rs, from the index
-- `i` on. `find` stands for `Runestone::from_transaction`.
unfoldable pub index_all :
    Bool
    → (Transaction → Option Runestone)
    → ℕ
    → List (Transaction × ℕ)
    → RuneUpdater
    → Outcome RuneUpdater
unfolding index_runes
index_all checks find i [] s = done s
index_all checks find i ((tx, txid) ∷ rest) s = do
  s' ← index_runes checks i tx txid (find tx) s
  index_all checks find (i + 1) rest s'

-- `for (rune_id, update) in rune_updater.updates` of src/index/updater.rs.
unfoldable pub flush_updates : Bool → Dict RuneUpdate → Dict RuneEntry → Outcome (Dict RuneEntry)
flush_updates checks [] entries = done entries
flush_updates checks ((id, update) ∷ updates) entries = do
  entry ← unwrap (lookup id entries)
  burned ← add_checked checks u128_max entry.burned update.burned
  mints ← add_checked checks u64_max entry.mints update.mints
  supply ← add_checked checks u128_max entry.supply update.supply
  flush_updates checks updates
      (insert id (record entry { burned = burned; mints = mints; supply = supply }) entries)
