-- ===== src/Runes/Conserve/Block.antt =====
-- The loop over the transactions of a block, in src/index/updater.rs.
use okx_ord.Common.{ℕ, ◌+◌, ◌≤◌, ◌≡◌, refl, List, [], ◌∷◌, Option, Bool, arith, length}
use okx_ord.Common.Outcome.{done, u32_max, u128_max}
use okx_ord.Runes.Types.{Runestone, Transaction}
use okx_ord.Runes.Updater.State.{RuneUpdater}
use okx_ord.Runes.Updater.Index.{index_runes, index_all}
use okx_ord.Runes.Conserve.Store.{IsFresh}
use okx_ord.Runes.Conserve.Ledger.{supply}
use okx_ord.Runes.Conserve.Balance.{IsBalanced, IsReady, Indexed, index_runes-Indexed}

-- What the loop asks of a transaction in the state that it meets.
pub record IsIndexable (index : ℕ) (tx : Transaction) (txid : ℕ) (stone : Option Runestone)
    (s : RuneUpdater) : Type 0 where
  pub height : s.height ≤ u32_max
  pub outputs : length tx.is_op_return ≤ u32_max
  pub fresh : IsFresh txid 0 s.outpoint_to_balances
  pub ready : IsReady index tx.is_op_return s stone

-- Each transaction is indexable in the state that the ones before it leave.
unfoldable pub AreIndexable :
    Bool → (Transaction → Option Runestone) → ℕ → List (Transaction × ℕ) → RuneUpdater → Type 0
AreIndexable checks find i [] s = Unit
AreIndexable checks find i ((tx, txid) ∷ rest) s =
    IsIndexable i tx txid (find tx) s
    × ((s' : RuneUpdater)
        → index_runes checks i tx txid (find tx) s ≡ done s'
        → AreIndexable checks find (i + 1) rest s')

Indexed-refl : (s : RuneUpdater) → IsBalanced s → ((k : ℕ) → supply k s ≤ u128_max) → Indexed s s
Indexed-refl s balanced room = record {
  balanced = balanced;
  room = room;
  supply_grows = λ k. omega arith;
  burned_grows = λ k. omega arith;
}

Indexed-trans : (s t u : RuneUpdater) → Indexed s t → Indexed t u → Indexed s u
Indexed-trans s t u p q = record {
  balanced = q.balanced;
  room = q.room;
  supply_grows = λ k. omega (arith, p.supply_grows k, q.supply_grows k);
  burned_grows = λ k. omega (arith, p.burned_grows k, q.burned_grows k);
}

-- Let each transaction of a block be indexable in the state that the ones before it leave, let the
-- unspent balances and the burned amount of each rune make up its supply before the block, and let
-- every supply fit a u128. Then the loop over the transactions returns and does not panic. After it
-- the balances and the burned amounts make up the supplies again, every supply fits a u128, and no
-- supply and no burned amount is less than before.
pub index_all-Indexed :
    (checks : Bool) (find : Transaction → Option Runestone) (i : ℕ) (txs : List (Transaction × ℕ))
    (s : RuneUpdater)
    → AreIndexable checks find i txs s
    → ((k : ℕ) → supply k s ≤ u128_max)
    → IsBalanced s
    → (s' : RuneUpdater) × (index_all checks find i txs s ≡ done s') × Indexed s s'
unfolding index_all AreIndexable
index_all-Indexed checks find i [] s able room balanced = (s, refl, Indexed-refl s balanced room)
index_all-Indexed checks find i ((tx, txid) ∷ rest) s (able, later) room balanced =
    let (s1, e, indexed) =
      index_runes-Indexed checks i tx txid (find tx) s able.height able.outputs able.fresh room
        able.ready balanced in
    let (s2, e', indexed') =
      index_all-Indexed checks find (i + 1) rest s1 (later s1 e) indexed.room indexed.balanced in
    (s2, rw e e', Indexed-trans s s1 s2 indexed indexed')
