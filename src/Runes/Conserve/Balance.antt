-- ===== src/Runes/Conserve/Balance.antt =====
-- The books of every rune over the whole of `RuneUpdater::index_runes`.
use okx_ord.Common.{
  ℕ, ◌+◌, ◌≤◌, ◌≡◌, refl, ◌∙◌, List, [], Option, none, some, Bool, arith, length, length-replicate,
  replicate,
}
use okx_ord.Common.Dict.{Dict, total}
use okx_ord.Common.Outcome.{done, u32_max, u128_max}
use okx_ord.Runes.Types.{Runestone, Transaction}
use okx_ord.Runes.Updater.State.{RuneUpdater, RuneUpdate}
use okx_ord.Runes.Updater.Mints.{mintable_of}
use okx_ord.Runes.Updater.Inputs.{load_inputs}
use okx_ord.Runes.Updater.Settle.{settle, store_outputs, count_burned}
use okx_ord.Runes.Updater.Index.{apply_runestone, index_runes, is_burn, default_of}
use okx_ord.Runes.Conserve.Totals.{HasIds, replicate-AllHasIds, total_all-replicate}
use okx_ord.Runes.Conserve.Minting.{update_of, mintable_of_same}
use okx_ord.Runes.Conserve.Held.{held, TableHasIds, load_inputs-InputsLoaded}
use okx_ord.Runes.Conserve.Leftovers.{settle-Settled}
use okx_ord.Runes.Conserve.Store.{store_outputs-Stored, count_burned_lem, IsFresh, out_key}
use okx_ord.Runes.Conserve.Ledger.{supply, burned, IsRunnable, Applied, CanEtchAll}
use okx_ord.Runes.Conserve.Issue.{entry_burned}
use okx_ord.Runes.Conserve.Books.{apply_some}

-- The unspent balances and the burned amount make up the supply, for every rune.
pub record IsBalanced (s : RuneUpdater) : Type 0 where
  pub sums : (k : ℕ) → held k s.outpoint_to_balances + burned k s ≡ supply k s
  pub table_ids : TableHasIds s.outpoint_to_balances

abbrev pub IsReady : ℕ → List Bool → RuneUpdater → Option Runestone → Type 0
IsReady index outputs s none = Unit
IsReady index outputs s (some stone) = IsRunnable index outputs s stone

IsRunnable-table :
    (index : ℕ) (outputs : List Bool) (s : RuneUpdater) (stone : Runestone) (t : Dict (List ℕ))
    → IsRunnable index outputs s stone
    → IsRunnable index outputs (record s { outpoint_to_balances = t }) stone
IsRunnable-table index outputs s stone t run =
    let same : mintable_of (record s { outpoint_to_balances = t }) stone.edicts
        ≡ mintable_of s stone.edicts =
      mintable_of_same s (record s { outpoint_to_balances = t }) stone.edicts refl refl refl in
    record {
      splits = run.splits;
      etching = can stone.etching run.etching;
      no_entry = run.no_entry;
      no_supply = run.no_supply;
      runes_room = run.runes_room;
      mint_room = λ k. rw same (run.mint_room k);
      mint_count = λ k. rw same (run.mint_count k);
    }
  where
    can : (e : _) → CanEtchAll s e → CanEtchAll (record s { outpoint_to_balances = t }) e
    can none c = c
    can (some e) c = record { limit = c.limit; term = c.term; reserved_room = c.reserved_room }

apply_runestone-Applied :
    (checks : Bool) (index : ℕ) (tx : Transaction) (txid : ℕ) (stone : Option Runestone)
    (s : RuneUpdater) (u : Dict ℕ) (t : Dict (List ℕ))
    → s.height ≤ u32_max
    → IsReady index tx.is_op_return s stone
    → HasIds u
    → ((k : ℕ) → total k u ≤ supply k s)
    → ((k : ℕ) → supply k s ≤ u128_max)
    → (r : RuneUpdater × Dict ℕ × List (Dict ℕ)) × (apply_runestone checks index tx txid stone
          (record s { outpoint_to_balances = t })
          u
        ≡ done r)
      × Applied tx.is_op_return (record s { outpoint_to_balances = t }) u r.0 r.1 r.2
unfolding apply_runestone
apply_runestone-Applied checks index tx txid none s u t hh ready hu covered room = (
  (record s { outpoint_to_balances = t }, u, replicate (length tx.is_op_return) []),
  refl,
  record {
    sums = λ k. omega (arith, total_all-replicate k (length tx.is_op_return));
    burned_same = λ k. refl;
    room = room;
    grows = λ k. omega arith;
    table = refl;
    left_ids = hu;
    out_ids = replicate-AllHasIds (length tx.is_op_return);
    one_each = length-replicate (length tx.is_op_return) [];
  },
)
apply_runestone-Applied checks index tx txid (some stone) s u t hh ready hu covered room =
    unfold apply_runestone in
    apply_some checks index tx txid stone (record s { outpoint_to_balances = t }) u hh
      (IsRunnable-table index tx.is_op_return s stone t ready) hu covered

-- What one transaction does to the books.
pub record Indexed (s s' : RuneUpdater) : Type 0 where
  pub balanced : IsBalanced s'
  pub room : (k : ℕ) → supply k s' ≤ u128_max
  pub supply_grows : (k : ℕ) → supply k s ≤ supply k s'
  pub burned_grows : (k : ℕ) → burned k s ≤ burned k s'

index_runes_steps :
    (checks : Bool) (index : ℕ) (tx : Transaction) (txid : ℕ) (stone : Option Runestone)
    (s : RuneUpdater) (t1 : Dict (List ℕ)) (u1 : Dict ℕ) (s2 : RuneUpdater) (u2 : Dict ℕ)
    (ds ds' : List (Dict ℕ)) (b3 : Dict ℕ) (t4 : Dict (List ℕ)) (b4 : Dict ℕ) (u5 : Dict RuneUpdate)
    → load_inputs checks tx.input s.outpoint_to_balances [] ≡ done (t1, u1)
    → apply_runestone checks index tx txid stone (record s { outpoint_to_balances = t1 }) u1
      ≡ done (s2, u2, ds)
    → settle checks (is_burn stone) (default_of stone) tx.is_op_return u2 ds ≡ done (ds', b3)
    → store_outputs checks txid 0 tx.is_op_return ds' s2.outpoint_to_balances b3 ≡ done (t4, b4)
    → count_burned checks b4 s2.updates ≡ done u5
    → index_runes checks index tx txid stone s
      ≡ done (record s2 { outpoint_to_balances = t4; updates = u5 })
unfolding index_runes
index_runes_steps checks index tx txid stone s t1 u1 s2 u2 ds ds' b3 t4 b4 u5 e1 e2 e3 e4 e5 =
    rw (e1, e2, e3, e4, e5) refl

-- Where the balances of a transaction go once its runestone is applied.
record Finished (s s2 : RuneUpdater) (t4 : Dict (List ℕ)) (u5 : Dict RuneUpdate) : Type 0 where
  sums :
      (k : ℕ) → held k t4 + (entry_burned k s2.id_to_entry + (update_of k u5).burned) ≡ supply k s2
  same_supply : (k : ℕ) → (update_of k u5).supply ≡ (update_of k s2.updates).supply
  burned_grows : (k : ℕ) → (update_of k s2.updates).burned ≤ (update_of k u5).burned
  table_ids : TableHasIds t4

finish :
    (checks burn : Bool) (default : Option ℕ) (outputs : List Bool) (txid : ℕ) (s s2 : RuneUpdater)
    (t1 : Dict (List ℕ)) (u1 u2 : Dict ℕ) (ds : List (Dict ℕ))
    → length outputs ≤ u32_max
    → IsFresh txid 0 t1
    → TableHasIds t1
    → ((k : ℕ) → total k u1 + held k t1 + burned k s ≡ supply k s)
    → Applied outputs (record s { outpoint_to_balances = t1 }) u1 s2 u2 ds
    → (ds' : List (Dict ℕ)) × (b3 : Dict ℕ) × (t4 : Dict (List ℕ)) × (b4 : Dict ℕ) × (u5 : Dict
        RuneUpdate)
      × (settle checks burn default outputs u2 ds ≡ done (ds', b3))
      × (store_outputs checks txid 0 outputs ds' t1 b3 ≡ done (t4, b4))
      × (count_burned checks b4 s2.updates ≡ done u5)
      × Finished s s2 t4 u5
finish checks burn default outputs txid s s2 t1 u1 u2 ds outs fresh ids before applied =
    let ((ds', b3), e3, settled) =
      settle-Settled checks burn default outputs u2 ds applied.left_ids applied.out_ids
        applied.one_each (λ k. omega (arith, applied.sums k, applied.room k, before k)) in
    let ((t4, b4), e4, stored) =
      store_outputs-Stored checks txid 0 outputs ds' t1 b3 (settled.same_length ∙ applied.one_each)
        (omega (arith, outs)) fresh settled.has_ids ids settled.burned_ids
        (λ k. omega (arith, settled.sums k, applied.sums k, applied.room k, before k)) in
    let after : (k : ℕ) → held k t4 + total k b4 + burned k s ≡ supply k s2 =
      λ k. omega (arith, stored.sums k, settled.sums k, applied.sums k, before k) in
    let (u5, e5, counted) =
      count_burned_lem checks b4 s2.updates stored.burned_ids
        (λ k. omega (arith, after k, applied.burned_same k, applied.room k)) in
    (
      ds',
      b3,
      t4,
      b4,
      u5,
      e3,
      e4,
      e5,
      record {
        sums = λ k. omega (arith, after k, counted k, applied.burned_same k);
        same_supply = λ k. (counted k).1;
        burned_grows = λ k. omega (arith, counted k);
        table_ids = stored.table_ids;
      },
    )

close_up :
    (s s2 : RuneUpdater) (t1 t4 : Dict (List ℕ)) (u1 u2 : Dict ℕ) (u5 : Dict RuneUpdate)
    (outputs : List Bool) (ds : List (Dict ℕ))
    → Applied outputs (record s { outpoint_to_balances = t1 }) u1 s2 u2 ds
    → Finished s s2 t4 u5
    → Indexed s (record s2 { outpoint_to_balances = t4; updates = u5 })
close_up s s2 t1 t4 u1 u2 u5 outputs ds applied finished = record {
  balanced = record {
    sums = λ k. omega (arith, finished.sums k, finished.same_supply k);
    table_ids = finished.table_ids;
  };
  room = λ k. omega (arith, finished.same_supply k, applied.room k);
  supply_grows = λ k. omega (arith, finished.same_supply k, applied.grows k);
  burned_grows = λ k. omega (arith, finished.burned_grows k, applied.burned_same k);
}

-- Let the height and the number of outputs fit a u32, let no output of the transaction be in the
-- table yet, let every supply fit a u128, and let the runestone, if there is one, be runnable
-- (`IsRunnable`). Then `index_runes` returns and does not panic. If before, for each rune, the
-- unspent balances and the burned amount make up the supply, they do so after it; every supply
-- still fits a u128, and no rune's supply and no rune's burned amount becomes less.
pub index_runes-Indexed :
    (checks : Bool) (index : ℕ) (tx : Transaction) (txid : ℕ) (stone : Option Runestone)
    (s : RuneUpdater)
    → s.height ≤ u32_max
    → length tx.is_op_return ≤ u32_max
    → IsFresh txid 0 s.outpoint_to_balances
    → ((k : ℕ) → supply k s ≤ u128_max)
    → IsReady index tx.is_op_return s stone
    → IsBalanced s
    → (s' : RuneUpdater) × (index_runes checks index tx txid stone s ≡ done s') × Indexed s s'
unfolding total HasIds
index_runes-Indexed checks index tx txid stone s hh outs fresh room ready balanced =
    let ((t1, u1), e1, loaded) =
      load_inputs-InputsLoaded checks tx.input s.outpoint_to_balances [] balanced.table_ids tt
        (λ k. omega (arith, balanced.sums k, room k)) in
    let before : (k : ℕ) → total k u1 + held k t1 + burned k s ≡ supply k s =
      λ k. omega (arith, loaded.sums k, balanced.sums k) in
    let ((s2, u2, ds), e2, applied) =
      apply_runestone-Applied checks index tx txid stone s u1 t1 hh ready loaded.has_ids
        (λ k. omega (arith, before k)) room in
    let (ds', b3, t4, b4, u5, e3, e4, e5, finished) =
      finish checks (is_burn stone) (default_of stone) tx.is_op_return txid s s2 t1 u1 u2 ds outs
        (λ v h. loaded.absent (out_key txid v) (fresh v h)) loaded.table_ids before applied in
    (
      record s2 { outpoint_to_balances = t4; updates = u5 },
      index_runes_steps checks index tx txid stone s t1 u1 s2 u2 ds ds' b3 t4 b4 u5 e1 e2 e3
          (rw applied.table e4) e5,
      close_up s s2 t1 t4 u1 u2 u5 tx.is_op_return ds applied finished,
    )
