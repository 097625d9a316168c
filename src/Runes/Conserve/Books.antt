-- ===== src/Runes/Conserve/Books.antt =====
-- The books of one rune over the steps of a runestone.
use okx_ord.Common.{
  ℕ, ◌+◌, ◌≤◌, ◌≡◌, refl, ◌∙◌, List, [], Option, none, some, Bool, arith, length, length-replicate,
  replicate, ap,
}
use okx_ord.Common.Dict.{Dict, total}
use okx_ord.Common.Outcome.{done, u32_max, u128_max}
use okx_ord.Runes.Types.{Runestone, Transaction}
use okx_ord.Runes.Updater.State.{RuneUpdater, RuneUpdate}
use okx_ord.Runes.Updater.Etch.{Allocation}
use okx_ord.Runes.Updater.Edicts.{Pools}
use okx_ord.Runes.Updater.Mints.{mintable_of}
use okx_ord.Runes.Updater.Index.{run_edicts, enter_all, apply_runestone}
use okx_ord.Runes.Conserve.Totals.{total_all, HasIds, replicate-AllHasIds, total_all-replicate}
use okx_ord.Runes.Conserve.Pools.{potential, issuance_under, issuance_under-le, IsValid, Fits}
use okx_ord.Runes.Conserve.Minting.{
  update_of, mintable_of-HasOnce, HasOnce, mintable_of_same, total-mintable_of_new,
}
use okx_ord.Runes.Conserve.Etching.{new_id, IsIssue, Keeps}
use okx_ord.Runes.Conserve.Issue.{entry_supply, entry_burned}
use okx_ord.Runes.Conserve.Ledger.{
  supply, burned, IsRunnable, Applied, etching_of_lem, issuance_valid, issue_fits, Ran,
  run_edicts-Ran, Closed, enter_all-Closed,
}

first_pools : List Bool → Option Allocation → Dict ℕ → Dict ℕ → Pools
first_pools outputs o m u = record {
  allocation = o;
  mintable = m;
  unallocated = u;
  allocated = replicate (length outputs) [];
}

-- The pools with which the loop over the edicts begins.
first_pools_ready :
    (index : ℕ) (outputs : List Bool) (s : RuneUpdater) (o : Option Allocation) (m u : Dict ℕ)
    → s.height ≤ u32_max
    → IsIssue s index o
    → HasIds m
    → HasIds u
    → ((k : ℕ) → total k u ≤ supply k s)
    → ((k : ℕ) → issuance_under k o + total k m + supply k s ≤ u128_max)
    → IsValid outputs (first_pools outputs o m u) × Fits (first_pools outputs o m u)
unfolding first_pools potential
first_pools_ready index outputs s o m u hh i hm hu covered room = (
  record {
    issue_id = issuance_valid s index o hh i;
    mintable_ids = hm;
    unallocated_ids = hu;
    allocated_ids = replicate-AllHasIds (length outputs);
    one_each = length-replicate (length outputs) [];
  },
  λ k. omega (arith, covered k, room k, total_all-replicate k (length outputs)),
)

-- The edicts, the mints and the new entry, from the state after the etching.
after_etch :
    (checks : Bool) (index : ℕ) (outputs : List Bool) (txid : ℕ) (stone : Runestone)
    (s s1 : RuneUpdater) (o : Option Allocation) (m u : Dict ℕ)
    → s.height ≤ u32_max
    → IsRunnable index outputs s stone
    → Keeps s index s1 o
    → m ≡ mintable_of s stone.edicts
    → HasOnce m × HasIds m
    → HasIds u
    → ((k : ℕ) → total k u ≤ supply k s)
    → (r : RuneUpdater × Pools) × (run_edicts checks outputs stone s1 (first_pools outputs o m u)
        ≡ done r)
      × Ran outputs s1 (first_pools outputs o m u) r.0 r.1
      × ((k : ℕ) → issuance_under k o + total k m + supply k s ≤ u128_max)
after_etch checks index outputs txid stone s s1 o m u hh run etched same (once, ids) hu covered =
    let room : (k : ℕ) → issuance_under k o + total k m + supply k s ≤ u128_max = λ k.
      issue_fits s index o m k etched.issue
        (rw same (total-mintable_of_new s (new_id s index) stone.edicts run.no_entry)) run.no_supply
        (rw same (run.mint_room k)) in
    let (valid, fits) =
      first_pools_ready index outputs s o m u hh etched.issue ids hu covered room in
    let (r, e, ran) =
      run_edicts-Ran checks outputs stone s1 (first_pools outputs o m u) run.splits valid fits
        (unfold first_pools in once)
        (λ k. unfold first_pools in rw (etched.updates, same) (run.mint_count k))
        (λ k. unfold first_pools in rw etched.updates (omega (arith, room k))) in
    (r, e, ran, room)

same_supply :
    (k : ℕ) (s s' : RuneUpdater)
    → s'.id_to_entry ≡ s.id_to_entry
    → s'.updates ≡ s.updates
    → (supply k s' ≡ supply k s) × (burned k s' ≡ burned k s)
same_supply k s s' e u = (rw (e, u) refl, rw (e, u) refl)

-- The books of one rune over the steps of a runestone.
close_books :
    (s s1 s2 s3 : RuneUpdater) (outputs : List Bool) (index : ℕ) (o : Option Allocation)
    (m u : Dict ℕ) (p' : Pools) (k : ℕ)
    → Keeps s index s1 o
    → Ran outputs s1 (first_pools outputs o m u) s2 p'
    → Closed s2 o p'.allocation s3
    → issuance_under k o + total k m + supply k s ≤ u128_max
    → (total k p'.unallocated + total_all k p'.allocated + supply k s ≡ total k u + supply k s3)
      × (burned k s3 ≡ burned k s)
      × (supply k s3 ≤ u128_max)
      × (supply k s ≤ supply k s3)
unfolding first_pools potential
close_books s s1 s2 s3 outputs index o m u p' k etched ran closed room = omega (
  arith,
  ran.kept k,
  ran.minted k,
  ran.less k,
  ran.burned k,
  closed.supply k,
  closed.burned k,
  issuance_under-le o p'.allocation k ran.allocation,
  total_all-replicate k (length outputs),
  ap (entry_supply k) ran.entries,
  ap (entry_burned k) ran.entries,
  ap (λ (x : Dict RuneUpdate). (update_of k x).supply) closed.updates,
  ap (λ (x : Dict RuneUpdate). (update_of k x).burned) closed.updates,
  same_supply k s s1 etched.entries etched.updates,
)

-- The new rune enters the state that the edicts left.
close :
    (checks : Bool) (index txid : ℕ) (stone : Runestone) (s s1 s2 : RuneUpdater)
    (outputs : List Bool) (o : Option Allocation) (m u : Dict ℕ) (p' : Pools)
    → s.height ≤ u32_max
    → IsRunnable index outputs s stone
    → Keeps s index s1 o
    → Ran outputs s1 (first_pools outputs o m u) s2 p'
    → (s3 : RuneUpdater) × (enter_all checks s2 txid stone.burn p'.allocation ≡ done s3)
      × Closed s2 o p'.allocation s3
close checks index txid stone s s1 s2 outputs o m u p' hh run etched ran =
    let height : s2.height ≡ s.height = ran.height ∙ etched.height in
    let entries : s2.id_to_entry ≡ s.id_to_entry = ran.entries ∙ etched.entries in
    enter_all-Closed checks s2 txid stone.burn index o p'.allocation (rw height hh)
      (rw (ran.runes, etched.runes) run.runes_room) (rw (height, entries) run.no_entry)
      (moved_issue o height etched.issue) (unfold first_pools in ran.allocation)
  where
    moved_issue :
        (o : Option Allocation) → s2.height ≡ s.height → IsIssue s index o → IsIssue s2 index o
    moved_issue none h i = tt
    moved_issue (some a) h i = rw h i

pub apply_some :
    (checks : Bool) (index : ℕ) (tx : Transaction) (txid : ℕ) (stone : Runestone) (s : RuneUpdater)
    (u : Dict ℕ)
    → s.height ≤ u32_max
    → IsRunnable index tx.is_op_return s stone
    → HasIds u
    → ((k : ℕ) → total k u ≤ supply k s)
    → (r : RuneUpdater × Dict ℕ × List (Dict ℕ)) × (apply_runestone checks index tx txid
          (some stone)
          s
          u
        ≡ done r)
      × Applied tx.is_op_return s u r.0 r.1 r.2
unfolding apply_runestone first_pools
apply_some checks index tx txid stone s u hh run hu covered =
    let outputs = tx.is_op_return in
    let ((s1, o), e1, etched) = etching_of_lem checks s index stone.etching hh run.etching in
    let m = mintable_of s1 stone.edicts in
    let ((s2, p'), e2, ran, room) =
      after_etch checks index outputs txid stone s s1 o m u hh run etched
        (mintable_of_same s s1 stone.edicts etched.entries etched.height etched.timestamp)
        (mintable_of-HasOnce s1 stone.edicts) hu covered in
    let (s3, e3, closed) =
      close checks index txid stone s s1 s2 outputs o m u p' hh run etched ran in
    let books : (k : ℕ) → _ =
      λ k. close_books s s1 s2 s3 outputs index o m u p' k etched ran closed (room k) in
    (
      (s3, p'.unallocated, p'.allocated),
      rw (e1, e2, e3) refl,
      record {
        sums = λ k. (books k).0;
        burned_same = λ k. (books k).1;
        room = λ k. (books k).2;
        grows = λ k. (books k).3;
        table = closed.table ∙ ran.table ∙ etched.table;
        left_ids = ran.valid.unallocated_ids;
        out_ids = ran.valid.allocated_ids;
        one_each = ran.valid.one_each;
      },
    )
