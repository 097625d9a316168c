-- ===== src/Runes/Conserve/Ledger.antt =====
-- Supply and burned amount, and the steps of a runestone: etching, edicts and mints, entry.
use okx_ord.Common.{
  ℕ, ◌+◌, ◌≤◌, ◌<◌, ◌≡◌, refl, ◌∙◌, List, Option, none, some, Bool, ◌==◌, arith, length, Bool-cases,
  inl, inr, All, ==_iff, ap, sym,
}
use okx_ord.Common.Dict.{Dict, lookup, total}
use okx_ord.Common.Outcome.{done, u32_max, u64_max, u128_max}
use okx_ord.Runes.Types.{Etching, Runestone}
use okx_ord.Runes.Updater.State.{RuneUpdater}
use okx_ord.Runes.Updater.Etch.{Allocation, issued}
use okx_ord.Runes.Updater.Edicts.{Pools}
use okx_ord.Runes.Updater.Mints.{mintable_of}
use okx_ord.Runes.Updater.Index.{etching_of, enter_all, run_edicts}
use okx_ord.Runes.Conserve.Totals.{total_all, HasIds, AllHasIds}
use okx_ord.Runes.Conserve.Edicts.{apply_edicts-Keeps}
use okx_ord.Runes.Conserve.Pools.{
  potential, issuance_under, IsValid, CanSplit, Fits, SpendsFrom, SpendsFrom-refl, HasIssueId,
  length-Shrinks, total-Shrinks-le,
}
use okx_ord.Runes.Conserve.Minting.{update_of, Holds-self, HasOnce, count_mints-Counted}
use okx_ord.Runes.Conserve.Etching.{new_id, CanEtch, IsIssue, Keeps, etch-Keeps}
use okx_ord.Runes.Conserve.Issue.{entry_supply, entry_burned, enter-Entered}

-- The supply and the burned amount of a rune, the updates of the block included.
abbrev pub supply : ℕ → RuneUpdater → ℕ
supply k s = entry_supply k s.id_to_entry + (update_of k s.updates).supply

abbrev pub burned : ℕ → RuneUpdater → ℕ
burned k s = entry_burned k s.id_to_entry + (update_of k s.updates).burned

abbrev pub CanEtchAll : RuneUpdater → Option Etching → Type 0
CanEtchAll s none = Unit
CanEtchAll s (some e) = CanEtch s e

-- What a runestone must meet, so that no number overflows and no balance is split between no
-- outputs. The id of a new rune is not in use yet.
pub record IsRunnable (index : ℕ) (outputs : List Bool) (s : RuneUpdater) (stone : Runestone)
    : Type 0 where
  pub splits : All (CanSplit outputs) stone.edicts
  pub etching : CanEtchAll s stone.etching
  pub no_entry : lookup (new_id s index) s.id_to_entry ≡ none
  pub no_supply : supply (new_id s index) s ≡ 0
  pub runes_room : s.runes < u64_max
  pub mint_room : (k : ℕ) → supply k s + total k (mintable_of s stone.edicts) ≤ u128_max
  pub mint_count :
      (k : ℕ) → (update_of k s.updates).mints + length (mintable_of s stone.edicts) ≤ u64_max

-- What a runestone made of the unallocated runes `u`.
pub record Applied (outputs : List Bool) (s : RuneUpdater) (u : Dict ℕ) (s' : RuneUpdater)
    (u' : Dict ℕ) (ds : List (Dict ℕ)) : Type 0 where
  pub sums : (k : ℕ) → total k u' + total_all k ds + supply k s ≡ total k u + supply k s'
  pub burned_same : (k : ℕ) → burned k s' ≡ burned k s
  pub room : (k : ℕ) → supply k s' ≤ u128_max
  pub grows : (k : ℕ) → supply k s ≤ supply k s'
  pub table : s'.outpoint_to_balances ≡ s.outpoint_to_balances
  pub left_ids : HasIds u'
  pub out_ids : AllHasIds ds
  pub one_each : length ds ≡ length outputs

pub etching_of_lem :
    (checks : Bool) (s : RuneUpdater) (index : ℕ) (e : Option Etching)
    → s.height ≤ u32_max
    → CanEtchAll s e
    → (r : RuneUpdater × Option Allocation) × (etching_of checks s index e ≡ done r)
      × Keeps s index r.0 r.1
unfolding etching_of
etching_of_lem checks s index none hh can = (
  (s, none),
  refl,
  record {
    entries = refl;
    updates = refl;
    table = refl;
    height = refl;
    timestamp = refl;
    runes = refl;
    issue = tt;
  },
)
etching_of_lem checks s index (some e) hh can = etch-Keeps checks s index e hh can

-- What the edicts and the mints made of the pools.
pub record Ran (outputs : List Bool) (s : RuneUpdater) (p : Pools) (s' : RuneUpdater) (p' : Pools)
    : Type 0 where
  pub minted :
      (k : ℕ)
      → (update_of k s'.updates).supply + total k p'.mintable
        ≡ (update_of k s.updates).supply + total k p.mintable
  pub less : (k : ℕ) → total k p'.mintable ≤ total k p.mintable
  pub kept : (k : ℕ) → potential k p' ≡ potential k p
  pub burned : (k : ℕ) → (update_of k s'.updates).burned ≡ (update_of k s.updates).burned
  pub allocation : SpendsFrom p.allocation p'.allocation
  pub valid : IsValid outputs p'
  pub entries : s'.id_to_entry ≡ s.id_to_entry
  pub table : s'.outpoint_to_balances ≡ s.outpoint_to_balances
  pub height : s'.height ≡ s.height
  pub runes : s'.runes ≡ s.runes

pub run_edicts-Ran :
    (checks : Bool) (outputs : List Bool) (stone : Runestone) (s : RuneUpdater) (p : Pools)
    → All (CanSplit outputs) stone.edicts
    → IsValid outputs p
    → Fits p
    → HasOnce p.mintable
    → ((k : ℕ) → (update_of k s.updates).mints + length p.mintable ≤ u64_max)
    → ((k : ℕ) → (update_of k s.updates).supply + total k p.mintable ≤ u128_max)
    → (r : RuneUpdater × Pools) × (run_edicts checks outputs stone s p ≡ done r)
      × Ran outputs s p r.0 r.1
unfolding run_edicts
run_edicts-Ran checks outputs stone s p splits valid fits once few room =
    elim (Bool-cases stone.burn) [
      | inl burns ↦ (
        (s, p),
        rw (burns, run_edicts) refl,
        record {
          minted = λ k. refl;
          less = λ k. omega arith;
          kept = λ k. refl;
          burned = λ k. refl;
          allocation = SpendsFrom-refl p.allocation;
          valid = valid;
          entries = refl;
          table = refl;
          height = refl;
          runes = refl;
        },
      )
      | inr runs ↦
          let (p', e, keeps) = apply_edicts-Keeps checks outputs stone.edicts p splits fits valid in
          let (u', e', counted) =
            count_mints-Counted checks p.mintable p.mintable p'.mintable s.updates
              (Holds-self p.mintable once) valid.mintable_ids keeps.mintable
              (λ k. omega (arith, few k, length-Shrinks p.mintable p'.mintable keeps.mintable))
              room in
          (
            (record s { updates = u' }, p'),
            rw (runs, run_edicts, e, e') refl,
            record {
              minted = counted.supply;
              less = λ k. total-Shrinks-le p.mintable p'.mintable k keeps.mintable;
              kept = keeps.sums;
              burned = counted.burned;
              allocation = keeps.allocation;
              valid = keeps.valid;
              entries = refl;
              table = refl;
              height = refl;
              runes = refl;
            },
          )
    ]

pub issuance_valid :
    (s : RuneUpdater) (index : ℕ) (o : Option Allocation)
    → s.height ≤ u32_max
    → IsIssue s index o
    → HasIssueId o
issuance_valid s index none hh i = tt
issuance_valid s index (some a) hh i = omega arith

-- A new rune's issue fits, since nothing of the rune is there yet.
pub issue_fits :
    (s : RuneUpdater) (index : ℕ) (o : Option Allocation) (m : Dict ℕ) (k : ℕ)
    → IsIssue s index o
    → total (new_id s index) m ≡ 0
    → supply (new_id s index) s ≡ 0
    → supply k s + total k m ≤ u128_max
    → issuance_under k o + total k m + supply k s ≤ u128_max
issue_fits s index none m k i hm hs h = omega arith
issue_fits s index (some a) m k i hm hs h = elim (Bool-cases (k == new_id s index)) [
  | inl same ↦
      let q : k ≡ new_id s index = (==_iff k (new_id s index)).0 same in
      let no_mint : total k m ≡ 0 = rw q hm in
      let no_supply : supply k s ≡ 0 = rw q hs in ground arith
  | inr other ↦ ground arith
]

-- The part of an allocation that its edicts have spent enters as supply.
pub record Closed (s : RuneUpdater) (before after : Option Allocation) (s' : RuneUpdater)
    : Type 0 where
  pub supply :
      (k : ℕ)
      → entry_supply k s'.id_to_entry + issuance_under k after
        ≡ entry_supply k s.id_to_entry + issuance_under k before
  pub burned : (k : ℕ) → entry_burned k s'.id_to_entry ≡ entry_burned k s.id_to_entry
  pub table : s'.outpoint_to_balances ≡ s.outpoint_to_balances
  pub updates : s'.updates ≡ s.updates

pub enter_all-Closed :
    (checks : Bool) (s : RuneUpdater) (txid : ℕ) (burn : Bool) (index : ℕ)
    (before after : Option Allocation)
    → s.height ≤ u32_max
    → s.runes < u64_max
    → lookup (new_id s index) s.id_to_entry ≡ none
    → IsIssue s index before
    → SpendsFrom before after
    → (s' : RuneUpdater) × (enter_all checks s txid burn after ≡ done s') × Closed s before after s'
unfolding enter_all
enter_all-Closed checks s txid burn index none none hh room new i spends =
    (s, refl, record { supply = λ k. refl; burned = λ k. refl; table = refl; updates = refl })
enter_all-Closed checks s txid burn index none (some b) hh room new i spends = absurd spends
enter_all-Closed checks s txid burn index (some a) none hh room new i spends = absurd spends
enter_all-Closed checks s txid burn index (some a) (some b) hh room new i spends =
    let same_id : b.id ≡ a.id = ap (λ (x : Allocation). x.id) spends.0 in
    let same_issue : issued s.height b.limit b.end ≡ a.balance =
      ap (λ (x : Allocation). issued s.height x.limit x.end) spends.0 ∙ sym i.1 in
    let (s', e, entered) =
      enter-Entered checks s txid burn b index hh i.3 (same_id ∙ i.0) (rw (same_id, i.0) new) room
        (rw same_issue spends.1) in
    (
      s',
      e,
      record {
        supply = λ k. ground (arith, entered.supply k, same_id, same_issue, spends.1);
        burned = entered.burned;
        table = entered.table;
        updates = entered.updates;
      },
    )
