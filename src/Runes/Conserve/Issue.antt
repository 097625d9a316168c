-- ===== src/Runes/Conserve/Issue.antt =====
-- The entry of a new rune.
use okx_ord.Common.{ℕ, ◌+◌, ◌-◌, ◌≤◌, ◌<◌, ◌≡◌, refl, none, some, Bool, arith}
use okx_ord.Common.Dict.{Dict, lookup, insert, under, lookup-insert}
use okx_ord.Common.Outcome.{
  done, add_checked_fits, sub_checked_fits, u16_max, u32_max, u64_max, u128_max,
}
use okx_ord.Runes.Types.{RuneEntry}
use okx_ord.Runes.RuneId.{RuneId, store_rune_id}
use okx_ord.Runes.RuneId.RoundTrip.{store_rune_id-try_from}
use okx_ord.Runes.Updater.State.{RuneUpdater}
use okx_ord.Runes.Updater.Etch.{Allocation, enter, issued, new_entry, link_inscription, runes_count}
use okx_ord.Runes.Conserve.Etching.{new_id}

abbrev pub entry_supply : ℕ → Dict RuneEntry → ℕ
entry_supply k entries = elim (lookup k entries) [ none ↦ 0 | some e ↦ e.supply ]

abbrev pub entry_burned : ℕ → Dict RuneEntry → ℕ
entry_burned k entries = elim (lookup k entries) [ none ↦ 0 | some e ↦ e.burned ]

link_inscription_keeps :
    (s : RuneUpdater) (txid : ℕ) (id : RuneId)
    → ((link_inscription s txid id).id_to_entry ≡ s.id_to_entry)
      × ((link_inscription s txid id).outpoint_to_balances ≡ s.outpoint_to_balances)
      × ((link_inscription s txid id).updates ≡ s.updates)
unfolding link_inscription
link_inscription_keeps s txid id = ground arith

-- A new rune enters with the part of its issue that its edicts have spent.
pub record Entered (s : RuneUpdater) (a : Allocation) (s' : RuneUpdater) : Type 0 where
  pub supply :
      (k : ℕ)
      → entry_supply k s'.id_to_entry
        ≡ entry_supply k s.id_to_entry + under k a.id (issued s.height a.limit a.end - a.balance)
  pub burned : (k : ℕ) → entry_burned k s'.id_to_entry ≡ entry_burned k s.id_to_entry
  pub table : s'.outpoint_to_balances ≡ s.outpoint_to_balances
  pub updates : s'.updates ≡ s.updates

enter_supply :
    (k key : ℕ) (e : RuneEntry) (entries : Dict RuneEntry)
    → lookup key entries ≡ none
    → (entry_supply k (insert key e entries) ≡ entry_supply k entries + under k key e.supply)
      × (e.burned ≡ 0 → entry_burned k (insert key e entries) ≡ entry_burned k entries)
enter_supply k key e entries h = ground (arith, lookup-insert key k e entries)

abbrev entry_for : RuneUpdater → ℕ → Bool → Allocation → RuneEntry
entry_for s txid burn a = new_entry s txid burn a (issued s.height a.limit a.end - a.balance)

abbrev before_link : RuneUpdater → ℕ → Bool → Allocation → ℕ → RuneUpdater
before_link s txid burn a key = record s {
  rune_to_id = insert a.rune key s.rune_to_id;
  transaction_id_to_rune = insert txid a.rune s.transaction_id_to_rune;
  runes = s.runes + 1;
  statistic_to_count = insert runes_count (s.runes + 1) s.statistic_to_count;
  id_to_entry = insert key (entry_for s txid burn a) s.id_to_entry;
}

-- Let the height fit a u32 and the index a u16, let the allocation have the id of these and no
-- entry yet, let its balance be no more than its issue, and let there be room for one more rune.
-- Then the new rune enters. Its entry's supply is the part of the issue that the edicts spent; the
-- supply of every other rune, all burned amounts, the balances and the updates stay.
pub enter-Entered :
    (checks : Bool) (s : RuneUpdater) (txid : ℕ) (burn : Bool) (a : Allocation) (index : ℕ)
    → s.height ≤ u32_max
    → index ≤ u16_max
    → a.id ≡ new_id s index
    → lookup a.id s.id_to_entry ≡ none
    → s.runes < u64_max
    → a.balance ≤ issued s.height a.limit a.end
    → (s' : RuneUpdater) × (enter checks s txid burn a ≡ done s') × Entered s a s'
unfolding enter
enter-Entered checks s txid burn a index hh hi named new room cover =
    let (id, e, same) = store_rune_id-try_from a.id (omega arith) in
    let s1 = before_link s txid burn a (store_rune_id id) in
    let (entries, table, updates) = link_inscription_keeps s1 txid id in
    (
      link_inscription s1 txid id,
      rw
          (
            e,
            add_checked_fits checks u64_max s.runes 1 (omega arith),
            sub_checked_fits checks u128_max (issued s.height a.limit a.end) a.balance cover,
          )
          refl,
      record {
        supply = λ k. rw (entries, same) (at_key k).0;
        burned = λ k. rw (entries, same) ((at_key k).1 (unfold new_entry in refl));
        table = table;
        updates = updates;
      },
    )
  where
    at_key :
        (k : ℕ)
        → let e = entry_for s txid burn a in
          (entry_supply k (insert a.id e s.id_to_entry)
            ≡ entry_supply k s.id_to_entry
              + under k a.id (issued s.height a.limit a.end - a.balance))
          × (e.burned ≡ 0
              → entry_burned k (insert a.id e s.id_to_entry) ≡ entry_burned k s.id_to_entry)
    at_key k = unfold new_entry in enter_supply k a.id (entry_for s txid burn a) s.id_to_entry new
