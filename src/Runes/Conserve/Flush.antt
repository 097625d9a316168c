-- ===== src/Runes/Conserve/Flush.antt =====
-- The flush of the updates of a block into the entries, in src/index/updater.rs.
use okx_ord.Common.{
  ℕ, ◌+◌, ◌≤◌, ◌≡◌, refl, [], ◌∷◌, none, some, Bool, true, false, ◌==◌, ==_iff, arith, Bool-cases,
  inl, inr, ◌⊎◌,
}
use okx_ord.Common.Dict.{Dict, lookup, insert, lookup-insert}
use okx_ord.Common.Outcome.{done, add_checked_fits, u64_max, u128_max}
use okx_ord.Runes.Types.{RuneEntry}
use okx_ord.Runes.Updater.State.{RuneUpdate}
use okx_ord.Runes.Updater.Index.{flush_updates}
use okx_ord.Runes.Conserve.Issue.{entry_supply, entry_burned}
use okx_ord.Runes.Conserve.Minting.{update_of}

abbrev pub entry_mints : ℕ → Dict RuneEntry → ℕ
entry_mints k entries = elim (lookup k entries) [ none ↦ 0 | some e ↦ e.mints ]

-- Every update has its own key, and there is an entry under it.
unfoldable pub IsFlushable : Dict RuneUpdate → Dict RuneEntry → Type 0
IsFlushable [] entries = Unit
IsFlushable ((id, update) ∷ updates) entries =
    (lookup id updates ≡ none)
    × ((e : RuneEntry) × (lookup id entries ≡ some e))
    × IsFlushable updates entries

insert-IsFlushable :
    (updates : Dict RuneUpdate) (entries : Dict RuneEntry) (id : ℕ) (e : RuneEntry)
    → IsFlushable updates entries
    → IsFlushable updates (insert id e entries)
unfolding IsFlushable
insert-IsFlushable [] entries id e h = tt
insert-IsFlushable ((j, update) ∷ updates) entries id e (fresh, there, rest) =
    (fresh, under_key (Bool-cases (j == id)), insert-IsFlushable updates entries id e rest)
  where
    under_key :
        ((j == id) ≡ true) ⊎ ((j == id) ≡ false)
        → (x : RuneEntry) × (lookup j (insert id e entries) ≡ some x)
    under_key (inl same) = (e, ground (arith, lookup-insert id j e entries))
    under_key (inr other) = (there.0, ground (arith, lookup-insert id j e entries, there.1))

-- The entries after the flush: each has its update added.
pub record Flushed (updates : Dict RuneUpdate) (entries entries' : Dict RuneEntry) : Type 0 where
  pub supply :
      (k : ℕ) → entry_supply k entries' ≡ entry_supply k entries + (update_of k updates).supply
  pub burned :
      (k : ℕ) → entry_burned k entries' ≡ entry_burned k entries + (update_of k updates).burned
  pub mints : (k : ℕ) → entry_mints k entries' ≡ entry_mints k entries + (update_of k updates).mints

abbrev added_to : RuneEntry → RuneUpdate → RuneEntry
added_to e u = record e {
  burned = e.burned + u.burned;
  mints = e.mints + u.mints;
  supply = e.supply + u.supply;
}

-- One update added, and what is left for the others.
one_flush :
    (k id : ℕ) (u : RuneUpdate) (updates : Dict RuneUpdate) (e : RuneEntry)
    (entries : Dict RuneEntry)
    → lookup id updates ≡ none
    → lookup id entries ≡ some e
    → let entries' = insert id (added_to e u) entries in
      (entry_supply k entries' + (update_of k updates).supply
        ≡ entry_supply k entries + (update_of k ((id, u) ∷ updates)).supply)
      × (entry_burned k entries' + (update_of k updates).burned
          ≡ entry_burned k entries + (update_of k ((id, u) ∷ updates)).burned)
      × (entry_mints k entries' + (update_of k updates).mints
          ≡ entry_mints k entries + (update_of k ((id, u) ∷ updates)).mints)
unfolding lookup
one_flush k id u updates e entries fresh there = elim (Bool-cases (k == id)) [
  | inl same ↦
      let q : k ≡ id = (==_iff k id).0 same in
      let f : lookup k updates ≡ none = rw q fresh in
      let t : lookup k entries ≡ some e = rw q there in
      ground (arith, lookup-insert id k (added_to e u) entries, f, t)
  | inr other ↦ ground (arith, lookup-insert id k (added_to e u) entries)
]

-- Let every update have its own key, and an entry under it, and let no sum overflow. Then the flush
-- returns, and each rune's entry has the supply, the burned amount and the mints of its update added.
pub flush_updates-Flushed :
    (checks : Bool) (updates : Dict RuneUpdate) (entries : Dict RuneEntry)
    → IsFlushable updates entries
    → ((k : ℕ) → entry_supply k entries + (update_of k updates).supply ≤ u128_max)
    → ((k : ℕ) → entry_burned k entries + (update_of k updates).burned ≤ u128_max)
    → ((k : ℕ) → entry_mints k entries + (update_of k updates).mints ≤ u64_max)
    → (entries' : Dict RuneEntry) × (flush_updates checks updates entries ≡ done entries')
      × Flushed updates entries entries'
unfolding flush_updates IsFlushable lookup
flush_updates-Flushed checks [] entries h fs fb fm = (
  entries,
  refl,
  record { supply = λ k. omega arith; burned = λ k. omega arith; mints = λ k. omega arith },
)
flush_updates-Flushed checks ((id, u) ∷ updates) entries (fresh, (e, there), rest) fs fb fm =
    let step : (k : ℕ) → _ = λ k. one_flush k id u updates e entries fresh there in
    let (entries', run, flushed) =
      flush_updates-Flushed checks updates (insert id (added_to e u) entries)
        (insert-IsFlushable updates entries id (added_to e u) rest)
        (λ k. omega (arith, (step k).0, fs k)) (λ k. omega (arith, (step k).1, fb k))
        (λ k. omega (arith, (step k).2, fm k)) in
    (
      entries',
      rw
          (
            there,
            add_checked_fits checks u128_max e.burned u.burned (ground (arith, fb id, there)),
            add_checked_fits checks u64_max e.mints u.mints (ground (arith, fm id, there)),
            add_checked_fits checks u128_max e.supply u.supply (ground (arith, fs id, there)),
          )
          run,
      record {
        supply = λ k. omega (arith, (step k).0, flushed.supply k);
        burned = λ k. omega (arith, (step k).1, flushed.burned k);
        mints = λ k. omega (arith, (step k).2, flushed.mints k);
      },
    )
