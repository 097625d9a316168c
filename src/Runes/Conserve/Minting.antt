-- ===== src/Runes/Conserve/Minting.antt =====
-- The claims of a runestone and the count of what they minted.
use okx_ord.Common.{
  ℕ, ◌+◌, ◌-◌, ◌≤◌, ◌<◌, ◌≡◌, ◌≢◌, refl, ◌∙◌, List, [], ◌∷◌, none, some, Bool, false, ltb, ltb→lt,
  ◌==◌, ◌^◌, if◌then◌else◌, arith, length, Bool-cases, Option-cases, inl, inr, unwrap_or, sym,
  ==_iff,
}
use okx_ord.Common.Dict.{
  Dict, lookup, insert, total, under, lookup-insert, total-insert-none, total-insert-some,
}
use okx_ord.Common.Outcome.{done, add_checked_fits, sub_checked_fits, u64_max, u128_max}
use okx_ord.Runes.Types.{Edict}
use okx_ord.Runes.RuneId.{rune_id_try_from}
use okx_ord.Runes.RuneId.RoundTrip.{store_rune_id-try_from, lt_of_try_from, rune_id_try_from-none}
use okx_ord.Runes.Updater.State.{RuneUpdater, RuneUpdate, no_update}
use okx_ord.Runes.Updater.Mints.{
  mint_limit, open_mints, mintable_of, claims_of, sort, dedup, count_mint, count_mints,
}
use okx_ord.Runes.Conserve.Totals.{HasIds, IsRuneId, insert-HasIds}
use okx_ord.Runes.Conserve.Pools.{Shrinks}

mint_limit-IsRuneId : (s : RuneUpdater) (id limit : ℕ) → mint_limit s id ≡ some limit → IsRuneId id
unfolding mint_limit
mint_limit-IsRuneId s id limit e = elim (Option-cases (rune_id_try_from id)) [
  | inl x ↦ ground arith
  | inr (key, x) ↦ lt_of_try_from id x
]

-- No key stands twice.
unfoldable pub HasOnce : Dict ℕ → Type 0
HasOnce [] = Unit
HasOnce ((k, v) ∷ d) = (lookup k d ≡ none) × HasOnce d

insert-HasOnce : (k v : ℕ) (d : Dict ℕ) → HasOnce d → HasOnce (insert k v d)
unfolding HasOnce insert
insert-HasOnce k v [] h = (unfold lookup in refl, tt)
insert-HasOnce k v ((j, w) ∷ d) h = elim (Bool-cases (k == j)) [
  | inl same ↦ rw same (rw ((==_iff k j).0 same) h.0, h.1)
  | inr other ↦ rw other (ground (arith, lookup-insert k j v d), insert-HasOnce k v d h.1)
]

open_mints-HasOnce :
    (s : RuneUpdater) (ids : List ℕ) (d : Dict ℕ)
    → HasOnce d × HasIds d
    → HasOnce (open_mints s ids d) × HasIds (open_mints s ids d)
unfolding open_mints
open_mints-HasOnce s [] d h = h
open_mints-HasOnce s (id ∷ ids) d h = elim (Option-cases (mint_limit s id)) [
  | inl e ↦ rw e (open_mints-HasOnce s ids d h)
  | inr (limit, e) ↦ rw e (
      open_mints-HasOnce s ids (insert id limit d) (
        insert-HasOnce id limit d h.0,
        insert-HasIds id limit d (mint_limit-IsRuneId s id limit e) h.1,
      ))
]

pub mintable_of-HasOnce :
    (s : RuneUpdater) (edicts : List Edict)
    → HasOnce (mintable_of s edicts) × HasIds (mintable_of s edicts)
unfolding mintable_of HasOnce HasIds
mintable_of-HasOnce s edicts = open_mints-HasOnce s (dedup (sort (claims_of edicts))) [] (tt, tt)

-- The open mints depend on the entries, the height and the time alone.
mint_limit_same :
    (s s' : RuneUpdater) (id : ℕ)
    → s'.id_to_entry ≡ s.id_to_entry
    → s'.height ≡ s.height
    → s'.timestamp ≡ s.timestamp
    → mint_limit s' id ≡ mint_limit s id
unfolding mint_limit
mint_limit_same s s' id e h t = rw (e, h, t) refl

open_mints_same :
    (s s' : RuneUpdater) (ids : List ℕ) (d : Dict ℕ)
    → s'.id_to_entry ≡ s.id_to_entry
    → s'.height ≡ s.height
    → s'.timestamp ≡ s.timestamp
    → open_mints s' ids d ≡ open_mints s ids d
unfolding open_mints
open_mints_same s s' [] d e h t = refl
open_mints_same s s' (id ∷ ids) d e h t = rw (mint_limit_same s s' id e h t) (
    open_mints_same s s' ids (elim (mint_limit s id) [ none ↦ d | some limit ↦ insert id limit d ])
      e h t)

pub mintable_of_same :
    (s s' : RuneUpdater) (edicts : List Edict)
    → s'.id_to_entry ≡ s.id_to_entry
    → s'.height ≡ s.height
    → s'.timestamp ≡ s.timestamp
    → mintable_of s' edicts ≡ mintable_of s edicts
unfolding mintable_of
mintable_of_same s s' edicts e h t = open_mints_same s s' (dedup (sort (claims_of edicts))) [] e h t

no_entry-no_limit :
    (s : RuneUpdater) (k : ℕ) → lookup k s.id_to_entry ≡ none → mint_limit s k ≡ none
unfolding mint_limit
no_entry-no_limit s k h = elim (Bool-cases (ltb k (2 ^ 48))) [
  | inl small ↦
      let (key, e, same) = store_rune_id-try_from k (ltb→lt k (2 ^ 48) small) in
      rw (e, same, h) refl
  | inr large ↦ rw (rune_id_try_from-none k (ground arith)) refl
]

total-open_mints_new :
    (s : RuneUpdater) (k : ℕ) (ids : List ℕ) (d : Dict ℕ)
    → mint_limit s k ≡ none
    → total k (open_mints s ids d) ≡ total k d
unfolding open_mints
total-open_mints_new s k [] d h = refl
total-open_mints_new s k (id ∷ ids) d h = elim (Option-cases (mint_limit s id)) [
  | inl e ↦ rw e (total-open_mints_new s k ids d h)
  | inr (limit, e) ↦ rw e (total-open_mints_new s k ids (insert id limit d) h ∙ other limit e)
]
  where
    differ : (limit : ℕ) → mint_limit s id ≡ some limit → (k == id) ≡ false
    differ limit e = elim (Bool-cases (k == id)) [
      | inl same ↦ let q : k ≡ id = (==_iff k id).0 same in cc
      | inr other ↦ other
    ]

    other : (limit : ℕ) → mint_limit s id ≡ some limit → total k (insert id limit d) ≡ total k d
    other limit e = elim (Option-cases (lookup id d)) [
      | inl x ↦ ground (arith, total-insert-none id k limit d x, differ limit e)
      | inr (old, x) ↦ ground (arith, total-insert-some id k limit old d x, differ limit e)
    ]

-- A rune with no entry yet is not mintable.
pub total-mintable_of_new :
    (s : RuneUpdater) (k : ℕ) (edicts : List Edict)
    → lookup k s.id_to_entry ≡ none
    → total k (mintable_of s edicts) ≡ 0
unfolding mintable_of
total-mintable_of_new s k edicts h =
    total-open_mints_new s k (dedup (sort (claims_of edicts))) [] (no_entry-no_limit s k h)
    ∙ (unfold total in refl)

abbrev pub update_of : ℕ → Dict RuneUpdate → RuneUpdate
update_of k updates = unwrap_or (lookup k updates) no_update

-- Each entry of the second map is what the first holds under its key.
unfoldable pub Holds : Dict ℕ → Dict ℕ → Type 0
Holds limits [] = Unit
Holds limits ((k, v) ∷ d) = (lookup k limits ≡ some v) × Holds limits d

Holds-cons :
    (k v : ℕ) (limits d : Dict ℕ)
    → lookup k limits ≡ none
    → Holds limits d
    → Holds ((k, v) ∷ limits) d
unfolding Holds lookup
Holds-cons k v limits [] e h = tt
Holds-cons k v limits ((j, w) ∷ d) e h = elim (Bool-cases (j == k)) [
  | inl same ↦ absurd (none≢some (sym e ∙ rw (← (==_iff j k).0 same) h.0))
  | inr other ↦ (rw other h.0, Holds-cons k v limits d e h.1)
]
  where
    none≢some : none ≢ some w
    none≢some x = cc

pub Holds-self : (limits : Dict ℕ) → HasOnce limits → Holds limits limits
unfolding Holds HasOnce lookup
Holds-self [] h = tt
Holds-self ((k, v) ∷ d) h = (ground arith, Holds-cons k v d d h.0 (Holds-self d h.1))

minted_update : ℕ → ℕ → Dict RuneUpdate → RuneUpdate
minted_update id minted u = record (update_of id u) {
  mints = (update_of id u).mints + 1;
  supply = (update_of id u).supply + minted;
}

count_mint_lem :
    (checks : Bool) (id minted : ℕ) (u : Dict RuneUpdate)
    → IsRuneId id
    → (update_of id u).mints < u64_max
    → (update_of id u).supply + minted ≤ u128_max
    → count_mint checks id minted u ≡ done (insert id (minted_update id minted u) u)
unfolding count_mint minted_update
count_mint_lem checks id minted u h hm hs =
    let (key, e, same) = store_rune_id-try_from id h in
    rw
      (
        e,
        same,
        add_checked_fits checks u64_max (update_of id u).mints 1 (omega arith),
        add_checked_fits checks u128_max (update_of id u).supply minted hs,
      )
      refl

-- The count of a map of mints: supplies grow by what is gone from the limits, and nothing burns.
pub record Counted (limits m : Dict ℕ) (u u' : Dict RuneUpdate) : Type 0 where
  pub supply :
      (k : ℕ) → (update_of k u').supply + total k m ≡ (update_of k u).supply + total k limits
  pub burned : (k : ℕ) → (update_of k u').burned ≡ (update_of k u).burned

one_mint :
    (k id minted : ℕ) (u : Dict RuneUpdate)
    → let u' = insert id (minted_update id minted u) u in
      ((update_of k u').supply ≡ (update_of k u).supply + under k id minted)
      × ((update_of k u').burned ≡ (update_of k u).burned)
      × ((update_of k u').mints ≤ (update_of k u).mints + 1)
unfolding minted_update
one_mint k id minted u = ground (arith, lookup-insert id k (minted_update id minted u) u)

-- One round of the loop: nothing minted counts no mint.
mint_round :
    (checks : Bool) (id minted : ℕ) (u : Dict RuneUpdate)
    → IsRuneId id
    → (update_of id u).mints < u64_max
    → (update_of id u).supply + minted ≤ u128_max
    → (u' : Dict RuneUpdate) × ((if ltb 0 minted then count_mint checks id minted u else done u)
        ≡ done u')
      × ((k : ℕ)
          → ((update_of k u').supply ≡ (update_of k u).supply + under k id minted)
            × ((update_of k u').burned ≡ (update_of k u).burned)
            × ((update_of k u').mints ≤ (update_of k u).mints + 1))
mint_round checks id minted u h hm hs = elim (Bool-cases (ltb 0 minted)) [
  | inl some_minted ↦ (
    insert id (minted_update id minted u) u,
    rw (some_minted, count_mint_lem checks id minted u h hm hs) refl,
    λ k. one_mint k id minted u,
  )
  | inr nothing ↦ (u, rw nothing refl, λ k. ground arith)
]

-- Let the mintable amounts after the edicts be no more than the limits, key by key, let each limit
-- be the one that the map of all limits holds, let the keys be rune ids, and let the counts and the
-- sums fit. Then the loop over the mintable amounts returns, and the supply of each rune grows by
-- the limit less what is still mintable, and no burned amount changes.
pub count_mints-Counted :
    (checks : Bool) (all limits m : Dict ℕ) (u : Dict RuneUpdate)
    → Holds all limits
    → HasIds limits
    → Shrinks limits m
    → ((k : ℕ) → (update_of k u).mints + length m ≤ u64_max)
    → ((k : ℕ) → (update_of k u).supply + total k limits ≤ u128_max)
    → (u' : Dict RuneUpdate) × (count_mints checks all m u ≡ done u') × Counted limits m u u'
unfolding count_mints Holds HasIds Shrinks total
count_mints-Counted checks all [] [] u holds ids shrinks few fits =
    (u, refl, record { supply = λ k. refl; burned = λ k. refl })
count_mints-Counted checks all [] (e ∷ m) u holds ids shrinks few fits = absurd shrinks
count_mints-Counted checks all (l ∷ ls) [] u holds ids shrinks few fits = absurd shrinks
count_mints-Counted checks all ((id, limit) ∷ ls) ((j, amount) ∷ m) u holds ids shrinks few fits =
    let at_id : (update_of id u).supply + (limit - amount) ≤ u128_max = ground (arith, fits id) in
    let (u1, e, kept) =
      mint_round checks id (limit - amount) u ids.0 (omega (arith, few id)) at_id in
    let (u2, e', counted) =
      count_mints-Counted checks all ls m u1 holds.1 ids.1 shrinks.2
        (λ k. omega (arith, few k, kept k)) (λ k. ground (arith, fits k, kept k)) in
    rw shrinks.0 (
      u2,
      rw (holds.0, sub_checked_fits checks u128_max limit amount shrinks.1, e) e',
      record {
        supply = λ k. ground (arith, counted.supply k, kept k, shrinks.1);
        burned = λ k. counted.burned k ∙ (kept k).1;
      },
    )
