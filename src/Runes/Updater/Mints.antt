-- ===== src/Runes/Updater/Mints.antt =====
-- Open mints: which claims of a runestone are mintable, and the count of what was minted.
use okx_ord.Common.{
  ℕ, List, [], ◌∷◌, Option, none, some, Bool, false, ltb, leb, ◌==◌, ◌||◌, if◌then◌else◌, unwrap_or,
  and_then,
}
use okx_ord.Common.Dict.{Dict, lookup, insert}
use okx_ord.Common.Outcome.{
  Outcome, done, ◌>>=◌, add_checked, sub_checked, unwrap, u64_max, u128_max,
}
use okx_ord.Runes.Types.{Edict}
use okx_ord.Runes.RuneId.{rune_id_try_from, store_rune_id}
use okx_ord.Runes.Updater.State.{RuneUpdater, RuneUpdate, no_update}
use okx_ord.Runes.Updater.Edicts.{claim}

-- `edicts.iter().filter_map(|edict| claim(edict.id))`
unfoldable pub claims_of : List Edict → List ℕ
unfolding claim
claims_of [] = []
claims_of (edict ∷ edicts) =
    let rest = claims_of edicts in elim (claim edict.id) [ none ↦ rest | some id ↦ id ∷ rest ]

-- `claims.sort()`
insert_sorted : ℕ → List ℕ → List ℕ
insert_sorted x [] = x ∷ []
insert_sorted x (y ∷ ys) =
    let later = insert_sorted x ys in if leb x y then x ∷ y ∷ ys else y ∷ later

unfoldable pub sort : List ℕ → List ℕ
unfolding insert_sorted
sort [] = []
sort (x ∷ xs) = insert_sorted x (sort xs)

-- `claims.dedup()`: of equal neighbours one is kept.
unfoldable pub dedup : List ℕ → List ℕ
dedup [] = []
dedup (x ∷ []) = x ∷ []
dedup (x ∷ y ∷ ys) = let rest = dedup (y ∷ ys) in if x == y then rest else x ∷ rest

abbrev pub has_passed : ℕ → Option ℕ → Bool
has_passed now none = false
has_passed now (some bound) = leb bound now

-- The limit of a rune whose mint is open at this height and time.
unfoldable pub mint_limit : RuneUpdater → ℕ → Option ℕ
mint_limit s id = and_then (rune_id_try_from id) λ key.
    and_then (lookup (store_rune_id key) s.id_to_entry) λ entry. and_then entry.limit λ limit.
      if has_passed s.height entry.end || has_passed s.timestamp entry.deadline
      then none
      else some limit

-- The loop over the claims, which fills `mintable`.
unfoldable pub open_mints : RuneUpdater → List ℕ → Dict ℕ → Dict ℕ
unfolding mint_limit
open_mints s [] mintable = mintable
open_mints s (id ∷ ids) mintable =
    open_mints s ids
      (elim (mint_limit s id) [ none ↦ mintable | some limit ↦ insert id limit mintable ])

unfoldable pub mintable_of : RuneUpdater → List Edict → Dict ℕ
unfolding open_mints claims_of sort dedup
mintable_of s edicts = open_mints s (dedup (sort (claims_of edicts))) []

-- One mint of `minted` units.
unfoldable pub count_mint : Bool → ℕ → ℕ → Dict RuneUpdate → Outcome (Dict RuneUpdate)
count_mint checks id minted updates = do
  key ← unwrap (rune_id_try_from id)
  let update = unwrap_or (lookup (store_rune_id key) updates) no_update
  mints ← add_checked checks u64_max update.mints 1
  supply ← add_checked checks u128_max update.supply minted
  done (insert (store_rune_id key) (record update { mints = mints; supply = supply }) updates)

-- `for (id, amount) in mintable`: what is gone from each limit was minted.
unfoldable pub count_mints : Bool → Dict ℕ → Dict ℕ → Dict RuneUpdate → Outcome (Dict RuneUpdate)
unfolding count_mint
count_mints checks limits [] updates = done updates
count_mints checks limits ((id, amount) ∷ mintable) updates = do
  limit ← unwrap (lookup id limits)
  minted ← sub_checked checks u128_max limit amount
  updates' ← (if ltb 0 minted then count_mint checks id minted updates else done updates)
  count_mints checks limits mintable updates'
