-- ===== src/Runes/Conserve/Sorted.antt =====
-- `balances.sort()` in src/index/updater/rune_updater.rs: when pairs are in order, and when they are
-- the same pairs.
use okx_ord.Common.{
  ℕ, ◌+◌, ◌≤◌, ◌<◌, ◌≡◌, refl, [], ◌∷◌, ltb, leb, ◌==◌, ◌||◌, ◌&&◌, if◌then◌else◌, arith, true,
  false, Bool-cases, inl, inr, ◌⊎◌, All,
}
use okx_ord.Common.Dict.{Dict}
use okx_ord.Runes.Updater.Settle.{insert_pair, sort_pairs}

-- An id before another, or the same id and no more of it.
abbrev pub Precedes : ℕ × ℕ → ℕ × ℕ → Type 0
Precedes x y = (x.0 < y.0) ⊎ ((x.0 ≡ y.0) × (x.1 ≤ y.1))

-- Every pair precedes all that come after it.
unfoldable pub IsSorted : Dict ℕ → Type 0
IsSorted [] = Unit
IsSorted (x ∷ d) = All (Precedes x) d × IsSorted d

-- How many times a pair is there.
unfoldable pub times : ℕ → ℕ → Dict ℕ → ℕ
times id v [] = 0
times id v (x ∷ d) = (if x.0 == id && x.1 == v then 1 else 0) + times id v d

first_Precedes : (x y : ℕ × ℕ) → (ltb x.0 y.0 || (x.0 == y.0 && leb x.1 y.1)) ≡ true → Precedes x y
first_Precedes x y h = ground arith

later_Precedes : (x y : ℕ × ℕ) → (ltb x.0 y.0 || (x.0 == y.0 && leb x.1 y.1)) ≡ false → Precedes y x
later_Precedes x y h = ground arith

Precedes-trans : (x y z : ℕ × ℕ) → Precedes x y → Precedes y z → Precedes x z
Precedes-trans x y z h k = ground arith

All-Precedes : (x y : ℕ × ℕ) (d : Dict ℕ) → Precedes x y → All (Precedes y) d → All (Precedes x) d
All-Precedes x y [] h all = tt
All-Precedes x y (z ∷ d) h all = (Precedes-trans x y z h all.0, All-Precedes x y d h all.1)

All-insert_pair :
    (x y : ℕ × ℕ) (d : Dict ℕ)
    → Precedes y x
    → All (Precedes y) d
    → All (Precedes y) (insert_pair x d)
unfolding insert_pair
All-insert_pair x y [] h all = (h, tt)
All-insert_pair x y (z ∷ d) h all = elim (Bool-cases (ltb x.0 z.0 || (x.0 == z.0 && leb x.1 z.1))) [
  | inl first ↦ rw first (h, all)
  | inr later ↦ rw later (all.0, All-insert_pair x y d h all.1)
]

insert_pair-IsSorted : (x : ℕ × ℕ) (d : Dict ℕ) → IsSorted d → IsSorted (insert_pair x d)
unfolding insert_pair IsSorted
insert_pair-IsSorted x [] sorted = (tt, tt)
insert_pair-IsSorted x (y ∷ d) sorted =
    elim (Bool-cases (ltb x.0 y.0 || (x.0 == y.0 && leb x.1 y.1))) [
      | inl first ↦
          let h = first_Precedes x y first in rw first ((h, All-Precedes x y d h sorted.0), sorted)
      | inr later ↦ rw later (
        All-insert_pair x y d (later_Precedes x y later) sorted.0,
        insert_pair-IsSorted x d sorted.1,
      )
    ]

pub sort_pairs-IsSorted : (d : Dict ℕ) → IsSorted (sort_pairs d)
unfolding sort_pairs IsSorted
sort_pairs-IsSorted [] = tt
sort_pairs-IsSorted (x ∷ d) = insert_pair-IsSorted x (sort_pairs d) (sort_pairs-IsSorted d)

times-insert_pair :
    (id v : ℕ) (x : ℕ × ℕ) (d : Dict ℕ) → times id v (insert_pair x d) ≡ times id v (x ∷ d)
unfolding times insert_pair
times-insert_pair id v x [] = refl
times-insert_pair id v x (y ∷ d) = elim (Bool-cases (ltb x.0 y.0 || (x.0 == y.0 && leb x.1 y.1))) [
  | inl first ↦ rw first refl
  | inr later ↦ rw later (omega (arith, times-insert_pair id v x d))
]

pub times-sort_pairs : (id v : ℕ) (d : Dict ℕ) → times id v (sort_pairs d) ≡ times id v d
unfolding times sort_pairs
times-sort_pairs id v [] = refl
times-sort_pairs id v (x ∷ d) =
    omega (arith, times-insert_pair id v x (sort_pairs d), times-sort_pairs id v d)
