-- ===== src/Common/Dict.antt =====
-- A map with number keys as an association list. `total k` adds up what is held under `k`.
use Prim.Native.Nat.{ℕ, ◌+◌, ◌≤◌}
use mathlib.Core.Path.{◌≡◌, refl}
use mathlib.Core.Option.{Option, none, some}
use mathlib.Core.List.{List, [], ◌∷◌}
use native.Mathlib.Omega.{arith}
use okx_ord.Common.Tests.{◌==◌, if◌then◌else◌}

abbrev pub Dict {ℓ} : Type ℓ → Type ℓ
Dict V = List (ℕ × V)

module _ {ℓ} {V : Type ℓ} where
  unfoldable pub lookup : ℕ → Dict V → Option V
  lookup k [] = none
  lookup k ((j, v) ∷ d) = if k == j then some v else lookup k d

  unfoldable pub insert : ℕ → V → Dict V → Dict V
  insert k v [] = (k, v) ∷ []
  insert k v ((j, w) ∷ d) = if k == j then (k, v) ∷ d else (j, w) ∷ insert k v d

  -- `remove`: the entry under the key goes. `insert` keeps at most one.
  unfoldable pub remove : ℕ → Dict V → Dict V
  remove k [] = []
  remove k ((j, w) ∷ d) = if k == j then d else (j, w) ∷ remove k d

  pub lookup-insert :
      (k j : ℕ) (v : V) (d : Dict V)
      → lookup j (insert k v d) ≡ (if j == k then some v else lookup j d)
  unfolding lookup insert
  lookup-insert k j v [] = refl
  lookup-insert k j v ((i, w) ∷ d) = ground (arith, lookup-insert k j v d)

-- The sum of the numbers under a key.
unfoldable pub total : ℕ → Dict ℕ → ℕ
total k [] = 0
total k ((j, v) ∷ d) = (if k == j then v else 0) + total k d

pub lookup-le-total : (k v : ℕ) (d : Dict ℕ) → lookup k d ≡ some v → v ≤ total k d
unfolding lookup total
lookup-le-total k v [] h = cc
lookup-le-total k v ((j, w) ∷ d) h = ground (arith, lookup-le-total k v d)

pub total_of_none : (k : ℕ) (d : Dict ℕ) → lookup k d ≡ none → total k d ≡ 0
unfolding lookup total
total_of_none k [] h = refl
total_of_none k ((j, w) ∷ d) h = ground (arith, total_of_none k d)

pub total-insert-none :
    (k j v : ℕ) (d : Dict ℕ)
    → lookup k d ≡ none
    → total j (insert k v d) ≡ total j d + (if j == k then v else 0)
unfolding lookup insert total
total-insert-none k j v [] h = ground arith
total-insert-none k j v ((i, w) ∷ d) h = ground (arith, total-insert-none k j v d)

pub total-insert-some :
    (k j v old : ℕ) (d : Dict ℕ)
    → lookup k d ≡ some old
    → total j (insert k v d) + (if j == k then old else 0) ≡ total j d + (if j == k then v else 0)
unfolding lookup insert total
total-insert-some k j v old [] h = cc
total-insert-some k j v old ((i, w) ∷ d) h = ground (arith, total-insert-some k j v old d)

-- What is under `k`, when `v` is under `j`.
abbrev pub under : ℕ → ℕ → ℕ → ℕ
under k j v = if k == j then v else 0
