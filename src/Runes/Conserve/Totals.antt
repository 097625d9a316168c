-- ===== src/Runes/Conserve/Totals.antt =====
-- Sums of balances under one rune id, and the updates of maps of balances.
use okx_ord.Common.{
  ℕ, zero, suc, ◌+◌, ◌^◌, ◌≤◌, ◌<◌, ◌≡◌, refl, List, [], ◌∷◌, Bool, unwrap_or, arith, length,
  replicate, Option-cases, inl, inr, ap,
}
use okx_ord.Common.Dict.{
  Dict, lookup, insert, total, under, total-insert-none, total-insert-some, lookup-le-total,
}
use okx_ord.Common.Outcome.{done, add_checked_fits, u128_max}
use okx_ord.Runes.Updater.State.{add_to, add_at}

-- The sum over all outputs.
unfoldable pub total_all : ℕ → List (Dict ℕ) → ℕ
total_all k [] = 0
total_all k (d ∷ ds) = total k d + total_all k ds

-- The height of such a rune id fits 32 bits.
abbrev pub IsRuneId : ℕ → Type 0
IsRuneId id = id < 2 ^ 48

unfoldable pub HasIds : Dict ℕ → Type 0
HasIds [] = Unit
HasIds ((id, v) ∷ d) = IsRuneId id × HasIds d

unfoldable pub AllHasIds : List (Dict ℕ) → Type 0
AllHasIds [] = Unit
AllHasIds (d ∷ ds) = HasIds d × AllHasIds ds

pub insert-HasIds : (k v : ℕ) (d : Dict ℕ) → IsRuneId k → HasIds d → HasIds (insert k v d)
unfolding HasIds insert
insert-HasIds k v [] hk h = (hk, tt)
insert-HasIds k v ((j, w) ∷ d) hk h = ground (arith, insert-HasIds k v d hk)

pub replicate-AllHasIds : (n : ℕ) → AllHasIds (replicate n [])
unfolding AllHasIds HasIds
replicate-AllHasIds zero = tt
replicate-AllHasIds (suc n) = (tt, replicate-AllHasIds n)

pub total_all-replicate : (k n : ℕ) → total_all k (replicate n []) ≡ 0
unfolding total_all total
total_all-replicate k zero = refl
total_all-replicate k (suc n) = omega (arith, total_all-replicate k n)

-- The map after a sum that fits.
unfoldable pub added : ℕ → ℕ → Dict ℕ → Dict ℕ
added id amount d = insert id (unwrap_or (lookup id d) 0 + amount) d

pub add_to-added :
    (checks : Bool) (id amount : ℕ) (d : Dict ℕ)
    → total id d + amount ≤ u128_max
    → add_to checks id amount d ≡ done (added id amount d)
unfolding add_to added
add_to-added checks id amount d h = elim (Option-cases (lookup id d)) [
  | inl e ↦ rw (e, add_checked_fits checks u128_max 0 amount (omega arith)) refl
  | inr (v, e) ↦
      rw (e, add_checked_fits checks u128_max v amount (omega (arith, lookup-le-total id v d e)))
        refl
]

pub total-added :
    (id amount k : ℕ) (d : Dict ℕ) → total k (added id amount d) ≡ total k d + under k id amount
unfolding added
total-added id amount k d = elim (Option-cases (lookup id d)) [
  | inl e ↦ rw e (ground (arith, total-insert-none id k (0 + amount) d e))
  | inr (v, e) ↦ rw e (ground (arith, total-insert-some id k (v + amount) v d e))
]

pub added-HasIds :
    (id amount : ℕ) (d : Dict ℕ) → IsRuneId id → HasIds d → HasIds (added id amount d)
unfolding added
added-HasIds id amount d hk h = insert-HasIds id _ d hk h

unfoldable pub added_at : ℕ → ℕ → ℕ → List (Dict ℕ) → List (Dict ℕ)
added_at output id amount [] = []
added_at zero id amount (d ∷ ds) = added id amount d ∷ ds
added_at (suc output) id amount (d ∷ ds) = d ∷ added_at output id amount ds

pub add_at-added_at :
    (checks : Bool) (output id amount : ℕ) (ds : List (Dict ℕ))
    → output < length ds
    → total_all id ds + amount ≤ u128_max
    → add_at checks output id amount ds ≡ done (added_at output id amount ds)
unfolding add_at added_at total_all
add_at-added_at checks output id amount [] h fits = absurd (omega arith)
add_at-added_at checks zero id amount (d ∷ ds) h fits =
    rw (add_to-added checks id amount d (omega arith)) refl
add_at-added_at checks (suc output) id amount (d ∷ ds) h fits =
    rw (add_at-added_at checks output id amount ds (omega arith) (omega arith)) refl

pub total_all-added_at :
    (output id amount k : ℕ) (ds : List (Dict ℕ))
    → output < length ds
    → total_all k (added_at output id amount ds) ≡ total_all k ds + under k id amount
unfolding added_at total_all
total_all-added_at output id amount k [] h = absurd (omega arith)
total_all-added_at zero id amount k (d ∷ ds) h = omega (arith, total-added id amount k d)
total_all-added_at (suc output) id amount k (d ∷ ds) h =
    omega (arith, total_all-added_at output id amount k ds)

pub length-added_at :
    (output id amount : ℕ) (ds : List (Dict ℕ)) → length (added_at output id amount ds) ≡ length ds
unfolding added_at
length-added_at output id amount [] = refl
length-added_at zero id amount (d ∷ ds) = refl
length-added_at (suc output) id amount (d ∷ ds) = ap suc (length-added_at output id amount ds)

pub added_at-AllHasIds :
    (output id amount : ℕ) (ds : List (Dict ℕ))
    → IsRuneId id
    → AllHasIds ds
    → AllHasIds (added_at output id amount ds)
unfolding added_at AllHasIds
added_at-AllHasIds output id amount [] hk h = tt
added_at-AllHasIds zero id amount (d ∷ ds) hk h = (added-HasIds id amount d hk h.0, h.1)
added_at-AllHasIds (suc output) id amount (d ∷ ds) hk h =
    (h.0, added_at-AllHasIds output id amount ds hk h.1)
