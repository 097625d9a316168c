-- ===== src/SimpleLru/Tests.antt =====
-- Runs of the cache, and examples of its theorems.
use okx_ord.Common.{ℕ, ◌*◌, ◌<◌, ◌≡◌, refl, [], ◌∷◌, some, arith}
use okx_ord.SimpleLru.{SimpleLru, new_lru, get, len, refresh, insert_lru}
use okx_ord.SimpleLru.Lookups.{
  put, put_all, get-put_all, get-refresh, insert_all, IsBounded, put-IsBounded,
}

abbrev empty : SimpleLru ℕ
empty = new_lru 2

get-put_all_example : get 1 (put_all ((2, 22) ∷ []) (put 1 11 empty)) ≡ some 11
get-put_all_example = get-put_all 1 11 ((2, 22) ∷ []) empty (refl, tt) (omega arith)

put-IsBounded_example : IsBounded (put 1 11 empty) × (len (put 1 11 empty) < 2 * 2)
put-IsBounded_example =
    put-IsBounded 1 11 empty (record { new_size = omega arith; old_size = omega arith })

get-refresh_example :
    get 1 (refresh (insert_all ((2, 22) ∷ (3, 33) ∷ []) (insert_lru 1 11 empty).1)) ≡ some 11
get-refresh_example = get-refresh 1 11 ((2, 22) ∷ (3, 33) ∷ []) empty (refl, (refl, tt))
