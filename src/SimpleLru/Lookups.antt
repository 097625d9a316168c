-- ===== src/SimpleLru/Lookups.antt =====
-- What the cache finds, how long it keeps an entry, and how large it grows.
use okx_ord.Common.{
  ℕ, suc, ◌+◌, ◌*◌, ◌≤◌, ◌<◌, ◌≡◌, refl, List, [], ◌∷◌, none, some, true, false, leb, ◌==◌, length,
  arith, Bool-cases, inl, inr, ◌⊎◌, All,
}
use okx_ord.Common.Dict.{Dict, lookup, insert, lookup-insert}
use okx_ord.SimpleLru.{SimpleLru, get, insert_lru, refresh, len}

module _ {ℓ} {V : Type ℓ} where
  -- An insertion, followed by a refresh.
  abbrev pub put : ℕ → V → SimpleLru V → SimpleLru V
  put key value c = refresh (insert_lru key value c).1

  unfoldable pub put_all : List (ℕ × V) → SimpleLru V → SimpleLru V
  put_all [] c = c
  put_all ((key, value) ∷ rest) c = put_all rest (put key value c)

  length-insert : (k : ℕ) (v : V) (d : Dict V) → length (insert k v d) ≤ length d + 1
  unfolding insert
  length-insert k v [] = omega arith
  length-insert k v ((j, w) ∷ d) = ground (arith, length-insert k v d)

  -- Where an entry is that will still be found after `n` more insertions of other keys.
  abbrev IsKept : ℕ → V → ℕ → SimpleLru V → Type ℓ
  IsKept key value n c =
      ((lookup key c.new_cache ≡ some value) × (n ≤ c.cache_size))
      ⊎ ((lookup key c.new_cache ≡ none)
          × (lookup key c.old_cache ≡ some value)
          × (length c.new_cache + n < c.cache_size))

  IsKept-get :
      (key : ℕ) (value : V) (n : ℕ) (c : SimpleLru V)
      → IsKept key value n c
      → get key c ≡ some value
  unfolding get
  IsKept-get key value n c (inl (e, f)) = rw (e, get) refl
  IsKept-get key value n c (inr (e, f, g)) = rw (e, get, f) refl

  put-IsKept :
      (key : ℕ) (value : V) (n j : ℕ) (w : V) (c : SimpleLru V)
      → (key == j) ≡ false
      → IsKept key value (suc n) c
      → IsKept key value n (put j w c)
  unfolding refresh insert_lru lookup
  put-IsKept key value n j w c other (inl (e, f)) =
      let found : lookup key (insert j w c.new_cache) ≡ some value =
        ground (arith, lookup-insert j key w c.new_cache) in
      elim (Bool-cases (leb c.cache_size (length (insert j w c.new_cache)))) [
        | inl full ↦ rw full (inr (refl, found, omega (arith, f)))
        | inr room ↦ rw room (inl (found, omega (arith, f)))
      ]
  put-IsKept key value n j w c other (inr (e, f, g)) =
      let absent : lookup key (insert j w c.new_cache) ≡ none =
        ground (arith, lookup-insert j key w c.new_cache) in
      let longer = length-insert j w c.new_cache in
      let room : leb c.cache_size (length (insert j w c.new_cache)) ≡ false = ground arith in
      rw room (inr (absent, f, omega (arith, g, longer)))

  put_all-IsKept :
      (key : ℕ) (value : V) (others : List (ℕ × V)) (c : SimpleLru V)
      → All (λ (o : ℕ × V). (key == o.0) ≡ false) others
      → IsKept key value (length others) c
      → get key (put_all others c) ≡ some value
  unfolding put_all
  put_all-IsKept key value [] c others kept = IsKept-get key value 0 c kept
  put_all-IsKept key value ((j, w) ∷ rest) c (other, others) kept =
      put_all-IsKept key value rest (put j w c) others
        (put-IsKept key value (length rest) j w c other kept)

  -- After an insertion and a refresh, the key is found with its value, and it still is after any
  -- insertions of other keys, each with a refresh, that are fewer than the cache size.
  pub get-put_all :
      (key : ℕ) (value : V) (others : List (ℕ × V)) (c : SimpleLru V)
      → All (λ (o : ℕ × V). (key == o.0) ≡ false) others
      → length others < c.cache_size
      → get key (put_all others (put key value c)) ≡ some value
  unfolding refresh insert_lru lookup
  get-put_all key value others c different few =
      put_all-IsKept key value others (put key value c) different
        (at_first (Bool-cases (leb c.cache_size (length (insert key value c.new_cache)))))
    where
      at_first :
          ((leb c.cache_size (length (insert key value c.new_cache))) ≡ true)
            ⊎ ((leb c.cache_size (length (insert key value c.new_cache))) ≡ false)
          → IsKept key value (length others) (put key value c)
      at_first full_or_not =
          let found : lookup key (insert key value c.new_cache) ≡ some value =
            ground (arith, lookup-insert key key value c.new_cache) in
          elim full_or_not [
            | inl full ↦ rw full (inr (refl, found, omega (arith, few)))
            | inr room ↦ rw room (inl (found, omega (arith, few)))
          ]

  -- The insertions of a block, with no refresh in between.
  unfoldable pub insert_all : List (ℕ × V) → SimpleLru V → SimpleLru V
  insert_all [] c = c
  insert_all ((key, value) ∷ rest) c = insert_all rest (insert_lru key value c).1

  insert_all-lookup :
      (key : ℕ) (value : V) (others : List (ℕ × V)) (c : SimpleLru V)
      → All (λ (o : ℕ × V). (key == o.0) ≡ false) others
      → lookup key c.new_cache ≡ some value
      → lookup key (insert_all others c).new_cache ≡ some value
  unfolding insert_all insert_lru
  insert_all-lookup key value [] c others found = found
  insert_all-lookup key value ((j, w) ∷ rest) c (other, others) found =
      insert_all-lookup key value rest (insert_lru j w c).1 others
        (ground (arith, lookup-insert j key w c.new_cache))

  refresh-get :
      (key : ℕ) (value : V) (c : SimpleLru V)
      → lookup key c.new_cache ≡ some value
      → get key (refresh c) ≡ some value
  unfolding refresh lookup get
  refresh-get key value c found = elim (Bool-cases (leb c.cache_size (length c.new_cache))) [
    | inl full ↦ rw full found
    | inr room ↦ rw room (rw (found, get) refl)
  ]

  -- Whatever the cache size, an entry that a block inserts and does not insert again under its key
  -- is found after the refresh that follows the block, however many other entries the block inserts.
  pub get-refresh :
      (key : ℕ) (value : V) (others : List (ℕ × V)) (c : SimpleLru V)
      → All (λ (o : ℕ × V). (key == o.0) ≡ false) others
      → get key (refresh (insert_all others (insert_lru key value c).1)) ≡ some value
  unfolding insert_lru
  get-refresh key value others c different =
      refresh-get key value (insert_all others (insert_lru key value c).1) (
        insert_all-lookup key value others (insert_lru key value c).1 different
          (ground (arith, lookup-insert key key value c.new_cache)))

  -- The sizes that insertions with refreshes keep.
  pub record IsBounded (c : SimpleLru V) : Type 0 where
    pub new_size : length c.new_cache < c.cache_size
    pub old_size : length c.old_cache ≤ c.cache_size

  -- If the new generation is below the cache size and the old one is not above it, they are so
  -- after an insertion and a refresh, and the cache has fewer entries than twice its size.
  pub put-IsBounded :
      (key : ℕ) (value : V) (c : SimpleLru V)
      → IsBounded c
      → IsBounded (put key value c) × (len (put key value c) < 2 * c.cache_size)
  unfolding refresh insert_lru len
  put-IsBounded key value c bounded =
      let longer = length-insert key value c.new_cache in
      elim (Bool-cases (leb c.cache_size (length (insert key value c.new_cache)))) [
        | inl full ↦ rw full (
          record {
            new_size = omega (arith, bounded.new_size);
            old_size = omega (arith, longer, bounded.new_size);
          },
          omega (arith, longer, bounded.new_size),
        )
        | inr room ↦ rw room (
            let fits : length (insert key value c.new_cache) < c.cache_size = ground arith in
            (
              record { new_size = fits; old_size = bounded.old_size },
              omega (arith, fits, bounded.old_size),
            ))
      ]
