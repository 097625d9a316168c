-- ===== src/SimpleLru.antt =====
-- src/okx/lru.rs: a cache of two generations of entries. The keys stand as numbers, and the two
-- hash maps are association lists.
pub mod Lookups
mod Tests
use okx_ord.Common.{ℕ, ◌+◌, [], Option, none, some, Bool, true, leb, if◌then◌else◌, is_some, length}
use okx_ord.Common.Dict.{Dict, lookup, insert}

pub record SimpleLru {ℓ} (V : Type ℓ) : Type ℓ where
  pub cache_size : ℕ
  pub new_cache : Dict V
  pub old_cache : Dict V

module _ {ℓ} {V : Type ℓ} where
  -- `SimpleLru::new`
  abbrev pub new_lru : ℕ → SimpleLru V
  new_lru cache_size = record { cache_size = cache_size; new_cache = []; old_cache = [] }

  -- `SimpleLru::get`
  unfoldable pub get : ℕ → SimpleLru V → Option V
  get key c = elim (lookup key c.new_cache) [ some v ↦ some v | none ↦ lookup key c.old_cache ]

  -- `SimpleLru::contains`
  unfoldable pub contains : ℕ → SimpleLru V → Bool
  contains key c =
      if is_some (lookup key c.new_cache) then true else is_some (lookup key c.old_cache)

  -- `SimpleLru::insert`: the value that the key had in the new generation, and the cache.
  unfoldable pub insert_lru : ℕ → V → SimpleLru V → Option V × SimpleLru V
  insert_lru key value c =
      (lookup key c.new_cache, record c { new_cache = insert key value c.new_cache })

  -- `SimpleLru::refresh`: a full new generation becomes the old one.
  unfoldable pub refresh : SimpleLru V → SimpleLru V
  refresh c =
      if leb c.cache_size (length c.new_cache)
      then record c { new_cache = []; old_cache = c.new_cache }
      else c

  -- `SimpleLru::len`
  unfoldable pub len : SimpleLru V → ℕ
  len c = length c.old_cache + length c.new_cache
