-- ===== src/Runes/RuneId/RoundTrip.antt =====
-- The conversions between a rune id and `u128`.
use okx_ord.Common.{
  ℕ, ◌/◌, ◌%◌, ◌^◌, ◌<◌, ◌≤◌, ◌≡◌, refl, some, none, arith, true, false, leb, ltb, ltb→lt,
  Bool-cases, inl, inr,
}
use okx_ord.Common.Bits.{bit_or_shifted, bit_and_mask}
use okx_ord.Common.Outcome.{u32_max, u16_max}
use okx_ord.Runes.RuneId.{RuneId, rune_id_try_from, u128_from, store_rune_id}

-- What `try_from` finds, in plain arithmetic.
pub rune_id_try_from_lem :
    (n : ℕ)
    → n < 2 ^ 48
    → rune_id_try_from n ≡ some (record { height = n / 2 ^ 16; index = n % 2 ^ 16 })
unfolding rune_id_try_from
rune_id_try_from_lem n h =
    let e : leb (n / 2 ^ 16) u32_max ≡ true = ground arith in rw (e, bit_and_mask 16 n) refl

pub rune_id_try_from-none : (n : ℕ) → 2 ^ 48 ≤ n → rune_id_try_from n ≡ none
unfolding rune_id_try_from
rune_id_try_from-none n h = let e : leb (n / 2 ^ 16) u32_max ≡ false = ground arith in rw e refl

pub u128_from_lem : (id : RuneId) → id.index ≤ u16_max → u128_from id ≡ store_rune_id id
unfolding u128_from
u128_from_lem id h = bit_or_shifted 16 id.height id.index (omega arith)

u128_from-lt : (id : RuneId) → id.height ≤ u32_max → id.index ≤ u16_max → u128_from id < 2 ^ 48
u128_from-lt id hh hi = rw (u128_from_lem id hi) (omega arith)

-- A rune id of a 32-bit height and a 16-bit index goes to a number below 2 ^ 48, and comes back
-- from it. A number from 2 ^ 48 on is no rune id.
pub rune_id_try_from-u128_from :
    (id : RuneId) (n : ℕ)
    → id.height ≤ u32_max
    → id.index ≤ u16_max
    → 2 ^ 48 ≤ n
    → (rune_id_try_from (u128_from id) ≡ some id)
      × (u128_from id < 2 ^ 48)
      × (rune_id_try_from n ≡ none)
rune_id_try_from-u128_from id n hh hi hn = (
  rw (rune_id_try_from_lem (u128_from id) (u128_from-lt id hh hi), u128_from_lem id hi)
      (ground arith),
  u128_from-lt id hh hi,
  rune_id_try_from-none n hn,
)

-- The key under which the id of a number is stored is that number.
pub store_rune_id-try_from :
    (n : ℕ) → n < 2 ^ 48 → (id : RuneId) × (rune_id_try_from n ≡ some id) × (store_rune_id id ≡ n)
store_rune_id-try_from n h =
    (record { height = n / 2 ^ 16; index = n % 2 ^ 16 }, rune_id_try_from_lem n h, omega arith)

pub lt_of_try_from : (n : ℕ) {id : RuneId} → rune_id_try_from n ≡ some id → n < 2 ^ 48
lt_of_try_from n e = elim (Bool-cases (ltb n (2 ^ 48))) [
  | inl small ↦ ltb→lt n (2 ^ 48) small
  | inr large ↦ cc (rune_id_try_from-none n (ground arith))
]
