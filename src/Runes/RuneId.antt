-- ===== src/Runes/RuneId.antt =====
-- src/runes/rune_id.rs: a rune id is a block height and an index in the block.
pub mod RoundTrip
use Prim.Native.Nat.{bit_and, bit_or}
use okx_ord.Common.{ℕ, ◌+◌, ◌*◌, ◌/◌, ◌^◌, Option, some, none, and_then}
use okx_ord.Common.Outcome.{try_from, u32_max}

pub record RuneId : Type 0 where
  pub height : ℕ
  pub index : ℕ

-- `TryFrom<u128> for RuneId`. The masked index always fits sixteen bits.
unfoldable pub rune_id_try_from : ℕ → Option RuneId
rune_id_try_from n =
    and_then (try_from u32_max (n / 2 ^ 16))
      λ height. some (record { height = height; index = bit_and n 0xFFFF })

-- `From<RuneId> for u128`
unfoldable pub u128_from : RuneId → ℕ
u128_from id = bit_or (id.height * 2 ^ 16) id.index

-- A table key: the pair of `RuneId::store`, as one number.
abbrev pub store_rune_id : RuneId → ℕ
store_rune_id id = id.height * 2 ^ 16 + id.index
