-- ===== src/Runes/Varint/Progress.antt =====
-- `decode` on any input.
use okx_ord.Common.{ℕ, ◌+◌, ◌-◌, ◌*◌, ◌≤◌, ◌≡◌, List, [], ◌∷◌, arith, length}
use okx_ord.Common.Outcome.{saturate, u128_max}
use okx_ord.Runes.Varint.{decode_loop, decode}

saturate-le : (m n : ℕ) → saturate m n ≤ m
saturate-le m n = ground arith

decode_loop_bounds :
    (buffer : List ℕ) (n i : ℕ)
    → n ≤ u128_max
    → ((decode_loop buffer n i).0 ≤ u128_max)
      × (i ≤ (decode_loop buffer n i).1)
      × ((decode_loop buffer n i).1 ≤ i + length buffer)
unfolding decode_loop
decode_loop_bounds [] n i h = omega arith
decode_loop_bounds (b ∷ rest) n i h = ground (
  arith,
  decode_loop_bounds rest (saturate u128_max (saturate u128_max (n * 128) + (b - 127))) (i + 1)
      (saturate-le u128_max (saturate u128_max (n * 128) + (b - 127))),
)

-- On any non-empty buffer `decode` returns a `u128` and takes at least one byte and no more than
-- there are; on an empty one it takes none.
pub decode_takes :
    (b : ℕ) (rest : List ℕ)
    → ((decode (b ∷ rest)).0 ≤ u128_max)
      × (1 ≤ (decode (b ∷ rest)).1)
      × ((decode (b ∷ rest)).1 ≤ 1 + length rest)
      × (decode [] ≡ (0, 0))
unfolding decode decode_loop
decode_takes b rest = ground (
  arith,
  decode_loop_bounds rest (saturate u128_max (saturate u128_max (0 * 128) + (b - 127))) (0 + 1)
      (saturate-le u128_max (saturate u128_max (0 * 128) + (b - 127))),
)
