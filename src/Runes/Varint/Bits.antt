-- ===== src/Runes/Varint/Bits.antt =====
-- The masks of `varint` on one byte as arithmetic.
use Prim.Native.Nat.{bit_and, bit_or}
use okx_ord.Common.{
  ℕ, zero, suc, ◌+◌, ◌%◌, ◌<◌, ◌≡◌, refl, Bool, true, false, if◌then◌else◌, ◌==◌, arith,
}
use okx_ord.Common.Bits.{bit_and_mask}

-- Whether two functions agree on the numbers below a bound.
agree : (ℕ → ℕ) → (ℕ → ℕ) → ℕ → Bool
agree f g zero = true
agree f g (suc bound) = let lower = agree f g bound in if f bound == g bound then lower else false

agree_lem : (f g : ℕ → ℕ) (bound i : ℕ) → i < bound → agree f g bound ≡ true → f i ≡ g i
unfolding agree
agree_lem f g zero i below same = absurd (omega arith)
agree_lem f g (suc bound) i below same = ground (arith, agree_lem f g bound i)

top_bit : agree (λ x. bit_or x 0x80) (λ x. x % 128 + 128) 256 ≡ true
unfolding agree
top_bit = refl

-- `n.to_le_bytes()[0] & 0b0111_1111` is the lowest group of seven bits.
pub low_group : (n : ℕ) → bit_and (n % 256) 0x7f ≡ n % 128
low_group n = omega (arith, bit_and_mask 7 (n % 256))

-- `n.to_le_bytes()[0] | 0b1000_0000` is the lowest group with the top bit set.
pub high_group : (n : ℕ) → bit_or (n % 256) 0x80 ≡ n % 128 + 128
high_group n =
    let byte : bit_or (n % 256) 0x80 ≡ n % 256 % 128 + 128 =
      agree_lem (λ x. bit_or x 0x80) (λ x. x % 128 + 128) 256 (n % 256) (omega arith) top_bit in
    omega (arith, byte)
