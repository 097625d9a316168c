-- ===== src/Builder/FeeRate.antt =====
-- src/fee_rate.rs: a rate in sats for a virtual byte, and the fee for a size.
use okx_ord.Common.{ℕ, ◌+◌, ◌*◌, ◌/◌, ◌≤◌, ◌≡◌, refl, arith, min}
use okx_ord.Common.Outcome.{u64_max}

-- The code keeps a rate in floating point. A fraction stands for it here, and its product with a size is
-- exact, as that of a whole rate is in floating point below 2^53, which is more sats than there are.
pub record FeeRate : Type 0 where
  pub numerator : ℕ
  pub denominator : ℕ

-- `FeeRate::fee`: rounded to the nearest number, half up, and cut off at a u64.
unfoldable pub fee : FeeRate → ℕ → ℕ
fee rate vsize =
    min ((2 * (rate.numerator * vsize) + rate.denominator) / (2 * rate.denominator)) u64_max

abbrev pub IsWhole : FeeRate → Type 0
IsWhole rate = rate.denominator ≡ 1

fee_whole : (rate : FeeRate) (n : ℕ) → IsWhole rate → fee rate n ≡ min (rate.numerator * n) u64_max
unfolding fee
fee_whole rate n whole =
    rw whole
      (let e : (2 * (rate.numerator * n) + 1) / 2 ≡ rate.numerator * n = omega arith in rw e refl)

pub fee_mono : (rate : FeeRate) → IsWhole rate → (n m : ℕ) → n ≤ m → fee rate n ≤ fee rate m
fee_mono rate whole n m h = rw (fee_whole rate n whole, fee_whole rate m whole) (grind arith)

pub fee_add :
    (rate : FeeRate) → IsWhole rate → (n m : ℕ) → fee rate (n + m) ≤ fee rate n + fee rate m
fee_add rate whole n m =
    rw (fee_whole rate (n + m) whole, fee_whole rate n whole, fee_whole rate m whole) (grind arith)
