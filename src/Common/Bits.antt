-- ===== src/Common/Bits.antt =====
-- Masks and disjoint sums of binary digits as arithmetic, at variables.
use Prim.Native.Nat.{bit_and, bit_or, bit_and-bitwise, bit_or-bitwise, digits, min, max}
use Prim.Native.Nat.{ℕ, zero, suc, ◌+◌, ◌-◌, ◌*◌, ◌/◌, ◌%◌, ◌^◌, ◌≤◌, ◌<◌}
use mathlib.Core.Path.{◌≡◌, refl, sym, ap, ◌∙◌}
use native.Mathlib.Nat.{pow-suc, div-add-mod, mod-lt, mod-eq_of_lt, mul-add-mod_self_left, zero-mod}
use native.Mathlib.Omega.{arith}

abbrev or_digits : ℕ → ℕ → ℕ → ℕ
or_digits = digits (λ b. b) max

or_digits-zero : (n a : ℕ) → a ≤ n → or_digits n a 0 ≡ a
or_digits-zero zero zero h = refl
or_digits-zero zero (suc a) h = absurd (omega arith)
or_digits-zero (suc n) zero h = refl
or_digits-zero (suc n) (suc a) h = omega (arith, or_digits-zero n (suc a / 2) (omega arith))

-- A number whose low `k` digits are free takes up `i` there.
or_digits_shifted : (k n a h i : ℕ) → a ≤ n → a ≡ h * 2 ^ k → i < 2 ^ k → or_digits n a i ≡ a + i
or_digits_shifted zero n a h zero le e lt = or_digits-zero n a le ∙ omega arith
or_digits_shifted zero n a h (suc i) le e lt = absurd (omega arith)
or_digits_shifted (suc k) zero zero h i le e lt = omega arith
or_digits_shifted (suc k) zero (suc a) h i le e lt = absurd (omega arith)
or_digits_shifted (suc k) (suc n) zero h i le e lt = omega arith
or_digits_shifted (suc k) (suc n) (suc a) h i le e lt =
    let p : 2 ^ suc k ≡ 2 * 2 ^ k = omega (arith, pow-suc 2 k) in
    let double : suc a ≡ 2 * (h * 2 ^ k) = e ∙ rw p (omega arith) in
    omega (
      arith,
      double,
      or_digits_shifted k n (suc a / 2) h (i / 2) (omega arith) (omega (arith, double))
          (omega (arith, p)),
    )

pub bit_or_shifted : (k h i : ℕ) → i < 2 ^ k → bit_or (h * 2 ^ k) i ≡ h * 2 ^ k + i
bit_or_shifted k h i lt =
    bit_or-bitwise (h * 2 ^ k) i
    ∙ or_digits_shifted k (h * 2 ^ k) (h * 2 ^ k) h i (omega arith) (omega arith) lt

abbrev and_digits : ℕ → ℕ → ℕ → ℕ
and_digits = digits (λ b. 0) min

and_digits-zero : (n a : ℕ) → a ≤ n → and_digits n a 0 ≡ 0
and_digits-zero zero a h = refl
and_digits-zero (suc n) zero h = refl
and_digits-zero (suc n) (suc a) h = omega (arith, and_digits-zero n (suc a / 2) (omega arith))

mod_double : (x m : ℕ) → 0 < m → x / 2 % m * 2 + x % 2 ≡ x % (2 * m)
mod_double x m h =
    let r = x / 2 % m * 2 + x % 2 in
    let whole : m * (x / 2 / m) + x / 2 % m ≡ x / 2 = div-add-mod (x / 2) m in
    let small : x / 2 % m < m = mod-lt (x / 2) h in
    let parts : 2 * m * (x / 2 / m) + r ≡ x = omega (arith, whole) in
    sym (mod-eq_of_lt (omega (arith, small)))
    ∙ sym (mul-add-mod_self_left (2 * m) (x / 2 / m) r)
    ∙ ap (λ t. t % (2 * m)) parts

pow_pos : (k : ℕ) → 0 < 2 ^ k
pow_pos zero = omega arith
pow_pos (suc k) = omega (arith, pow-suc 2 k, pow_pos k)

and_digits_mask : (k n a b : ℕ) → a ≤ n → b + 1 ≡ 2 ^ k → and_digits n a b ≡ a % 2 ^ k
and_digits_mask zero n a zero le e = and_digits-zero n a le ∙ omega arith
and_digits_mask zero n a (suc b) le e = absurd (omega arith)
and_digits_mask (suc k) zero zero b le e = rw zero-mod refl
and_digits_mask (suc k) zero (suc a) b le e = absurd (omega arith)
and_digits_mask (suc k) (suc n) zero b le e = rw zero-mod refl
and_digits_mask (suc k) (suc n) (suc a) b le e =
    let p : 2 ^ suc k ≡ 2 * 2 ^ k = omega (arith, pow-suc 2 k) in
    let half : b / 2 + 1 ≡ 2 ^ k = omega (arith, p, pow_pos k) in
    let odd : b % 2 ≡ 1 = omega (arith, p, pow_pos k) in
    rw p (
      omega (
        arith,
        odd,
        and_digits_mask k n (suc a / 2) (b / 2) (omega arith) half,
        mod_double (suc a) (2 ^ k) (pow_pos k),
      ))

-- `a & (2 ^ k - 1)`
pub bit_and_mask : (k a : ℕ) → bit_and a (2 ^ k - 1) ≡ a % 2 ^ k
bit_and_mask k a =
    bit_and-bitwise a (2 ^ k - 1)
    ∙ and_digits_mask k a a (2 ^ k - 1) (omega arith) (omega (arith, pow_pos k))
