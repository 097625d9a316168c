-- ===== src/Common/Outcome.antt =====
-- Rust code that may panic, and its arithmetic on fixed-width unsigned integers.
use Prim.Native.Nat.{ℕ, ◌+◌, ◌-◌, ◌*◌, ◌/◌, ◌%◌, ◌^◌, ◌≤◌}
use mathlib.Core.Path.{◌≡◌, refl}
use mathlib.Core.Bool.{Bool, true}
use mathlib.Core.Option.{Option, none, some}
use native.Mathlib.Omega.{arith}
use okx_ord.Common.Tests.{leb, ◌==◌, if◌then◌else◌, then_some}

pub data Outcome {ℓ} (A : Type ℓ) : Type ℓ where
  done : A → Outcome A
  panic : Outcome A

infixl 5 ◌>>=◌ ◌>>◌
abbrev pub ◌>>=◌ {ℓ κ} : {A : Type ℓ} {B : Type κ} → Outcome A → (A → Outcome B) → Outcome B
done a >>= f = f a
panic >>= f = panic

abbrev pub ◌>>◌ {ℓ} : {B : Type ℓ} → Outcome (Unit {0}) → Outcome B → Outcome B
m >> k = m >>= λ _. k

-- `.unwrap()`.
abbrev pub unwrap {ℓ} : {A : Type ℓ} → Option A → Outcome A
unwrap none = panic
unwrap (some a) = done a

abbrev pub u8_max : ℕ
u8_max = 2 ^ 8 - 1

abbrev pub u16_max : ℕ
u16_max = 2 ^ 16 - 1

abbrev pub u32_max : ℕ
u32_max = 2 ^ 32 - 1

abbrev pub u64_max : ℕ
u64_max = 2 ^ 64 - 1

abbrev pub u128_max : ℕ
u128_max = 2 ^ 128 - 1

-- `a + b`, `a - b` and `a * b` at the type whose greatest value is `max`. A build with overflow
-- checks panics where the result does not fit; a build without them wraps around.
unfoldable pub add_checked : Bool → ℕ → ℕ → ℕ → Outcome ℕ
add_checked checks max a b =
    if leb (a + b) max then done (a + b) else if checks then panic else done ((a + b) % (max + 1))

unfoldable pub sub_checked : Bool → ℕ → ℕ → ℕ → Outcome ℕ
sub_checked checks max a b =
    if leb b a
    then done (a - b)
    else if checks
    then panic
    else done ((a + (max + 1) - b) % (max + 1))

unfoldable pub mul_checked : Bool → ℕ → ℕ → ℕ → Outcome ℕ
mul_checked checks max a b =
    if leb (a * b) max then done (a * b) else if checks then panic else done (a * b % (max + 1))

-- `a / b` and `a % b` panic at 0 in every build.
unfoldable pub div_checked : ℕ → ℕ → Outcome ℕ
div_checked a b = if b == 0 then panic else done (a / b)

unfoldable pub rem_checked : ℕ → ℕ → Outcome ℕ
rem_checked a b = if b == 0 then panic else done (a % b)

-- `try_from` to the type whose greatest value is `max`.
abbrev pub try_from : ℕ → ℕ → Option ℕ
try_from max n = then_some (leb n max) n

-- `saturating_add` and `saturating_mul`.
abbrev pub saturate : ℕ → ℕ → ℕ
saturate max n = if leb n max then n else max

pub add_checked_fits :
    (checks : Bool) (max a b : ℕ) → a + b ≤ max → add_checked checks max a b ≡ done (a + b)
unfolding add_checked
add_checked_fits checks max a b h = ground arith

pub sub_checked_fits :
    (checks : Bool) (max a b : ℕ) → b ≤ a → sub_checked checks max a b ≡ done (a - b)
unfolding sub_checked
sub_checked_fits checks max a b h = ground arith

pub mul_checked_fits :
    (checks : Bool) (max a b : ℕ) → a * b ≤ max → mul_checked checks max a b ≡ done (a * b)
unfolding mul_checked
mul_checked_fits checks max a b h = let e : leb (a * b) max ≡ true = ground arith in rw e refl
