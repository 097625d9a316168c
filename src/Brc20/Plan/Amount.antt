-- ===== src/Brc20/Plan/Amount.antt =====
-- The amount of a mint or a transfer, in units of its token.
use okx_ord.Common.{ℕ, List}
use okx_ord.Brc20.External.{External}
use okx_ord.Brc20.Types.{Result, ◌>>=◌, ◌>>◌, fail_if, amount_overflow}
use okx_ord.Brc20.Num.{
  num_from_str, checked_powu, checked_add, checked_mul, checked_to_u128, bigdecimal_ten,
}

-- The lines from `let base` to `amt = amt.checked_mul(&base)?`.
unfoldable pub parse_amount : (x : External) → List ℕ → ℕ → Result x.BigDecimal
parse_amount x text decimal = do
  base ← checked_powu x (bigdecimal_ten x) decimal
  amount ← num_from_str x text
  fail_if (x.scale_above amount decimal) amount_overflow
  checked_mul x amount base

-- `a.checked_add(&b)?.checked_to_u128()?`
unfoldable pub sum_u128 : (x : External) → x.BigDecimal → x.BigDecimal → Result ℕ
sum_u128 x a b = do sum ← checked_add x a b; checked_to_u128 x sum
