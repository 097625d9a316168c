-- ===== src/Brc20/Num.antt =====
-- src/okx/protocol/brc20/num.rs and params.rs: checked operations on decimals.
use okx_ord.Common.{ℕ, zero, suc, List, [], ◌∷◌, Bool, false, not, ◌||◌, ◌==◌, if◌then◌else◌}
use okx_ord.Brc20.External.{External, has_sign}
use okx_ord.Brc20.Types.{
  Result, ok, err, ◌>>=◌, ok_or, invalid_num, invalid_integer, internal_error, overflow,
}

-- `MAX_DECIMAL_WIDTH`
abbrev pub max_decimal_width : ℕ
max_decimal_width = 18

abbrev pub starts_with_point : List ℕ → Bool
starts_with_point [] = false
starts_with_point (c ∷ cs) = c == 0x2e

unfoldable pub ends_with_point : List ℕ → Bool
ends_with_point [] = false
ends_with_point (c ∷ []) = c == 0x2e
ends_with_point (c ∷ d ∷ cs) = ends_with_point (d ∷ cs)

module _ (x : External) where
  open x use {BigDecimal}

  -- `Num::checked_add` and `Num::checked_mul` do not fail.
  abbrev pub checked_add : BigDecimal → BigDecimal → Result BigDecimal
  checked_add a b = ok (x.add a b)

  abbrev pub checked_mul : BigDecimal → BigDecimal → Result BigDecimal
  checked_mul a b = ok (x.mul a b)

  -- `Num::checked_sub`
  unfoldable pub checked_sub : BigDecimal → BigDecimal → Result BigDecimal
  checked_sub a b = if x.lt a b then err overflow else ok (x.sub a b)

  -- `for _ in 1..exp` of `Num::checked_powu`, for the number of rounds.
  unfoldable pub powu_loop : ℕ → BigDecimal → BigDecimal → BigDecimal
  powu_loop zero a result = result
  powu_loop (suc rounds) a result = powu_loop rounds a (x.mul result a)

  -- `Num::checked_powu`
  unfoldable pub checked_powu : BigDecimal → ℕ → Result BigDecimal
  unfolding powu_loop
  checked_powu a zero = ok x.one
  checked_powu a (suc zero) = ok a
  checked_powu a (suc (suc exp)) = ok (powu_loop (suc exp) a a)

  -- `Num::checked_to_u8`
  unfoldable pub checked_to_u8 : BigDecimal → Result ℕ
  checked_to_u8 a = if not (x.is_integer a) then err invalid_integer else ok_or (x.to_u8 a) overflow

  -- `Num::checked_to_u128`
  unfoldable pub checked_to_u128 : BigDecimal → Result ℕ
  checked_to_u128 a =
      if not (x.is_integer a)
      then err invalid_integer
      else (do z ← ok_or (x.to_bigint a) internal_error; ok_or (x.to_u128 z) overflow)

  -- `FromStr for Num`
  unfoldable pub num_from_str : List ℕ → Result BigDecimal
  num_from_str s =
      if starts_with_point s || ends_with_point s || has_sign s then err (invalid_num s) else (do
        a ← ok_or (x.parse s) (invalid_num s)
        if x.scale_above a max_decimal_width then err (invalid_num s) else ok a)

  -- `MAXIMUM_SUPPLY` and `BIGDECIMAL_TEN`
  abbrev pub maximum_supply : BigDecimal
  maximum_supply = x.from_nat 18446744073709551615

  abbrev pub bigdecimal_ten : BigDecimal
  bigdecimal_ten = x.from_nat 10
