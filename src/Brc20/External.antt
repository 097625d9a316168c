-- ===== src/Brc20/External.antt =====
-- What the BRC-20 code takes from other crates and from the text functions of the language: the
-- numbers of `bigdecimal`, the lower case of a text, its hex form, and the text of a script key.
use okx_ord.Common.{
  ℕ, ◌+◌, ◌-◌, ◌*◌, ◌^◌, ◌≤◌, ◌≡◌, List, [], ◌∷◌, ◌||◌, if◌then◌else◌, Option, some, Bool, true,
  false, ltb, leb, ◌==◌, then_some,
}
use okx_ord.Common.Outcome.{u128_max}

-- A script key: an address, or the hash of another script and whether the script is an OP_RETURN.
pub data ScriptKey : Type 0 where
  address : ℕ → ScriptKey
  script_hash : ℕ → Bool → ScriptKey

-- A text is the list of its bytes. The text of a script key and the hex form are numbered, since
-- they are keys of tables only. `scale_above x d` is `scale > d` of `as_bigint_and_exponent`.
pub record External : Type 1 where
  pub BigDecimal : Type 0
  pub BigInt : Type 0
  pub one : BigDecimal
  pub from_nat : ℕ → BigDecimal
  pub add : BigDecimal → BigDecimal → BigDecimal
  pub sub : BigDecimal → BigDecimal → BigDecimal
  pub mul : BigDecimal → BigDecimal → BigDecimal
  pub lt : BigDecimal → BigDecimal → Bool
  pub ge : BigDecimal → BigDecimal → Bool
  pub is_integer : BigDecimal → Bool
  pub is_no_sign : BigDecimal → Bool
  pub scale_above : BigDecimal → ℕ → Bool
  pub to_u8 : BigDecimal → Option ℕ
  pub to_bigint : BigDecimal → Option BigInt
  pub to_u128 : BigInt → Option ℕ
  pub parse : List ℕ → Option BigDecimal
  pub to_lowercase : List ℕ → List ℕ
  pub hex : List ℕ → ℕ
  pub script_text : ScriptKey → ℕ
  pub script_eq : ScriptKey → ScriptKey → Bool

-- The characters that `Num::from_str` refuses: `e`, `E`, `+` and `-`.
unfoldable pub has_sign : List ℕ → Bool
has_sign [] = false
has_sign (c ∷ cs) =
    let later = has_sign cs in
    if c == 0x65 || c == 0x45 || c == 0x2b || c == 0x2d then true else later

-- What the code relies on: `IsNat x n` says that the decimal `x` is the natural number `n`.
-- Arithmetic and comparisons of such decimals are exact, so is the conversion to an integer, and a
-- text with no sign and no exponent that has at most `d` decimals stands for a natural number of
-- units of which `10 ^ d` make one.
pub record IsExact (x : External) : Type 1 where
  pub IsNat : x.BigDecimal → ℕ → Type 0
  pub one_nat : IsNat x.one 1
  pub from_nat_nat : (n : ℕ) → IsNat (x.from_nat n) n
  pub add_nat : {a b : x.BigDecimal} {n m : ℕ} → IsNat a n → IsNat b m → IsNat (x.add a b) (n + m)
  pub mul_nat : {a b : x.BigDecimal} {n m : ℕ} → IsNat a n → IsNat b m → IsNat (x.mul a b) (n * m)
  pub sub_nat :
      {a b : x.BigDecimal} {n m : ℕ} → IsNat a n → IsNat b m → m ≤ n → IsNat (x.sub a b) (n - m)
  pub lt_nat : {a b : x.BigDecimal} {n m : ℕ} → IsNat a n → IsNat b m → x.lt a b ≡ ltb n m
  pub ge_nat : {a b : x.BigDecimal} {n m : ℕ} → IsNat a n → IsNat b m → x.ge a b ≡ leb m n
  pub integer_nat : {a : x.BigDecimal} {n : ℕ} → IsNat a n → x.is_integer a ≡ true
  pub no_sign_nat : {a : x.BigDecimal} {n : ℕ} → IsNat a n → x.is_no_sign a ≡ (n == 0)
  pub bigint_nat :
      {a : x.BigDecimal} {n : ℕ}
      → IsNat a n
      → (z : x.BigInt) × (x.to_bigint a ≡ some z) × (x.to_u128 z ≡ then_some (leb n u128_max) n)
  pub scaled :
      {s : List ℕ} {a t : x.BigDecimal} {d : ℕ}
      → x.parse s ≡ some a
      → has_sign s ≡ false
      → x.scale_above a d ≡ false
      → IsNat t (10 ^ d)
      → (n : ℕ) × IsNat (x.mul a t) n
  pub script_eq_sound : {a b : ScriptKey} → x.script_eq a b ≡ true → a ≡ b
