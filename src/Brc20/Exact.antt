-- ===== src/Brc20/Exact.antt =====
-- The checked operations on decimals that are natural numbers.
use okx_ord.Common.{
  ℕ, zero, suc, ◌+◌, ◌-◌, ◌*◌, ◌^◌, ◌≤◌, ◌≡◌, refl, sym, List, some, true, false, ltb, leb, ◌||◌,
  arith, Bool-cases, Option-cases, inl, inr,
}
use native.Mathlib.Nat.{pow-suc}
use okx_ord.Common.Outcome.{u128_max}
use okx_ord.Brc20.External.{External, IsExact, has_sign}
use okx_ord.Brc20.Types.{ok, fail_if, >>=-eq-ok, fail_if-eq-ok, ok_inj}
use okx_ord.Brc20.Num.{
  checked_sub, checked_powu, powu_loop, checked_to_u128, num_from_str, starts_with_point,
  ends_with_point, bigdecimal_ten, max_decimal_width,
}
use okx_ord.Brc20.Plan.Amount.{parse_amount, sum_u128}

module _ (x : External) (exact : IsExact x) where
  open x use {BigDecimal}
  open exact use {IsNat}

  pub to_u128-fits :
      {a : BigDecimal} (n : ℕ) → IsNat a n → n ≤ u128_max → checked_to_u128 x a ≡ ok n
  unfolding checked_to_u128
  to_u128-fits n h fits =
      let (z, e, f) = exact.bigint_nat h in
      let small : leb n u128_max ≡ true = ground arith in rw (exact.integer_nat h, e, f, small) refl

  -- A conversion that succeeds gives the number, which fits.
  pub to_u128-eq-ok :
      {a : BigDecimal} (n m : ℕ) → IsNat a n → checked_to_u128 x a ≡ ok m → (m ≡ n) × (n ≤ u128_max)
  unfolding checked_to_u128
  to_u128-eq-ok n m h r =
      let (z, e, f) = exact.bigint_nat h in
      elim (Bool-cases (leb n u128_max)) [
        | inl small ↦
            let g : checked_to_u128 x _ ≡ ok n = to_u128-fits n h (ground arith) in
            let q : n ≡ m = cc in (sym q, ground arith)
        | inr large ↦ absurd (let g = rw (exact.integer_nat h, e, f, large) at r in cc)
      ]

  pub checked_sub-fits :
      {a b : BigDecimal} (n m : ℕ)
      → IsNat a n
      → IsNat b m
      → m ≤ n
      → (checked_sub x a b ≡ ok (x.sub a b)) × IsNat (x.sub a b) (n - m)
  unfolding checked_sub
  checked_sub-fits n m ha hb le =
      let e : ltb n m ≡ false = ground arith in
      (rw (exact.lt_nat ha hb, e) refl, exact.sub_nat ha hb le)

  -- A difference that exists is of numbers in order.
  pub checked_sub-eq-ok :
      {a b d : BigDecimal} (n m : ℕ)
      → IsNat a n
      → IsNat b m
      → checked_sub x a b ≡ ok d
      → (m ≤ n) × IsNat d (n - m)
  unfolding checked_sub
  checked_sub-eq-ok {a = a} {b = b} {d = d} n m ha hb r = elim (Bool-cases (ltb n m)) [
    | inl less ↦ absurd (let g = rw (exact.lt_nat ha hb, less) at r in cc)
    | inr more ↦
        let le : m ≤ n = ground arith in
        let q = (rw (exact.lt_nat ha hb, more) at r) in
        let same : x.sub a b ≡ d = ok_inj q in
        let there : IsNat (x.sub a b) (n - m) = exact.sub_nat ha hb le in (le, rw same at there)
  ]

  pub sum_u128-fits :
      {a b : BigDecimal} (n m : ℕ)
      → IsNat a n
      → IsNat b m
      → n + m ≤ u128_max
      → sum_u128 x a b ≡ ok (n + m)
  unfolding sum_u128
  sum_u128-fits n m ha hb fits = to_u128-fits (n + m) (exact.add_nat ha hb) fits

  powu_loop-IsNat :
      (rounds d : ℕ) (a : BigDecimal)
      → IsNat a (10 ^ suc d)
      → IsNat (powu_loop x rounds (bigdecimal_ten x) a) (10 ^ (suc d + rounds))
  unfolding powu_loop
  powu_loop-IsNat zero d a h = let q : suc d + 0 ≡ suc d = omega arith in rw q h
  powu_loop-IsNat (suc rounds) d a h =
      let q : suc d + suc rounds ≡ suc (suc d) + rounds = omega arith in
      let p : 10 ^ suc d * 10 ≡ 10 ^ suc (suc d) = omega (arith, pow-suc 10 (suc d)) in
      let next : IsNat (x.mul a (bigdecimal_ten x)) (10 ^ suc d * 10) =
        exact.mul_nat h (exact.from_nat_nat 10) in
      rw q (powu_loop-IsNat rounds (suc d) (x.mul a (bigdecimal_ten x)) (rw p at next))

  -- The powers of ten.
  pub checked_powu-IsNat :
      (d : ℕ) → (t : BigDecimal) × (checked_powu x (bigdecimal_ten x) d ≡ ok t) × IsNat t (10 ^ d)
  unfolding checked_powu
  checked_powu-IsNat zero = (x.one, refl, exact.one_nat)
  checked_powu-IsNat (suc zero) = (bigdecimal_ten x, refl, exact.from_nat_nat 10)
  checked_powu-IsNat (suc (suc d)) =
      let q : suc (suc d) ≡ suc 0 + suc d = omega arith in
      let loop : IsNat (powu_loop x (suc d) (bigdecimal_ten x) (bigdecimal_ten x))
          (10 ^ (suc 0 + suc d)) =
        powu_loop-IsNat (suc d) 0 (bigdecimal_ten x) (exact.from_nat_nat 10) in
      (powu_loop x (suc d) (bigdecimal_ten x) (bigdecimal_ten x), refl, to_power q loop)
    where
      to_power : {n m : ℕ} {a : BigDecimal} → n ≡ m → IsNat a (10 ^ m) → IsNat a (10 ^ n)
      to_power e h = rw e h

  -- The text of a number that is taken has no sign, and is taken by the parser.
  pub num_from_str-eq-ok :
      (s : List ℕ) {a : BigDecimal}
      → num_from_str x s ≡ ok a
      → (x.parse s ≡ some a) × (has_sign s ≡ false) × (x.scale_above a max_decimal_width ≡ false)
  unfolding num_from_str
  num_from_str-eq-ok s {a = a} r =
      elim (Bool-cases (starts_with_point s || ends_with_point s || has_sign s)) [
        | inl bad ↦ absurd (let g = rw bad at r in cc)
        | inr good ↦ elim (Option-cases (x.parse s)) [
          | inl e ↦ absurd (let g = rw (good, e) at r in cc)
          | inr (b, e) ↦ elim (Bool-cases (x.scale_above b max_decimal_width)) [
            | inl wide ↦ absurd (let g = rw (good, e, wide) at r in cc)
            | inr narrow ↦
                let q : b ≡ a = ok_inj (rw (good, e, narrow) at r) in
                (rw q at e, ground arith, rw q at narrow)
          ]
        ]
      ]

  -- An amount that is taken is a natural number of units.
  pub parse_amount-IsNat :
      (text : List ℕ) (d : ℕ) {a : BigDecimal} → parse_amount x text d ≡ ok a → (n : ℕ) × IsNat a n
  unfolding parse_amount
  parse_amount-IsNat text d r =
      let (t, e, power) = checked_powu-IsNat d in
      let (b, e1, r1) = >>=-eq-ok (num_from_str x text) _ (rw e at r) in
      let (u, e2, r2) = >>=-eq-ok (fail_if (x.scale_above b d) _) _ r1 in
      let (parsed, unsigned, _) = num_from_str-eq-ok text e1 in
      let (n, h) = exact.scaled parsed unsigned (fail_if-eq-ok _ _ e2) power in
      (n, rw (ok_inj r2) at h)
