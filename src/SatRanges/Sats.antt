-- ===== src/SatRanges/Sats.antt =====
-- The sats of ranges, one by one.
use okx_ord.Common.{
  ℕ, zero, suc, ◌+◌, ◌-◌, ◌≤◌, ◌<◌, ◌≡◌, refl, sym, ap, List, [], ◌∷◌, ◌++◌, arith, length,
  length-append,
}
use mathlib.Core.List.{append-nil, append_assoc}
use okx_ord.Ordinals.Epoch.{supply}

-- The sats of a range and of ranges, one by one.
unfoldable pub sats_from : ℕ → ℕ → List ℕ
sats_from start zero = []
sats_from start (suc n) = start ∷ sats_from (start + 1) n

unfoldable pub sats_of : List (ℕ × ℕ) → List ℕ
unfolding sats_from
sats_of [] = []
sats_of ((start, end) ∷ ranges) = sats_from start (end - start) ++ sats_of ranges

abbrev pub IsRange : ℕ × ℕ → Type 0
IsRange r = (r.0 < r.1) × (r.1 ≤ supply)

pub length-sats_from : (start n : ℕ) → length (sats_from start n) ≡ n
unfolding sats_from
length-sats_from start zero = refl
length-sats_from start (suc n) = ap (λ m. suc m) (length-sats_from (start + 1) n)

-- A run of sats divided in two.
sats_from-add :
    (m start n total : ℕ)
    → total ≡ m + n
    → sats_from start total ≡ sats_from start m ++ sats_from (start + m) n
unfolding sats_from
sats_from-add zero start n total e =
    let same : start + 0 ≡ start = omega arith in
    let all : total ≡ n = omega (arith, e) in rw (same, all) refl
sats_from-add (suc m) start n total e =
    let one : total ≡ suc (m + n) = omega (arith, e) in
    let on : start + 1 + m ≡ start + suc m = omega arith in
    rw (one, sym on) (ap (λ l. start ∷ l) (sats_from-add m (start + 1) n (m + n) refl))

pub divided :
    (start middle end : ℕ) (ranges : List (ℕ × ℕ))
    → start ≤ middle
    → middle ≤ end
    → sats_of ((start, end) ∷ ranges)
      ≡ sats_of ((start, middle) ∷ []) ++ sats_of ((middle, end) ∷ ranges)
unfolding sats_of
divided start middle end ranges h g =
    let e : end - start ≡ (middle - start) + (end - middle) = omega (arith, h, g) in
    let m : start + (middle - start) ≡ middle = omega (arith, h) in
    let s = sats_from-add (middle - start) start (end - middle) (end - start) e in
    rw
      (
        s,
        m,
        append-nil (sats_from start (middle - start)),
        append_assoc (sats_from start (middle - start)) (sats_from middle (end - middle))
            (sats_of ranges),
      )
      refl

pub length-one : (start end : ℕ) → length (sats_of ((start, end) ∷ [])) ≡ end - start
unfolding sats_of
length-one start end =
    rw (append-nil (sats_from start (end - start))) (length-sats_from start (end - start))

pub length-first :
    (start end : ℕ) (ranges : List (ℕ × ℕ))
    → length (sats_of ((start, end) ∷ ranges)) ≡ (end - start) + length (sats_of ranges)
unfolding sats_of
length-first start end ranges = omega (
  arith,
  length-append (sats_from start (end - start)) (sats_of ranges),
  length-sats_from start (end - start),
)
