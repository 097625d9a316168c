-- ===== src/Brc20/Store/Pairs.antt =====
-- A map keyed by pairs of numbers, as an association list.
use okx_ord.Common.{
  ℕ, ◌+◌, ◌≤◌, ◌≡◌, refl, List, [], ◌∷◌, Option, none, some, Bool, true, ◌==◌, ◌&&◌, if◌then◌else◌,
  arith, ap, ◌∙◌, Bool-cases, inl, inr,
}

abbrev pub is_key : ℕ × ℕ → ℕ × ℕ → Bool
is_key a b = a.0 == b.0 && a.1 == b.1

abbrev pub PairDict {ℓ} : Type ℓ → Type ℓ
PairDict V = List ((ℕ × ℕ) × V)

module _ {ℓ} {V : Type ℓ} where
  unfoldable pub lookup_pair : ℕ × ℕ → PairDict V → Option V
  lookup_pair k [] = none
  lookup_pair k ((j, v) ∷ d) = if is_key k j then some v else lookup_pair k d

  unfoldable pub insert_pair_key : ℕ × ℕ → V → PairDict V → PairDict V
  insert_pair_key k v [] = (k, v) ∷ []
  insert_pair_key k v ((j, w) ∷ d) =
      if is_key k j then (k, v) ∷ d else (j, w) ∷ insert_pair_key k v d

  pub lookup_pair-insert_pair_key :
      (k j : ℕ × ℕ) (v : V) (d : PairDict V)
      → lookup_pair j (insert_pair_key k v d) ≡ (if is_key j k then some v else lookup_pair j d)
  unfolding lookup_pair insert_pair_key
  lookup_pair-insert_pair_key k j v [] = refl
  lookup_pair-insert_pair_key k j v ((i, w) ∷ d) =
      ground (arith, lookup_pair-insert_pair_key k j v d)

  -- The sum of a measure over the entries whose second key part is `t`.
  unfoldable pub sum_of : (V → ℕ) → ℕ → PairDict V → ℕ
  sum_of f t [] = 0
  sum_of f t ((j, v) ∷ d) = (if t == j.1 then f v else 0) + sum_of f t d

  -- The measure of the entry under a key.
  abbrev pub measure_at : (V → ℕ) → ℕ × ℕ → PairDict V → ℕ
  measure_at f k d = elim (lookup_pair k d) [ none ↦ 0 | some v ↦ f v ]

  pub measure_at-le-sum_of :
      (f : V → ℕ) (k : ℕ × ℕ) (d : PairDict V) → measure_at f k d ≤ sum_of f k.1 d
  unfolding lookup_pair sum_of
  measure_at-le-sum_of f k [] = omega arith
  measure_at-le-sum_of f k ((j, w) ∷ d) = ground (arith, measure_at-le-sum_of f k d)

  pub sum_of-insert_pair_key :
      (f : V → ℕ) (t : ℕ) (k : ℕ × ℕ) (v : V) (d : PairDict V)
      → sum_of f t (insert_pair_key k v d) + (if t == k.1 then measure_at f k d else 0)
        ≡ sum_of f t d + (if t == k.1 then f v else 0)
  unfolding lookup_pair insert_pair_key sum_of
  sum_of-insert_pair_key f t k v [] = ground arith
  sum_of-insert_pair_key f t k v ((j, w) ∷ d) = ground (arith, sum_of-insert_pair_key f t k v d)

  pub measure_at-eq :
      (f : V → ℕ) (k : ℕ × ℕ) (d : PairDict V) {o : Option V}
      → lookup_pair k d ≡ o
      → measure_at f k d ≡ elim o [ none ↦ 0 | some v ↦ f v ]
  measure_at-eq f k d e = ap (λ (o : Option V). elim o [ none ↦ 0 | some v ↦ f v ]) e

  pub measure_at-insert_pair_key :
      (f : V → ℕ) (k j : ℕ × ℕ) (v : V) (d : PairDict V)
      → measure_at f j (insert_pair_key k v d) ≡ (if is_key j k then f v else measure_at f j d)
  measure_at-insert_pair_key f k j v d = elim (Bool-cases (is_key j k)) [
    | inl same ↦
        measure_at-eq f j (insert_pair_key k v d) (lookup_pair-insert_pair_key k j v d)
        ∙ rw same refl
    | inr other ↦
        measure_at-eq f j (insert_pair_key k v d) (lookup_pair-insert_pair_key k j v d)
        ∙ rw other refl
  ]

pub key_eq : (k j : ℕ × ℕ) → is_key k j ≡ true → k ≡ j
key_eq (a, b) (c, d) h =
    let p : a ≡ c = ground arith in let q : b ≡ d = ground arith in rw (p, q) refl

module _ {ℓ} {V : Type ℓ} (f : V → ℕ) (k : ℕ × ℕ) (v : V) (d : PairDict V) (n : ℕ) where
  -- An entry whose measure grows by `n`, and one whose measure falls by `n`.
  pub measure_grows :
      f v ≡ measure_at f k d + n
      → (j : ℕ × ℕ)
      → measure_at f j (insert_pair_key k v d) ≡ measure_at f j d + (if is_key j k then n else 0)
  measure_grows e j = elim (Bool-cases (is_key j k)) [
    | inl same ↦ let q = key_eq j k same in measure_at-insert_pair_key f k j v d ∙ rw (same, q) e
    | inr other ↦ measure_at-insert_pair_key f k j v d ∙ rw other (omega arith)
  ]

  pub measure_falls :
      f v + n ≡ measure_at f k d
      → (j : ℕ × ℕ)
      → measure_at f j (insert_pair_key k v d) + (if is_key j k then n else 0) ≡ measure_at f j d
  measure_falls e j =
      let at = measure_at-insert_pair_key f k j v d in
      elim (Bool-cases (is_key j k)) [
        | inl same ↦
            let q = key_eq j k same in
            rw (same, q) (let a = rw (same, q) at at in omega (arith, a, e))
        | inr other ↦ rw other (let a = rw other at at in omega (arith, a))
      ]
