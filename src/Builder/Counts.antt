-- ===== src/Builder/Counts.antt =====
-- How often an outpoint stands in a list, what a list of outpoints is worth, and both after a removal.
use okx_ord.Common.{
  ℕ, suc, ◌+◌, ◌≡◌, refl, sym, ap, List, [], ◌∷◌, ◌++◌, Option, none, some, true, false, ◌==◌,
  if◌then◌else◌, arith, All, Bool-cases, inl, inr, ==_iff, length,
}
use okx_ord.Common.Dict.{Dict, lookup}
use okx_ord.Builder.State.{remove_utxo}
use okx_ord.Builder.Build.{count}

pub ==-refl : (n : ℕ) → (n == n) ≡ true
==-refl n = ground arith

pub ==-false-sym : (a b : ℕ) → (a == b) ≡ false → (b == a) ≡ false
==-false-sym a b h = ground arith

pub count-append : (x : ℕ) (xs ys : List ℕ) → count x (xs ++ ys) ≡ count x xs + count x ys
unfolding count
count-append x [] ys = omega arith
count-append x (y ∷ xs) ys = omega (arith, count-append x xs ys)

pub count-remove_utxo :
    (x c : ℕ) (us : List ℕ) → count x (remove_utxo c us) ≡ (if x == c then 0 else count x us)
unfolding count remove_utxo
count-remove_utxo x c [] = ground arith
count-remove_utxo x c (u ∷ us) = ground (arith, count-remove_utxo x c us)

pub length-remove_utxo : (c : ℕ) (us : List ℕ) → length (remove_utxo c us) + count c us ≡ length us
unfolding count remove_utxo
length-remove_utxo c [] = omega arith
length-remove_utxo c (u ∷ us) = ground (arith, length-remove_utxo c us)

pub remove_utxo-absent : (c : ℕ) (us : List ℕ) → count c us ≡ 0 → remove_utxo c us ≡ us
unfolding count remove_utxo
remove_utxo-absent c [] h = refl
remove_utxo-absent c (u ∷ us) h = elim (Bool-cases (c == u)) [
  | inl same ↦ absurd (let h = rw same at h in omega (arith, h))
  | inr other ↦
      rw other
        (ap (λ l. u ∷ l) (remove_utxo-absent c us (let h = rw other at h in omega (arith, h))))
]

pub All-remove_utxo : (P : ℕ → Type 0) (c : ℕ) (us : List ℕ) → All P us → All P (remove_utxo c us)
unfolding remove_utxo
All-remove_utxo P c [] h = tt
All-remove_utxo P c (u ∷ us) h = elim (Bool-cases (c == u)) [
  | inl same ↦ rw same (All-remove_utxo P c us h.1)
  | inr other ↦ rw other (h.0, All-remove_utxo P c us h.1)
]

pub length_one_more : (c : ℕ) (is : List ℕ) → length (is ++ c ∷ []) ≡ suc (length is)
length_one_more c [] = refl
length_one_more c (i ∷ is) = ap (λ n. suc n) (length_one_more c is)

module _ (amounts : Dict ℕ) where
  abbrev pub value_of : ℕ → ℕ
  value_of k = elim (lookup k amounts) [ none ↦ 0 | some a ↦ a ]

  unfoldable pub worth : List ℕ → ℕ
  worth [] = 0
  worth (k ∷ ks) = value_of k + worth ks

  pub worth-append : (xs ys : List ℕ) → worth (xs ++ ys) ≡ worth xs + worth ys
  unfolding worth
  worth-append [] ys = omega arith
  worth-append (x ∷ xs) ys = omega (arith, worth-append xs ys)

  pub value_of-some : (k a : ℕ) → lookup k amounts ≡ some a → value_of k ≡ a
  value_of-some k a h = ap (λ (o : Option ℕ). elim o [ none ↦ 0 | some a ↦ a ]) h

  pub worth-remove_utxo :
      (c : ℕ) (us : List ℕ) → count c us ≡ 1 → worth (remove_utxo c us) + value_of c ≡ worth us
  unfolding worth count remove_utxo
  worth-remove_utxo c [] h = absurd (omega arith)
  worth-remove_utxo c (u ∷ us) h = elim (Bool-cases (c == u)) [
    | inl same ↦
        let q : u ≡ c = sym ((==_iff c u).0 same) in
        let absent : count c us ≡ 0 = (let h = rw same at h in omega (arith, h)) in
        rw (same, remove_utxo-absent c us absent, q) (omega arith)
    | inr other ↦
        rw other (omega (arith, worth-remove_utxo c us (let h = rw other at h in omega (arith, h))))
  ]
