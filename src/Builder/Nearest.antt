-- ===== src/Builder/Nearest.antt =====
-- Which of the cardinal outputs `select_cardinal_utxo` chooses.
use okx_ord.Common.{
  ℕ, ◌≤◌, ◌<◌, ◌≡◌, refl, sym, ap, List, [], ◌∷◌, Option, none, some, Bool, true, false, ◌==◌,
  arith, Bool-cases, inl, inr, ◌⊎◌, ==_iff, Option-cases,
}
use okx_ord.Common.Dict.{lookup}
use okx_ord.Builder.State.{
  TransactionBuilder, Built, Error, panicked, failed, built, not_enough_cardinal_utxos, remove_utxo,
}
use okx_ord.Builder.Select.{is_cardinal, is_better, best_of, match_loop, select_cardinal_utxo}
use okx_ord.Builder.Build.{count}

-- The chosen value against another one: on the preferred side of the target it is there too and no
-- farther, and on the other side the chosen one is no farther on that side.
abbrev pub IsNearest : Bool → ℕ → ℕ → ℕ → Type 0
IsNearest false target chosen v =
    ((target ≤ v) × (target ≤ chosen) × (chosen ≤ v)) ⊎ ((v < target) × (v ≤ chosen))
IsNearest true target chosen v =
    ((v ≤ target) × (chosen ≤ target) × (v ≤ chosen)) ⊎ ((target < v) × (chosen ≤ v))

IsNearest-self : (prefer : Bool) (target v : ℕ) → IsNearest prefer target v v
IsNearest-self false target v = ground arith
IsNearest-self true target v = ground arith

better-IsNearest :
    (prefer : Bool) (target best v : ℕ)
    → is_better prefer target best v ≡ true
    → IsNearest prefer target v best
better-IsNearest false target best v h = ground (arith, h)
better-IsNearest true target best v h = ground (arith, h)

worse-IsNearest :
    (prefer : Bool) (target best v : ℕ)
    → is_better prefer target best v ≡ false
    → IsNearest prefer target best v
worse-IsNearest false target best v h = ground (arith, h)
worse-IsNearest true target best v h = ground (arith, h)

IsNearest-trans :
    (prefer : Bool) (target a b c : ℕ)
    → IsNearest prefer target a b
    → IsNearest prefer target b c
    → IsNearest prefer target a c
IsNearest-trans false target a b c h g = ground (arith, h, g)
IsNearest-trans true target a b c h g = ground (arith, h, g)

true-not-false : (t : Bool) → t ≡ true → t ≡ false → ⊥
true-not-false t h g = cc

some_inj : (v a : ℕ) (o : Option ℕ) → o ≡ some v → o ≡ some a → v ≡ a
some_inj v a o h g = cc

not_built : {A : Type 0} (a : A) → panicked ≡ built a → ⊥
not_built a h = cc

not_failed : {A : Type 0} (x : Error) (a : A) → failed x ≡ built a → ⊥
not_failed x a h = cc

same_built : {A B : Type 0} (x y : A × B) → built x ≡ built y → x.0 ≡ y.0
same_built x y h = let e : x ≡ y = cc in ap (λ z. z.0) e

-- The best match is as near as the best one before it, if there was one.
abbrev KeepsNear : Bool → ℕ → Option (ℕ × ℕ) → ℕ → Type 0
KeepsNear prefer target none value = Unit
KeepsNear prefer target (some d) value = IsNearest prefer target value d.1

best_of-IsNearest :
    (prefer : Bool) (target : ℕ) (best : Option (ℕ × ℕ)) (u v value : ℕ)
    → IsNearest prefer target value (best_of prefer target best u v).1
    → KeepsNear prefer target best value × IsNearest prefer target value v
best_of-IsNearest prefer target none u v value h = (tt, h)
best_of-IsNearest prefer target (some d) u v value h =
    elim (Bool-cases (is_better prefer target d.1 v)) [
      | inl better ↦
          let h = rw better at h in
          (
            IsNearest-trans prefer target value v d.1 h
                (better-IsNearest prefer target d.1 v better),
            h,
          )
      | inr worse ↦
          let h = rw worse at h in
          (
            h,
            IsNearest-trans prefer target value d.1 v h (worse-IsNearest prefer target d.1 v worse),
          )
    ]

match_loop-IsNearest :
    (b : TransactionBuilder) (prefer : Bool) (target : ℕ) (best : Option (ℕ × ℕ)) (us : List ℕ)
    (c : ℕ × ℕ)
    → match_loop b prefer target best us ≡ built (some c)
    → KeepsNear prefer target best c.1
      × ((u v : ℕ)
          → 1 ≤ count u us
          → is_cardinal b u ≡ true
          → lookup u b.amounts ≡ some v
          → IsNearest prefer target c.1 v)
unfolding match_loop count
match_loop-IsNearest b prefer target none [] c e =
    (tt, λ u v listed. absurd (omega (arith, listed)))
match_loop-IsNearest b prefer target (some d) [] c e =
    let s : d ≡ c = cc in
    (rw s (IsNearest-self prefer target c.1), λ u v listed. absurd (omega (arith, listed)))
match_loop-IsNearest b prefer target best (w ∷ us) c e = elim (Bool-cases (is_cardinal b w)) [
  | inr other ↦
      let e = rw other at e in
      let (keeps, near) = match_loop-IsNearest b prefer target best us c e in
      (
        keeps,
        λ u v listed cardinal priced. elim (Bool-cases (u == w)) [
          | inl same ↦
              let q = (==_iff u w).0 same in
              absurd (true-not-false (is_cardinal b w) (rw (sym q) cardinal) other)
          | inr apart ↦
              let listed = rw apart at listed in near u v (omega (arith, listed)) cardinal priced
        ],
      )
  | inl cardinal ↦ elim (Option-cases (lookup w b.amounts)) [
    | inl missing ↦ absurd (let e = rw (cardinal, missing) at e in not_built (some c) e)
    | inr (a, price) ↦
        let e = rw (cardinal, price) at e in
        let (keeps, near) =
          match_loop-IsNearest b prefer target (some (best_of prefer target best w a)) us c e in
        let (keeps, here) = best_of-IsNearest prefer target best w a c.1 keeps in
        (
          keeps,
          λ u v listed ok priced. elim (Bool-cases (u == w)) [
            | inl same ↦
                let q = (==_iff u w).0 same in
                let same_value : v ≡ a =
                  (let priced = rw q at priced in some_inj v a (lookup w b.amounts) priced price) in
                rw same_value here
            | inr apart ↦
                let listed = rw apart at listed in near u v (omega (arith, listed)) ok priced
          ],
        )
  ]
]

-- A cardinal output of the list on the preferred side of the target is no nearer to it than the chosen
-- one, which is then on that side too; one on the other side is not past the chosen one towards the
-- preferred side.
pub select_cardinal_utxo-IsNearest :
    (b : TransactionBuilder) (target : ℕ) (prefer : Bool) (c : ℕ × ℕ) (after : TransactionBuilder)
    (u v : ℕ)
    → select_cardinal_utxo b target prefer ≡ built (c, after)
    → 1 ≤ count u b.utxos
    → is_cardinal b u ≡ true
    → lookup u b.amounts ≡ some v
    → IsNearest prefer target c.1 v
unfolding select_cardinal_utxo
select_cardinal_utxo-IsNearest b target prefer c after u v e listed cardinal priced =
    finish (match_loop b prefer target none b.utxos) refl
  where
    finish :
        (r : Built (Option (ℕ × ℕ)))
        → match_loop b prefer target none b.utxos ≡ r
        → IsNearest prefer target c.1 v
    finish panicked m = absurd (let e = rw m at e in not_built (c, after) e)
    finish (failed x) m = absurd (let e = rw m at e in not_failed x (c, after) e)
    finish (built none) m =
        absurd (let e = rw m at e in not_failed not_enough_cardinal_utxos (c, after) e)
    finish (built (some d)) m =
        let e = rw m at e in
        let same : d ≡ c =
          same_built (d, record b { utxos = remove_utxo d.0 b.utxos }) (c, after) e in
        (match_loop-IsNearest b prefer target none b.utxos c (rw (sym same) m)).1 u v listed
          cardinal priced
