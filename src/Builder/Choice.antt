-- ===== src/Builder/Choice.antt =====
-- What `select_cardinal_utxo` chooses.
use okx_ord.Common.{
  ℕ, ◌≤◌, ◌≡◌, ◌≢◌, not, ◌||◌, ◌==◌, refl, List, [], ◌∷◌, Option, none, some, Bool, true, false,
  arith, All, Bool-cases, inl, inr, ◌⊎◌,
}
use okx_ord.Common.Dict.{lookup}
use okx_ord.Builder.State.{
  SatPoint, contains, TransactionBuilder, built, failed, remove_utxo, not_enough_cardinal_utxos,
}
use okx_ord.Builder.Select.{
  inscribed_utxos, is_cardinal, is_better, best_of, match_loop, select_cardinal_utxo,
}
use okx_ord.Builder.Build.{count}
use okx_ord.Builder.Safe.{Safe}

abbrev pub Known : TransactionBuilder → ℕ → Type 0
Known b u = (a : ℕ) × (lookup u b.amounts ≡ some a)

-- An output that is not locked, has no runes and no inscription.
pub record IsCardinal (b : TransactionBuilder) (u : ℕ) : Type 0 where
  pub no_runes : count u b.runic_utxos ≡ 0
  pub not_locked : count u b.locked_utxos ≡ 0
  pub no_inscription : All (λ (i : SatPoint × ℕ). u ≢ i.0.outpoint) b.inscriptions

not_contained : (u : ℕ) (us : List ℕ) → contains u us ≡ false → count u us ≡ 0
unfolding contains count
not_contained u [] h = refl
not_contained u (v ∷ us) h = ground (arith, not_contained u us)

uninscribed :
    (u : ℕ) (is : List (SatPoint × ℕ))
    → contains u (inscribed_utxos is) ≡ false
    → All (λ (i : SatPoint × ℕ). u ≢ i.0.outpoint) is
unfolding contains
uninscribed u [] h = tt
uninscribed u ((s, i) ∷ is) h = elim (Bool-cases (u == s.outpoint)) [
  | inl same ↦ absurd (let h = rw same at h in cc)
  | inr other ↦ let h = rw other at h in (ground (arith, other), uninscribed u is h)
]

three_false : (a b c : Bool) → not (a || b || c) ≡ true → (a ≡ false) × (b ≡ false) × (c ≡ false)
three_false true b c h = absurd cc
three_false false true c h = absurd cc
three_false false false true h = absurd cc
three_false false false false h = (refl, refl, refl)

is_cardinal-IsCardinal : (b : TransactionBuilder) (u : ℕ) → is_cardinal b u ≡ true → IsCardinal b u
is_cardinal-IsCardinal b u h =
    let (runes, inscribed, locked) =
      three_false (contains u b.runic_utxos) (contains u (inscribed_utxos b.inscriptions))
        (contains u b.locked_utxos) h in
    record {
      no_runes = not_contained u b.runic_utxos runes;
      not_locked = not_contained u b.locked_utxos locked;
      no_inscription = uninscribed u b.inscriptions inscribed;
    }

-- An output of the wallet that may be spent, with its value, from among some.
pub record Chosen (b : TransactionBuilder) (all : List ℕ) (c : ℕ × ℕ) : Type 0 where
  pub priced : lookup c.0 b.amounts ≡ some c.1
  pub cardinal : IsCardinal b c.0
  pub listed : 1 ≤ count c.0 all

abbrev MaybeChosen : TransactionBuilder → List ℕ → Option (ℕ × ℕ) → Type 0
MaybeChosen b all none = Unit
MaybeChosen b all (some c) = Chosen b all c

best_of-Chosen :
    (b : TransactionBuilder) (all : List ℕ) (prefer : Bool) (target : ℕ) (best : Option (ℕ × ℕ))
    (u v : ℕ)
    → MaybeChosen b all best
    → Chosen b all (u, v)
    → Chosen b all (best_of prefer target best u v)
best_of-Chosen b all prefer target none u v h new = new
best_of-Chosen b all prefer target (some c) u v h new =
    elim (Bool-cases (is_better prefer target c.1 v)) [
      | inl better ↦ rw better new
      | inr worse ↦ rw worse h
    ]

match_loop-MaybeChosen :
    (b : TransactionBuilder) (all : List ℕ) (prefer : Bool) (target : ℕ) (best : Option (ℕ × ℕ))
    (us : List ℕ)
    → MaybeChosen b all best
    → All (λ u. Known b u × (1 ≤ count u all)) us
    → (r : Option (ℕ × ℕ)) × (match_loop b prefer target best us ≡ built r) × MaybeChosen b all r
unfolding match_loop
match_loop-MaybeChosen b all prefer target best [] h known = (best, refl, h)
match_loop-MaybeChosen b all prefer target best (u ∷ us) h (((a, priced), listed), known) =
    elim (Bool-cases (is_cardinal b u)) [
      | inl cardinal ↦
          let new : Chosen b all (u, a) = record {
            priced = priced;
            cardinal = is_cardinal-IsCardinal b u cardinal;
            listed = listed;
          } in
          let (r, e, good) =
            match_loop-MaybeChosen b all prefer target (some (best_of prefer target best u a)) us
              (best_of-Chosen b all prefer target best u a h new) known in
          (r, rw (cardinal, priced) e, good)
      | inr other ↦
          let (r, e, good) = match_loop-MaybeChosen b all prefer target best us h known in
          (r, rw other e, good)
    ]

All-listed :
    (b : TransactionBuilder) (all us : List ℕ)
    → ((u : ℕ) → count u us ≤ count u all)
    → All (Known b) us
    → All (λ u. Known b u × (1 ≤ count u all)) us
unfolding count
All-listed b all [] sub h = tt
All-listed b all (u ∷ us) sub h = (
  (h.0, (let s = sub u in grind (arith, s))),
  All-listed b all us (λ v. (let s = sub v in omega (arith, s))) h.1,
)

-- The choice among known outputs finds none, or one of them that is cardinal, and takes it out.
pub select_cardinal_utxo-Chosen :
    (b : TransactionBuilder) (target : ℕ) (prefer : Bool)
    → All (Known b) b.utxos
    → (select_cardinal_utxo b target prefer ≡ failed not_enough_cardinal_utxos)
      ⊎ ((c : ℕ × ℕ) × Chosen b b.utxos c
          × (select_cardinal_utxo b target prefer
              ≡ built (c, record b { utxos = remove_utxo c.0 b.utxos })))
unfolding select_cardinal_utxo
select_cardinal_utxo-Chosen b target prefer known =
    let (r, e, good) =
      match_loop-MaybeChosen b b.utxos prefer target none b.utxos tt
        (All-listed b b.utxos b.utxos (λ u. omega arith) known) in
    finish r e good
  where
    finish :
        (r : Option (ℕ × ℕ))
        → match_loop b prefer target none b.utxos ≡ built r
        → MaybeChosen b b.utxos r
        → (select_cardinal_utxo b target prefer ≡ failed not_enough_cardinal_utxos)
          ⊎ ((c : ℕ × ℕ) × Chosen b b.utxos c
              × (select_cardinal_utxo b target prefer
                  ≡ built (c, record b { utxos = remove_utxo c.0 b.utxos })))
    finish none e good = inl (rw e refl)
    finish (some c) e good = inr (c, good, rw e refl)

abbrev pub Taken : TransactionBuilder → (ℕ × ℕ) × TransactionBuilder → Type 0
Taken b r = Chosen b b.utxos r.0 × (r.1 ≡ record b { utxos = remove_utxo r.0.0 b.utxos })

pub select_cardinal_utxo-Safe :
    (b : TransactionBuilder) (target : ℕ) (prefer : Bool)
    → All (Known b) b.utxos
    → Safe (Taken b) (select_cardinal_utxo b target prefer)
select_cardinal_utxo-Safe b target prefer known =
    elim (select_cardinal_utxo-Chosen b target prefer known) [
      | inl short ↦ rw short tt
      | inr (c, chosen, e) ↦ rw e (chosen, refl)
    ]
