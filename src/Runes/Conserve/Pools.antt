-- ===== src/Runes/Conserve/Pools.antt =====
-- The pools that the edicts draw on, and what a step of the loop over the edicts keeps.
use okx_ord.Common.{
  ℕ, suc, ◌+◌, ◌≤◌, ◌<◌, ◌≡◌, refl, ◌∙◌, List, [], ◌∷◌, Option, none, some, Bool, ◌==◌, arith,
  length, Bool-cases, inl, inr, ap,
}
use okx_ord.Common.Dict.{Dict, lookup, insert, total, under}
use okx_ord.Common.Outcome.{u128_max}
use okx_ord.Runes.Types.{Edict}
use okx_ord.Runes.Updater.Etch.{Allocation}
use okx_ord.Runes.Updater.Edicts.{Pools, destinations}
use okx_ord.Runes.Conserve.Totals.{total_all, IsRuneId, HasIds, AllHasIds}

abbrev pub issuance_under : ℕ → Option Allocation → ℕ
issuance_under k none = 0
issuance_under k (some a) = under k a.id a.balance

-- All that the loop may still move of a rune, and what it has moved.
unfoldable pub potential : ℕ → Pools → ℕ
potential k p =
    issuance_under k p.allocation
    + total k p.mintable
    + total k p.unallocated
    + total_all k p.allocated

abbrev pub HasIssueId : Option Allocation → Type 0
HasIssueId none = Unit
HasIssueId (some a) = IsRuneId a.id

pub record IsValid (outputs : List Bool) (p : Pools) : Type 0 where
  pub issue_id : HasIssueId p.allocation
  pub mintable_ids : HasIds p.mintable
  pub unallocated_ids : HasIds p.unallocated
  pub allocated_ids : AllHasIds p.allocated
  pub one_each : length p.allocated ≡ length outputs

-- The same keys in the same order, under each no more than before.
unfoldable pub Shrinks : Dict ℕ → Dict ℕ → Type 0
Shrinks [] [] = Unit
Shrinks [] (e ∷ es) = ⊥
Shrinks (d ∷ ds) [] = ⊥
Shrinks ((k, v) ∷ ds) ((j, w) ∷ es) = (j ≡ k) × (w ≤ v) × Shrinks ds es

pub Shrinks-refl : (d : Dict ℕ) → Shrinks d d
unfolding Shrinks
Shrinks-refl [] = tt
Shrinks-refl (e ∷ d) = (refl, omega arith, Shrinks-refl d)

pub total-Shrinks-le : (a b : Dict ℕ) (k : ℕ) → Shrinks a b → total k b ≤ total k a
unfolding Shrinks total
total-Shrinks-le [] [] k p = omega arith
total-Shrinks-le [] (y ∷ b) k p = absurd p
total-Shrinks-le (x ∷ a) [] k p = absurd p
total-Shrinks-le (x ∷ a) (y ∷ b) k p = ground (arith, total-Shrinks-le a b k p.2, p.0)

pub length-Shrinks : (a b : Dict ℕ) → Shrinks a b → length b ≡ length a
unfolding Shrinks
length-Shrinks [] [] p = refl
length-Shrinks [] (y ∷ b) p = absurd p
length-Shrinks (x ∷ a) [] p = absurd p
length-Shrinks (x ∷ a) (y ∷ b) p = ap suc (length-Shrinks a b p.2)

Shrinks-trans : (a b c : Dict ℕ) → Shrinks a b → Shrinks b c → Shrinks a c
unfolding Shrinks
Shrinks-trans [] [] c p q = q
Shrinks-trans (x ∷ a) (y ∷ b) (z ∷ c) p q = (q.0 ∙ p.0, omega arith, Shrinks-trans a b c p.2 q.2)
Shrinks-trans [] (y ∷ b) c p q = absurd p
Shrinks-trans (x ∷ a) [] c p q = absurd p
Shrinks-trans (x ∷ a) (y ∷ b) [] p q = absurd q

pub insert-Shrinks :
    (k v w : ℕ) (d : Dict ℕ) → lookup k d ≡ some v → w ≤ v → Shrinks d (insert k w d)
unfolding Shrinks lookup insert
insert-Shrinks k v w [] e h = cc
insert-Shrinks k v w ((j, u) ∷ d) e h = elim (Bool-cases (k == j)) [
  | inl same ↦ rw same (ground arith, ground arith, Shrinks-refl d)
  | inr other ↦ rw other (refl, omega arith, insert-Shrinks k v w d (ground arith) h)
]

-- The allocation is the same but for its balance, which does not grow.
abbrev pub SpendsFrom : Option Allocation → Option Allocation → Type 0
SpendsFrom none none = Unit
SpendsFrom none (some b) = ⊥
SpendsFrom (some a) none = ⊥
SpendsFrom (some a) (some b) = (b ≡ record a { balance = b.balance }) × (b.balance ≤ a.balance)

pub SpendsFrom-refl : (a : Option Allocation) → SpendsFrom a a
SpendsFrom-refl none = tt
SpendsFrom-refl (some a) = (refl, omega arith)

pub issuance_under-le :
    (a b : Option Allocation) (k : ℕ) → SpendsFrom a b → issuance_under k b ≤ issuance_under k a
issuance_under-le none none k p = omega arith
issuance_under-le none (some b) k p = absurd p
issuance_under-le (some a) none k p = absurd p
issuance_under-le (some a) (some b) k p =
    let same : b.id ≡ a.id = ap (λ (x : Allocation). x.id) p.0 in ground (arith, p.1)

pub with_balance : ℕ → Allocation → Allocation
with_balance v a = record a { balance = v }

SpendsFrom-trans : (a b c : Option Allocation) → SpendsFrom a b → SpendsFrom b c → SpendsFrom a c
unfolding with_balance
SpendsFrom-trans none none c p q = q
SpendsFrom-trans none (some b) c p q = absurd p
SpendsFrom-trans (some a) none c p q = absurd p
SpendsFrom-trans (some a) (some b) none p q = absurd q
SpendsFrom-trans (some a) (some b) (some c) p q =
    (q.0 ∙ ap (with_balance c.balance) p.0, omega arith)

pub record Keeps (outputs : List Bool) (p p' : Pools) : Type 0 where
  pub sums : (k : ℕ) → potential k p' ≡ potential k p
  pub mintable : Shrinks p.mintable p'.mintable
  pub allocation : SpendsFrom p.allocation p'.allocation
  pub valid : IsValid outputs p'

pub Keeps-refl : (outputs : List Bool) (p : Pools) → IsValid outputs p → Keeps outputs p p
Keeps-refl outputs p v = record {
  sums = λ k. refl;
  mintable = Shrinks-refl p.mintable;
  allocation = SpendsFrom-refl p.allocation;
  valid = v;
}

pub Keeps-trans :
    (outputs : List Bool) (p q r : Pools)
    → Keeps outputs p q
    → Keeps outputs q r
    → Keeps outputs p r
Keeps-trans outputs p q r f g = record {
  sums = λ k. g.sums k ∙ f.sums k;
  mintable = Shrinks-trans _ _ _ f.mintable g.mintable;
  allocation = SpendsFrom-trans _ _ _ f.allocation g.allocation;
  valid = g.valid;
}

-- An edict that splits a balance between all destinations needs one.
abbrev pub CanSplit : List Bool → Edict → Type 0
CanSplit outputs edict =
    edict.output ≡ length outputs → edict.amount ≡ 0 → 0 < length (destinations 0 outputs)

abbrev pub Fits : Pools → Type 0
Fits p = (k : ℕ) → potential k p ≤ u128_max
