-- ===== src/Runes/Conserve/Edicts.antt =====
-- The loop over the edicts, and the sum of each rune over all pools and outputs.
use okx_ord.Common.{
  ℕ, ◌+◌, ◌≤◌, ◌≡◌, refl, ◌∙◌, List, [], ◌∷◌, Option, none, some, Bool, ltb, ◌==◌, ◌||◌, arith,
  length, All, Bool-cases, Option-cases, inl, inr, ◌⊎◌,
}
use okx_ord.Common.Dict.{Dict, lookup, under, total-insert-some, lookup-le-total}
use okx_ord.Common.Outcome.{done, u64_max}
use okx_ord.Runes.Types.{Edict}
use okx_ord.Runes.Updater.Etch.{Allocation}
use okx_ord.Runes.Updater.Edicts.{
  Pools, Loan, issuance, claimed, held, claim, borrow, borrow_from, borrow_issuance, borrow_claimed,
  repay, pay, apply_edict, apply_edicts,
}
use okx_ord.Runes.Conserve.Totals.{total_all, IsRuneId, HasIds, AllHasIds, insert-HasIds}
use okx_ord.Runes.Conserve.Pay.{Paid, Pays, pay-Paid}
use okx_ord.Runes.Conserve.Pools.{
  potential, IsValid, Shrinks, Shrinks-refl, insert-Shrinks, SpendsFrom, SpendsFrom-refl, Keeps,
  Keeps-refl, Keeps-trans, CanSplit, Fits,
}

-- What `borrow` finds in each of the three pools.
data Found (p : Pools) : Loan → Type 0 where
  new_rune :
      (a : Allocation)
      → p.allocation ≡ some a
      → Found p (record { source = issuance; balance = a.balance; id = a.id })
  open_mint :
      (id v : ℕ)
      → lookup id p.mintable ≡ some v
      → Found p (record { source = claimed; balance = v; id = id })
  old_rune :
      (id v : ℕ)
      → lookup id p.unallocated ≡ some v
      → Found p (record { source = held; balance = v; id = id })

abbrev Borrows : Pools → Option Loan → Type 0
Borrows p o = (o ≡ none) ⊎ ((l : Loan) × (o ≡ some l) × Found p l)

borrow_issuance_cases :
    (p : Pools) (o : Option Allocation) → p.allocation ≡ o → Borrows p (borrow_issuance o)
unfolding borrow_issuance
borrow_issuance_cases p none e = inl refl
borrow_issuance_cases p (some a) e = inr (_, refl, new_rune a e)

borrow_claimed_cases : (p : Pools) (c : Option ℕ) (id : ℕ) → Borrows p (borrow_claimed c id p)
unfolding borrow_claimed
borrow_claimed_cases p (some mint) id = elim (Option-cases (lookup mint p.mintable)) [
  | inl e ↦ inl (rw (e, borrow_from))
  | inr (v, e) ↦ inr (_, rw (e, borrow_from) refl, open_mint mint v e)
]
borrow_claimed_cases p none id = elim (Option-cases (lookup id p.unallocated)) [
  | inl e ↦ inl (rw (e, borrow_from))
  | inr (v, e) ↦ inr (_, rw (e, borrow_from) refl, old_rune id v e)
]

borrow_cases : (id : ℕ) (p : Pools) → Borrows p (borrow id p)
unfolding borrow
borrow_cases id p = elim (Bool-cases (id == 0)) [
  | inl zero_id ↦ rw zero_id (borrow_issuance_cases p p.allocation refl)
  | inr other_id ↦ rw other_id (borrow_claimed_cases p (claim id) id)
]

lookup-IsRuneId : (k v : ℕ) (d : Dict ℕ) → HasIds d → lookup k d ≡ some v → IsRuneId k
unfolding HasIds lookup
lookup-IsRuneId k v [] h e = cc
lookup-IsRuneId k v ((j, w) ∷ d) h e = ground (arith, lookup-IsRuneId k v d h.1)

Found-IsRuneId :
    (outputs : List Bool) (p : Pools) (l : Loan) → IsValid outputs p → Found p l → IsRuneId l.id
Found-IsRuneId outputs p l v (new_rune a e) = rw e at v.issue_id
Found-IsRuneId outputs p l v (open_mint id w e) = lookup-IsRuneId id w p.mintable v.mintable_ids e
Found-IsRuneId outputs p l v (old_rune id w e) =
    lookup-IsRuneId id w p.unallocated v.unallocated_ids e

-- What is borrowed counts in the sum.
Found-le :
    (p : Pools) (l : Loan) → Found p l → l.balance + total_all l.id p.allocated ≤ potential l.id p
unfolding potential
Found-le p l (new_rune a e) = rw e (ground arith)
Found-le p l (open_mint id w e) = omega (arith, lookup-le-total id w p.mintable e)
Found-le p l (old_rune id w e) = omega (arith, lookup-le-total id w p.unallocated e)

repay_sums :
    (p : Pools) (l : Loan) (v : ℕ) (ds : List (Dict ℕ)) (k : ℕ)
    → Found p l
    → potential k (repay l v ds p) + under k l.id l.balance + total_all k p.allocated
      ≡ potential k p + under k l.id v + total_all k ds
unfolding potential repay
repay_sums p l v ds k (new_rune a e) = rw e (omega arith)
repay_sums p l v ds k (open_mint id w e) = omega (arith, total-insert-some id k v w p.mintable e)
repay_sums p l v ds k (old_rune id w e) = omega (arith, total-insert-some id k v w p.unallocated e)

repay-Shrinks :
    (p : Pools) (l : Loan) (v : ℕ) (ds : List (Dict ℕ))
    → Found p l
    → v ≤ l.balance
    → Shrinks p.mintable (repay l v ds p).mintable
unfolding repay
repay-Shrinks p l v ds (new_rune a e) h = Shrinks-refl p.mintable
repay-Shrinks p l v ds (open_mint id w e) h = insert-Shrinks id w v p.mintable e h
repay-Shrinks p l v ds (old_rune id w e) h = Shrinks-refl p.mintable

repay-SpendsFrom :
    (p : Pools) (l : Loan) (v : ℕ) (ds : List (Dict ℕ))
    → Found p l
    → v ≤ l.balance
    → SpendsFrom p.allocation (repay l v ds p).allocation
unfolding repay
repay-SpendsFrom p l v ds (new_rune a e) h = rw e (refl, h)
repay-SpendsFrom p l v ds (open_mint id w e) h = SpendsFrom-refl p.allocation
repay-SpendsFrom p l v ds (old_rune id w e) h = SpendsFrom-refl p.allocation

repay-IsValid :
    (outputs : List Bool) (p : Pools) (l : Loan) (v : ℕ) (ds : List (Dict ℕ))
    → Found p l
    → IsValid outputs p
    → AllHasIds ds
    → length ds ≡ length outputs
    → IsValid outputs (repay l v ds p)
unfolding repay
repay-IsValid outputs p l v ds (new_rune a e) i h n = record {
  issue_id = rw e (rw e at i.issue_id);
  mintable_ids = i.mintable_ids;
  unallocated_ids = i.unallocated_ids;
  allocated_ids = h;
  one_each = n;
}
repay-IsValid outputs p l v ds (open_mint id w e) i h n = record {
  issue_id = i.issue_id;
  mintable_ids =
      insert-HasIds id v p.mintable (lookup-IsRuneId id w p.mintable i.mintable_ids e)
        i.mintable_ids;
  unallocated_ids = i.unallocated_ids;
  allocated_ids = h;
  one_each = n;
}
repay-IsValid outputs p l v ds (old_rune id w e) i h n = record {
  issue_id = i.issue_id;
  mintable_ids = i.mintable_ids;
  unallocated_ids =
      insert-HasIds id v p.unallocated (lookup-IsRuneId id w p.unallocated i.unallocated_ids e)
        i.unallocated_ids;
  allocated_ids = h;
  one_each = n;
}

pub apply_edict-Keeps :
    (checks : Bool) (outputs : List Bool) (edict : Edict) (p : Pools)
    → CanSplit outputs edict
    → Fits p
    → IsValid outputs p
    → (p' : Pools) × (apply_edict checks outputs edict p ≡ done p') × Keeps outputs p p'
unfolding apply_edict
apply_edict-Keeps checks outputs edict p split fits valid =
    elim (Bool-cases (ltb u64_max edict.output || ltb (length outputs) edict.output)) [
      | inl skipped ↦ (p, rw skipped refl, Keeps-refl outputs p valid)
      | inr in_range ↦ elim (borrow_cases edict.id p) [
        | inl e ↦ (p, rw (in_range, e) refl, Keeps-refl outputs p valid)
        | inr (l, e, f) ↦
            let (r, paid, moves) = pays l f (ground arith) in
            (
              repay l r.0 r.1 p,
              rw (in_range, e, paid) refl,
              record {
                sums = λ k. omega (arith, repay_sums p l r.0 r.1 k f, moves.moved k);
                mintable = repay-Shrinks p l r.0 r.1 f moves.left;
                allocation = repay-SpendsFrom p l r.0 r.1 f moves.left;
                valid =
                    repay-IsValid outputs p l r.0 r.1 f valid
                      (moves.has_ids (Found-IsRuneId outputs p l valid f) valid.allocated_ids)
                      (moves.same_length ∙ valid.one_each);
              },
            )
      ]
    ]
  where
    pays :
        (l : Loan)
        → Found p l
        → edict.output ≤ length outputs
        → (r : ℕ × List (Dict ℕ)) × (pay checks outputs edict l p.allocated ≡ done r)
          × Paid l.id l.balance p.allocated r
    pays l f in_range =
        unfold Pays in
        pay-Paid checks outputs edict l p.allocated in_range valid.one_each split
          (omega (arith, Found-le p l f, fits l.id))

Keeps-Fits : (outputs : List Bool) (p p' : Pools) → Keeps outputs p p' → Fits p → Fits p'
Keeps-Fits outputs p p' keeps fits k = omega (arith, keeps.sums k, fits k)

-- Let the pools be valid, let the sum of each rune over the pools and the outputs fit a u128, and
-- let no edict split a balance between no outputs. Then every list of edicts runs to its end, with
-- and without overflow checks. The sum of each rune is the same after it, the mintable amounts and
-- the issue's balance only become less, and the pools are valid still.
pub apply_edicts-Keeps :
    (checks : Bool) (outputs : List Bool) (edicts : List Edict) (p : Pools)
    → All (CanSplit outputs) edicts
    → Fits p
    → IsValid outputs p
    → (p' : Pools) × (apply_edicts checks outputs edicts p ≡ done p') × Keeps outputs p p'
unfolding apply_edicts
apply_edicts-Keeps checks outputs [] p split fits valid = (p, refl, Keeps-refl outputs p valid)
apply_edicts-Keeps checks outputs (edict ∷ edicts) p split fits valid =
    let (p1, e, keeps) = apply_edict-Keeps checks outputs edict p split.0 fits valid in
    let (p2, e', keeps') =
      apply_edicts-Keeps checks outputs edicts p1 split.1 (Keeps-Fits outputs p p1 keeps fits)
        keeps.valid in
    (p2, rw e e', Keeps-trans outputs p p1 p2 keeps keeps')
