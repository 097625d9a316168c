-- ===== src/Runes/Conserve/Pay.antt =====
-- The payment of one edict from a borrowed balance.
use okx_ord.Common.{
  ℕ, suc, ◌+◌, ◌-◌, ◌*◌, ◌/◌, ◌%◌, ◌≤◌, ◌<◌, ◌≡◌, refl, List, [], ◌∷◌, Bool, true, false, ltb, ◌==◌,
  if◌then◌else◌, arith, length, min, ◌∙◌, All, Bool-cases, inl, inr, ==_iff, ltb→lt,
}
use okx_ord.Common.Dict.{Dict, under}
use okx_ord.Common.Outcome.{Outcome, done, sub_checked_fits, u128_max, div_checked, rem_checked}
use native.Mathlib.Nat.{div-add-mod}
use okx_ord.Runes.Types.{Edict}
use okx_ord.Runes.Updater.Edicts.{
  allocate, divide, distribute, spread, pay, payable, destinations, Loan,
}
use okx_ord.Runes.Conserve.Totals.{
  total_all, IsRuneId, AllHasIds, add_at-added_at, total_all-added_at, length-added_at,
  added_at-AllHasIds, added_at,
}

-- From a balance under `id` and the outputs' maps, a payment came to `r`.
pub record Paid (id balance : ℕ) (ds : List (Dict ℕ)) (r : ℕ × List (Dict ℕ)) : Type 0 where
  pub left : r.0 ≤ balance
  pub same_length : length r.1 ≡ length ds
  pub moved : (k : ℕ) → under k id r.0 + total_all k r.1 ≡ under k id balance + total_all k ds
  pub has_ids : IsRuneId id → AllHasIds ds → AllHasIds r.1

unfoldable pub Pays : ℕ → ℕ → List (Dict ℕ) → Outcome (ℕ × List (Dict ℕ)) → Type 0
Pays id balance ds o = (r : ℕ × List (Dict ℕ)) × (o ≡ done r) × Paid id balance ds r

Paid-refl : (id balance : ℕ) (ds : List (Dict ℕ)) → Paid id balance ds (balance, ds)
Paid-refl id balance ds = record {
  left = omega arith;
  same_length = refl;
  moved = λ k. refl;
  has_ids = λ hk h. h;
}

Paid-trans :
    (id balance balance' : ℕ) (ds ds' : List (Dict ℕ)) (r : ℕ × List (Dict ℕ))
    → Paid id balance ds (balance', ds')
    → Paid id balance' ds' r
    → Paid id balance ds r
Paid-trans id balance balance' ds ds' r p q = record {
  left = omega arith;
  same_length = q.same_length ∙ p.same_length;
  moved = λ k. q.moved k ∙ p.moved k;
  has_ids = λ hk h. q.has_ids hk (p.has_ids hk h);
}

-- A payment leaves the sum under its own id as it was.
Paid-fits :
    (id balance : ℕ) (ds : List (Dict ℕ)) (r : ℕ × List (Dict ℕ))
    → Paid id balance ds r
    → r.0 + total_all id r.1 ≡ balance + total_all id ds
Paid-fits id balance ds r p = ground (arith, p.moved id)

ne_zero : (n : ℕ) → 0 < n → (n == 0) ≡ false
ne_zero n h = ground arith

allocate-Paid :
    (checks : Bool) (id balance amount output : ℕ) (ds : List (Dict ℕ))
    → amount ≤ balance
    → output < length ds
    → balance + total_all id ds ≤ u128_max
    → (r : ℕ × List (Dict ℕ)) × (allocate checks id balance amount output ds ≡ done r)
      × Paid id balance ds r
      × (r.0 ≡ balance - amount)
unfolding allocate
allocate-Paid checks id balance amount output ds cover known fits =
    elim (Bool-cases (ltb 0 amount)) [
      | inl some_amount ↦ (
        (balance - amount, added_at output id amount ds),
        rw
            (
              some_amount,
              sub_checked_fits checks u128_max balance amount cover,
              add_at-added_at checks output id amount ds known (omega arith),
            )
            refl,
        record {
          left = omega arith;
          same_length = length-added_at output id amount ds;
          moved = λ k. ground (arith, total_all-added_at output id amount k ds known);
          has_ids = λ hk h. added_at-AllHasIds output id amount ds hk h;
        },
        refl,
      )
      | inr nothing ↦ ((balance, ds), rw nothing refl, Paid-refl id balance ds, ground arith)
    ]

abbrev AllBelow : ℕ → List ℕ → Type 0
AllBelow n = All (λ o. o < n)

abbrev share_of : ℕ → ℕ → ℕ → ℕ
share_of share remainder i = if ltb i remainder then share + 1 else share

share_lem :
    (balance share remainder i k : ℕ)
    → balance ≡ suc k * share + (remainder - i)
    → remainder - i ≤ suc k
    → (share_of share remainder i ≤ balance)
      × (balance - share_of share remainder i ≡ k * share + (remainder - (i + 1)))
      × (remainder - (i + 1) ≤ k)
share_lem balance share remainder i k sum rest = elim (Bool-cases (ltb i remainder)) [
  | inl more ↦ rw more (let lt : i < remainder = ltb→lt i remainder more in omega arith)
  | inr less ↦ rw less (let le : remainder ≤ i = ground arith in omega arith)
]

-- The shares add up to the balance, which is divided without rest.
divide-Paid :
    (checks : Bool) (id share remainder i : ℕ) (outputs : List ℕ) (balance : ℕ) (ds : List (Dict ℕ))
    → balance ≡ length outputs * share + (remainder - i)
    → remainder - i ≤ length outputs
    → AllBelow (length ds) outputs
    → balance + total_all id ds ≤ u128_max
    → (r : ℕ × List (Dict ℕ)) × (divide checks id share remainder i outputs balance ds ≡ done r)
      × Paid id balance ds r
      × (r.0 ≡ 0)
unfolding divide
divide-Paid checks id share remainder i [] balance ds sum rest known fits =
    ((balance, ds), refl, Paid-refl id balance ds, omega arith)
divide-Paid checks id share remainder i (o ∷ os) balance ds sum rest known fits =
    let (cover, sum', rest') = share_lem balance share remainder i (length os) sum rest in
    let ((balance', ds'), e, paid, left) =
      allocate-Paid checks id balance (share_of share remainder i) o ds cover known.0 fits in
    let (r, e', paid', used) =
      divide-Paid checks id share remainder (i + 1) os balance' ds' (left ∙ sum') rest'
        (rw paid.same_length known.1)
        (omega (arith, Paid-fits id balance ds (balance', ds') paid)) in
    (r, rw e e', Paid-trans id balance balance' ds ds' r paid paid', used)

distribute-Paid :
    (checks : Bool) (id amount : ℕ) (outputs : List ℕ) (balance : ℕ) (ds : List (Dict ℕ))
    → AllBelow (length ds) outputs
    → balance + total_all id ds ≤ u128_max
    → Pays id balance ds (distribute checks id amount outputs balance ds)
unfolding distribute Pays
distribute-Paid checks id amount [] balance ds known fits =
    ((balance, ds), refl, Paid-refl id balance ds)
distribute-Paid checks id amount (o ∷ os) balance ds known fits =
    let ((balance', ds'), e, paid, left) =
      allocate-Paid checks id balance (min amount balance) o ds (omega arith) known.0 fits in
    let (r, e', paid') =
      distribute-Paid checks id amount os balance' ds' (rw paid.same_length known.1)
        (omega (arith, Paid-fits id balance ds (balance', ds') paid)) in
    (r, rw e e', Paid-trans id balance balance' ds ds' r paid paid')

destinations-AllBelow :
    (n vout : ℕ) (outputs : List Bool)
    → vout + length outputs ≤ n
    → AllBelow n (destinations vout outputs)
unfolding destinations
destinations-AllBelow n vout [] h = tt
destinations-AllBelow n vout (true ∷ rest) h = destinations-AllBelow n (vout + 1) rest (omega arith)
destinations-AllBelow n vout (false ∷ rest) h =
    (omega arith, destinations-AllBelow n (vout + 1) rest (omega arith))

quotient_lem : (a n : ℕ) → a ≡ n * (a / n) + (a % n - 0)
quotient_lem a n = omega (arith, div-add-mod a n)

spread-Paid :
    (checks : Bool) (id amount : ℕ) (outputs : List ℕ) (balance : ℕ) (ds : List (Dict ℕ))
    → AllBelow (length ds) outputs
    → balance + total_all id ds ≤ u128_max
    → (amount ≡ 0 → 0 < length outputs)
    → Pays id balance ds (spread checks id amount outputs balance ds)
unfolding spread Pays div_checked rem_checked
spread-Paid checks id amount outputs balance ds known fits some_output =
    elim (Bool-cases (amount == 0)) [
      | inl zero_amount ↦
          let pos : 0 < length outputs = some_output ((==_iff amount 0).0 zero_amount) in
          let (r, e, paid, used) =
            divide-Paid checks id (balance / length outputs) (balance % length outputs) 0 outputs
              balance ds (quotient_lem balance (length outputs)) (omega arith) known fits in
          (r, rw (zero_amount, ne_zero (length outputs) pos) e, paid)
      | inr positive ↦ rw positive (distribute-Paid checks id amount outputs balance ds known fits)
    ]

payable-le : (amount balance : ℕ) → payable amount balance ≤ balance
payable-le amount balance = ground arith

-- One edict with an output in range pays from the borrowed balance. Only a runestone that splits
-- between no outputs is left out.
pub pay-Paid :
    (checks : Bool) (outputs : List Bool) (edict : Edict) (loan : Loan) (ds : List (Dict ℕ))
    → edict.output ≤ length outputs
    → length ds ≡ length outputs
    → (edict.output ≡ length outputs → edict.amount ≡ 0 → 0 < length (destinations 0 outputs))
    → loan.balance + total_all loan.id ds ≤ u128_max
    → Pays loan.id loan.balance ds (pay checks outputs edict loan ds)
unfolding pay Pays
pay-Paid checks outputs edict loan ds in_range same some_output fits =
    elim (Bool-cases (edict.output == length outputs)) [
      | inl all ↦ rw all (
          spread-Paid checks loan.id edict.amount (destinations 0 outputs) loan.balance ds
            (rw same (destinations-AllBelow (length outputs) 0 outputs (omega arith))) fits
            (some_output ((==_iff edict.output (length outputs)).0 all)))
      | inr one ↦
          let (r, e, paid, left) =
            allocate-Paid checks loan.id loan.balance (payable edict.amount loan.balance)
              edict.output ds (payable-le edict.amount loan.balance) (in_bounds one) fits in
          (r, rw one e, paid)
    ]
  where
    in_bounds : (edict.output == length outputs) ≡ false → edict.output < length ds
    in_bounds one = ground arith
