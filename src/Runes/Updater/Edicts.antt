-- ===== src/Runes/Updater/Edicts.antt =====
-- The edicts of a runestone: balances of the pools go to outputs.
use Prim.Native.Nat.{bit_and, bit_xor}
use okx_ord.Common.{
  ℕ, ◌+◌, List, [], ◌∷◌, Option, none, some, Bool, ltb, ◌==◌, if◌then◌else◌, length, not, then_some,
  min, ◌||◌,
}
use okx_ord.Common.Dict.{Dict, lookup, insert}
use okx_ord.Common.Outcome.{
  Outcome, done, ◌>>=◌, sub_checked, div_checked, rem_checked, u64_max, u128_max,
}
use okx_ord.Runes.Types.{Edict, claim_bit}
use okx_ord.Runes.Updater.State.{add_at}
use okx_ord.Runes.Updater.Etch.{Allocation}

-- `claim`
unfoldable pub claim : ℕ → Option ℕ
claim id = then_some (not (bit_and id claim_bit == 0)) (bit_xor id claim_bit)

-- What the loop over the edicts changes.
pub record Pools : Type 0 where
  pub allocation : Option Allocation
  pub mintable : Dict ℕ
  pub unallocated : Dict ℕ
  pub allocated : List (Dict ℕ)

-- A mutable balance together with the place that it is borrowed from.
pub data Source : Type 0 where
  issuance : Source
  claimed : Source
  held : Source

pub record Loan : Type 0 where
  pub source : Source
  pub balance : ℕ
  pub id : ℕ

unfoldable pub borrow_from : Source → ℕ → Dict ℕ → Option Loan
borrow_from source id balances = elim (lookup id balances) [
  | none ↦ none
  | some balance ↦ some (record { source = source; balance = balance; id = id })
]

unfoldable pub borrow_issuance : Option Allocation → Option Loan
borrow_issuance none = none
borrow_issuance (some a) = some (record { source = issuance; balance = a.balance; id = a.id })

unfoldable pub borrow_claimed : Option ℕ → ℕ → Pools → Option Loan
unfolding borrow_from
borrow_claimed (some claim) id p = borrow_from claimed claim p.mintable
borrow_claimed none id p = borrow_from held id p.unallocated

-- The pool that an edict draws on; `none` skips the edict.
unfoldable pub borrow : ℕ → Pools → Option Loan
unfolding borrow_claimed borrow_issuance
borrow id p = if id == 0 then borrow_issuance p.allocation else borrow_claimed (claim id) id p

set_balance : ℕ → Option Allocation → Option Allocation
set_balance balance none = none
set_balance balance (some a) = some (record a { balance = balance })

-- The write through the borrow.
unfoldable pub repay : Loan → ℕ → List (Dict ℕ) → Pools → Pools
unfolding set_balance
repay loan balance allocated p = elim loan.source [
  | issuance ↦ record p { allocation = set_balance balance p.allocation; allocated = allocated }
  | claimed ↦ record p { mintable = insert loan.id balance p.mintable; allocated = allocated }
  | held ↦ record p { unallocated = insert loan.id balance p.unallocated; allocated = allocated }
]

-- The closure `allocate`, on the borrowed balance and the outputs.
unfoldable pub allocate : Bool → ℕ → ℕ → ℕ → ℕ → List (Dict ℕ) → Outcome (ℕ × List (Dict ℕ))
allocate checks id balance amount output allocated =
    if ltb 0 amount
    then (do
      balance' ← sub_checked checks u128_max balance amount
      allocated' ← add_at checks output id amount allocated
      done (balance', allocated'))
    else done (balance, allocated)

-- The outputs, counted from `vout`, that are no OP_RETURN.
unfoldable pub destinations : ℕ → List Bool → List ℕ
destinations vout [] = []
destinations vout (op_return ∷ rest) =
    let others = destinations (vout + 1) rest in if op_return then others else vout ∷ others

-- `for (i, output) in destinations.iter().enumerate()`: the first `remainder` outputs get one more.
unfoldable pub divide :
    Bool → ℕ → ℕ → ℕ → ℕ → List ℕ → ℕ → List (Dict ℕ) → Outcome (ℕ × List (Dict ℕ))
unfolding allocate
divide checks id amount remainder i [] balance allocated = done (balance, allocated)
divide checks id amount remainder i (output ∷ outputs) balance allocated = do
  (balance', allocated') ←
      allocate checks id balance (if ltb i remainder then amount + 1 else amount) output allocated
  divide checks id amount remainder (i + 1) outputs balance' allocated'

-- `for output in destinations`: each gets the amount, as long as it lasts.
unfoldable pub distribute : Bool → ℕ → ℕ → List ℕ → ℕ → List (Dict ℕ) → Outcome (ℕ × List (Dict ℕ))
unfolding allocate
distribute checks id amount [] balance allocated = done (balance, allocated)
distribute checks id amount (output ∷ outputs) balance allocated = do
  (balance', allocated') ← allocate checks id balance (min amount balance) output allocated
  distribute checks id amount outputs balance' allocated'

-- An edict to one output: an amount of zero stands for the whole balance.
abbrev pub payable : ℕ → ℕ → ℕ
payable amount balance = if amount == 0 then balance else min amount balance

-- The two ways of spreading a balance over all destinations.
unfoldable pub spread : Bool → ℕ → ℕ → List ℕ → ℕ → List (Dict ℕ) → Outcome (ℕ × List (Dict ℕ))
unfolding divide distribute
spread checks id amount outputs balance allocated =
    if amount == 0
    then (do
      share ← div_checked balance (length outputs)
      remainder ← rem_checked balance (length outputs)
      divide checks id share remainder 0 outputs balance allocated)
    else distribute checks id amount outputs balance allocated

-- One edict with a valid output. `output == tx.output.len()` names all destinations.
unfoldable pub pay : Bool → List Bool → Edict → Loan → List (Dict ℕ) → Outcome (ℕ × List (Dict ℕ))
unfolding spread allocate destinations
pay checks outputs edict loan allocated =
    if edict.output == length outputs
    then spread checks loan.id edict.amount (destinations 0 outputs) loan.balance allocated
    else allocate checks loan.id loan.balance (payable edict.amount loan.balance) edict.output
        allocated

-- The body of the loop over `runestone.edicts`. Any `u64` fits `usize`.
unfoldable pub apply_edict : Bool → List Bool → Edict → Pools → Outcome Pools
unfolding borrow repay pay
apply_edict checks outputs edict p =
    if ltb u64_max edict.output || ltb (length outputs) edict.output
    then done p
    else elim (borrow edict.id p) [
      | none ↦ done p
      | some loan ↦ do
        (balance, allocated) ← pay checks outputs edict loan p.allocated
        done (repay loan balance allocated p)
    ]

unfoldable pub apply_edicts : Bool → List Bool → List Edict → Pools → Outcome Pools
unfolding apply_edict
apply_edicts checks outputs [] p = done p
apply_edicts checks outputs (edict ∷ edicts) p = do
  p' ← apply_edict checks outputs edict p
  apply_edicts checks outputs edicts p'
