-- ===== src/Runes/Updater/Inputs.antt =====
-- The runes in the inputs of a transaction become unallocated.
use okx_ord.Common.{ℕ, zero, suc, List, [], ◌∷◌, none, some, Bool, length, drop}
use okx_ord.Common.Dict.{Dict, lookup, remove}
use okx_ord.Common.Outcome.{Outcome, done, panic, ◌>>=◌}
use okx_ord.Runes.Types.{OutPoint, outpoint_key}
use okx_ord.Runes.Varint.{decode}
use okx_ord.Runes.Updater.State.{add_to}

-- The `while` loop over one buffer of (id, balance) pairs, on fuel: each round takes a byte at
-- least. The list is the buffer from index `i` on.
unfoldable pub load_balances : Bool → ℕ → List ℕ → Dict ℕ → Outcome (Dict ℕ)
load_balances checks fuel [] unallocated = done unallocated
load_balances checks zero (b ∷ bs) unallocated = panic
load_balances checks (suc fuel) (b ∷ bs) unallocated =
    let rest = drop (decode (b ∷ bs)).1 (b ∷ bs) in
    do
      unallocated' ← add_to checks (decode (b ∷ bs)).0 (decode rest).0 unallocated
      load_balances checks fuel (drop (decode rest).1 rest) unallocated'

-- The loop over `tx.input`.
unfoldable pub load_inputs :
    Bool → List OutPoint → Dict (List ℕ) → Dict ℕ → Outcome (Dict (List ℕ) × Dict ℕ)
load_inputs checks [] table unallocated = done (table, unallocated)
load_inputs checks (input ∷ inputs) table unallocated = elim (lookup (outpoint_key input) table) [
  | none ↦ load_inputs checks inputs table unallocated
  | some buffer ↦ do
    unallocated' ← load_balances checks (length buffer) buffer unallocated
    load_inputs checks inputs (remove (outpoint_key input) table) unallocated'
]
