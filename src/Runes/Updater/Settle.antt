-- ===== src/Runes/Updater/Settle.antt =====
-- What no edict allocated, and the storing of the outputs' balances.
use okx_ord.Common.{
  ℕ, ◌+◌, List, [], ◌∷◌, Option, none, some, Bool, true, false, ltb, leb, ◌==◌, ◌||◌, ◌&&◌,
  if◌then◌else◌, unwrap_or, length,
}
use okx_ord.Common.Dict.{Dict, lookup, insert}
use okx_ord.Common.Outcome.{
  Outcome, done, panic, ◌>>=◌, add_checked, unwrap, try_from, u32_max, u128_max,
}
use okx_ord.Runes.Types.{outpoint_key}
use okx_ord.Runes.RuneId.{rune_id_try_from, store_rune_id}
use okx_ord.Runes.Varint.{encode_to_vec}
use okx_ord.Runes.Updater.State.{RuneUpdate, no_update, add_to, add_at}

-- `.find(|(_vout, tx_out)| !tx_out.script_pubkey.is_op_return())`, counted from `vout`.
unfoldable pub first_output : ℕ → List Bool → Option ℕ
first_output vout [] = none
first_output vout (op_return ∷ rest) =
    let later = first_output (vout + 1) rest in if op_return then later else some vout

-- The output for what is left: the runestone's own, if there is such an output.
unfoldable pub leftover_output : Option ℕ → List Bool → Option ℕ
unfolding first_output
leftover_output none outputs = first_output 0 outputs
leftover_output (some vout) outputs =
    if ltb vout (length outputs) then some vout else first_output 0 outputs

-- `for (id, balance) in ...` with `*burned.entry(id).or_default() += balance`
unfoldable pub burn_all : Bool → Dict ℕ → Dict ℕ → Outcome (Dict ℕ)
burn_all checks [] burned = done burned
burn_all checks ((id, balance) ∷ balances) burned = do
  burned' ← add_to checks id balance burned
  burn_all checks balances burned'

-- The same, for the balances that are not zero.
unfoldable pub burn_positive : Bool → Dict ℕ → Dict ℕ → Outcome (Dict ℕ)
burn_positive checks [] burned = done burned
burn_positive checks ((id, balance) ∷ balances) burned = do
  burned' ← (if ltb 0 balance then add_to checks id balance burned else done burned)
  burn_positive checks balances burned'

unfoldable pub assign : Bool → ℕ → Dict ℕ → List (Dict ℕ) → Outcome (List (Dict ℕ))
assign checks vout [] allocated = done allocated
assign checks vout ((id, balance) ∷ balances) allocated = do
  allocated' ← (if ltb 0 balance then add_at checks vout id balance allocated else done allocated)
  assign checks vout balances allocated'

-- `if burn { .. } else { .. }`: the outputs' balances and what is burned.
unfoldable pub settle :
    Bool → Bool → Option ℕ → List Bool → Dict ℕ → List (Dict ℕ) → Outcome (List (Dict ℕ) × Dict ℕ)
unfolding leftover_output burn_all burn_positive assign
settle checks true default outputs unallocated allocated = do
  burned ← burn_all checks unallocated []
  done (allocated, burned)
settle checks false default outputs unallocated allocated = elim (leftover_output default outputs) [
  | some vout ↦ do allocated' ← assign checks vout unallocated allocated; done (allocated', [])
  | none ↦ do burned ← burn_positive checks unallocated []; done (allocated, burned)
]

-- `balances.sort()` on pairs.
unfoldable pub insert_pair : ℕ × ℕ → Dict ℕ → Dict ℕ
insert_pair x [] = x ∷ []
insert_pair x (y ∷ ys) =
    let later = insert_pair x ys in
    if ltb x.0 y.0 || (x.0 == y.0 && leb x.1 y.1) then x ∷ y ∷ ys else y ∷ later

unfoldable pub sort_pairs : Dict ℕ → Dict ℕ
unfolding insert_pair
sort_pairs [] = []
sort_pairs (x ∷ xs) = insert_pair x (sort_pairs xs)

-- The loop that fills `buffer`.
unfoldable pub encode_balances : Dict ℕ → List ℕ → Outcome (List ℕ)
encode_balances [] buffer = done buffer
encode_balances ((id, balance) ∷ balances) buffer = do
  buffer' ← encode_to_vec id buffer
  buffer'' ← encode_to_vec balance buffer'
  encode_balances balances buffer''

-- One round of the loop over `allocated`, for an output with some balance.
unfoldable pub store_output :
    Bool → ℕ → ℕ → Bool → Dict ℕ → Dict (List ℕ) → Dict ℕ → Outcome (Dict (List ℕ) × Dict ℕ)
unfolding burn_all sort_pairs encode_balances
store_output checks txid vout op_return [] table burned = done (table, burned)
store_output checks txid vout true (b ∷ bs) table burned = do
  burned' ← burn_all checks (b ∷ bs) burned
  done (table, burned')
store_output checks txid vout false (b ∷ bs) table burned = do
  buffer ← encode_balances (sort_pairs (b ∷ bs)) []
  vout' ← unwrap (try_from u32_max vout)
  done (insert (outpoint_key (record { txid = txid; vout = vout' })) buffer table, burned)

-- `for (vout, balances) in allocated.into_iter().enumerate()`
unfoldable pub store_outputs :
    Bool
    → ℕ
    → ℕ
    → List Bool
    → List (Dict ℕ)
    → Dict (List ℕ)
    → Dict ℕ
    → Outcome (Dict (List ℕ) × Dict ℕ)
unfolding store_output
store_outputs checks txid vout outputs [] table burned = done (table, burned)
store_outputs checks txid vout [] (balances ∷ allocated) table burned = panic
store_outputs checks txid vout (op_return ∷ outputs) (balances ∷ allocated) table burned = do
  (table', burned') ← store_output checks txid vout op_return balances table burned
  store_outputs checks txid (vout + 1) outputs allocated table' burned'

-- `for (id, amount) in burned`
unfoldable pub count_burned : Bool → Dict ℕ → Dict RuneUpdate → Outcome (Dict RuneUpdate)
count_burned checks [] updates = done updates
count_burned checks ((id, amount) ∷ burned) updates = do
  key ← unwrap (rune_id_try_from id)
  let update = unwrap_or (lookup (store_rune_id key) updates) no_update
  sum ← add_checked checks u128_max update.burned amount
  count_burned checks burned (insert (store_rune_id key) (record update { burned = sum }) updates)
