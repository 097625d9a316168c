-- ===== src/Brc20/Manager.antt =====
-- The messages of a transaction and of a block: `ExecutionMessage::from_message` of
-- src/okx/protocol/brc20/msg_executor.rs, `execute_message` of src/okx/protocol/execute_manager.rs, and
-- `index_block` of src/okx/protocol/protocol_manager.rs.
pub mod Ledger
use okx_ord.Common.{
  ℕ, ◌+◌, ◌≡◌, List, [], ◌∷◌, Option, none, some, Bool, true, false, ◌==◌, ◌||◌, if◌then◌else◌,
  unwrap_or,
}
use okx_ord.Common.Dict.{Dict, lookup}
use okx_ord.Brc20.External.{External, ScriptKey}
use okx_ord.Brc20.Types.{ExecutionMessage, Receipt, Result, ok, err}
use okx_ord.Brc20.Store.{Context, Ran, ran, panicked, save_transaction_receipts}
use okx_ord.Brc20.Execute.{execute}
use okx_ord.Brc20.Messages.{
  OutPoint, SatPoint, satpoint_key, InscriptionOp, Message, Texts, resolve_message,
}

-- The tables that a message is completed from, which its execution does not write: inscription
-- numbers, and transaction outputs in the cache and in the table, with their scripts' keys.
pub record Outputs : Type 0 where
  pub number_of : ℕ → Option ℕ
  pub cached : OutPoint → Option ℕ
  pub stored : OutPoint → Option ℕ
  pub from_script : ℕ → ScriptKey

-- `get_script_key_on_satpoint`
abbrev pub get_script_key_on_satpoint : Outputs → SatPoint → Option ScriptKey
get_script_key_on_satpoint outputs s = elim (outputs.cached s.outpoint) [
  | some tx_out ↦ some (outputs.from_script tx_out)
  | none ↦ elim (outputs.stored s.outpoint) [
    | some tx_out ↦ some (outputs.from_script tx_out)
    | none ↦ none
  ]
]

infixl 5 ◌>>=◌
abbrev ◌>>=◌ {ℓ κ} : {A : Type ℓ} {B : Type κ} → Option A → (A → Option B) → Option B
none >>= f = none
some a >>= f = f a

-- The receiver, if the sat is in the outputs.
abbrev pub receiver_of : Outputs → Bool → SatPoint → Option (Option ScriptKey)
receiver_of outputs false s = some none
receiver_of outputs true s = (do script ← get_script_key_on_satpoint outputs s; some (some script))

-- `ExecutionMessage::from_message`
unfoldable pub from_message : Outputs → Message → Option ExecutionMessage
from_message outputs msg = do
  number ← outputs.number_of msg.sequence_number
  new_satpoint ← msg.new_satpoint
  from ← get_script_key_on_satpoint outputs msg.old_satpoint
  to ← receiver_of outputs msg.sat_in_outputs new_satpoint
  some (record {
    txid = msg.txid;
    inscription_id = msg.inscription_id;
    inscription_number = number;
    old_satpoint = satpoint_key msg.old_satpoint;
    new_satpoint = satpoint_key new_satpoint;
    from = from;
    to = to;
    op = msg.op;
  })

-- The index run goes on with a context, or an error or a panic stops it.
pub data Indexed {ℓ} (A : Type ℓ) : Type ℓ where
  stopped : Indexed A
  indexed : Context → A → Indexed A

abbrev pub and_then_index {ℓ κ} :
    {A : Type ℓ} {B : Type κ} → Indexed A → (Context → A → Indexed B) → Indexed B
and_then_index stopped f = stopped
and_then_index (indexed c a) f = f c a

abbrev pub of_run {ℓ} : {A : Type ℓ} → Ran A → Indexed A
of_run panicked = stopped
of_run (ran c (ok a)) = indexed c a
of_run (ran c (err e)) = stopped

abbrev pub of_option {ℓ} : {A : Type ℓ} → Context → Option A → Indexed A
of_option c none = stopped
of_option c (some a) = indexed c a

unfoldable pub has_inscription : ℕ → List ℕ → Bool
has_inscription i [] = false
has_inscription i (j ∷ js) = i == j || has_inscription i js

-- `add_inscription_attributes` with the kind BRC20 for the inscription of every receipt.
unfoldable pub add_attributes : List Receipt → List ℕ → List ℕ
unfolding has_inscription
add_attributes [] ids = ids
add_attributes (r ∷ rs) ids =
    add_attributes rs (if has_inscription r.inscription_id ids then ids else r.inscription_id ∷ ids)

pub record Tx : Type 0 where
  pub txid : ℕ
  pub is_coinbase : Bool
  pub inputs : List OutPoint

module _ (x : External) (outputs : Outputs) where
  -- The loop of `execute_message`.
  unfoldable pub execute_all : List Message → Context → Indexed (List Receipt)
  unfolding from_message
  execute_all [] c = indexed c []
  execute_all (m ∷ ms) c = and_then_index (of_option c (from_message outputs m)) λ c msg.
      and_then_index (of_run (execute x msg c))
        λ c receipt. and_then_index (execute_all ms c) λ c receipts. indexed c (receipt ∷ receipts)

  -- `execute_message`
  unfoldable pub execute_message : ℕ → List Message → Context → Indexed (Unit {0})
  unfolding execute_all add_attributes
  execute_message txid ms c = and_then_index (execute_all ms c) λ c receipts.
      let saved = save_transaction_receipts txid receipts c in
      indexed
        (record saved { brc20_inscriptions = add_attributes receipts saved.brc20_inscriptions }) tt

  -- The messages of a transaction that has operations and is not the coinbase.
  unfoldable pub index_transaction :
      Texts → Bool → Tx → Option (List InscriptionOp) → Context → Indexed (Unit {0})
  unfolding execute_message
  index_transaction texts active tx none c = indexed c tt
  index_transaction texts active tx (some ops) c =
      if tx.is_coinbase
      then indexed c tt
      else execute_message tx.txid (resolve_message texts active c tx.inputs ops) c

  -- The loop of `index_block`, for the operations by transaction.
  unfoldable pub index_block :
      Texts → Bool → Dict (List InscriptionOp) → List Tx → Context → Indexed (Unit {0})
  unfolding index_transaction
  index_block texts active operations [] c = indexed c tt
  index_block texts active operations (tx ∷ txs) c =
      and_then_index (index_transaction texts active tx (lookup tx.txid operations) c)
        λ c done. index_block texts active operations txs c
