-- ===== src/Brc20/Messages.antt =====
-- How inscription operations become messages: `Message::resolve` of
-- src/okx/protocol/brc20/msg_resolver.rs, `deserialize_brc20_operation` of operation/mod.rs beside it, and
-- `resolve_message` of src/okx/protocol/resolve_manager.rs.
pub mod Backing
use okx_ord.Common.{
  ℕ, ◌+◌, ◌*◌, ◌/◌, ◌%◌, ◌^◌, List, [], ◌∷◌, Option, none, some, Bool, true, false, not, ltb, leb,
  ◌==◌, ◌&&◌, ◌||◌, if◌then◌else◌, unwrap_or, length, ◌++◌,
}
use okx_ord.Common.Dict.{Dict, lookup}
use okx_ord.Common.Outcome.{u64_max}
use okx_ord.Brc20.Types.{Deploy, Mint, Transfer, Operation, TransferableLog}
use okx_ord.Brc20.Store.{Context}
use okx_ord.Brc20.Plan.Deploy.{same_text}

-- A transaction and an output index; a satpoint adds the offset.
abbrev pub OutPoint : Type 0
OutPoint = ℕ × ℕ

pub record SatPoint : Type 0 where
  pub outpoint : OutPoint
  pub offset : ℕ

-- `store` of an outpoint and of a satpoint: the table's key of 36 and of 44 bytes, as a number.
abbrev pub outpoint_key : OutPoint → ℕ
outpoint_key o = o.0 * 2 ^ 32 + o.1

abbrev pub satpoint_key : SatPoint → ℕ
satpoint_key s = outpoint_key s.outpoint * 2 ^ 64 + s.offset

pub record Inscription : Type 0 where
  pub body : Option (List ℕ)
  pub content_type : Option (List ℕ)

pub data Action : Type 0 where
  new :
      (cursed : Bool)
      → (unbound : Bool) → Inscription
      → (vindicated : Bool) → (parent : Option ℕ) → Action
  transfer : Action

pub record InscriptionOp : Type 0 where
  pub txid : ℕ
  pub action : Action
  pub sequence_number : ℕ
  pub inscription_number : Option ℕ
  pub inscription_id : ℕ
  pub old_satpoint : SatPoint
  pub new_satpoint : Option SatPoint

pub data RawOperation : Type 0 where
  deploy : Deploy → RawOperation
  mint : Mint → RawOperation
  transfer : Transfer → RawOperation

pub record Message : Type 0 where
  pub txid : ℕ
  pub sequence_number : ℕ
  pub inscription_id : ℕ
  pub old_satpoint : SatPoint
  pub new_satpoint : Option SatPoint
  pub op : Operation
  pub sat_in_outputs : Bool

-- What the code takes from serde_json and from the text functions of the language.
pub record Texts : Type 1 where
  pub Json : Type 0
  pub from_utf8 : List ℕ → Option (List ℕ)
  pub json_from_str : List ℕ → Option Json
  pub has_protocol : Json → Bool
  pub from_value : Json → Option RawOperation
  pub to_string : ℕ → List ℕ

abbrev pub text_plain : List ℕ
text_plain = 0x74 ∷ 0x65 ∷ 0x78 ∷ 0x74 ∷ 0x2f ∷ 0x70 ∷ 0x6c ∷ 0x61 ∷ 0x69 ∷ 0x6e ∷ []

abbrev pub text_plain_utf_8 : List ℕ
text_plain_utf_8 =
    0x74 ∷ 0x65 ∷ 0x78 ∷ 0x74 ∷ 0x2f ∷ 0x70 ∷ 0x6c ∷ 0x61 ∷ 0x69 ∷ 0x6e ∷ 0x3b ∷ 0x63 ∷ 0x68 ∷ 0x61
    ∷ 0x72 ∷ 0x73 ∷ 0x65 ∷ 0x74 ∷ 0x3d ∷ 0x75 ∷ 0x74 ∷ 0x66 ∷ 0x2d ∷ 0x38 ∷ []

abbrev pub text_plain_upper : List ℕ
text_plain_upper =
    0x74 ∷ 0x65 ∷ 0x78 ∷ 0x74 ∷ 0x2f ∷ 0x70 ∷ 0x6c ∷ 0x61 ∷ 0x69 ∷ 0x6e ∷ 0x3b ∷ 0x63 ∷ 0x68 ∷ 0x61
    ∷ 0x72 ∷ 0x73 ∷ 0x65 ∷ 0x74 ∷ 0x3d ∷ 0x55 ∷ 0x54 ∷ 0x46 ∷ 0x2d ∷ 0x38 ∷ []

abbrev pub application_json : List ℕ
application_json =
    0x61 ∷ 0x70 ∷ 0x70 ∷ 0x6c ∷ 0x69 ∷ 0x63 ∷ 0x61 ∷ 0x74 ∷ 0x69 ∷ 0x6f ∷ 0x6e ∷ 0x2f ∷ 0x6a ∷ 0x73
    ∷ 0x6f ∷ 0x6e ∷ []

abbrev pub text_plain_prefix : List ℕ
text_plain_prefix = 0x74 ∷ 0x65 ∷ 0x78 ∷ 0x74 ∷ 0x2f ∷ 0x70 ∷ 0x6c ∷ 0x61 ∷ 0x69 ∷ 0x6e ∷ 0x3b ∷ []

-- `text.starts_with(prefix)`
unfoldable pub starts_with : List ℕ → List ℕ → Bool
starts_with text [] = true
starts_with [] (c ∷ cs) = false
starts_with (d ∷ ds) (c ∷ cs) = let rest = starts_with ds cs in c == d && rest

abbrev pub is_supported : List ℕ → Bool
is_supported t =
    same_text t text_plain
    || same_text t text_plain_utf_8
    || same_text t text_plain_upper
    || same_text t application_json
    || starts_with t text_plain_prefix

infixl 5 ◌>>=◌
abbrev pub ◌>>=◌ {ℓ κ} : {A : Type ℓ} {B : Type κ} → Option A → (A → Option B) → Option B
none >>= f = none
some a >>= f = f a

abbrev pub require : Bool → Option (Unit {0})
require test = if test then some tt else none

-- The match of the raw operation with the action.
abbrev pub operation_of : Action → RawOperation → Option Operation
operation_of (Action.new cursed unbound inscription vindicated parent) (RawOperation.deploy d) =
    some (Operation.deploy d)
operation_of (Action.new cursed unbound inscription vindicated parent) (RawOperation.mint m) =
    some (Operation.mint m parent)
operation_of (Action.new cursed unbound inscription vindicated parent) (RawOperation.transfer t) =
    some (Operation.inscribe_transfer t)
operation_of Action.transfer (RawOperation.transfer t) = some (Operation.transfer t)
operation_of Action.transfer (RawOperation.deploy d) = none
operation_of Action.transfer (RawOperation.mint m) = none

-- `sat_in_outputs` of `resolve`
abbrev pub sat_in_outputs_of : InscriptionOp → Bool
sat_in_outputs_of op = elim op.new_satpoint [ none ↦ false | some s ↦ s.outpoint.0 == op.txid ]

-- `get_transferable_assets_by_outpoint`: the logs from offset 0 up to, and without, the last offset.
unfoldable pub get_transferable_assets_by_outpoint :
    OutPoint → Dict TransferableLog → Dict TransferableLog
get_transferable_assets_by_outpoint o [] = []
get_transferable_assets_by_outpoint o ((k, log) ∷ d) =
    let rest = get_transferable_assets_by_outpoint o d in
    if k / 2 ^ 64 == outpoint_key o && ltb (k % 2 ^ 64) u64_max then (k, log) ∷ rest else rest

abbrev pub push_some : Option Message → List Message → List Message
push_some none ms = ms
push_some (some m) ms = m ∷ ms

module _ (texts : Texts) where
  -- `deserialize_brc20`; an error is `none`, as the caller drops it.
  unfoldable pub deserialize_brc20 : List ℕ → Option RawOperation
  deserialize_brc20 text = do
    value ← texts.json_from_str text
    tested ← require (texts.has_protocol value)
    texts.from_value value

  -- `deserialize_brc20_operation`
  unfoldable pub deserialize_brc20_operation : Inscription → Action → Option Operation
  unfolding deserialize_brc20 starts_with
  deserialize_brc20_operation inscription action = do
    body ← inscription.body
    content ← texts.from_utf8 body
    long ← require (leb 40 (length content))
    content_type ← inscription.content_type
    type_text ← texts.from_utf8 content_type
    supported ← require (is_supported type_text)
    raw ← deserialize_brc20 content
    operation_of action raw

  -- The transfer of the log at the old satpoint, if it is of the operation's inscription.
  abbrev pub transfer_of : InscriptionOp → Option TransferableLog → Option Operation
  transfer_of op none = none
  transfer_of op (some log) =
      if not (log.inscription_id == op.inscription_id)
      then none
      else some
          (Operation.transfer (record { tick = log.tick; amount = texts.to_string log.amount }))

  -- The match of `resolve` on the action.
  unfoldable pub operation_by : InscriptionOp → Action → Dict TransferableLog → Option Operation
  unfolding deserialize_brc20_operation
  operation_by op (Action.new false false inscription false parent) assets =
      if sat_in_outputs_of op
      then deserialize_brc20_operation inscription (Action.new false false inscription false parent)
      else none
  operation_by op Action.transfer assets =
      transfer_of op (lookup (satpoint_key op.old_satpoint) assets)
  operation_by op _ assets = none

  -- `Message::resolve`
  unfoldable pub resolve : InscriptionOp → Dict TransferableLog → Option Message
  unfolding operation_by
  resolve op assets = do
    operation ← operation_by op op.action assets
    some (record {
      txid = op.txid;
      sequence_number = op.sequence_number;
      inscription_id = op.inscription_id;
      old_satpoint = op.old_satpoint;
      new_satpoint = op.new_satpoint;
      op = operation;
      sat_in_outputs = sat_in_outputs_of op;
    })

  -- The messages of the leading operations that spend an input, and the operations that remain.
  -- `active` is the test of the height against `first_brc20_height`.
  unfoldable pub resolve_input :
      Bool → Context → OutPoint → List InscriptionOp → List Message × List InscriptionOp
  unfolding resolve get_transferable_assets_by_outpoint
  resolve_input active c input [] = ([], [])
  resolve_input active c input (op ∷ ops) =
      let rest = resolve_input active c input ops in
      if op.old_satpoint.outpoint.0 == input.0 && op.old_satpoint.outpoint.1 == input.1
      then (
        push_some
            (if active
              then resolve op (get_transferable_assets_by_outpoint input c.satpoint_to_assets)
              else none)
            rest.0,
        rest.1,
      )
      else ([], op ∷ ops)

  -- `resolve_message`
  unfoldable pub resolve_message :
      Bool → Context → List OutPoint → List InscriptionOp → List Message
  unfolding resolve_input
  resolve_message active c [] ops = []
  resolve_message active c (input ∷ inputs) ops =
      let (messages, left) = resolve_input active c input ops in
      messages ++ resolve_message active c inputs left
