-- ===== src/Brc20/Messages/Backing.antt =====
-- The messages of a transaction that are transfers.
use okx_ord.Common.{
  ℕ, ◌≡◌, ◌%◌, ◌/◌, ◌^◌, refl, List, [], ◌∷◌, Option, none, some, Bool, true, false, ==_iff, ◌==◌,
  ◌&&◌, if◌then◌else◌, arith, All, Bool-cases, inl, inr, ◌++◌, ltb, leb, length, sym,
}
use okx_ord.Common.Dict.{Dict, lookup}
use okx_ord.Common.Outcome.{u64_max}
use okx_ord.Brc20.Types.{Operation, Transfer, TransferableLog}
use okx_ord.Brc20.Store.{Context}
use okx_ord.Brc20.Messages.{
  ◌>>=◌, Texts, OutPoint, SatPoint, satpoint_key, outpoint_key, Action, InscriptionOp, Message,
  Inscription, RawOperation, resolve, operation_by, operation_of, deserialize_brc20_operation,
  get_transferable_assets_by_outpoint, resolve_input, resolve_message, push_some, sat_in_outputs_of,
  transfer_of, require, is_supported, deserialize_brc20,
}

-- The log that a transfer message spends: it is at the message's old satpoint, of its inscription
-- and of the tick.
pub record HasLog (assets : Dict TransferableLog) (s : SatPoint) (inscription_id : ℕ) (t : Transfer)
    : Type 0 where
  pub log : TransferableLog
  pub there : lookup (satpoint_key s) assets ≡ some log
  pub same_inscription : log.inscription_id ≡ inscription_id
  pub same_tick : t.tick ≡ log.tick

abbrev pub IsBacked : Dict TransferableLog → SatPoint → ℕ → Operation → Type 0
IsBacked assets s i (Operation.transfer t) = HasLog assets s i t
IsBacked assets s i (Operation.deploy d) = Unit
IsBacked assets s i (Operation.mint m p) = Unit
IsBacked assets s i (Operation.inscribe_transfer t) = Unit

abbrev pub BackedMessage : Dict TransferableLog → Message → Type 0
BackedMessage assets m = IsBacked assets m.old_satpoint m.inscription_id m.op

lookup-outside :
    (o : OutPoint) (k : ℕ) (d : Dict TransferableLog)
    → (k / 2 ^ 64 == outpoint_key o && ltb (k % 2 ^ 64) u64_max) ≡ false
    → lookup k (get_transferable_assets_by_outpoint o d) ≡ none
unfolding lookup get_transferable_assets_by_outpoint
lookup-outside o k [] h = refl
lookup-outside o k ((j, log) ∷ d) h =
    let rest = lookup-outside o k d h in
    elim (Bool-cases (k == j)) [
      | inl same ↦
          let q : k ≡ j = (==_iff k j).0 same in
          let e : (j / 2 ^ 64 == outpoint_key o && ltb (j % 2 ^ 64) u64_max) ≡ false =
            rw (sym q) h in
          rw e rest
      | inr other ↦ elim (Bool-cases (j / 2 ^ 64 == outpoint_key o && ltb (j % 2 ^ 64) u64_max)) [
        | inl inside ↦ rw (inside, other) rest
        | inr outside ↦ rw outside rest
      ]
    ]

-- A log that the range of an outpoint holds is in the table.
lookup-get_transferable_assets_by_outpoint :
    (o : OutPoint) (k : ℕ) (d : Dict TransferableLog) {log : TransferableLog}
    → lookup k (get_transferable_assets_by_outpoint o d) ≡ some log
    → lookup k d ≡ some log
unfolding lookup get_transferable_assets_by_outpoint
lookup-get_transferable_assets_by_outpoint o k [] h = cc
lookup-get_transferable_assets_by_outpoint o k ((j, log) ∷ d) h = elim (Bool-cases (k == j)) [
  | inl same ↦ elim (Bool-cases (j / 2 ^ 64 == outpoint_key o && ltb (j % 2 ^ 64) u64_max)) [
    | inl inside ↦ ground arith
    | inr outside ↦ absurd (
        let q : k ≡ j = (==_iff k j).0 same in
        let e = lookup-outside o k d (rw q outside) in let h = rw outside at h in cc)
  ]
  | inr other ↦ elim (Bool-cases (j / 2 ^ 64 == outpoint_key o && ltb (j % 2 ^ 64) u64_max)) [
    | inl inside ↦
        rw other (lookup-get_transferable_assets_by_outpoint o k d (rw (inside, other) at h))
    | inr outside ↦ rw other (lookup-get_transferable_assets_by_outpoint o k d (rw outside at h))
  ]
]

-- What a successful chain says of its first step and of the rest.
and_then-eq-some {ℓ κ} :
    {A : Type ℓ} {B : Type κ} (o : Option A) (f : A → Option B) {b : B}
    → (o >>= f) ≡ some b
    → (a : A) × (o ≡ some a) × (f a ≡ some b)
and_then-eq-some none f h = absurd cc
and_then-eq-some (some a) f h = (a, refl, h)

some_inj {ℓ} : {A : Type ℓ} {a b : A} → some a ≡ some b → a ≡ b
some_inj h = cc

push_some-IsBacked :
    (P : Message → Type 0) (o : Option Message) (ms : List Message)
    → ((m : Message) → o ≡ some m → P m)
    → All P ms
    → All P (push_some o ms)
push_some-IsBacked P none ms here rest = rest
push_some-IsBacked P (some m) ms here rest = (here m refl, rest)

All-append : (P : Message → Type 0) (ms ns : List Message) → All P ms → All P ns → All P (ms ++ ns)
All-append P [] ns h g = g
All-append P (m ∷ ms) ns h g = (h.0, All-append P ms ns h.1 g)

module _ (texts : Texts) where
  new-IsBacked :
      (assets : Dict TransferableLog) (s : SatPoint) (i : ℕ) (inscription : Inscription)
      (parent : Option ℕ) (raw : RawOperation) {op : Operation}
      → operation_of (Action.new false false inscription false parent) raw ≡ some op
      → IsBacked assets s i op
  new-IsBacked assets s i inscription parent (RawOperation.deploy d) {op = op} h =
      let q : op ≡ Operation.deploy d = cc in rw q tt
  new-IsBacked assets s i inscription parent (RawOperation.mint m) {op = op} h =
      let q : op ≡ Operation.mint m parent = cc in rw q tt
  new-IsBacked assets s i inscription parent (RawOperation.transfer t) {op = op} h =
      let q : op ≡ Operation.inscribe_transfer t = cc in rw q tt

  deserialize-IsBacked :
      (assets : Dict TransferableLog) (s : SatPoint) (i : ℕ) (inscription : Inscription)
      (parent : Option ℕ) {op : Operation}
      → deserialize_brc20_operation texts inscription
          (Action.new false false inscription false parent)
        ≡ some op
      → IsBacked assets s i op
  unfolding deserialize_brc20_operation
  deserialize-IsBacked assets s i inscription parent h =
      let (body, _, h1) = and_then-eq-some inscription.body _ h in
      let (content, _, h2) = and_then-eq-some (texts.from_utf8 body) _ h1 in
      let (_, _, h3) = and_then-eq-some (require (leb 40 (length content))) _ h2 in
      let (t, _, h4) = and_then-eq-some inscription.content_type _ h3 in
      let (u, _, h5) = and_then-eq-some (texts.from_utf8 t) _ h4 in
      let (_, _, h6) = and_then-eq-some (require (is_supported u)) _ h5 in
      let (raw, _, h7) = and_then-eq-some (deserialize_brc20 texts content) _ h6 in
      new-IsBacked assets s i inscription parent raw h7

  -- The transfer that an operation makes of a log.
  transfer_of-IsBacked :
      (op : InscriptionOp) (assets : Dict TransferableLog) (o : Option TransferableLog)
      {result : Operation}
      → lookup (satpoint_key op.old_satpoint) assets ≡ o
      → transfer_of texts op o ≡ some result
      → IsBacked assets op.old_satpoint op.inscription_id result
  transfer_of-IsBacked op assets none there h = absurd cc
  transfer_of-IsBacked op assets (some log) {result = result} there h =
      elim (Bool-cases (log.inscription_id == op.inscription_id)) [
        | inl same ↦
            let q : result
                ≡ Operation.transfer
                    (record { tick = log.tick; amount = texts.to_string log.amount }) =
              (let h = rw same at h in cc) in
            rw q (record {
              log = log;
              there = there;
              same_inscription = (==_iff log.inscription_id op.inscription_id).0 same;
              same_tick = refl;
            })
        | inr other ↦ absurd (let h = rw other at h in cc)
      ]

  operation_by-IsBacked :
      (op : InscriptionOp) (action : Action) (assets : Dict TransferableLog) {result : Operation}
      → operation_by texts op action assets ≡ some result
      → IsBacked assets op.old_satpoint op.inscription_id result
  unfolding operation_by
  operation_by-IsBacked op (Action.new true unbound inscription vindicated parent) assets h =
      absurd cc
  operation_by-IsBacked op (Action.new false true inscription vindicated parent) assets h =
      absurd cc
  operation_by-IsBacked op (Action.new false false inscription true parent) assets h = absurd cc
  operation_by-IsBacked op (Action.new false false inscription false parent) assets h =
      elim (Bool-cases (sat_in_outputs_of op)) [
        | inl inside ↦
            deserialize-IsBacked assets op.old_satpoint op.inscription_id inscription parent
              (rw inside at h)
        | inr outside ↦ absurd (let h = rw outside at h in cc)
      ]
  operation_by-IsBacked op Action.transfer assets h =
      transfer_of-IsBacked op assets (lookup (satpoint_key op.old_satpoint) assets) refl h

  resolve-IsBacked :
      (op : InscriptionOp) (assets : Dict TransferableLog) {m : Message}
      → resolve texts op assets ≡ some m
      → BackedMessage assets m
  unfolding resolve
  resolve-IsBacked op assets {m = m} h =
      let (operation, e, r) = and_then-eq-some (operation_by texts op op.action assets) _ h in
      let backed = operation_by-IsBacked op op.action assets e in
      let q : record {
        txid = op.txid;
        sequence_number = op.sequence_number;
        inscription_id = op.inscription_id;
        old_satpoint = op.old_satpoint;
        new_satpoint = op.new_satpoint;
        op = operation;
        sat_in_outputs = sat_in_outputs_of op;
      }
          ≡ m =
        some_inj r in
      rw (sym q) backed

  -- A table that holds the logs of another one backs what that one backs.
  IsBacked-wider :
      (few all : Dict TransferableLog) (s : SatPoint) (i : ℕ) (op : Operation)
      → ((k : ℕ) (log : TransferableLog) → lookup k few ≡ some log → lookup k all ≡ some log)
      → IsBacked few s i op
      → IsBacked all s i op
  IsBacked-wider few all s i (Operation.transfer t) wider h = record {
    log = h.log;
    there = wider (satpoint_key s) h.log h.there;
    same_inscription = h.same_inscription;
    same_tick = h.same_tick;
  }
  IsBacked-wider few all s i (Operation.deploy d) wider h = tt
  IsBacked-wider few all s i (Operation.mint m p) wider h = tt
  IsBacked-wider few all s i (Operation.inscribe_transfer t) wider h = tt

  resolve_input-IsBacked :
      (active : Bool) (c : Context) (input : OutPoint) (ops : List InscriptionOp)
      → All (BackedMessage c.satpoint_to_assets) (resolve_input texts active c input ops).0
  unfolding resolve_input
  resolve_input-IsBacked active c input [] = tt
  resolve_input-IsBacked active c input (op ∷ ops) =
      let rest = resolve_input-IsBacked active c input ops in
      elim (Bool-cases
        (op.old_satpoint.outpoint.0 == input.0 && op.old_satpoint.outpoint.1 == input.1)) [
          | inl spent ↦ rw spent (
              push_some-IsBacked (BackedMessage c.satpoint_to_assets) _ _
                (λ m h. resolved active op m h) rest)
          | inr other ↦ rw other tt
        ]
    where
      resolved :
          (active : Bool) (op : InscriptionOp) (m : Message)
          → (if active
              then resolve texts op (get_transferable_assets_by_outpoint input c.satpoint_to_assets)
              else none)
            ≡ some m
          → BackedMessage c.satpoint_to_assets m
      resolved true op m h =
          IsBacked-wider (get_transferable_assets_by_outpoint input c.satpoint_to_assets)
            c.satpoint_to_assets m.old_satpoint m.inscription_id m.op
            (λ k log e. lookup-get_transferable_assets_by_outpoint input k c.satpoint_to_assets e)
            (resolve-IsBacked op (get_transferable_assets_by_outpoint input c.satpoint_to_assets) h)
      resolved false op m h = absurd cc

  -- In the messages of a transaction every transfer has its log in the table: one at the message's
  -- old satpoint, of its inscription and of its tick.
  pub resolve_message-IsBacked :
      (active : Bool) (c : Context) (inputs : List OutPoint) (ops : List InscriptionOp)
      → All (BackedMessage c.satpoint_to_assets) (resolve_message texts active c inputs ops)
  unfolding resolve_message
  resolve_message-IsBacked active c [] ops = tt
  resolve_message-IsBacked active c (input ∷ inputs) ops =
      All-append (BackedMessage c.satpoint_to_assets) _ _
        (resolve_input-IsBacked active c input ops)
        (resolve_message-IsBacked active c inputs (resolve_input texts active c input ops).1)
