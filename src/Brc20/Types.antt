-- ===== src/Brc20/Types.antt =====
-- The data of BRC-20: src/okx/datastore/brc20/ (balance.rs, token_info.rs, transferable_log.rs,
-- tick.rs, errors.rs, events.rs), and the messages of src/okx/protocol/brc20/. Formatted texts in
-- errors and events are left out. Inscription ids, satpoints and transactions stand as numbers.
use okx_ord.Common.{
  ℕ, ◌≡◌, refl, ◌⊎◌, inl, inr, true, false, List, Option, none, some, Bool, ltb, ◌||◌, ◌==◌,
  if◌then◌else◌, length,
}
use okx_ord.Brc20.External.{ScriptKey}

-- A tick is the bytes of its text.
abbrev pub Tick : Type 0
Tick = List ℕ

pub data Brc20Error : Type 0 where
  invalid_num : List ℕ → Brc20Error
  invalid_supply : Brc20Error
  duplicate_tick : Tick → Brc20Error
  tick_not_found : Tick → Brc20Error
  invalid_tick_len : List ℕ → Brc20Error
  decimals_too_large : ℕ → Brc20Error
  tick_minted : Tick → Brc20Error
  mint_limit_out_of_range : Tick → Brc20Error
  invalid_zero_amount : Brc20Error
  amount_overflow : Brc20Error
  insufficient_balance : Brc20Error
  amount_exceed_limit : Brc20Error
  transferable_not_found : ℕ → Brc20Error
  inscribe_to_coinbase : Brc20Error
  transferable_owner_not_match : ℕ → Brc20Error
  self_issuance_not_activated : Brc20Error
  self_issuance_checked_failed : Brc20Error
  self_mint_permission_denied : Brc20Error
  internal_error : Brc20Error
  overflow : Brc20Error
  invalid_integer : Brc20Error

pub data Result {ℓ} (S : Type ℓ) : Type ℓ where
  err : Brc20Error → Result S
  ok : S → Result S

-- `?` on a result: an error returns at once.
infixl 5 ◌>>=◌ ◌>>◌
abbrev pub ◌>>=◌ {ℓ κ} : {S : Type ℓ} {T : Type κ} → Result S → (S → Result T) → Result T
r >>= next = elim r [ err e ↦ err e | ok s ↦ next s ]

abbrev pub ◌>>◌ {κ} : {T : Type κ} → Result (Unit {0}) → Result T → Result T
first >> second = first >>= λ done. second

-- `if test { return Err(e) }`
abbrev pub fail_if : Bool → Brc20Error → Result (Unit {0})
fail_if test e = if test then err e else ok tt

-- `.ok_or(e)?`
abbrev pub ok_or {ℓ} : {A : Type ℓ} → Option A → Brc20Error → Result A
ok_or none e = err e
ok_or (some a) e = ok a

abbrev pub self_issuance_tick_length : ℕ
self_issuance_tick_length = 5

-- `FromStr for Tick`
unfoldable pub tick_from_str : List ℕ → Result Tick
tick_from_str s =
    if ltb (length s) 4 || ltb self_issuance_tick_length (length s)
    then err (invalid_tick_len s)
    else ok s

-- `Tick::self_issuance_tick`
abbrev pub is_self_issuance : Tick → Bool
is_self_issuance tick = length tick == self_issuance_tick_length

pub record Balance : Type 0 where
  pub tick : Tick
  pub overall_balance : ℕ
  pub transferable_balance : ℕ

abbrev pub new_balance : Tick → Balance
new_balance tick = record { tick = tick; overall_balance = 0; transferable_balance = 0 }

pub record TokenInfo : Type 0 where
  pub tick : Tick
  pub inscription_id : ℕ
  pub inscription_number : ℕ
  pub supply : ℕ
  pub burned_supply : ℕ
  pub minted : ℕ
  pub limit_per_mint : ℕ
  pub decimal : ℕ
  pub deploy_by : ScriptKey
  pub is_self_mint : Bool
  pub deployed_number : ℕ
  pub deployed_timestamp : ℕ
  pub latest_mint_number : ℕ

pub record TransferableLog : Type 0 where
  pub inscription_id : ℕ
  pub inscription_number : ℕ
  pub amount : ℕ
  pub tick : Tick
  pub owner : ScriptKey

pub record Deploy : Type 0 where
  pub tick : List ℕ
  pub max_supply : List ℕ
  pub mint_limit : Option (List ℕ)
  pub decimals : Option (List ℕ)
  pub self_mint : Option Bool

pub record Mint : Type 0 where
  pub tick : List ℕ
  pub amount : List ℕ

pub record Transfer : Type 0 where
  pub tick : List ℕ
  pub amount : List ℕ

pub data Operation : Type 0 where
  deploy : Deploy → Operation
  mint : Mint → Option ℕ → Operation
  inscribe_transfer : Transfer → Operation
  transfer : Transfer → Operation

pub data OperationType : Type 0 where
  deploy : OperationType
  mint : OperationType
  inscribe_transfer : OperationType
  transfer : OperationType

pub record ExecutionMessage : Type 0 where
  pub txid : ℕ
  pub inscription_id : ℕ
  pub inscription_number : ℕ
  pub old_satpoint : ℕ
  pub new_satpoint : ℕ
  pub from : ScriptKey
  pub to : Option ScriptKey
  pub op : Operation

-- The events. Of a message in an event only whether there is one.
pub data Event : Type 0 where
  deploy : ℕ → ℕ → ℕ → Tick → Bool → Event
  mint : Tick → ℕ → Bool → Event
  inscribe_transfer : Tick → ℕ → Event
  transfer : Tick → ℕ → Bool → Event

pub record Receipt : Type 0 where
  pub inscription_id : ℕ
  pub inscription_number : ℕ
  pub old_satpoint : ℕ
  pub new_satpoint : ℕ
  pub op : OperationType
  pub from : ScriptKey
  pub to : ScriptKey
  pub result : Result Event

-- What a successful chain says of its first step and of the rest.
pub >>=-eq-ok {ℓ κ} :
    {S : Type ℓ} {T : Type κ} (r : Result S) (next : S → Result T) {t : T}
    → (r >>= next) ≡ ok t
    → (s : S) × (r ≡ ok s) × (next s ≡ ok t)
>>=-eq-ok (err e) next failed = absurd cc
>>=-eq-ok (ok s) next runs = (s, refl, runs)

pub Result-cases {ℓ} :
    {A : Type ℓ} (r : Result A) → ((e : Brc20Error) × (r ≡ err e)) ⊎ ((a : A) × (r ≡ ok a))
Result-cases (ok a) = inr (a, refl)
Result-cases (err e) = inl (e, refl)

pub ok_or-eq-ok {ℓ} :
    {A : Type ℓ} (o : Option A) (e : Brc20Error) {a : A} → ok_or o e ≡ ok a → o ≡ some a
ok_or-eq-ok none e h = cc
ok_or-eq-ok (some b) e h = cc

pub fail_if-eq-ok :
    (test : Bool) (e : Brc20Error) {u : Unit {0}} → fail_if test e ≡ ok u → test ≡ false
fail_if-eq-ok true e h = cc
fail_if-eq-ok false e h = refl

pub ok_inj {ℓ} : {A : Type ℓ} {a b : A} → ok a ≡ ok b → a ≡ b
ok_inj h = cc
