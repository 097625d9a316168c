-- ===== src/Brc20/Tests.antt =====
-- Runs of the model of BRC-20 with natural numbers for decimals, and examples of its theorems.
use okx_ord.Common.{
  ℕ, ◌+◌, ◌-◌, ◌*◌, ◌≡◌, refl, sym, List, [], ◌∷◌, Option, none, some, Bool, true, false, arith,
  ltb, leb, ◌==◌, ◌||◌, if◌then◌else◌, then_some, ◌⊎◌, All, length,
}
use okx_ord.Common.Dict.{lookup, insert, remove}
use okx_ord.Common.Outcome.{u128_max}
use okx_ord.Brc20.External.{External, IsExact, ScriptKey, address, script_hash, has_sign}
use okx_ord.Brc20.Types.{
  Tick, Balance, TokenInfo, TransferableLog, Deploy, Mint, Transfer, Operation, ExecutionMessage,
  Event, Receipt, ok, err, Brc20Error, tick_from_str,
}
use okx_ord.Brc20.Num.{
  checked_to_u128, checked_to_u8, checked_powu, powu_loop, num_from_str, checked_sub,
  ends_with_point,
}
use okx_ord.Brc20.Store.{
  Context, ran, update_token_balance, insert_token_info, update_mint_token_info,
  update_burned_token_info, insert_transferable_asset, remove_transferable_asset, remove_asset,
}
use okx_ord.Brc20.Store.Pairs.{insert_pair_key, lookup_pair, sum_of}
use okx_ord.Brc20.Plan.{plan_mint, limit_mint, cut, plan_inscribe, reserve, plan_transfer, withdraw}
use okx_ord.Brc20.Plan.Deploy.{plan_deploy, deploy_numbers, self_issuance, same_text}
use okx_ord.Brc20.Plan.Amount.{parse_amount, sum_u128}
use okx_ord.Brc20.Execute.{
  execute, process, process_deploy, process_mint, process_inscribe_transfer, process_transfer,
  credit, burn_if, receipt_of,
}
use okx_ord.Brc20.Books.{IsBooked, Handled, BalanceKeys, logged}
use okx_ord.Brc20.Books.Effects.{IsDeployed, IsMinted, IsInscribed, IsTransferred}
use okx_ord.Brc20.Books.Deploys.{process_deploy-IsDeployed}
use okx_ord.Brc20.Books.Mints.{process_mint-IsMinted}
use okx_ord.Brc20.Books.Inscribes.{process_inscribe_transfer-IsInscribed}
use okx_ord.Brc20.Books.Transfers.{process_transfer-IsTransferred}
use okx_ord.Brc20.Books.Process.{
  IsAdmissible, DoesItsPart, Leads, stay, next, execute-DoesItsPart, Leads-IsBooked,
}
use okx_ord.Brc20.Messages.{
  SatPoint, Message, Texts, InscriptionOp, Action, resolve_message, resolve_input, resolve,
  operation_by, get_transferable_assets_by_outpoint,
}
use okx_ord.Brc20.Messages.Backing.{BackedMessage, resolve_message-IsBacked}
use okx_ord.Brc20.Manager.{Outputs, from_message, execute_message, indexed}
use okx_ord.Brc20.Manager.Ledger.{AreAdmissible, execute_message-IsBooked}

unfoldable digits : ℕ → List ℕ → Option ℕ
digits n [] = some n
digits n (c ∷ cs) =
    let rest = digits (n * 10 + (c - 48)) cs in if ltb c 48 || ltb 57 c then none else rest

unfoldable bytes : ℕ → List ℕ → ℕ
bytes n [] = n
bytes n (c ∷ cs) = bytes (n * 256 + c) cs

abbrev script_number : ScriptKey → ℕ
script_number (address a) = a * 2
script_number (script_hash h op_return) = h * 2 + 1

abbrev same_script : ScriptKey → ScriptKey → Bool
same_script (address a) (address b) = a == b
same_script (script_hash h true) (script_hash g true) = h == g
same_script (script_hash h false) (script_hash g false) = h == g
same_script _ _ = false

abbrev naturals : External
naturals = record {
  BigDecimal = ℕ;
  BigInt = ℕ;
  one = 1;
  from_nat = λ n. n;
  add = λ a b. a + b;
  sub = λ a b. a - b;
  mul = λ a b. a * b;
  lt = ltb;
  ge = λ a b. leb b a;
  is_integer = λ a. true;
  is_no_sign = λ a. a == 0;
  scale_above = λ a d. false;
  to_u8 = λ a. then_some (leb a 255) a;
  to_bigint = some;
  to_u128 = λ a. then_some (leb a u128_max) a;
  parse = digits 0;
  to_lowercase = λ s. s;
  hex = bytes 0;
  script_text = script_number;
  script_eq = same_script;
}

same_script-eq : (a b : ScriptKey) → same_script a b ≡ true → a ≡ b
same_script-eq (address a) (address b) h = let q : a ≡ b = ground arith in rw q refl
same_script-eq (address a) (script_hash g r) h = cc
same_script-eq (script_hash h true) (address b) e = cc
same_script-eq (script_hash h false) (address b) e = cc
same_script-eq (script_hash h true) (script_hash g true) e =
    let q : h ≡ g = ground arith in rw q refl
same_script-eq (script_hash h true) (script_hash g false) e = cc
same_script-eq (script_hash h false) (script_hash g true) e = cc
same_script-eq (script_hash h false) (script_hash g false) e =
    let q : h ≡ g = ground arith in rw q refl

naturals-IsExact : IsExact naturals
naturals-IsExact = record {
  IsNat = λ a n. a ≡ n;
  one_nat = refl;
  from_nat_nat = λ n. refl;
  add_nat = λ h g. rw (h, g) refl;
  mul_nat = λ h g. rw (h, g) refl;
  sub_nat = λ h g le. rw (h, g) refl;
  lt_nat = λ h g. rw (h, g) refl;
  ge_nat = λ h g. rw (h, g) refl;
  integer_nat = λ h. refl;
  no_sign_nat = λ h. rw h refl;
  bigint_nat = λ {a} {n} h. (a, refl, rw h refl);
  scaled = λ {s} {a} {t} {d} h unsigned narrow g. (a * t, refl);
  script_eq_sound = λ {a} {b} h. same_script-eq a b h;
}

abbrev ordi : Tick
ordi = 0x6f ∷ 0x72 ∷ 0x64 ∷ 0x69 ∷ []

abbrev alice : ScriptKey
alice = address 1

abbrev bob : ScriptKey
bob = address 2

abbrev burn_script : ScriptKey
burn_script = script_hash 3 true

-- The message of an operation that moves from one satpoint to another.
abbrev message : ℕ → ℕ → ScriptKey → ScriptKey → Operation → ExecutionMessage
message from_satpoint to_satpoint from to op = record {
  txid = to_satpoint;
  inscription_id = from_satpoint;
  inscription_number = from_satpoint;
  old_satpoint = from_satpoint;
  new_satpoint = to_satpoint;
  from = from;
  to = some to;
  op = op;
}

-- A supply of 1000 and mints of at most 600.
abbrev deploy_ordi : Deploy
deploy_ordi = record {
  tick = ordi;
  max_supply = 49 ∷ 48 ∷ 48 ∷ 48 ∷ [];
  mint_limit = some (54 ∷ 48 ∷ 48 ∷ []);
  decimals = some (48 ∷ []);
  self_mint = none;
}

abbrev mint_600 : Mint
mint_600 = record { tick = ordi; amount = 54 ∷ 48 ∷ 48 ∷ [] }

abbrev transfer_250 : Transfer
transfer_250 = record { tick = ordi; amount = 50 ∷ 53 ∷ 48 ∷ [] }

abbrev deploy_message : ExecutionMessage
deploy_message = message 1 10 alice alice (Operation.deploy deploy_ordi)

abbrev mint_message : ExecutionMessage
mint_message = message 2 20 alice alice (Operation.mint mint_600 none)

abbrev inscribe_message : ExecutionMessage
inscribe_message = message 3 30 alice alice (Operation.inscribe_transfer transfer_250)

abbrev burn_message : ExecutionMessage
burn_message = message 30 40 alice burn_script (Operation.transfer transfer_250)

abbrev no_tokens : Context
no_tokens = record {
  blockheight = 900000;
  blocktime = 0;
  self_issuance_activation_height = 837090;
  balances = [];
  tokens = [];
  satpoint_to_assets = [];
  address_to_assets = [];
  events = [];
  brc20_inscriptions = [];
}

abbrev ordi_info : ℕ → ℕ → TokenInfo
ordi_info minted burned = record {
  tick = ordi;
  inscription_id = 1;
  inscription_number = 1;
  supply = 1000;
  burned_supply = burned;
  minted = minted;
  limit_per_mint = 600;
  decimal = 0;
  deploy_by = alice;
  is_self_mint = false;
  deployed_number = 900000;
  deployed_timestamp = 0;
  latest_mint_number = 900000;
}

abbrev ordi_balance : ℕ → ℕ → Balance
ordi_balance all free = record { tick = ordi; overall_balance = all; transferable_balance = free }

abbrev ordi_key : ℕ
ordi_key = 0x6f726469

abbrev deployed : Context
deployed = record no_tokens { tokens = (ordi_key, ordi_info 0 0) ∷ [] }

abbrev minted_once : Context
minted_once = record deployed {
  balances = ((2, ordi_key), ordi_balance 600 0) ∷ [];
  tokens = (ordi_key, ordi_info 600 0) ∷ [];
}

abbrev ordi_log : TransferableLog
ordi_log = record {
  inscription_id = 3;
  inscription_number = 3;
  amount = 250;
  tick = ordi;
  owner = alice;
}

abbrev inscribed : Context
inscribed = record minted_once {
  balances = ((2, ordi_key), ordi_balance 600 250) ∷ [];
  satpoint_to_assets = (30, ordi_log) ∷ [];
  address_to_assets = ((2, ordi_key), 30) ∷ [];
}

abbrev burned_once : Context
burned_once = record inscribed {
  balances = ((2, ordi_key), ordi_balance 350 0) ∷ ((7, ordi_key), ordi_balance 250 0) ∷ [];
  tokens = (ordi_key, ordi_info 600 250) ∷ [];
  satpoint_to_assets = [];
  address_to_assets = [];
}

deploys :
    execute naturals deploy_message no_tokens
    ≡ ran deployed
        (ok (receipt_of naturals deploy_message (ok (Event.deploy 1000 600 0 ordi false))))
unfolding execute process process_deploy plan_deploy deploy_numbers self_issuance same_text
    insert_token_info tick_from_str num_from_str checked_to_u8 checked_to_u128 checked_powu
    powu_loop ends_with_point has_sign digits bytes lookup insert
deploys = refl

mints :
    execute naturals mint_message deployed
    ≡ ran minted_once (ok (receipt_of naturals mint_message (ok (Event.mint ordi 600 false))))
unfolding execute process process_mint plan_mint limit_mint cut credit parse_amount sum_u128
    checked_sub update_token_balance update_mint_token_info tick_from_str num_from_str
    checked_to_u128 checked_powu powu_loop ends_with_point has_sign digits bytes lookup insert
    lookup_pair insert_pair_key
mints = refl

-- A second mint is cut off at the supply.
cuts_off :
    execute naturals mint_message minted_once
    ≡ ran
        (record minted_once {
          balances = ((2, ordi_key), ordi_balance 1000 0) ∷ [];
          tokens = (ordi_key, ordi_info 1000 0) ∷ [];
        })
        (ok (receipt_of naturals mint_message (ok (Event.mint ordi 400 true))))
unfolding execute process process_mint plan_mint limit_mint cut credit parse_amount sum_u128
    checked_sub update_token_balance update_mint_token_info tick_from_str num_from_str
    checked_to_u128 checked_powu powu_loop ends_with_point has_sign digits bytes lookup insert
    lookup_pair insert_pair_key
cuts_off = refl

inscribes :
    execute naturals inscribe_message minted_once
    ≡ ran inscribed
        (ok (receipt_of naturals inscribe_message (ok (Event.inscribe_transfer ordi 250))))
unfolding execute process process_inscribe_transfer plan_inscribe reserve parse_amount checked_sub
    update_token_balance insert_transferable_asset remove_asset tick_from_str num_from_str
    checked_to_u128 checked_powu powu_loop ends_with_point has_sign digits bytes lookup insert
    lookup_pair insert_pair_key
inscribes = refl

burns :
    execute naturals burn_message inscribed
    ≡ ran burned_once (ok (receipt_of naturals burn_message (ok (Event.transfer ordi 250 true))))
unfolding execute process process_transfer plan_transfer withdraw credit burn_if sum_u128
    checked_sub update_token_balance remove_transferable_asset update_burned_token_info remove_asset
    checked_to_u128 bytes lookup insert remove lookup_pair insert_pair_key
burns = refl

no_tokens-IsBooked : IsBooked naturals no_tokens
unfolding lookup lookup_pair sum_of logged BalanceKeys
no_tokens-IsBooked = record {
  sums = λ t. refl;
  held = λ k. refl;
  cover = λ k. omega arith;
  caps = tt;
  balance_keys = tt;
  token_keys = tt;
}

admit_without_log :
    (msg : ExecutionMessage) (c : Context) → c.satpoint_to_assets ≡ [] → IsAdmissible naturals msg c
unfolding lookup
admit_without_log msg c h = record {
  fresh = rw h refl;
  burn_room = λ asset e. absurd (let e = rw h at e in cc);
}

admit_burn : IsAdmissible naturals burn_message inscribed
unfolding lookup bytes
admit_burn = record {
  fresh = refl;
  burn_room = λ asset e. let q : ordi_log ≡ asset = cc in rw (sym q) (omega arith);
}

Leads-deployed : Leads naturals no_tokens deployed
Leads-deployed = next deploy_message stay (admit_without_log deploy_message no_tokens refl) deploys

Leads-minted : Leads naturals no_tokens minted_once
Leads-minted = next mint_message Leads-deployed (admit_without_log mint_message deployed refl) mints

Leads-inscribed : Leads naturals no_tokens inscribed
Leads-inscribed =
    next inscribe_message Leads-minted (admit_without_log inscribe_message minted_once refl)
      inscribes

Leads-burned : Leads naturals no_tokens burned_once
Leads-burned = next burn_message Leads-inscribed admit_burn burns

Leads-IsBooked_example : IsBooked naturals burned_once
Leads-IsBooked_example = Leads-IsBooked naturals naturals-IsExact no_tokens-IsBooked Leads-burned

deployed-IsBooked : IsBooked naturals deployed
deployed-IsBooked = Leads-IsBooked naturals naturals-IsExact no_tokens-IsBooked Leads-deployed

minted_once-IsBooked : IsBooked naturals minted_once
minted_once-IsBooked = Leads-IsBooked naturals naturals-IsExact no_tokens-IsBooked Leads-minted

inscribed-IsBooked : IsBooked naturals inscribed
inscribed-IsBooked = Leads-IsBooked naturals naturals-IsExact no_tokens-IsBooked Leads-inscribed

process_deploy-IsDeployed_example :
    Handled naturals no_tokens
      (process_deploy naturals deploy_message deploy_ordi no_tokens)
      (λ c' ev. IsDeployed naturals no_tokens c')
process_deploy-IsDeployed_example =
    process_deploy-IsDeployed naturals naturals-IsExact deploy_message deploy_ordi no_tokens
      no_tokens-IsBooked

process_mint-IsMinted_example :
    Handled naturals deployed
      (process_mint naturals mint_message mint_600 none deployed)
      (λ c' ev. IsMinted naturals deployed c')
process_mint-IsMinted_example =
    process_mint-IsMinted naturals naturals-IsExact mint_message mint_600 none deployed
      deployed-IsBooked

process_inscribe_transfer-IsInscribed_example :
    Handled naturals minted_once
      (process_inscribe_transfer naturals inscribe_message transfer_250 minted_once)
      (λ c' ev. IsInscribed naturals minted_once c')
unfolding lookup
process_inscribe_transfer-IsInscribed_example =
    process_inscribe_transfer-IsInscribed naturals naturals-IsExact inscribe_message transfer_250
      minted_once minted_once-IsBooked refl

process_transfer-IsTransferred_example :
    Handled naturals inscribed
      (process_transfer naturals burn_message inscribed)
      (λ c' ev. IsTransferred naturals burn_message inscribed c')
process_transfer-IsTransferred_example =
    process_transfer-IsTransferred naturals naturals-IsExact burn_message inscribed
      inscribed-IsBooked admit_burn.burn_room

execute-DoesItsPart_example :
    ((e : Brc20Error) × (execute naturals burn_message inscribed
        ≡ ran inscribed (ok (receipt_of naturals burn_message (err e)))))
    ⊎ ((c' : Context) × (event : Event) × (execute naturals burn_message inscribed
          ≡ ran c' (ok (receipt_of naturals burn_message (ok event))))
        × DoesItsPart naturals burn_message burn_message.op inscribed c')
execute-DoesItsPart_example =
    execute-DoesItsPart naturals naturals-IsExact burn_message inscribed inscribed-IsBooked
      admit_burn

abbrev point : ℕ → SatPoint
point n = record { outpoint = (0, 0); offset = n }

abbrev outputs : Outputs
outputs = record {
  number_of = some;
  cached = λ o. none;
  stored = λ o. some 1;
  from_script = address;
}

abbrev resolved_mint : Message
resolved_mint = record {
  txid = 20;
  sequence_number = 2;
  inscription_id = 2;
  old_satpoint = point 2;
  new_satpoint = some (point 20);
  op = Operation.mint mint_600 none;
  sat_in_outputs = true;
}

completes : from_message outputs resolved_mint ≡ some mint_message
unfolding from_message
completes = refl

mint-AreAdmissible : AreAdmissible naturals outputs (resolved_mint ∷ []) deployed
unfolding AreAdmissible
mint-AreAdmissible =
    (mint_message, completes, admit_without_log mint_message deployed refl, λ c' receipt runs. tt)

execute_message-IsBooked_example :
    (c' : Context) × (receipts : List Receipt) × (execute_message naturals outputs 20
        (resolved_mint ∷ [])
        deployed
      ≡ indexed c' tt)
    × (lookup 20 c'.events ≡ some receipts)
    × (length receipts ≡ 1)
    × IsBooked naturals c'
execute_message-IsBooked_example =
    execute_message-IsBooked naturals outputs naturals-IsExact 20 (resolved_mint ∷ []) deployed
      deployed-IsBooked mint-AreAdmissible

-- Texts that hold no operation.
abbrev no_texts : Texts
no_texts = record {
  Json = Unit;
  from_utf8 = some;
  json_from_str = λ s. none;
  has_protocol = λ j. false;
  from_value = λ j. none;
  to_string = λ n. n ∷ [];
}

abbrev spend_log : InscriptionOp
spend_log = record {
  txid = 40;
  action = Action.transfer;
  sequence_number = 3;
  inscription_number = some 3;
  inscription_id = 3;
  old_satpoint = point 30;
  new_satpoint = some (point 40);
}

resolves :
    resolve_message no_texts true inscribed ((0, 0) ∷ []) (spend_log ∷ [])
    ≡ record {
      txid = 40;
      sequence_number = 3;
      inscription_id = 3;
      old_satpoint = point 30;
      new_satpoint = some (point 40);
      op = Operation.transfer (record { tick = ordi; amount = 250 ∷ [] });
      sat_in_outputs = false;
    }
      ∷ []
unfolding resolve_message resolve_input resolve operation_by get_transferable_assets_by_outpoint
    lookup
resolves = refl

resolve_message-IsBacked_example :
    All
      (BackedMessage inscribed.satpoint_to_assets)
      (resolve_message no_texts true inscribed ((0, 0) ∷ []) (spend_log ∷ []))
resolve_message-IsBacked_example =
    resolve_message-IsBacked no_texts true inscribed ((0, 0) ∷ []) (spend_log ∷ [])
