-- ===== src/Brc20/Plan.antt =====
-- The parts of the handlers of src/okx/protocol/brc20/msg_executor.rs that read and check, before
-- the first write.
pub mod Deploy
pub mod Amount
use okx_ord.Common.{
  ℕ, ◌-◌, ◌+◌, Option, none, some, Bool, true, false, not, ltb, ◌==◌, ◌&&◌, ◌||◌, if◌then◌else◌,
  unwrap_or,
}
use okx_ord.Brc20.External.{External, ScriptKey}
use okx_ord.Brc20.Types.{
  Tick, TokenInfo, Balance, TransferableLog, Mint, Transfer, ExecutionMessage, Result, ok, err,
  ◌>>=◌, ◌>>◌, ok_or, fail_if, tick_from_str, new_balance, inscribe_to_coinbase, tick_not_found,
  self_mint_permission_denied, amount_overflow, invalid_zero_amount, amount_exceed_limit,
  tick_minted, insufficient_balance, transferable_not_found, transferable_owner_not_match,
}
use okx_ord.Brc20.Num.{num_from_str, checked_to_u128, checked_add, checked_sub, checked_mul}
use okx_ord.Brc20.Store.{Context, get_token_info, get_balance, get_transferable_assets_by_satpoint}
use okx_ord.Brc20.Plan.Amount.{parse_amount}

-- `tick_info.is_self_mint && !parent.is_some_and(|parent| parent == tick_info.inscription_id)`
abbrev pub is_denied : TokenInfo → Option ℕ → Bool
is_denied info none = info.is_self_mint
is_denied info (some parent) = info.is_self_mint && not (parent == info.inscription_id)

module _ (x : External) where
  open x use {BigDecimal}

  pub record MintPlan : Type 0 where
    pub to : ScriptKey
    pub tick : Tick
    pub info : TokenInfo
    pub amount : BigDecimal
    pub cut_off : Bool

  -- The amount of a mint, cut off where it exceeds the supply.
  unfoldable pub cut : BigDecimal → BigDecimal → BigDecimal → Result (BigDecimal × Bool)
  cut amount minted supply = do
    sum ← checked_add x amount minted
    if x.lt supply sum
        then (do left ← checked_sub x supply minted; ok (left, true))
        else ok (amount, false)

  -- The limits of a mint on the amount in units, and the cut.
  unfoldable pub limit_mint : TokenInfo → BigDecimal → Result (BigDecimal × Bool)
  unfolding cut
  limit_mint info amount = do
    fail_if (x.is_no_sign amount) invalid_zero_amount
    fail_if (x.lt (x.from_nat info.limit_per_mint) amount) amount_exceed_limit
    fail_if (x.ge (x.from_nat info.minted) (x.from_nat info.supply)) (tick_minted info.tick)
    cut amount (x.from_nat info.minted) (x.from_nat info.supply)

  -- `process_mint` up to the first write.
  unfoldable pub plan_mint : ExecutionMessage → Mint → Option ℕ → Context → Result MintPlan
  unfolding limit_mint
  plan_mint msg mint parent c = do
    to ← ok_or msg.to inscribe_to_coinbase
    tick ← tick_from_str mint.tick
    info ← ok_or (get_token_info x c tick) (tick_not_found tick)
    fail_if (is_denied info parent) self_mint_permission_denied
    amount ← parse_amount x mint.amount info.decimal
    (amount', cut_off) ← limit_mint info amount
    ok (record { to = to; tick = tick; info = info; amount = amount'; cut_off = cut_off })

  pub record InscribePlan : Type 0 where
    pub to : ScriptKey
    pub tick : Tick
    pub info : TokenInfo
    pub balance : Balance
    pub amount : ℕ

  -- The part of `process_inscribe_transfer` that checks the amount against the balance.
  unfoldable pub reserve : Balance → BigDecimal → Result (Balance × ℕ)
  reserve balance amount = do
    available ←
        checked_sub x (x.from_nat balance.overall_balance) (x.from_nat balance.transferable_balance)
    fail_if (x.lt available amount) insufficient_balance
    sum ← checked_add x (x.from_nat balance.transferable_balance) amount
    transferable ← checked_to_u128 x sum
    amount' ← checked_to_u128 x amount
    ok (record balance { transferable_balance = transferable }, amount')

  -- `process_inscribe_transfer` up to the first write.
  unfoldable pub plan_inscribe : ExecutionMessage → Transfer → Context → Result InscribePlan
  unfolding reserve
  plan_inscribe msg transfer c = do
    to ← ok_or msg.to inscribe_to_coinbase
    tick ← tick_from_str transfer.tick
    info ← ok_or (get_token_info x c tick) (tick_not_found tick)
    amount ← parse_amount x transfer.amount info.decimal
    fail_if (x.is_no_sign amount || x.lt (x.from_nat info.supply) amount) amount_overflow
    (balance, amount') ← reserve (unwrap_or (get_balance x c to tick) (new_balance tick)) amount
    ok (record { to = to; tick = tick; info = info; balance = balance; amount = amount' })

  pub record TransferPlan : Type 0 where
    pub asset : TransferableLog
    pub info : TokenInfo
    pub from_balance : Balance

  -- The sender's balance less the amount.
  unfoldable pub withdraw : Balance → BigDecimal → Result Balance
  withdraw balance amount = do
    overall ← checked_sub x (x.from_nat balance.overall_balance) amount
    overall' ← checked_to_u128 x overall
    transferable ← checked_sub x (x.from_nat balance.transferable_balance) amount
    transferable' ← checked_to_u128 x transferable
    ok (record balance { overall_balance = overall'; transferable_balance = transferable' })

  -- `process_transfer` up to the first write.
  unfoldable pub plan_transfer : ExecutionMessage → Context → Result TransferPlan
  unfolding withdraw
  plan_transfer msg c = do
    asset ←
        ok_or (get_transferable_assets_by_satpoint x c msg.old_satpoint)
          (transferable_not_found msg.inscription_id)
    fail_if (not (x.script_eq asset.owner msg.from))
        (transferable_owner_not_match msg.inscription_id)
    info ← ok_or (get_token_info x c asset.tick) (tick_not_found asset.tick)
    balance ←
        withdraw (unwrap_or (get_balance x c msg.from asset.tick) (new_balance asset.tick))
          (x.from_nat asset.amount)
    ok (record { asset = asset; info = info; from_balance = balance })
