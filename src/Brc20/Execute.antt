-- ===== src/Brc20/Execute.antt =====
-- The handlers of src/okx/protocol/brc20/msg_executor.rs, and `execute`.
use okx_ord.Common.{ℕ, Option, Bool, true, false, ◌||◌, not, is_some, unwrap_or}
use okx_ord.Brc20.External.{External, ScriptKey, address, script_hash}
use okx_ord.Brc20.Types.{
  Tick, TokenInfo, Deploy, Mint, Transfer, Operation, OperationType, ExecutionMessage, Event,
  Receipt, Result, ok, new_balance,
}
use okx_ord.Brc20.Num.{checked_to_u128}
use okx_ord.Brc20.Store.{
  Exec, Ran, ran, panicked, ◌>>=◌, ◌>>◌, done, reading, lift, get_balance, update_token_balance,
  insert_token_info, update_mint_token_info, update_burned_token_info, insert_transferable_asset,
  remove_transferable_asset,
}
use okx_ord.Brc20.Plan.{plan_mint, plan_inscribe, plan_transfer}
use okx_ord.Brc20.Plan.Deploy.{plan_deploy}
use okx_ord.Brc20.Plan.Amount.{sum_u128}

-- `ScriptKey::ScriptHash { is_op_return, .. } if is_op_return`
abbrev pub is_op_return : ScriptKey → Bool
is_op_return (address a) = false
is_op_return (script_hash hash op_return) = op_return

-- `op_type`
abbrev pub op_type : Operation → OperationType
op_type (Operation.deploy d) = OperationType.deploy
op_type (Operation.mint m parent) = OperationType.mint
op_type (Operation.inscribe_transfer t) = OperationType.inscribe_transfer
op_type (Operation.transfer t) = OperationType.transfer

module _ (x : External) where
  -- The part that a mint and a transfer share: an amount is added to the owner's overall balance.
  unfoldable pub credit : ScriptKey → Tick → x.BigDecimal → Exec (Unit {0})
  credit to tick amount = do
    balance ← reading λ c. ok (unwrap_or (get_balance x c to tick) (new_balance tick))
    overall ← lift (sum_u128 x (x.from_nat balance.overall_balance) amount)
    update_token_balance x to (record balance { overall_balance = overall })

  -- `process_deploy`
  unfoldable pub process_deploy : ExecutionMessage → Deploy → Exec Event
  process_deploy msg deploy = do
    info ← reading (plan_deploy x msg deploy)
    insert_token_info x info.tick info
    done (Event.deploy info.supply info.limit_per_mint info.decimal info.tick info.is_self_mint)

  -- `process_mint`
  unfoldable pub process_mint : ExecutionMessage → Mint → Option ℕ → Exec Event
  unfolding credit
  process_mint msg mint parent = do
    p ← reading (plan_mint x msg mint parent)
    credit p.to p.tick p.amount
    minted ← lift (sum_u128 x (x.from_nat p.info.minted) p.amount)
    height ← reading λ c. ok c.blockheight
    update_mint_token_info x p.tick minted height
    amount ← lift (checked_to_u128 x p.amount)
    done (Event.mint p.info.tick amount p.cut_off)

  -- `process_inscribe_transfer`
  unfoldable pub process_inscribe_transfer : ExecutionMessage → Transfer → Exec Event
  process_inscribe_transfer msg transfer = do
    p ← reading (plan_inscribe x msg transfer)
    update_token_balance x p.to p.balance
    insert_transferable_asset x msg.new_satpoint (record {
      inscription_id = msg.inscription_id;
      inscription_number = msg.inscription_number;
      amount = p.amount;
      tick = p.info.tick;
      owner = p.to;
    })
    done (Event.inscribe_transfer p.info.tick p.amount)

  -- The last part of `process_transfer`: a transfer to an OP_RETURN is burned.
  unfoldable pub burn_if : Bool → Tick → TokenInfo → x.BigDecimal → Exec (Unit {0})
  burn_if false tick info amount = done tt
  burn_if true tick info amount = do
    burned ← lift (sum_u128 x (x.from_nat info.burned_supply) amount)
    update_burned_token_info x tick burned

  -- `process_transfer`
  unfoldable pub process_transfer : ExecutionMessage → Exec Event
  unfolding credit burn_if
  process_transfer msg = do
    p ← reading (plan_transfer x msg)
    update_token_balance x msg.from p.from_balance
    let to = unwrap_or msg.to msg.from
    credit to p.asset.tick (x.from_nat p.asset.amount)
    remove_transferable_asset x msg.old_satpoint
    burn_if (is_op_return to) p.asset.tick p.info (x.from_nat p.asset.amount)
    amount ← lift (checked_to_u128 x (x.from_nat p.asset.amount))
    done (Event.transfer p.info.tick amount (not (is_some msg.to) || is_op_return to))

  -- The match of `execute` on the operation.
  unfoldable pub process : ExecutionMessage → Operation → Exec Event
  unfolding process_deploy process_mint process_inscribe_transfer process_transfer
  process msg (Operation.deploy deploy) = process_deploy msg deploy
  process msg (Operation.mint mint parent) = process_mint msg mint parent
  process msg (Operation.inscribe_transfer transfer) = process_inscribe_transfer msg transfer
  process msg (Operation.transfer transfer) = process_transfer msg

  abbrev pub receipt_of : ExecutionMessage → Result Event → Receipt
  receipt_of msg result = record {
    inscription_id = msg.inscription_id;
    inscription_number = msg.inscription_number;
    old_satpoint = msg.old_satpoint;
    new_satpoint = msg.new_satpoint;
    op = op_type msg.op;
    from = msg.from;
    to = unwrap_or msg.to msg.from;
    result = result;
  }

  -- A run whose error is a part of the receipt.
  abbrev pub with_receipt : ExecutionMessage → Ran Event → Ran Receipt
  with_receipt msg panicked = panicked
  with_receipt msg (ran c result) = ran c (ok (receipt_of msg result))

  -- `execute`
  unfoldable pub execute : ExecutionMessage → Exec Receipt
  unfolding process
  execute msg c = with_receipt msg (process msg msg.op c)
