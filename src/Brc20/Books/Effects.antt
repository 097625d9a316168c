-- ===== src/Brc20/Books/Effects.antt =====
-- The abstract view of the operations: what each of them does to the books when it succeeds.
use okx_ord.Common.{ℕ, ◌+◌, ◌≤◌, ◌≡◌, none, some, ◌==◌, ◌&&◌, if◌then◌else◌, unwrap_or}
use okx_ord.Common.Dict.{lookup, insert, remove}
use okx_ord.Brc20.External.{External}
use okx_ord.Brc20.Types.{TokenInfo, TransferableLog, ExecutionMessage}
use okx_ord.Brc20.Num.{max_decimal_width}
use okx_ord.Brc20.Store.{Context, tick_key, script_tick_key}
use okx_ord.Brc20.Store.Pairs.{is_key, measure_at}
use okx_ord.Brc20.Execute.{is_op_return}
use okx_ord.Brc20.Books.{overall, transferable, minted_of, burned_of, IsBooked}

module _ (x : External) where
  -- A deploy enters a token of which nothing is minted, under a key that was free.
  pub record IsDeployed (c c' : Context) : Type 0 where
    pub booked : IsBooked x c'
    pub info : TokenInfo
    pub free : lookup (tick_key x info.tick) c.tokens ≡ none
    pub entered : c'.tokens ≡ insert (tick_key x info.tick) info c.tokens
    pub unminted : info.minted ≡ 0
    pub narrow : info.decimal ≤ max_decimal_width
    pub balances : c'.balances ≡ c.balances

  -- A mint adds an amount to one balance and to what is minted of the tick.
  pub record IsMinted (c c' : Context) : Type 0 where
    pub booked : IsBooked x c'
    pub key : ℕ × ℕ
    pub amount : ℕ
    pub credited :
        (k : ℕ × ℕ)
        → measure_at overall k c'.balances
          ≡ measure_at overall k c.balances + (if is_key k key then amount else 0)
    pub minted :
        (t : ℕ) → minted_of t c'.tokens ≡ minted_of t c.tokens + (if t == key.1 then amount else 0)

  -- The inscription of a transfer makes an amount of one balance transferable, and no more.
  pub record IsInscribed (c c' : Context) : Type 0 where
    pub booked : IsBooked x c'
    pub key : ℕ × ℕ
    pub amount : ℕ
    pub reserved :
        (k : ℕ × ℕ)
        → measure_at transferable k c'.balances
          ≡ measure_at transferable k c.balances + (if is_key k key then amount else 0)
    pub overall_same :
        (k : ℕ × ℕ) → measure_at overall k c'.balances ≡ measure_at overall k c.balances
    pub tokens_same : c'.tokens ≡ c.tokens

  -- A transfer spends the log at the old satpoint: it moves its amount from the sender's overall
  -- and transferable balances to the receiver's overall balance, within one tick, and it adds the
  -- amount to what is burned of the tick if the receiver is an OP_RETURN.
  pub record IsTransferred (msg : ExecutionMessage) (c c' : Context) : Type 0 where
    pub booked : IsBooked x c'
    pub asset : TransferableLog
    pub spent : lookup msg.old_satpoint c.satpoint_to_assets ≡ some asset
    pub logs : c'.satpoint_to_assets ≡ remove msg.old_satpoint c.satpoint_to_assets
    pub owner : asset.owner ≡ msg.from
    pub moved :
        (k : ℕ × ℕ)
        → measure_at overall k c'.balances
            + (if is_key k (script_tick_key x msg.from asset.tick) then asset.amount else 0)
          ≡ measure_at overall k c.balances
            + (if is_key k (script_tick_key x (unwrap_or msg.to msg.from) asset.tick)
                then asset.amount
                else 0)
    pub released :
        (k : ℕ × ℕ)
        → measure_at transferable k c'.balances
            + (if is_key k (script_tick_key x msg.from asset.tick) then asset.amount else 0)
          ≡ measure_at transferable k c.balances
    pub minted_same : (t : ℕ) → minted_of t c'.tokens ≡ minted_of t c.tokens
    pub burned :
        (t : ℕ)
        → burned_of t c'.tokens
          ≡ burned_of t c.tokens
            + (if is_op_return (unwrap_or msg.to msg.from) && t == tick_key x asset.tick
                then asset.amount
                else 0)
