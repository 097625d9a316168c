-- ===== src/Brc20/Store.antt =====
-- The BRC-20 tables of `Context` and their access: src/okx/datastore/brc20/redb/ and the methods of
-- src/okx/protocol/context.rs that pass on to it.
pub mod Pairs
use okx_ord.Common.{
  ℕ, List, [], ◌∷◌, Option, none, some, Bool, true, false, ◌==◌, ◌&&◌, not, if◌then◌else◌,
}
use okx_ord.Common.Dict.{Dict, lookup, insert, remove}
use okx_ord.Brc20.External.{External, ScriptKey}
use okx_ord.Brc20.Types.{
  Tick, Balance, TokenInfo, TransferableLog, Brc20Error, Receipt, Result, ok, err,
}
use okx_ord.Brc20.Store.Pairs.{PairDict, is_key, lookup_pair, insert_pair_key}

-- The tables by the name of what they hold. `address_to_assets` is the multimap from an owner and a
-- tick to satpoints. The chain's activation height of self issuance stands for the chain.
pub record Context : Type 0 where
  pub blockheight : ℕ
  pub blocktime : ℕ
  pub self_issuance_activation_height : ℕ
  pub balances : PairDict Balance
  pub tokens : Dict TokenInfo
  pub satpoint_to_assets : Dict TransferableLog
  pub address_to_assets : List ((ℕ × ℕ) × ℕ)
  pub events : Dict (List Receipt)
  pub brc20_inscriptions : List ℕ

-- A run on the context: it panics, or leaves a context and a result. An error keeps what was
-- written before it.
pub data Ran {ℓ} (A : Type ℓ) : Type ℓ where
  ran : Context → Result A → Ran A
  panicked : Ran A

abbrev pub Exec {ℓ} : Type ℓ → Type ℓ
Exec A = Context → Ran A

abbrev pub after {ℓ κ} : {A : Type ℓ} {B : Type κ} → Ran A → (A → Exec B) → Ran B
after panicked f = panicked
after (ran c (ok a)) f = f a c
after (ran c (err e)) f = ran c (err e)

infixl 5 ◌>>=◌ ◌>>◌
abbrev pub ◌>>=◌ {ℓ κ} : {A : Type ℓ} {B : Type κ} → Exec A → (A → Exec B) → Exec B
◌>>=◌ m f c = after (m c) f

abbrev pub ◌>>◌ {ℓ} : {B : Type ℓ} → Exec (Unit {0}) → Exec B → Exec B
m >> k = m >>= λ _. k

abbrev pub done {ℓ} : {A : Type ℓ} → A → Exec A
done a c = ran c (ok a)

-- A computation that does not write.
abbrev pub reading {ℓ} : {A : Type ℓ} → (Context → Result A) → Exec A
reading f c = ran c (f c)

abbrev pub lift {ℓ} : {A : Type ℓ} → Result A → Exec A
lift r c = ran c r

-- The texts of equal owners and equal satpoints, for the multimap.
unfoldable pub remove_asset : (ℕ × ℕ) × ℕ → List ((ℕ × ℕ) × ℕ) → List ((ℕ × ℕ) × ℕ)
remove_asset a [] = []
remove_asset a (b ∷ bs) =
    let rest = remove_asset a bs in if is_key a.0 b.0 && a.1 == b.1 then rest else b ∷ rest

-- `save_transaction_receipts`
abbrev pub save_transaction_receipts : ℕ → List Receipt → Context → Context
save_transaction_receipts txid receipts c = record c { events = insert txid receipts c.events }

module _ (x : External) where
  -- `tick.to_lowercase().hex()`
  abbrev pub tick_key : Tick → ℕ
  tick_key tick = x.hex (x.to_lowercase tick)

  -- `script_tick_key`, as the pair of its two parts.
  abbrev pub script_tick_key : ScriptKey → Tick → ℕ × ℕ
  script_tick_key script tick = (x.script_text script, tick_key tick)

  abbrev pub get_balance : Context → ScriptKey → Tick → Option Balance
  get_balance c script tick = lookup_pair (script_tick_key script tick) c.balances

  abbrev pub get_token_info : Context → Tick → Option TokenInfo
  get_token_info c tick = lookup (tick_key tick) c.tokens

  abbrev pub get_transferable_assets_by_satpoint : Context → ℕ → Option TransferableLog
  get_transferable_assets_by_satpoint c satpoint = lookup satpoint c.satpoint_to_assets

  unfoldable pub update_token_balance : ScriptKey → Balance → Exec (Unit {0})
  update_token_balance script new_balance c = done tt (record c {
    balances = insert_pair_key (script_tick_key script new_balance.tick) new_balance c.balances;
  })

  unfoldable pub insert_token_info : Tick → TokenInfo → Exec (Unit {0})
  insert_token_info tick new_info c =
      done tt (record c { tokens = insert (tick_key tick) new_info c.tokens })

  -- Both updates panic on a token that is not there.
  unfoldable pub update_mint_token_info : Tick → ℕ → ℕ → Exec (Unit {0})
  update_mint_token_info tick minted_amt minted_block_number c = elim (get_token_info c tick) [
    | none ↦ panicked
    | some info ↦ done tt (record c {
      tokens =
          insert (tick_key tick)
            (record info { minted = minted_amt; latest_mint_number = minted_block_number })
            c.tokens;
    })
  ]

  unfoldable pub update_burned_token_info : Tick → ℕ → Exec (Unit {0})
  update_burned_token_info tick burned_amt c = elim (get_token_info c tick) [
    | none ↦ panicked
    | some info ↦ done tt (record c {
      tokens = insert (tick_key tick) (record info { burned_supply = burned_amt }) c.tokens;
    })
  ]

  unfoldable pub insert_transferable_asset : ℕ → TransferableLog → Exec (Unit {0})
  insert_transferable_asset satpoint asset c =
      let key = script_tick_key asset.owner asset.tick in
      done tt (record c {
        satpoint_to_assets = insert satpoint asset c.satpoint_to_assets;
        address_to_assets = (key, satpoint) ∷ remove_asset (key, satpoint) c.address_to_assets;
      })

  unfoldable pub remove_transferable_asset : ℕ → Exec (Unit {0})
  unfolding remove_asset
  remove_transferable_asset satpoint c = elim (lookup satpoint c.satpoint_to_assets) [
    | none ↦ done tt c
    | some asset ↦ done tt (record c {
      satpoint_to_assets = remove satpoint c.satpoint_to_assets;
      address_to_assets =
          remove_asset (script_tick_key asset.owner asset.tick, satpoint) c.address_to_assets;
    })
  ]
