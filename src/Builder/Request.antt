-- ===== src/Builder/Request.antt =====
-- A request to send a sat, and what the theorems ask of it, of the wallet and of the sizes.
use okx_ord.Common.{ℕ, suc, ◌+◌, ◌≤◌, ◌≡◌, List, [], ◌∷◌, ◌++◌, some, false, ◌==◌, All, length}
use okx_ord.Common.Dict.{Dict, lookup}
use okx_ord.Common.Outcome.{u64_max}
use okx_ord.Builder.FeeRate.{fee, IsWhole}
use okx_ord.Builder.State.{SatPoint, Sizes, Target, TransactionBuilder, new_builder, keys}
use okx_ord.Builder.Build.{count}
use okx_ord.Builder.Steps.{
  additional_input_vbytes, additional_output_vbytes, max_postage, target_postage, min_value,
}
use okx_ord.Builder.Counts.{worth}

-- What `TransactionBuilder::new` is given.
pub record Request : Type 0 where
  pub outgoing : SatPoint
  pub inscriptions : List (SatPoint × ℕ)
  pub amounts : Dict ℕ
  pub locked_utxos : List ℕ
  pub runic_utxos : List ℕ
  pub recipient : ℕ
  pub first : ℕ
  pub second : ℕ
  pub target : Target

abbrev pub order : Request → TransactionBuilder
order q =
    new_builder q.outgoing q.inscriptions q.amounts q.locked_utxos q.runic_utxos q.recipient q.first
      q.second q.target

-- What the theorems ask of a request: the outpoints of a wallet are different, and 252 at most, which
-- is as far as the number of inputs takes one byte; together with the allowances that the code adds up
-- the wallet is worth a u64 at most; so are the places of the inscriptions; and the outgoing output is
-- not worth 0.
pub record IsWallet (sizes : Sizes) (q : Request) : Type 0 where
  pub once : (u : ℕ) → count u (keys q.amounts) ≤ 1
  pub few : length (keys q.amounts) ≤ 252
  pub fits :
      worth q.amounts (keys q.amounts) + max_postage + fee sizes.rate additional_output_vbytes
      ≤ u64_max
  pub filled : (a : ℕ) → lookup q.outgoing.outpoint q.amounts ≡ some a → 1 ≤ a
  pub places : All (λ (i : SatPoint × ℕ). i.0.offset + target_postage ≤ u64_max) q.inscriptions

-- What the theorems ask of the sizes: the rate is a whole number of sats for a virtual byte, since at
-- other rates the rounding of fees takes a sat that the code does not count on; among 252 inputs and 252
-- outputs at most, one more input or output to a change address takes no more than the code allows
-- for it; and the least values of outputs are positive, at most the postage, and the same for both
-- change addresses.
pub record IsRegular (sizes : Sizes) (q : Request) : Type 0 where
  pub whole : IsWhole sizes.rate
  pub more_inputs :
      (n : ℕ) (outs : List ℕ)
      → 1 ≤ n
      → suc n ≤ 252
      → length outs ≤ 252
      → sizes.vsize (suc n) outs ≤ sizes.vsize n outs + additional_input_vbytes
  pub first_output :
      (n : ℕ) (outs : List ℕ)
      → 1 ≤ n
      → n ≤ 252
      → length outs + 1 ≤ 252
      → sizes.vsize n (outs ++ q.first ∷ []) ≤ sizes.vsize n outs + additional_output_vbytes
  pub second_output :
      (n : ℕ) (outs : List ℕ)
      → 1 ≤ n
      → n ≤ 252
      → length outs + 1 ≤ 252
      → sizes.vsize n (outs ++ q.second ∷ []) ≤ sizes.vsize n outs + additional_output_vbytes
  pub dust_positive : (a : ℕ) → 1 ≤ sizes.dust_value a
  pub dust_small : (a : ℕ) → sizes.dust_value a ≤ target_postage
  pub dust_same : sizes.dust_value q.first ≡ sizes.dust_value q.second

-- What `build_transaction` finds out first: the addresses differ, and the least value for the recipient
-- is no dust.
pub record IsChecked (sizes : Sizes) (q : Request) : Type 0 where
  pub different : (q.first == q.second) ≡ false
  pub not_first : (q.recipient == q.first) ≡ false
  pub not_second : (q.recipient == q.second) ≡ false
  pub no_dust : sizes.dust_value q.recipient ≤ min_value sizes q.target q.recipient
