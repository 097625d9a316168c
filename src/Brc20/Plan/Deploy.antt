-- ===== src/Brc20/Plan/Deploy.antt =====
-- `process_deploy` up to its write.
use okx_ord.Common.{
  ℕ, List, [], ◌∷◌, Option, none, some, Bool, true, false, ltb, ◌==◌, ◌&&◌, ◌||◌, not,
  if◌then◌else◌, unwrap_or,
}
use okx_ord.Brc20.External.{External}
use okx_ord.Brc20.Types.{
  Tick, TokenInfo, Deploy, ExecutionMessage, Result, ok, err, ◌>>=◌, ◌>>◌, ok_or, fail_if,
  tick_from_str, is_self_issuance, inscribe_to_coinbase, self_issuance_not_activated,
  self_issuance_checked_failed, duplicate_tick, decimals_too_large, invalid_supply,
  mint_limit_out_of_range,
}
use okx_ord.Brc20.Num.{
  num_from_str, checked_to_u8, checked_to_u128, checked_powu, checked_mul, bigdecimal_ten,
  maximum_supply, max_decimal_width,
}
use okx_ord.Brc20.Store.{Context, get_token_info}

-- The texts of `u64::MIN`, `u64::MAX` and `MAX_DECIMAL_WIDTH`.
abbrev pub text_zero : List ℕ
text_zero = 48 ∷ []

abbrev pub text_u64_max : List ℕ
text_u64_max =
    49 ∷ 56 ∷ 52 ∷ 52 ∷ 54 ∷ 55 ∷ 52 ∷ 52 ∷ 48 ∷ 55 ∷ 51 ∷ 55 ∷ 48 ∷ 57 ∷ 53 ∷ 53 ∷ 49 ∷ 54 ∷ 49
    ∷ 53 ∷ []

abbrev pub text_18 : List ℕ
text_18 = 49 ∷ 56 ∷ []

unfoldable pub same_text : List ℕ → List ℕ → Bool
same_text [] [] = true
same_text [] (d ∷ ds) = false
same_text (c ∷ cs) [] = false
same_text (c ∷ cs) (d ∷ ds) = c == d && same_text cs ds

-- The rules for a tick of five bytes: the maximal supply to take, and whether the mint is the
-- deployer's own.
unfoldable pub self_issuance : Context → Tick → Deploy → Result (List ℕ × Bool)
unfolding same_text
self_issuance c tick deploy =
    if is_self_issuance tick
    then (do
      fail_if (ltb c.blockheight c.self_issuance_activation_height) self_issuance_not_activated
      fail_if (not (unwrap_or deploy.self_mint false)) self_issuance_checked_failed
      ok (if same_text deploy.max_supply text_zero then text_u64_max else deploy.max_supply, true))
    else ok (deploy.max_supply, false)

-- `if let Some(stored_tick_info) = context.get_token_info(&tick)`
abbrev pub fail_if_there : Option TokenInfo → Result (Unit {0})
fail_if_there none = ok tt
fail_if_there (some stored) = err (duplicate_tick stored.tick)

module _ (x : External) where
  -- The test of a supply and of a limit: not zero, not above the maximum, not too many decimals.
  abbrev pub is_out_of_range : x.BigDecimal → ℕ → Bool
  is_out_of_range a dec = x.is_no_sign a || x.lt (maximum_supply x) a || x.scale_above a dec

  -- The decimals, and the supply and the limit in units.
  unfoldable pub deploy_numbers : Tick → Deploy → List ℕ → Result (ℕ × ℕ × ℕ)
  deploy_numbers tick deploy max_supply = do
    decimals ← num_from_str x (unwrap_or deploy.decimals text_18)
    dec ← checked_to_u8 x decimals
    fail_if (ltb max_decimal_width dec) (decimals_too_large dec)
    base ← checked_powu x (bigdecimal_ten x) dec
    supply ← num_from_str x max_supply
    fail_if (is_out_of_range supply dec) invalid_supply
    limit ← num_from_str x (unwrap_or deploy.mint_limit max_supply)
    fail_if (is_out_of_range limit dec) (mint_limit_out_of_range (x.to_lowercase tick))
    supply' ← checked_mul x supply base
    supply'' ← checked_to_u128 x supply'
    limit' ← checked_mul x limit base
    limit'' ← checked_to_u128 x limit'
    ok (dec, supply'', limit'')

  -- The token of a deploy message.
  unfoldable pub plan_deploy : ExecutionMessage → Deploy → Context → Result TokenInfo
  unfolding self_issuance deploy_numbers
  plan_deploy msg deploy c = do
    to ← ok_or msg.to inscribe_to_coinbase
    tick ← tick_from_str deploy.tick
    (max_supply, is_self_mint) ← self_issuance c tick deploy
    fail_if_there (get_token_info x c tick)
    (dec, supply, limit) ← deploy_numbers tick deploy max_supply
    ok (record {
      tick = tick;
      inscription_id = msg.inscription_id;
      inscription_number = msg.inscription_number;
      supply = supply;
      burned_supply = 0;
      minted = 0;
      limit_per_mint = limit;
      decimal = dec;
      deploy_by = to;
      is_self_mint = is_self_mint;
      deployed_number = c.blockheight;
      deployed_timestamp = c.blocktime;
      latest_mint_number = c.blockheight;
    })
