-- ===== src/Brc20/Books/Credits.antt =====
-- The part of a mint and of a transfer that adds an amount to a balance.
use okx_ord.Common.{ℕ, ◌+◌, ◌≤◌, ◌≡◌, refl, sym, unwrap_or}
use okx_ord.Common.Outcome.{u128_max}
use okx_ord.Brc20.External.{External, IsExact, ScriptKey}
use okx_ord.Brc20.Types.{Tick, Balance, ok, new_balance}
use okx_ord.Brc20.Exact.{sum_u128-fits}
use okx_ord.Brc20.Store.{Context, ran, tick_key, script_tick_key, get_balance, update_token_balance}
use okx_ord.Brc20.Store.Pairs.{insert_pair_key}
use okx_ord.Brc20.Execute.{credit}

abbrev pub credited_balance : Balance → ℕ → Balance
credited_balance b n = record b { overall_balance = b.overall_balance + n }

module _ (x : External) (exact : IsExact x) where
  pub credit-runs :
      (to : ScriptKey) (tick : Tick) (a : x.BigDecimal) (n : ℕ) (c : Context) (b : Balance)
      → b ≡ unwrap_or (get_balance x c to tick) (new_balance tick)
      → exact.IsNat a n
      → tick_key x b.tick ≡ tick_key x tick
      → b.overall_balance + n ≤ u128_max
      → credit x to tick a c
        ≡ ran
            (record c {
              balances =
                  insert_pair_key (script_tick_key x to tick) (credited_balance b n) c.balances;
            })
            (ok tt)
  unfolding credit update_token_balance
  credit-runs to tick a n c b is_b is_n same fits =
      rw
        (
          sym is_b,
          sum_u128-fits x exact b.overall_balance n (exact.from_nat_nat b.overall_balance) is_n
              fits,
          same,
        )
        refl
