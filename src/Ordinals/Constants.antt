-- ===== src/Ordinals/Constants.antt =====
-- The constants that the code takes from the `bitcoin` crate, and the crate's values for them.
use okx_ord.Common.{ℕ}

pub record Constants : Type 0 where
  pub coin_value : ℕ
  pub diffchange_interval : ℕ
  pub subsidy_halving_interval : ℕ

-- A coin of 10^8 satoshis, a difficulty change every 2016 blocks, a halving every 210000 blocks.
abbrev pub bitcoin : Constants
bitcoin = record {
  coin_value = 100000000;
  diffchange_interval = 2016;
  subsidy_halving_interval = 210000;
}
