-- ===== src/Ordinals/Sat.antt =====
-- src/sat.rs, with the `Degree`, the `DecimalSat` and the `Rarity` of a sat.
use okx_ord.Common.{ℕ, ◌/◌, Option, none, some, Bool, ltb, leb, ◌==◌, not, ◌&&◌, if◌then◌else◌}
use okx_ord.Common.Outcome.{
  Outcome, done, ◌>>=◌, add_checked, sub_checked, mul_checked, div_checked, rem_checked, unwrap,
  try_from, u32_max, u64_max,
}
use okx_ord.Ordinals.Constants.{Constants}
use okx_ord.Ordinals.Epoch.{
  epoch_of_sat, epoch_starting_sat, starting_height, epoch_subsidy, height_starting_sat,
  height_subsidy,
}

-- `Sat::epoch_position`
unfoldable pub epoch_position : Bool → ℕ → Outcome ℕ
epoch_position checks sat = sub_checked checks u64_max sat (epoch_starting_sat (epoch_of_sat sat))

-- `Sat::height`
unfoldable pub height_of_sat : Bool → Constants → ℕ → Outcome ℕ
unfolding epoch_position
height_of_sat checks c sat = do
  start ← starting_height checks c (epoch_of_sat sat)
  position ← epoch_position checks sat
  subsidy ← epoch_subsidy checks c (epoch_of_sat sat)
  blocks ← div_checked position subsidy
  blocks' ← unwrap (try_from u32_max blocks)
  add_checked checks u32_max start blocks'

abbrev pub cycle_epochs : ℕ
cycle_epochs = 6

-- `Sat::cycle`
abbrev pub cycle : ℕ → ℕ
cycle sat = epoch_of_sat sat / cycle_epochs

-- `Sat::nineball`
unfoldable pub nineball : Bool → Constants → ℕ → Outcome Bool
nineball checks c sat = do
  reward ← mul_checked checks u64_max 50 c.coin_value
  low ← mul_checked checks u64_max reward 9
  high ← mul_checked checks u64_max reward 10
  done (leb low sat && ltb sat high)

-- `Sat::period`
unfoldable pub period : Bool → Constants → ℕ → Outcome ℕ
unfolding height_of_sat
period checks c sat = do
  height ← height_of_sat checks c sat
  div_checked height c.diffchange_interval

-- `Sat::third`
unfoldable pub third_of_sat : Bool → Constants → ℕ → Outcome ℕ
unfolding epoch_position
third_of_sat checks c sat = do
  position ← epoch_position checks sat
  subsidy ← epoch_subsidy checks c (epoch_of_sat sat)
  rem_checked position subsidy

-- `Sat::common`
unfoldable pub is_common : Bool → Constants → ℕ → Outcome Bool
is_common checks c sat = do
  position ← sub_checked checks u64_max sat (epoch_starting_sat (epoch_of_sat sat))
  subsidy ← epoch_subsidy checks c (epoch_of_sat sat)
  rest ← rem_checked position subsidy
  done (not (rest == 0))

-- `Sat::coin`
unfoldable pub coin : Constants → ℕ → Outcome Bool
coin c sat = do rest ← rem_checked sat c.coin_value; done (rest == 0)

pub record Degree : Type 0 where
  pub hour : ℕ
  pub minute : ℕ
  pub second : ℕ
  pub third : ℕ

-- `From<Sat> for Degree`
unfoldable pub degree : Bool → Constants → ℕ → Outcome Degree
unfolding height_of_sat third_of_sat
degree checks c sat = do
  height ← height_of_sat checks c sat
  blocks ← mul_checked checks u32_max cycle_epochs c.subsidy_halving_interval
  hour ← div_checked height blocks
  minute ← rem_checked height c.subsidy_halving_interval
  second ← rem_checked height c.diffchange_interval
  third ← third_of_sat checks c sat
  done (record { hour = hour; minute = minute; second = second; third = third })

pub record DecimalSat : Type 0 where
  pub height : ℕ
  pub offset : ℕ

-- `From<Sat> for DecimalSat`
unfoldable pub decimal : Bool → Constants → ℕ → Outcome DecimalSat
unfolding height_of_sat third_of_sat
decimal checks c sat = do
  height ← height_of_sat checks c sat
  offset ← third_of_sat checks c sat
  done (record { height = height; offset = offset })

-- `Sat::from_decimal` on the numbers that it parses: `none` for an offset out of the block.
unfoldable pub from_decimal : Bool → Constants → DecimalSat → Outcome (Option ℕ)
from_decimal checks c d = do
  subsidy ← height_subsidy checks c d.height
  if leb subsidy d.offset then done none else (do
    start ← height_starting_sat checks c d.height
    sat ← add_checked checks u64_max start d.offset
    done (some sat))

pub data Rarity : Type 0 where
  common : Rarity
  uncommon : Rarity
  rare : Rarity
  epic : Rarity
  legendary : Rarity
  mythic : Rarity

unfoldable pub rarity_of_degree : Degree → Rarity
rarity_of_degree d =
    if d.hour == 0 && d.minute == 0 && d.second == 0 && d.third == 0
    then Rarity.mythic
    else if d.minute == 0 && d.second == 0 && d.third == 0
    then Rarity.legendary
    else if d.minute == 0 && d.third == 0
    then Rarity.epic
    else if d.second == 0 && d.third == 0
    then Rarity.rare
    else if d.third == 0
    then Rarity.uncommon
    else Rarity.common

-- `From<Sat> for Rarity`
unfoldable pub rarity : Bool → Constants → ℕ → Outcome Rarity
unfolding degree rarity_of_degree
rarity checks c sat = do d ← degree checks c sat; done (rarity_of_degree d)
