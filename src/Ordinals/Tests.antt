-- ===== src/Ordinals/Tests.antt =====
-- Runs of the model of the ordinals, and examples of its theorems.
use okx_ord.Common.{ℕ, ◌<◌, ◌≡◌, refl, some, true, false, ◌==◌, arith}
use okx_ord.Common.Outcome.{done, add_checked, sub_checked, mul_checked, div_checked, rem_checked}
use okx_ord.Ordinals.Constants.{bitcoin}
use okx_ord.Ordinals.Epoch.{
  supply, epoch_of_sat, epoch_starting_sat, starting_height, epoch_subsidy,
}
use okx_ord.Ordinals.Sat.{decimal, from_decimal, DecimalSat, Rarity, rarity, is_common}
use okx_ord.Ordinals.Blocks.{from_decimal-decimal, decimal-from_decimal}
use okx_ord.Ordinals.Rarity.{is_common-rarity, rarity-is_mythic, is_mythic, is_common_rarity}

last_sat : rarity true bitcoin 2099999997689999 ≡ done Rarity.uncommon
unfolding rarity starting_height mul_checked epoch_of_sat sub_checked epoch_starting_sat
    epoch_subsidy div_checked add_checked rem_checked
last_sat = refl

from_decimal-decimal_example :
    (d : DecimalSat) × (decimal true bitcoin 1050000000000001 ≡ done d)
    × (from_decimal true bitcoin d ≡ done (some 1050000000000001))
from_decimal-decimal_example = from_decimal-decimal true bitcoin 1050000000000001 refl (omega arith)

decimal-from_decimal_example :
    (sat : ℕ) × (from_decimal false bitcoin (record { height = 210001; offset = 7 })
      ≡ done (some sat))
    × (decimal false bitcoin sat ≡ done (record { height = 210001; offset = 7 }))
    × (sat < supply)
decimal-from_decimal_example =
    decimal-from_decimal false bitcoin 210001 7 refl (omega arith) (omega arith)

is_common-rarity_example :
    (r : Rarity) × (rarity true bitcoin 5000000001 ≡ done r)
    × (is_common true bitcoin 5000000001 ≡ done (is_common_rarity r))
is_common-rarity_example = is_common-rarity true bitcoin 5000000001 refl (omega arith)

rarity-is_mythic_example :
    (r : Rarity) × (rarity true bitcoin 5000000000 ≡ done r) × (is_mythic r ≡ (5000000000 == 0))
rarity-is_mythic_example = rarity-is_mythic true bitcoin 5000000000 refl (omega arith)
