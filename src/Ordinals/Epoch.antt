-- ===== src/Ordinals/Epoch.antt =====
-- src/epoch.rs and src/height.rs. An `Epoch`, a `Height` and a `Sat` stand as the number that they
-- wrap.
use okx_ord.Common.{
  ℕ, ◌+◌, ◌/◌, ◌^◌, List, [], ◌∷◌, Bool, ltb, if◌then◌else◌, unwrap_or, get_elem?, drop,
}
use okx_ord.Common.Outcome.{
  Outcome, done, ◌>>=◌, add_checked, sub_checked, mul_checked, div_checked, rem_checked, u32_max,
  u64_max,
}
use okx_ord.Ordinals.Constants.{Constants}

-- `Sat::SUPPLY`
abbrev pub supply : ℕ
supply = 2099999997690000

abbrev pub starting_sats : List ℕ
starting_sats =
    0 ∷ 1050000000000000 ∷ 1575000000000000 ∷ 1837500000000000 ∷ 1968750000000000 ∷ 2034375000000000
    ∷ 2067187500000000 ∷ 2083593750000000 ∷ 2091796875000000 ∷ 2095898437500000 ∷ 2097949218750000
    ∷ 2098974609270000 ∷ 2099487304530000 ∷ 2099743652160000 ∷ 2099871825870000 ∷ 2099935912620000
    ∷ 2099967955890000 ∷ 2099983977420000 ∷ 2099991988080000 ∷ 2099995993410000 ∷ 2099997995970000
    ∷ 2099998997250000 ∷ 2099999497890000 ∷ 2099999748210000 ∷ 2099999873370000 ∷ 2099999935950000
    ∷ 2099999967240000 ∷ 2099999982780000 ∷ 2099999990550000 ∷ 2099999994330000 ∷ 2099999996220000
    ∷ 2099999997060000 ∷ 2099999997480000 ∷ supply ∷ []

abbrev pub first_post_subsidy : ℕ
first_post_subsidy = 33

-- `Epoch::subsidy`
unfoldable pub epoch_subsidy : Bool → Constants → ℕ → Outcome ℕ
epoch_subsidy checks c epoch =
    if ltb epoch first_post_subsidy
    then (do reward ← mul_checked checks u64_max 50 c.coin_value; done (reward / 2 ^ epoch))
    else done 0

-- `Epoch::starting_sat`: the last entry stands for every later epoch.
unfoldable pub epoch_starting_sat : ℕ → ℕ
epoch_starting_sat epoch = unwrap_or (get_elem? starting_sats epoch) supply

-- `Epoch::starting_height`
unfoldable pub starting_height : Bool → Constants → ℕ → Outcome ℕ
starting_height checks c epoch = mul_checked checks u32_max epoch c.subsidy_halving_interval

-- The chain of conditions in `From<Sat> for Epoch`: the first epoch whose successor starts after the sat, or the last epoch.
unfoldable pub epoch_from : ℕ → ℕ → List ℕ → ℕ
epoch_from sat epoch [] = epoch
epoch_from sat epoch (start ∷ starts) =
    let later = epoch_from sat (epoch + 1) starts in if ltb sat start then epoch else later

-- `From<Height> for Epoch`
unfoldable pub epoch_of_height : Constants → ℕ → Outcome ℕ
epoch_of_height c height = div_checked height c.subsidy_halving_interval

-- `From<Sat> for Epoch`, on the starts of the epochs 1 to 33.
unfoldable pub epoch_of_sat : ℕ → ℕ
unfolding epoch_from
epoch_of_sat sat = epoch_from sat 0 (drop 1 starting_sats)

-- `Height::subsidy`
unfoldable pub height_subsidy : Bool → Constants → ℕ → Outcome ℕ
height_subsidy checks c height = do epoch ← epoch_of_height c height; epoch_subsidy checks c epoch

-- `Height::starting_sat`
unfoldable pub height_starting_sat : Bool → Constants → ℕ → Outcome ℕ
height_starting_sat checks c height = do
  epoch ← epoch_of_height c height
  start ← starting_height checks c epoch
  blocks ← sub_checked checks u32_max height start
  subsidy ← epoch_subsidy checks c epoch
  sats ← mul_checked checks u64_max blocks subsidy
  add_checked checks u64_max (epoch_starting_sat epoch) sats

-- `Height::period_offset`
unfoldable pub period_offset : Constants → ℕ → Outcome ℕ
period_offset c height = rem_checked height c.diffchange_interval
