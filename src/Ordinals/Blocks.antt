-- ===== src/Ordinals/Blocks.antt =====
-- A sat and its place in a block.
use native.Mathlib.Nat.{
  div-add-mod, mul-add-div, div-eq_of_lt, mod-lt, div-lt_iff_lt-mul, mul-le-mul_right,
}
use okx_ord.Common.{
  ℕ, suc, ◌+◌, ◌-◌, ◌*◌, ◌/◌, ◌%◌, ◌<◌, ◌≡◌, refl, ◌∙◌, some, Bool, true, false, ltb, leb, ◌==◌,
  arith, ap,
}
use okx_ord.Common.Outcome.{
  done, add_checked_fits, sub_checked_fits, mul_checked_fits, div_checked, rem_checked, mul_checked,
  u32_max, u64_max,
}
use okx_ord.Ordinals.Constants.{Constants, bitcoin}
use okx_ord.Ordinals.Epoch.{
  supply, epoch_of_sat, epoch_starting_sat, starting_height, epoch_subsidy, height_starting_sat,
  height_subsidy, epoch_of_height,
}
use okx_ord.Ordinals.Sat.{
  epoch_position, height_of_sat, third_of_sat, decimal, DecimalSat, from_decimal,
}
use okx_ord.Ordinals.Chain.{reward, epoch_of_sat-InEpoch, epoch_of_sat_unique, epoch_end-le}

pub subsidy_lem :
    (checks : Bool) (epoch : ℕ)
    → epoch < 33
    → epoch_subsidy checks bitcoin epoch ≡ done (reward epoch)
unfolding epoch_subsidy mul_checked
subsidy_lem checks epoch h = let e : ltb epoch 33 ≡ true = ground arith in rw e refl

-- The sat at an offset into a block of an epoch.
pub record InBlock (sat epoch block offset : ℕ) : Type 0 where
  pub subsidised : epoch < 33
  pub in_epoch : block < 210000
  pub in_block : offset < reward epoch
  pub place : sat ≡ epoch_starting_sat epoch + (reward epoch * block + offset)

blocks-lt :
    (sat epoch block offset : ℕ)
    → InBlock sat epoch block offset
    → reward epoch * block + offset < 210000 * reward epoch
blocks-lt sat epoch block offset p =
    let le = mul-le-mul_right {m = suc block} {n = 210000} (reward epoch) p.in_epoch in
    omega (arith, p.in_block, le)

pub InBlock-epoch :
    (sat epoch block offset : ℕ) → InBlock sat epoch block offset → epoch_of_sat sat ≡ epoch
InBlock-epoch sat epoch block offset p =
    epoch_of_sat_unique sat epoch p.subsidised (omega (arith, p.place))
      (omega (arith, p.place, blocks-lt sat epoch block offset p))

pub split :
    (d block offset : ℕ)
    → offset < d
    → ((d * block + offset) / d ≡ block) × ((d * block + offset) % d ≡ offset) × ((d == 0) ≡ false)
split d block offset h =
    let e : (d * block + offset) / d ≡ block =
      mul-add-div (omega arith) block offset ∙ rw (div-eq_of_lt h) (omega arith) in
    (
      e,
      (let f = div-add-mod (d * block + offset) d in
          let g : d * block + (d * block + offset) % d ≡ d * block + offset = rw e at f in
          omega arith),
      ground arith,
    )

pub position_lem :
    (checks : Bool) (sat epoch block offset : ℕ)
    → InBlock sat epoch block offset
    → epoch_position checks sat ≡ done (reward epoch * block + offset)
unfolding epoch_position
position_lem checks sat epoch block offset p = rw (InBlock-epoch sat epoch block offset p) (
    sub_checked_fits checks u64_max sat (epoch_starting_sat epoch) (omega (arith, p.place))
    ∙ ap done (omega (arith, p.place)))

pub height_lem :
    (checks : Bool) (sat epoch block offset : ℕ)
    → InBlock sat epoch block offset
    → height_of_sat checks bitcoin sat ≡ done (epoch * 210000 + block)
unfolding height_of_sat starting_height div_checked
height_lem checks sat epoch block offset p =
    let (quotient, rest, nonzero) = split (reward epoch) block offset p.in_block in
    let fits : leb block u32_max ≡ true = (let h = p.in_epoch in ground arith) in
    rw
      (
        position_lem checks sat epoch block offset p,
        InBlock-epoch sat epoch block offset p,
        mul_checked_fits checks u32_max epoch 210000 (omega (arith, p.subsidised)),
        subsidy_lem checks epoch p.subsidised,
        nonzero,
        quotient,
        fits,
      )
      (add_checked_fits checks u32_max (epoch * 210000) block
        (omega (arith, p.subsidised, p.in_epoch)))

pub third_lem :
    (checks : Bool) (sat epoch block offset : ℕ)
    → InBlock sat epoch block offset
    → third_of_sat checks bitcoin sat ≡ done offset
unfolding third_of_sat rem_checked
third_lem checks sat epoch block offset p =
    let (quotient, rest, nonzero) = split (reward epoch) block offset p.in_block in
    rw
      (
        position_lem checks sat epoch block offset p,
        InBlock-epoch sat epoch block offset p,
        subsidy_lem checks epoch p.subsidised,
        nonzero,
        rest,
      )
      refl

epoch_of_height_lem :
    (epoch block : ℕ)
    → block < 210000
    → epoch_of_height bitcoin (epoch * 210000 + block) ≡ done epoch
unfolding epoch_of_height div_checked
epoch_of_height_lem epoch block h =
    let e : (epoch * 210000 + block) / 210000 ≡ epoch = omega (arith, h) in rw e refl

height_subsidy_lem :
    (checks : Bool) (epoch block : ℕ)
    → epoch < 33
    → block < 210000
    → height_subsidy checks bitcoin (epoch * 210000 + block) ≡ done (reward epoch)
unfolding height_subsidy
height_subsidy_lem checks epoch block h hb =
    rw (epoch_of_height_lem epoch block hb) (subsidy_lem checks epoch h)

start_lem :
    (checks : Bool) (sat epoch block offset : ℕ)
    → InBlock sat epoch block offset
    → height_starting_sat checks bitcoin (epoch * 210000 + block)
      ≡ done (epoch_starting_sat epoch + block * reward epoch)
unfolding height_starting_sat starting_height
start_lem checks sat epoch block offset p =
    let end = epoch_end-le epoch p.subsidised in
    let lt = blocks-lt sat epoch block offset p in
    let less : epoch * 210000 + block - epoch * 210000 ≡ block = omega arith in
    rw
      (
        epoch_of_height_lem epoch block p.in_epoch,
        mul_checked_fits checks u32_max epoch 210000 (omega (arith, p.subsidised)),
        sub_checked_fits checks u32_max (epoch * 210000 + block) (epoch * 210000) (omega arith),
        less,
        subsidy_lem checks epoch p.subsidised,
        mul_checked_fits checks u64_max block (reward epoch) (omega (arith, lt, end)),
      )
      (add_checked_fits checks u64_max (epoch_starting_sat epoch) (block * reward epoch)
        (omega (arith, lt, end)))

-- The block and the offset of a sat below the supply.
pub in_block :
    (sat : ℕ)
    → sat < supply
    → (block : ℕ) × (offset : ℕ) × InBlock sat (epoch_of_sat sat) block offset
in_block sat h =
    let e = epoch_of_sat sat in
    let p = epoch_of_sat-InEpoch sat h in
    let position = sat - epoch_starting_sat e in
    (
      position / reward e,
      position % reward e,
      record {
        subsidised = p.subsidised;
        in_epoch = (div-lt_iff_lt-mul p.pos).1 (omega (arith, p.from, p.to));
        in_block = mod-lt position p.pos;
        place = omega (arith, div-add-mod position (reward e), p.from);
      },
    )

from_decimal_lem :
    (checks : Bool) (sat epoch block offset : ℕ)
    → InBlock sat epoch block offset
    → from_decimal checks bitcoin (record { height = epoch * 210000 + block; offset = offset })
      ≡ done (some sat)
unfolding from_decimal
from_decimal_lem checks sat epoch block offset p =
    let small : leb (reward epoch) offset ≡ false = (let h = p.in_block in ground arith) in
    let same : epoch_starting_sat epoch + block * reward epoch + offset ≡ sat =
      omega (arith, p.place) in
    rw
      (
        height_subsidy_lem checks epoch block p.subsidised p.in_epoch,
        small,
        start_lem checks sat epoch block offset p,
        add_checked_fits checks u64_max (epoch_starting_sat epoch + block * reward epoch) offset
            (omega (arith, blocks-lt sat epoch block offset p, epoch_end-le epoch p.subsidised)),
        same,
      )
      refl

decimal_lem :
    (checks : Bool) (sat epoch block offset : ℕ)
    → InBlock sat epoch block offset
    → decimal checks bitcoin sat
      ≡ done (record { height = epoch * 210000 + block; offset = offset })
unfolding decimal
decimal_lem checks sat epoch block offset p =
    rw (height_lem checks sat epoch block offset p, third_lem checks sat epoch block offset p) refl

-- With the `bitcoin` crate's constants, a sat below the supply has a decimal form, with and without
-- overflow checks, and this form is read as the same sat.
pub from_decimal-decimal :
    (checks : Bool) (c : Constants) (sat : ℕ)
    → c ≡ bitcoin
    → sat < supply
    → (d : DecimalSat) × (decimal checks c sat ≡ done d)
      × (from_decimal checks c d ≡ done (some sat))
from_decimal-decimal checks c sat known h =
    let (block, offset, p) = in_block sat h in
    let e = epoch_of_sat sat in
    (
      record { height = e * 210000 + block; offset = offset },
      rw known (decimal_lem checks sat e block offset p),
      rw known (from_decimal_lem checks sat e block offset p),
    )

at_height :
    (checks : Bool) (sat epoch block offset height : ℕ)
    → height ≡ epoch * 210000 + block
    → InBlock sat epoch block offset
    → (from_decimal checks bitcoin (record { height = height; offset = offset }) ≡ done (some sat))
      × (decimal checks bitcoin sat ≡ done (record { height = height; offset = offset }))
at_height checks sat epoch block offset height same p =
    rw same (
      from_decimal_lem checks sat epoch block offset p,
      decimal_lem checks sat epoch block offset p,
    )

-- With the `bitcoin` crate's constants, a height in the epochs with a subsidy and an offset below
-- that subsidy are read as a sat below the supply, and the sat's decimal form is the given one.
pub decimal-from_decimal :
    (checks : Bool) (c : Constants) (height offset : ℕ)
    → c ≡ bitcoin
    → height < 33 * 210000
    → offset < reward (height / 210000)
    → (sat : ℕ) × (from_decimal checks c (record { height = height; offset = offset })
        ≡ done (some sat))
      × (decimal checks c sat ≡ done (record { height = height; offset = offset }))
      × (sat < supply)
decimal-from_decimal checks c height offset known hh ho =
    let e = height / 210000 in
    let block = height % 210000 in
    let sat = epoch_starting_sat e + (reward e * block + offset) in
    let p : InBlock sat e block offset = record {
      subsidised = omega (arith, hh);
      in_epoch = omega arith;
      in_block = ho;
      place = refl;
    } in
    let both = at_height checks sat e block offset height (omega arith) p in
    (
      sat,
      rw known both.0,
      rw known both.1,
      omega (arith, blocks-lt sat e block offset p, epoch_end-le e p.subsidised),
    )
