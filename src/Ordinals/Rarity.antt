-- ===== src/Ordinals/Rarity.antt =====
-- The rarity of a sat, and the faster test for a common one.
use okx_ord.Common.{
  ℕ, ◌+◌, ◌*◌, ◌/◌, ◌%◌, ◌<◌, ◌≡◌, refl, Bool, true, false, not, ◌==◌, arith, Bool-cases, inl, inr,
  ==_iff,
}
use okx_ord.Common.Outcome.{
  done, add_checked, sub_checked, mul_checked, mul_checked_fits, div_checked, rem_checked, u32_max,
}
use okx_ord.Ordinals.Constants.{Constants, bitcoin}
use okx_ord.Ordinals.Epoch.{
  supply, epoch_of_sat, epoch_starting_sat, epoch_subsidy, starting_height,
}
use okx_ord.Ordinals.Sat.{
  is_common, epoch_position, degree, Degree, rarity, Rarity, rarity_of_degree,
}
use okx_ord.Ordinals.Chain.{reward}
use okx_ord.Ordinals.Blocks.{
  in_block, InBlock, height_lem, third_lem, position_lem, split, InBlock-epoch, subsidy_lem,
}

abbrev pub is_common_rarity : Rarity → Bool
is_common_rarity Rarity.common = true
is_common_rarity _ = false

-- The degree of a sat at an offset into a block of an epoch.
abbrev degree_at : ℕ → ℕ → Degree
degree_at height offset = record {
  hour = height / 1260000;
  minute = height % 210000;
  second = height % 2016;
  third = offset;
}

degree_lem :
    (checks : Bool) (sat epoch block offset : ℕ)
    → InBlock sat epoch block offset
    → degree checks bitcoin sat ≡ done (degree_at (epoch * 210000 + block) offset)
unfolding degree div_checked rem_checked
degree_lem checks sat epoch block offset p =
    rw
      (
        height_lem checks sat epoch block offset p,
        mul_checked_fits checks u32_max 6 210000 (omega arith),
        third_lem checks sat epoch block offset p,
      )
      refl

common_rarity : (d : Degree) → is_common_rarity (rarity_of_degree d) ≡ not (d.third == 0)
unfolding rarity_of_degree
common_rarity d = elim (Bool-cases (d.third == 0)) [
  | inl e ↦ rw e (ground arith)
  | inr e ↦ rw e (ground arith)
]

rarity_lem :
    (checks : Bool) (sat epoch block offset : ℕ)
    → InBlock sat epoch block offset
    → rarity checks bitcoin sat
      ≡ done (rarity_of_degree (degree_at (epoch * 210000 + block) offset))
unfolding rarity
rarity_lem checks sat epoch block offset p = rw (degree_lem checks sat epoch block offset p) refl

common_lem :
    (checks : Bool) (sat epoch block offset : ℕ)
    → InBlock sat epoch block offset
    → is_common checks bitcoin sat ≡ done (not (offset == 0))
unfolding is_common rem_checked epoch_position
common_lem checks sat epoch block offset p =
    let (quotient, rest, nonzero) = split (reward epoch) block offset p.in_block in
    rw
      (
        position_lem checks sat epoch block offset p,
        InBlock-epoch sat epoch block offset p,
        subsidy_lem checks epoch p.subsidised,
        nonzero,
        rest,
      )
      refl

-- With the `bitcoin` crate's constants, a sat below the supply has a rarity, with and without
-- overflow checks, and the faster test says exactly whether this rarity is `Common`.
pub is_common-rarity :
    (checks : Bool) (c : Constants) (sat : ℕ)
    → c ≡ bitcoin
    → sat < supply
    → (r : Rarity) × (rarity checks c sat ≡ done r)
      × (is_common checks c sat ≡ done (is_common_rarity r))
is_common-rarity checks c sat known h =
    let (block, offset, p) = in_block sat h in
    let e = epoch_of_sat sat in
    let d = degree_at (e * 210000 + block) offset in
    (
      rarity_of_degree d,
      rw known (rarity_lem checks sat e block offset p),
      rw (known, common_rarity d) (common_lem checks sat e block offset p),
    )

abbrev pub is_mythic : Rarity → Bool
is_mythic Rarity.mythic = true
is_mythic _ = false

mythic_rarity :
    (epoch block offset : ℕ)
    → epoch < 33
    → block < 210000
    → is_mythic (rarity_of_degree (degree_at (epoch * 210000 + block) offset)) ≡ true
    → (epoch ≡ 0) × (block ≡ 0) × (offset ≡ 0)
unfolding rarity_of_degree
mythic_rarity epoch block offset he hb m =
    let h = epoch * 210000 + block in
    let hour : h / 1260000 ≡ 0 = ground arith in
    let minute : h % 210000 ≡ 0 = ground arith in
    let second : h % 2016 ≡ 0 = ground arith in
    let third : offset ≡ 0 = ground arith in
    let b : block ≡ 0 = omega (arith, minute, hb) in
    let e : epoch ≡ 0 = omega (arith, b, hour, second) in (e, b, third)

not_mythic :
    (sat epoch block offset : ℕ)
    → InBlock sat epoch block offset
    → (sat == 0) ≡ false
    → is_mythic (rarity_of_degree (degree_at (epoch * 210000 + block) offset)) ≡ false
unfolding epoch_starting_sat
not_mythic sat epoch block offset p h =
    elim (Bool-cases (is_mythic (rarity_of_degree (degree_at (epoch * 210000 + block) offset)))) [
      | inr e ↦ e
      | inl m ↦
          let (e, b, o) = mythic_rarity epoch block offset p.subsidised p.in_epoch m in
          let at : sat ≡ 0 + (reward 0 * 0 + 0) = rw (e, b, o) at p.place in absurd (ground arith)
    ]

rarity_zero : (checks : Bool) → rarity checks bitcoin 0 ≡ done Rarity.mythic
unfolding rarity degree starting_height mul_checked epoch_of_sat sub_checked epoch_starting_sat
    epoch_subsidy div_checked add_checked rem_checked
rarity_zero checks = refl

-- With the `bitcoin` crate's constants, sat 0 is mythic and no other sat below the supply is.
pub rarity-is_mythic :
    (checks : Bool) (c : Constants) (sat : ℕ)
    → c ≡ bitcoin
    → sat < supply
    → (r : Rarity) × (rarity checks c sat ≡ done r) × (is_mythic r ≡ (sat == 0))
rarity-is_mythic checks c sat known h = elim (Bool-cases (sat == 0)) [
  | inl zero_sat ↦
      let q : sat ≡ 0 = (==_iff sat 0).0 zero_sat in
      (Rarity.mythic, rw (known, q) (rarity_zero checks), rw zero_sat refl)
  | inr other ↦
      let (block, offset, p) = in_block sat h in
      let e = epoch_of_sat sat in
      (
        rarity_of_degree (degree_at (e * 210000 + block) offset),
        rw known (rarity_lem checks sat e block offset p),
        rw other (not_mythic sat e block offset p other),
      )
]
