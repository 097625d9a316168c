-- ===== src/Brc20/Books/Withdrawals.antt =====
-- What the plan of a transfer rests on, and the withdrawal from the sender.
use okx_ord.Common.{ℕ, ◌+◌, ◌-◌, ◌≡◌, refl, sym, some, Bool, true, false, not, arith, unwrap_or}
use okx_ord.Common.Dict.{lookup}
use okx_ord.Brc20.External.{External, IsExact}
use okx_ord.Brc20.Types.{
  Balance, ExecutionMessage, ok, ok_or, fail_if, new_balance, >>=-eq-ok, ok_or-eq-ok, fail_if-eq-ok,
  ok_inj,
}
use okx_ord.Brc20.Num.{checked_sub, checked_to_u128}
use okx_ord.Brc20.Exact.{to_u128-eq-ok, checked_sub-eq-ok}
use okx_ord.Brc20.Store.{Context, get_balance, get_token_info, get_transferable_assets_by_satpoint}
use okx_ord.Brc20.Plan.{plan_transfer, withdraw, TransferPlan}

-- The balance after the withdrawal of an amount.
pub record Withdrawn (b : Balance) (n : ℕ) (r : Balance) : Type 0 where
  pub same_tick : r.tick ≡ b.tick
  pub less : r.overall_balance + n ≡ b.overall_balance
  pub less_transferable : r.transferable_balance + n ≡ b.transferable_balance

not-eq-false : (b : Bool) → not b ≡ false → b ≡ true
not-eq-false b h = ground arith

module _ (x : External) where
  -- What a plan of a transfer rests on.
  pub record Planned (msg : ExecutionMessage) (c : Context) (p : TransferPlan x) : Type 0 where
    pub asset : lookup msg.old_satpoint c.satpoint_to_assets ≡ some p.asset
    pub owner : p.asset.owner ≡ msg.from
    pub token : get_token_info x c p.asset.tick ≡ some p.info
    pub withdrawn :
        Withdrawn
          (unwrap_or (get_balance x c msg.from p.asset.tick) (new_balance p.asset.tick))
          p.asset.amount
          p.from_balance

module _ (x : External) (exact : IsExact x) where
  open x use {BigDecimal}
  open exact use {IsNat}

  withdraw-Withdrawn :
      (b : Balance) (n : ℕ) {r : Balance} → withdraw x b (x.from_nat n) ≡ ok r → Withdrawn b n r
  unfolding withdraw
  withdraw-Withdrawn b n e =
      let h = exact.from_nat_nat n in
      let (o, e1, r1) =
        >>=-eq-ok (checked_sub x (x.from_nat b.overall_balance) (x.from_nat n)) _ e in
      let (le_o, is_o) =
        checked_sub-eq-ok x exact b.overall_balance n (exact.from_nat_nat b.overall_balance) h e1 in
      let (o', e2, r2) = >>=-eq-ok (checked_to_u128 x o) _ r1 in
      let (t, e3, r3) =
        >>=-eq-ok (checked_sub x (x.from_nat b.transferable_balance) (x.from_nat n)) _ r2 in
      let (le_t, is_t) =
        checked_sub-eq-ok x exact b.transferable_balance n
          (exact.from_nat_nat b.transferable_balance) h e3 in
      let (t', e4, r4) = >>=-eq-ok (checked_to_u128 x t) _ r3 in
      let (same_o, _) = to_u128-eq-ok x exact (b.overall_balance - n) o' is_o e2 in
      let (same_t, _) = to_u128-eq-ok x exact (b.transferable_balance - n) t' is_t e4 in
      rw (sym (ok_inj r4)) (record {
        same_tick = refl;
        less = omega (arith, same_o, le_o);
        less_transferable = omega (arith, same_t, le_t);
      })

  pub plan_transfer-Planned :
      (msg : ExecutionMessage) (c : Context) {p : TransferPlan x}
      → plan_transfer x msg c ≡ ok p
      → Planned x msg c p
  unfolding plan_transfer
  plan_transfer-Planned msg c e =
      let (asset, e1, r1) =
        >>=-eq-ok (ok_or (get_transferable_assets_by_satpoint x c msg.old_satpoint) _) _ e in
      let (_, e2, r2) = >>=-eq-ok (fail_if (not (x.script_eq asset.owner msg.from)) _) _ r1 in
      let (info, e3, r3) = >>=-eq-ok (ok_or (get_token_info x c asset.tick) _) _ r2 in
      let b = unwrap_or (get_balance x c msg.from asset.tick) (new_balance asset.tick) in
      let (r, e4, r4) = >>=-eq-ok (withdraw x b (x.from_nat asset.amount)) _ r3 in
      rw (sym (ok_inj r4)) (record {
        asset = ok_or-eq-ok _ _ e1;
        owner = exact.script_eq_sound (not-eq-false _ (fail_if-eq-ok _ _ e2));
        token = ok_or-eq-ok _ _ e3;
        withdrawn = withdraw-Withdrawn b asset.amount e4;
      })
