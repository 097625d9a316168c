-- ===== src/Brc20/Books/Deploys.antt =====
-- What a deploy does to the books.
use okx_ord.Common.{
  ℕ, ◌^◌, ◌≤◌, ◌≡◌, refl, ◌∙◌, sym, ap, List, Option, none, some, ltb, ◌==◌, arith, inl, inr,
  unwrap_or, Bool-cases, ==_iff, false,
}
use okx_ord.Common.Dict.{Dict, lookup, insert}
use okx_ord.Common.Outcome.{u128_max}
use okx_ord.Brc20.External.{External, IsExact}
use okx_ord.Brc20.Types.{
  Tick, TokenInfo, Deploy, ExecutionMessage, Event, ok, ok_or, fail_if, >>=-eq-ok, fail_if-eq-ok,
  ok_inj, Result-cases, tick_from_str,
}
use okx_ord.Brc20.Num.{num_from_str, checked_to_u8, checked_to_u128, max_decimal_width}
use okx_ord.Brc20.Exact.{checked_powu-IsNat, num_from_str-eq-ok, to_u128-eq-ok}
use okx_ord.Brc20.Store.{Context, tick_key, get_token_info, insert_token_info}
use okx_ord.Brc20.Plan.Deploy.{
  plan_deploy, deploy_numbers, self_issuance, fail_if_there, is_out_of_range, text_18,
}
use okx_ord.Brc20.Execute.{process_deploy}
use okx_ord.Brc20.Books.Effects.{IsDeployed}
use okx_ord.Brc20.Books.{minted_of, IsCapped, All-insert, IsBooked, Handled}
use okx_ord.Brc20.Books.Mints.{minted_of-insert}

module _ (x : External) (exact : IsExact x) where
  open x use {BigDecimal}
  open exact use {IsNat}

  -- A supply in units that is taken fits.
  units-fit :
      (text : List ℕ) (a : BigDecimal) (d n : ℕ) (t : BigDecimal)
      → num_from_str x text ≡ ok a
      → is_out_of_range x a d ≡ false
      → IsNat t (10 ^ d)
      → checked_to_u128 x (x.mul a t) ≡ ok n
      → n ≤ u128_max
  units-fit text a d n t parsed in_range power e =
      let (there, unsigned, _) = num_from_str-eq-ok x exact text parsed in
      let (m, h) = exact.scaled {a = a} {t = t} {d = d} there unsigned (ground arith) power in
      let (q, fits) = to_u128-eq-ok x exact m n h e in omega arith

  -- The decimals and the supply that a deploy is given.
  record IsSized (r : ℕ × ℕ × ℕ) : Type 0 where
    narrow : r.0 ≤ max_decimal_width
    fits : r.1 ≤ u128_max

  deploy_numbers-IsSized :
      (tick : Tick) (deploy : Deploy) (max_supply : List ℕ) {r : ℕ × ℕ × ℕ}
      → deploy_numbers x tick deploy max_supply ≡ ok r
      → IsSized r
  unfolding deploy_numbers
  deploy_numbers-IsSized tick deploy max_supply e =
      let (decimals, e1, r1) = >>=-eq-ok (num_from_str x (unwrap_or deploy.decimals text_18)) _ e in
      let (d, e2, r2) = >>=-eq-ok (checked_to_u8 x decimals) _ r1 in
      let (_, e3, r3) = >>=-eq-ok (fail_if (ltb max_decimal_width d) _) _ r2 in
      let (t, power_runs, power) = checked_powu-IsNat x exact d in
      let (supply, e4, r4) = >>=-eq-ok (num_from_str x max_supply) _ (rw power_runs at r3) in
      let (_, e5, r5) = >>=-eq-ok (fail_if (is_out_of_range x supply d) _) _ r4 in
      let (limit, e6, r6) =
        >>=-eq-ok (num_from_str x (unwrap_or deploy.mint_limit max_supply)) _ r5 in
      let (_, e7, r7) = >>=-eq-ok (fail_if (is_out_of_range x limit d) _) _ r6 in
      let (n, e8, r8) = >>=-eq-ok (checked_to_u128 x (x.mul supply t)) _ r7 in
      let (m, e9, r9) = >>=-eq-ok (checked_to_u128 x (x.mul limit t)) _ r8 in
      let narrow = fail_if-eq-ok (ltb max_decimal_width d) _ e3 in
      rw (sym (ok_inj r9)) (record {
        narrow = ground arith;
        fits = units-fit max_supply supply d n t e4 (fail_if-eq-ok _ _ e5) power e8;
      })

  record Planned (c : Context) (info : TokenInfo) : Type 0 where
    fresh : get_token_info x c info.tick ≡ none
    unminted : info.minted ≡ 0
    narrow : info.decimal ≤ max_decimal_width
    fits : info.supply ≤ u128_max

  fail_if_there-eq-ok : (o : Option TokenInfo) {u : Unit {0}} → fail_if_there o ≡ ok u → o ≡ none
  fail_if_there-eq-ok none h = refl
  fail_if_there-eq-ok (some i) h = cc

  plan_deploy-Planned :
      (msg : ExecutionMessage) (deploy : Deploy) (c : Context) {info : TokenInfo}
      → plan_deploy x msg deploy c ≡ ok info
      → Planned c info
  unfolding plan_deploy
  plan_deploy-Planned msg deploy c e =
      let (to, e1, r1) = >>=-eq-ok (ok_or msg.to _) _ e in
      let (tick, e2, r2) = >>=-eq-ok (tick_from_str deploy.tick) _ r1 in
      let (own, e3, r3) = >>=-eq-ok (self_issuance c tick deploy) _ r2 in
      let (_, e4, r4) = >>=-eq-ok (fail_if_there (get_token_info x c tick)) _ r3 in
      let (sizes, e5, r5) = >>=-eq-ok (deploy_numbers x tick deploy own.0) _ r4 in
      let sized = deploy_numbers-IsSized tick deploy own.0 e5 in
      rw (sym (ok_inj r5)) (record {
        fresh = fail_if_there-eq-ok (get_token_info x c tick) e4;
        unminted = refl;
        narrow = sized.narrow;
        fits = sized.fits;
      })

  abbrev after_deploy : Context → TokenInfo → Context
  after_deploy c info = record c { tokens = insert (tick_key x info.tick) info c.tokens }

  unminted-same :
      (t key : ℕ) (info : TokenInfo) (d : Dict TokenInfo)
      → lookup key d ≡ none
      → info.minted ≡ 0
      → minted_of t (insert key info d) ≡ minted_of t d
  unminted-same t key info d free zero_minted = elim (Bool-cases (t == key)) [
    | inl same ↦
        let q : t ≡ key = (==_iff t key).0 same in
        let was : minted_of key d ≡ 0 =
          ap (λ (o : Option TokenInfo). elim o [ none ↦ 0 | some i ↦ i.minted ]) free in
        minted_of-insert t key info d ∙ rw same (rw q (zero_minted ∙ sym was))
    | inr other ↦ minted_of-insert t key info d ∙ rw other refl
  ]

  -- Let the external operations be exact and the books be kept. Then a deploy either fails and
  -- changes nothing, or it enters a token of which nothing is minted, with at most 18 decimals, under
  -- a key that was free; the balances stay, and the books are kept. It does not panic.
  pub process_deploy-IsDeployed :
      (msg : ExecutionMessage) (deploy : Deploy) (c : Context)
      → IsBooked x c
      → Handled x c (process_deploy x msg deploy c) (λ c' ev. IsDeployed x c c')
  unfolding process_deploy insert_token_info
  process_deploy-IsDeployed msg deploy c booked = elim (Result-cases (plan_deploy x msg deploy c)) [
    | inl (e, failed) ↦ inl (e, rw failed refl)
    | inr (info, planned) ↦
        let facts = plan_deploy-Planned msg deploy c planned in
        let key = tick_key x info.tick in
        inr (
          after_deploy c info,
          Event.deploy info.supply info.limit_per_mint info.decimal info.tick info.is_self_mint,
          rw planned refl,
          record {
            booked = record {
              sums = λ t.
                  booked.sums t
                  ∙ sym (unminted-same t key info c.tokens facts.fresh facts.unminted);
              held = booked.held;
              cover = booked.cover;
              caps =
                  All-insert IsCapped key info c.tokens booked.caps
                    (omega (arith, facts.unminted), facts.fits);
              balance_keys = booked.balance_keys;
              token_keys =
                  All-insert (λ (e : ℕ × TokenInfo). tick_key x e.1.tick ≡ e.0) key info c.tokens
                    booked.token_keys refl;
            };
            info = info;
            free = facts.fresh;
            entered = refl;
            unminted = facts.unminted;
            narrow = facts.narrow;
            balances = refl;
          },
        )
  ]
