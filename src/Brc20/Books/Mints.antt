-- ===== src/Brc20/Books/Mints.antt =====
-- What a mint does to the books.
use okx_ord.Common.{
  ℕ, ◌+◌, ◌-◌, ◌≤◌, ◌≡◌, refl, ◌∙◌, sym, Option, none, some, Bool, false, ltb, ◌==◌, if◌then◌else◌,
  arith, Bool-cases, inl, inr, ==_iff, unwrap_or, ap,
}
use okx_ord.Common.Dict.{Dict, lookup, insert, lookup-insert}
use okx_ord.Common.Outcome.{u128_max}
use okx_ord.Brc20.External.{External, IsExact}
use okx_ord.Brc20.Types.{
  Balance, TokenInfo, Mint, ExecutionMessage, Event, ok, ok_or, fail_if, new_balance, >>=-eq-ok,
  ok_or-eq-ok, fail_if-eq-ok, ok_inj, Result-cases, tick_from_str,
}
use okx_ord.Brc20.Num.{checked_sub}
use okx_ord.Brc20.Exact.{parse_amount-IsNat, sum_u128-fits, to_u128-fits, checked_sub-eq-ok}
use okx_ord.Brc20.Store.{
  Context, tick_key, script_tick_key, get_balance, get_token_info, update_mint_token_info,
}
use okx_ord.Brc20.Store.Pairs.{
  insert_pair_key, measure_at, measure_at-le-sum_of, sum_of-insert_pair_key, measure_grows,
}
use okx_ord.Brc20.Plan.{plan_mint, limit_mint, cut, MintPlan, is_denied}
use okx_ord.Brc20.Plan.Amount.{parse_amount}
use okx_ord.Brc20.Execute.{process_mint}
use okx_ord.Brc20.Books.Credits.{credited_balance, credit-runs}
use okx_ord.Brc20.Books.Effects.{IsMinted}
use okx_ord.Brc20.Books.{
  overall, transferable, minted_of, IsCapped, All-lookup, All-insert, IsBooked, Handled,
  balance_read, insert-BalanceKeys,
}

pub minted_of-insert :
    (t key : ℕ) (i : TokenInfo) (d : Dict TokenInfo)
    → minted_of t (insert key i d) ≡ (if t == key then i.minted else minted_of t d)
minted_of-insert t key i d = ground (arith, lookup-insert key t i d)

pub minted_of-some :
    (t : ℕ) (d : Dict TokenInfo) {i : TokenInfo} → lookup t d ≡ some i → minted_of t d ≡ i.minted
minted_of-some t d e = ap (λ (o : Option TokenInfo). elim o [ none ↦ 0 | some i ↦ i.minted ]) e

module _ (x : External) (exact : IsExact x) where
  open x use {BigDecimal}
  open exact use {IsNat}

  -- The amount that a mint is granted.
  record Granted (info : TokenInfo) (a : BigDecimal) : Type 0 where
    units : ℕ
    is_units : IsNat a units
    within : info.minted + units ≤ info.supply
    limited : units ≤ info.limit_per_mint

  cut-Granted :
      (info : TokenInfo) (a : BigDecimal) (n : ℕ) {r : BigDecimal × Bool}
      → IsNat a n
      → n ≤ info.limit_per_mint
      → cut x a (x.from_nat info.minted) (x.from_nat info.supply) ≡ ok r
      → Granted info r.0
  unfolding cut
  cut-Granted info a n {r = r} h limit e =
      let sum = exact.add_nat h (exact.from_nat_nat info.minted) in
      let test = exact.lt_nat (exact.from_nat_nat info.supply) sum in
      elim (Bool-cases (ltb info.supply (n + info.minted))) [
        | inl over ↦
            let (left, e1, e2) =
              >>=-eq-ok (checked_sub x (x.from_nat info.supply) (x.from_nat info.minted)) _
                (rw (test, over) at e) in
            let (le, nat) =
              checked_sub-eq-ok x exact info.supply info.minted (exact.from_nat_nat info.supply)
                (exact.from_nat_nat info.minted) e1 in
            rw (sym (ok_inj e2)) (record {
              units = info.supply - info.minted;
              is_units = nat;
              within = omega (arith, le);
              limited = ground arith;
            })
        | inr fits ↦
            rw (sym (ok_inj (rw (test, fits) at e)))
              (record { units = n; is_units = h; within = ground arith; limited = limit })
      ]

  limit_mint-Granted :
      (info : TokenInfo) (a : BigDecimal) (n : ℕ) {r : BigDecimal × Bool}
      → IsNat a n
      → limit_mint x info a ≡ ok r
      → Granted info r.0
  unfolding limit_mint
  limit_mint-Granted info a n h e =
      let (_, e1, r1) = >>=-eq-ok (fail_if (x.is_no_sign a) _) _ e in
      let (_, e2, r2) = >>=-eq-ok (fail_if (x.lt (x.from_nat info.limit_per_mint) a) _) _ r1 in
      let (_, e3, r3) =
        >>=-eq-ok (fail_if (x.ge (x.from_nat info.minted) (x.from_nat info.supply)) _) _ r2 in
      let limit : ltb info.limit_per_mint n ≡ false =
        sym (exact.lt_nat (exact.from_nat_nat info.limit_per_mint) h) ∙ fail_if-eq-ok _ _ e2 in
      cut-Granted info a n h (ground arith) r3

  -- What a plan of a mint rests on.
  record Planned (c : Context) (p : MintPlan x) : Type 0 where
    token : get_token_info x c p.tick ≡ some p.info
    granted : Granted p.info p.amount

  plan_mint-Planned :
      (msg : ExecutionMessage) (mint : Mint) (parent : Option ℕ) (c : Context) {p : MintPlan x}
      → plan_mint x msg mint parent c ≡ ok p
      → Planned c p
  unfolding plan_mint
  plan_mint-Planned msg mint parent c {p = p} e =
      let (to, e1, r1) = >>=-eq-ok (ok_or msg.to _) _ e in
      let (tick, e2, r2) = >>=-eq-ok (tick_from_str mint.tick) _ r1 in
      let (info, e3, r3) = >>=-eq-ok (ok_or (get_token_info x c tick) _) _ r2 in
      let (_, e4, r4) = >>=-eq-ok (fail_if (is_denied info parent) _) _ r3 in
      let (a, e5, r5) = >>=-eq-ok (parse_amount x mint.amount info.decimal) _ r4 in
      let (g, e6, r6) = >>=-eq-ok (limit_mint x info a) _ r5 in
      let (n, h) = parse_amount-IsNat x exact mint.amount info.decimal e5 in
      rw (sym (ok_inj r6))
        (record { token = ok_or-eq-ok _ _ e3; granted = limit_mint-Granted info a n h e6 })

  abbrev minted_info : TokenInfo → ℕ → ℕ → TokenInfo
  minted_info info n height = record info { minted = info.minted + n; latest_mint_number = height }

  abbrev after_mint : Context → ℕ × ℕ → Balance → TokenInfo → ℕ → Context
  after_mint c key b info n = record c {
    balances = insert_pair_key key (credited_balance b n) c.balances;
    tokens = insert key.1 (minted_info info n c.blockheight) c.tokens;
  }

  after_mint-IsMinted :
      (c : Context) (key : ℕ × ℕ) (b : Balance) (info : TokenInfo) (n : ℕ)
      → IsBooked x c
      → lookup key.1 c.tokens ≡ some info
      → tick_key x b.tick ≡ key.1
      → measure_at overall key c.balances ≡ b.overall_balance
      → measure_at transferable key c.balances ≡ b.transferable_balance
      → info.minted + n ≤ info.supply
      → IsMinted x c (after_mint c key b info n)
  after_mint-IsMinted c key b info n booked there b_key at_overall at_transferable within =
      let b' = credited_balance b n in
      let info' = minted_info info n c.blockheight in
      let same_t =
        measure_grows transferable key b' c.balances 0 (omega (arith, at_transferable)) in
      let credited = measure_grows overall key b' c.balances n (omega (arith, at_overall)) in
      let minted : (t : ℕ)
          → minted_of t (insert key.1 info' c.tokens)
            ≡ minted_of t c.tokens + (if t == key.1 then n else 0) =
        λ t.
          minted_of-insert t key.1 info' c.tokens
          ∙ grows_token t (minted_of-some key.1 c.tokens there) in
      record {
        booked = record {
          sums = λ t. ground (
            arith,
            sum_of-insert_pair_key overall t key b' c.balances,
            booked.sums t,
            minted t,
            at_overall,
          );
          held = λ k. ground (arith, same_t k, booked.held k);
          cover = λ k. ground (arith, same_t k, credited k, booked.cover k);
          caps =
              All-insert IsCapped key.1 info' c.tokens booked.caps
                (within, (All-lookup IsCapped key.1 info c.tokens booked.caps there).1);
          balance_keys = insert-BalanceKeys x key b' c.balances b_key booked.balance_keys;
          token_keys =
              All-insert (λ (e : ℕ × TokenInfo). tick_key x e.1.tick ≡ e.0) key.1 info' c.tokens
                booked.token_keys
                (All-lookup (λ (e : ℕ × TokenInfo). tick_key x e.1.tick ≡ e.0) key.1 info c.tokens
                  booked.token_keys there);
        };
        key = key;
        amount = n;
        credited = credited;
        minted = minted;
      }
    where
      grows_token :
          (t : ℕ)
          → minted_of key.1 c.tokens ≡ info.minted
          → (if t == key.1 then info.minted + n else minted_of t c.tokens)
            ≡ minted_of t c.tokens + (if t == key.1 then n else 0)
      grows_token t e = elim (Bool-cases (t == key.1)) [
        | inl same ↦ let q : t ≡ key.1 = (==_iff t key.1).0 same in rw (same, q) (omega (arith, e))
        | inr other ↦ rw other (omega arith)
      ]

  -- Let the external operations be exact and the books be kept. Then a mint either fails and changes
  -- nothing, or it adds an amount to one balance and to what is minted of the tick, and the books
  -- are kept. It does not panic.
  pub process_mint-IsMinted :
      (msg : ExecutionMessage) (mint : Mint) (parent : Option ℕ) (c : Context)
      → IsBooked x c
      → Handled x c (process_mint x msg mint parent c) (λ c' ev. IsMinted x c c')
  unfolding process_mint update_mint_token_info
  process_mint-IsMinted msg mint parent c booked =
      elim (Result-cases (plan_mint x msg mint parent c)) [
        | inl (e, failed) ↦ inl (e, rw failed refl)
        | inr (p, planned) ↦
            let facts = plan_mint-Planned msg mint parent c planned in
            let b = unwrap_or (get_balance x c p.to p.tick) (new_balance p.tick) in
            let key = script_tick_key x p.to p.tick in
            let (b_key, at_o, at_t) = balance_read x c p.to p.tick b booked.balance_keys refl in
            let n = facts.granted.units in
            let cap : p.info.supply ≤ u128_max =
              (All-lookup IsCapped key.1 p.info c.tokens booked.caps facts.token).1 in
            let room : b.overall_balance + n ≤ u128_max = omega (
              arith,
              at_o,
              measure_at-le-sum_of overall key c.balances,
              booked.sums key.1,
              minted_of-some key.1 c.tokens facts.token,
              facts.granted.within,
              cap,
            ) in
            let total : p.info.minted + n ≤ u128_max = omega (arith, facts.granted.within, cap) in
            let is_n = facts.granted.is_units in
            let good =
              after_mint-IsMinted c key b p.info n booked facts.token b_key at_o at_t
                facts.granted.within in
            inr (
              after_mint c key b p.info n,
              Event.mint p.info.tick n p.cut_off,
              rw
                  (
                    planned,
                    credit-runs x exact p.to p.tick p.amount n c b refl is_n b_key room,
                    sum_u128-fits x exact p.info.minted n (exact.from_nat_nat p.info.minted) is_n
                        total,
                    facts.token,
                    update_mint_token_info,
                    to_u128-fits x exact n is_n (omega (arith, total)),
                  )
                  refl,
              good,
            )
      ]
