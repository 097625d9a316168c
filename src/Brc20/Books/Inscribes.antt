-- ===== src/Brc20/Books/Inscribes.antt =====
-- What the inscription of a transfer does to the books.
use okx_ord.Common.{
  ℕ, ◌+◌, ◌-◌, ◌≤◌, ◌≡◌, refl, ◌∙◌, sym, ap, ◌∷◌, none, some, false, ltb, ◌||◌, if◌then◌else◌,
  arith, inl, inr, unwrap_or, Bool-cases,
}
use okx_ord.Common.Dict.{lookup, insert}
use okx_ord.Brc20.External.{External, IsExact}
use okx_ord.Brc20.Types.{
  Balance, TokenInfo, Transfer, TransferableLog, ExecutionMessage, Event, ok, ok_or, fail_if,
  new_balance, >>=-eq-ok, ok_or-eq-ok, fail_if-eq-ok, ok_inj, Result-cases, tick_from_str,
}
use okx_ord.Brc20.Num.{checked_sub, checked_to_u128}
use okx_ord.Brc20.Exact.{parse_amount-IsNat, to_u128-eq-ok, checked_sub-eq-ok}
use okx_ord.Brc20.Store.{
  Context, tick_key, script_tick_key, get_balance, get_token_info, update_token_balance,
  insert_transferable_asset, remove_asset,
}
use okx_ord.Brc20.Store.Pairs.{
  is_key, insert_pair_key, measure_at, sum_of-insert_pair_key, measure_grows, key_eq,
}
use okx_ord.Brc20.Plan.{plan_inscribe, reserve, InscribePlan}
use okx_ord.Brc20.Plan.Amount.{parse_amount}
use okx_ord.Brc20.Execute.{process_inscribe_transfer}
use okx_ord.Brc20.Books.Effects.{IsInscribed}
use okx_ord.Brc20.Books.{
  overall, transferable, All-lookup, IsBooked, Handled, balance_read, insert-BalanceKeys,
  logged-insert, logged,
}

module _ (x : External) (exact : IsExact x) where
  open x use {BigDecimal}
  open exact use {IsNat}

  -- The balance after the reservation of an amount.
  record Reserved (b : Balance) (r : Balance × ℕ) : Type 0 where
    same_tick : r.0.tick ≡ b.tick
    same_overall : r.0.overall_balance ≡ b.overall_balance
    more : r.0.transferable_balance ≡ b.transferable_balance + r.1
    cover : r.0.transferable_balance ≤ b.overall_balance

  reserve-Reserved :
      (b : Balance) (a : BigDecimal) (n : ℕ) {r : Balance × ℕ}
      → IsNat a n
      → reserve x b a ≡ ok r
      → Reserved b r
  unfolding reserve
  reserve-Reserved b a n h e =
      let all = exact.from_nat_nat b.overall_balance in
      let some_of = exact.from_nat_nat b.transferable_balance in
      let (left, e1, r1) =
        >>=-eq-ok (checked_sub x (x.from_nat b.overall_balance) (x.from_nat b.transferable_balance))
          _ e in
      let (le, is_left) =
        checked_sub-eq-ok x exact b.overall_balance b.transferable_balance all some_of e1 in
      let (_, e2, r2) = >>=-eq-ok (fail_if (x.lt left a) _) _ r1 in
      let enough : ltb (b.overall_balance - b.transferable_balance) n ≡ false =
        sym (exact.lt_nat is_left h) ∙ fail_if-eq-ok (x.lt left a) _ e2 in
      let (t, e3, r3) =
        >>=-eq-ok (checked_to_u128 x (x.add (x.from_nat b.transferable_balance) a)) _ r2 in
      let (m, e4, r4) = >>=-eq-ok (checked_to_u128 x a) _ r3 in
      let (sum, _) =
        to_u128-eq-ok x exact (b.transferable_balance + n) t (exact.add_nat some_of h) e3 in
      let (same, _) = to_u128-eq-ok x exact n m h e4 in
      rw (sym (ok_inj r4)) (record {
        same_tick = refl;
        same_overall = refl;
        more = omega (arith, sum, same);
        cover = ground (arith, sum, enough, le);
      })

  record Planned (c : Context) (p : InscribePlan x) : Type 0 where
    token : get_token_info x c p.tick ≡ some p.info
    reserved :
        Reserved
          (unwrap_or (get_balance x c p.to p.tick) (new_balance p.tick))
          (p.balance, p.amount)

  plan_inscribe-Planned :
      (msg : ExecutionMessage) (transfer : Transfer) (c : Context) {p : InscribePlan x}
      → plan_inscribe x msg transfer c ≡ ok p
      → Planned c p
  unfolding plan_inscribe
  plan_inscribe-Planned msg transfer c e =
      let (to, e1, r1) = >>=-eq-ok (ok_or msg.to _) _ e in
      let (tick, e2, r2) = >>=-eq-ok (tick_from_str transfer.tick) _ r1 in
      let (info, e3, r3) = >>=-eq-ok (ok_or (get_token_info x c tick) _) _ r2 in
      let (a, e4, r4) = >>=-eq-ok (parse_amount x transfer.amount info.decimal) _ r3 in
      let (_, e5, r5) =
        >>=-eq-ok (fail_if (x.is_no_sign a || x.lt (x.from_nat info.supply) a) _) _ r4 in
      let b = unwrap_or (get_balance x c to tick) (new_balance tick) in
      let (r, e6, r6) = >>=-eq-ok (reserve x b a) _ r5 in
      let (n, h) = parse_amount-IsNat x exact transfer.amount info.decimal e4 in
      rw (sym (ok_inj r6))
        (record { token = ok_or-eq-ok _ _ e3; reserved = reserve-Reserved b a n h e6 })

  abbrev log_of : ExecutionMessage → InscribePlan x → TransferableLog
  log_of msg p = record {
    inscription_id = msg.inscription_id;
    inscription_number = msg.inscription_number;
    amount = p.amount;
    tick = p.info.tick;
    owner = p.to;
  }

  abbrev after_inscribe : Context → ExecutionMessage → InscribePlan x → Context
  after_inscribe c msg p =
      let asset_key : (ℕ × ℕ) × ℕ = (script_tick_key x p.to p.info.tick, msg.new_satpoint) in
      record c {
        balances = insert_pair_key (script_tick_key x p.to p.tick) p.balance c.balances;
        satpoint_to_assets = insert msg.new_satpoint (log_of msg p) c.satpoint_to_assets;
        address_to_assets = asset_key ∷ remove_asset asset_key c.address_to_assets;
      }

  -- The inscribed transfers of a key after one more.
  held_more :
      (c : Context) (msg : ExecutionMessage) (p : InscribePlan x) (k : ℕ × ℕ)
      → lookup msg.new_satpoint c.satpoint_to_assets ≡ none
      → tick_key x p.info.tick ≡ tick_key x p.tick
      → logged x k (insert msg.new_satpoint (log_of msg p) c.satpoint_to_assets)
        ≡ logged x k c.satpoint_to_assets
          + (if is_key k (script_tick_key x p.to p.tick) then p.amount else 0)
  held_more c msg p k fresh info_key =
      logged-insert x k msg.new_satpoint (log_of msg p) c.satpoint_to_assets fresh
      ∙ rw info_key refl

  covered :
      (c : Context) (key k : ℕ × ℕ) (n : ℕ) (b : Balance)
      → measure_at transferable k c.balances ≤ measure_at overall k c.balances
      → measure_at overall key c.balances ≡ b.overall_balance
      → measure_at transferable key c.balances ≡ b.transferable_balance
      → b.transferable_balance + n ≤ b.overall_balance
      → measure_at transferable k c.balances + (if is_key k key then n else 0)
        ≤ measure_at overall k c.balances
  covered c key k n b was at_o at_t room = elim (Bool-cases (is_key k key)) [
    | inl same ↦ let q = key_eq k key same in rw (same, q) (omega (arith, at_o, at_t, room))
    | inr other ↦ rw other (omega (arith, was))
  ]

  after_inscribe-IsInscribed :
      (c : Context) (msg : ExecutionMessage) (p : InscribePlan x)
      → IsBooked x c
      → lookup msg.new_satpoint c.satpoint_to_assets ≡ none
      → Planned c p
      → IsInscribed x c (after_inscribe c msg p)
  after_inscribe-IsInscribed c msg p booked fresh facts =
      let key = script_tick_key x p.to p.tick in
      let b = unwrap_or (get_balance x c p.to p.tick) (new_balance p.tick) in
      let (b_key, at_o, at_t) = balance_read x c p.to p.tick b booked.balance_keys refl in
      let r = facts.reserved in
      let info_key : tick_key x p.info.tick ≡ tick_key x p.tick =
        All-lookup (λ (e : ℕ × TokenInfo). tick_key x e.1.tick ≡ e.0) key.1 p.info c.tokens
          booked.token_keys facts.token in
      let more_t =
        measure_grows transferable key p.balance c.balances p.amount
          (omega (arith, r.more, at_t)) in
      let same_o =
        measure_grows overall key p.balance c.balances 0 (omega (arith, r.same_overall, at_o)) in
      let room : b.transferable_balance + p.amount ≤ b.overall_balance =
        omega (arith, r.more, r.cover) in
      record {
        booked = record {
          sums = λ t. ground (
            arith,
            sum_of-insert_pair_key overall t key p.balance c.balances,
            booked.sums t,
            at_o,
            r.same_overall,
          );
          held = λ k. omega (arith, more_t k, held_more c msg p k fresh info_key, booked.held k);
          cover = λ k. ground (
            arith,
            more_t k,
            same_o k,
            covered c key k p.amount b (booked.cover k) at_o at_t room,
          );
          caps = booked.caps;
          balance_keys =
              insert-BalanceKeys x key p.balance c.balances (ap (tick_key x) r.same_tick ∙ b_key)
                booked.balance_keys;
          token_keys = booked.token_keys;
        };
        key = key;
        amount = p.amount;
        reserved = more_t;
        overall_same = λ k. ground (arith, same_o k);
        tokens_same = refl;
      }

  -- Let the external operations be exact, the books be kept, and no transfer be logged at the new
  -- satpoint. Then the inscription of a transfer either fails and changes nothing, or it adds an
  -- amount to one transferable balance and to the inscribed transfers, leaves every overall balance
  -- and the tokens, and the books are kept. It does not panic.
  pub process_inscribe_transfer-IsInscribed :
      (msg : ExecutionMessage) (transfer : Transfer) (c : Context)
      → IsBooked x c
      → lookup msg.new_satpoint c.satpoint_to_assets ≡ none
      → Handled x c (process_inscribe_transfer x msg transfer c) (λ c' ev. IsInscribed x c c')
  unfolding process_inscribe_transfer update_token_balance insert_transferable_asset
  process_inscribe_transfer-IsInscribed msg transfer c booked fresh =
      elim (Result-cases (plan_inscribe x msg transfer c)) [
        | inl (e, failed) ↦ inl (e, rw failed refl)
        | inr (p, planned) ↦
            let facts = plan_inscribe-Planned msg transfer c planned in
            let b = unwrap_or (get_balance x c p.to p.tick) (new_balance p.tick) in
            let (b_key, _, _) = balance_read x c p.to p.tick b booked.balance_keys refl in
            let key_same : tick_key x p.balance.tick ≡ tick_key x p.tick =
              ap (tick_key x) facts.reserved.same_tick ∙ b_key in
            inr (
              after_inscribe c msg p,
              Event.inscribe_transfer p.info.tick p.amount,
              rw (planned, key_same) refl,
              after_inscribe-IsInscribed c msg p booked fresh facts,
            )
      ]
