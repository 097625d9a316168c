-- ===== src/Brc20/Books/Transfers.antt =====
-- What a transfer does to the books.
use okx_ord.Common.{
  ℕ, ◌+◌, ◌≤◌, ◌≡◌, refl, ◌∙◌, sym, ap, some, not, ◌||◌, if◌then◌else◌, arith, inl, inr, unwrap_or,
  is_some,
}
use okx_ord.Common.Dict.{lookup, remove}
use okx_ord.Common.Outcome.{u128_max}
use okx_ord.Brc20.External.{External, IsExact, ScriptKey}
use okx_ord.Brc20.Types.{
  Balance, TransferableLog, ExecutionMessage, Event, new_balance, Result-cases,
}
use okx_ord.Brc20.Exact.{to_u128-fits}
use okx_ord.Brc20.Store.{
  Context, tick_key, script_tick_key, get_balance, update_token_balance, remove_transferable_asset,
  remove_asset,
}
use okx_ord.Brc20.Store.Pairs.{
  is_key, insert_pair_key, measure_at, sum_of-insert_pair_key, measure_grows, measure_falls,
  measure_at-le-sum_of,
}
use okx_ord.Brc20.Plan.{plan_transfer, TransferPlan}
use okx_ord.Brc20.Execute.{process_transfer, is_op_return}
use okx_ord.Brc20.Books.Effects.{IsTransferred}
use okx_ord.Brc20.Books.{
  overall, transferable, burned_of, IsCapped, All-lookup, IsBooked, Handled, balance_read,
  insert-BalanceKeys, logged-remove, logged,
}
use okx_ord.Brc20.Books.Credits.{credited_balance, credit-runs}
use okx_ord.Brc20.Books.Mints.{minted_of-some}
use okx_ord.Brc20.Books.Withdrawals.{Planned, plan_transfer-Planned}
use okx_ord.Brc20.Books.Burns.{burned_of-some, after_burn, after_burn-Burned, burn_if-runs}

module _ (x : External) (exact : IsExact x) where
  abbrev after_transfer : Context → ExecutionMessage → TransferPlan x → Balance → Context
  after_transfer c msg p b =
      let to = unwrap_or msg.to msg.from in
      let asset_key : (ℕ × ℕ) × ℕ =
        (script_tick_key x p.asset.owner p.asset.tick, msg.old_satpoint) in
      record c {
        balances =
            insert_pair_key (script_tick_key x to p.asset.tick) (credited_balance b p.asset.amount)
              (insert_pair_key (script_tick_key x msg.from p.asset.tick) p.from_balance c.balances);
        tokens =
            after_burn (is_op_return to) (tick_key x p.asset.tick) p.info p.asset.amount c.tokens;
        satpoint_to_assets = remove msg.old_satpoint c.satpoint_to_assets;
        address_to_assets = remove_asset asset_key c.address_to_assets;
      }

  abbrev withdrawn_context : Context → ExecutionMessage → TransferPlan x → Context
  withdrawn_context c msg p = record c {
    balances = insert_pair_key (script_tick_key x msg.from p.asset.tick) p.from_balance c.balances;
  }

  -- The books of a transfer, in the balances of its two keys.
  after_transfer-IsTransferred :
      (c : Context) (msg : ExecutionMessage) (p : TransferPlan x) (b : Balance)
      → IsBooked x c
      → Planned x msg c p
      → b
        ≡ unwrap_or
            (get_balance x (withdrawn_context c msg p) (unwrap_or msg.to msg.from) p.asset.tick)
            (new_balance p.asset.tick)
      → IsTransferred x msg c (after_transfer c msg p b)
  after_transfer-IsTransferred c msg p b booked facts is_b =
      let n = p.asset.amount in
      let to = unwrap_or msg.to msg.from in
      let from_key = script_tick_key x msg.from p.asset.tick in
      let to_key = script_tick_key x to p.asset.tick in
      let was = unwrap_or (get_balance x c msg.from p.asset.tick) (new_balance p.asset.tick) in
      let w = facts.withdrawn in
      let (was_key, was_o, was_t) =
        balance_read x c msg.from p.asset.tick was booked.balance_keys refl in
      let d1 = insert_pair_key from_key p.from_balance c.balances in
      let keys1 =
        insert-BalanceKeys x from_key p.from_balance c.balances
          (ap (tick_key x) w.same_tick ∙ was_key) booked.balance_keys in
      let (b_key, at_o, at_t) =
        balance_read x (withdrawn_context c msg p) to p.asset.tick b keys1 is_b in
      let falls_o =
        measure_falls overall from_key p.from_balance c.balances n (w.less ∙ sym was_o) in
      let falls_t =
        measure_falls transferable from_key p.from_balance c.balances n
          (w.less_transferable ∙ sym was_t) in
      let grows_o =
        measure_grows overall to_key (credited_balance b n) d1 n (omega (arith, at_o)) in
      let same_t =
        measure_grows transferable to_key (credited_balance b n) d1 0 (omega (arith, at_t)) in
      let burn =
        after_burn-Burned x (is_op_return to) (tick_key x p.asset.tick) p.info n c.tokens
          facts.token booked.caps booked.token_keys in
      let moved : (k : ℕ × ℕ)
          → measure_at overall k (insert_pair_key to_key (credited_balance b n) d1)
              + (if is_key k from_key then n else 0)
            ≡ measure_at overall k c.balances + (if is_key k to_key then n else 0) =
        λ k. omega (arith, grows_o k, falls_o k) in
      let released : (k : ℕ × ℕ)
          → measure_at transferable k (insert_pair_key to_key (credited_balance b n) d1)
              + (if is_key k from_key then n else 0)
            ≡ measure_at transferable k c.balances =
        λ k. ground (arith, same_t k, falls_t k) in
      let logs : (k : ℕ × ℕ)
          → logged x k (remove msg.old_satpoint c.satpoint_to_assets)
              + (if is_key k (script_tick_key x msg.from p.asset.tick) then n else 0)
            ≡ logged x k c.satpoint_to_assets =
        λ k.
          rw (sym facts.owner)
            (logged-remove x k msg.old_satpoint p.asset c.satpoint_to_assets facts.asset) in
      record {
        booked = record {
          sums = λ t. ground (
            arith,
            sum_of-insert_pair_key overall t from_key p.from_balance c.balances,
            sum_of-insert_pair_key overall t to_key (credited_balance b n) d1,
            booked.sums t,
            burn.minted_same t,
            at_o,
            was_o,
            w.less,
          );
          held = λ k. omega (arith, released k, logs k, booked.held k);
          cover = λ k. ground (arith, moved k, released k, booked.cover k);
          caps = burn.caps;
          balance_keys = insert-BalanceKeys x to_key (credited_balance b n) d1 b_key keys1;
          token_keys = burn.token_keys;
        };
        asset = p.asset;
        spent = facts.asset;
        logs = refl;
        owner = facts.owner;
        moved = moved;
        released = released;
        minted_same = burn.minted_same;
        burned = burn.burned;
      }

  -- The receiver's balance has room for the amount.
  room :
      (c : Context) (msg : ExecutionMessage) (p : TransferPlan x) (script : ScriptKey)
      → IsBooked x c
      → Planned x msg c p
      → measure_at overall
            (script_tick_key x script p.asset.tick)
            (withdrawn_context c msg p).balances
          + p.asset.amount
        ≤ u128_max
  room c msg p script booked facts =
      let key = tick_key x p.asset.tick in
      let from_key = script_tick_key x msg.from p.asset.tick in
      let was = unwrap_or (get_balance x c msg.from p.asset.tick) (new_balance p.asset.tick) in
      let (_, was_o, _) = balance_read x c msg.from p.asset.tick was booked.balance_keys refl in
      let sums = sum_of-insert_pair_key overall key from_key p.from_balance c.balances in
      let cap = All-lookup IsCapped key p.info c.tokens booked.caps facts.token in
      let total = minted_of-some key c.tokens facts.token in
      let part =
        measure_at-le-sum_of overall (script_tick_key x script p.asset.tick)
          (withdrawn_context c msg p).balances in
      ground (arith, part, sums, booked.sums key, total, cap.0, cap.1, was_o, facts.withdrawn.less)

  -- Let the external operations be exact and the books be kept, and let what is burned of the tick
  -- of the log at the old satpoint have room for its amount. Then a transfer either fails and
  -- changes nothing, or it spends that log, which the sender owns: the amount goes from the sender's
  -- two balances to the receiver's overall balance, what is minted stays, what is burned grows by
  -- it if the receiver is an OP_RETURN, and the books are kept. It does not panic.
  pub process_transfer-IsTransferred :
      (msg : ExecutionMessage) (c : Context)
      → IsBooked x c
      → ((asset : TransferableLog)
          → lookup msg.old_satpoint c.satpoint_to_assets ≡ some asset
          → burned_of (tick_key x asset.tick) c.tokens + asset.amount ≤ u128_max)
      → Handled x c (process_transfer x msg c) (λ c' ev. IsTransferred x msg c c')
  unfolding process_transfer update_token_balance remove_transferable_asset
  process_transfer-IsTransferred msg c booked burn_room =
      elim (Result-cases (plan_transfer x msg c)) [
        | inl (e, failed) ↦ inl (e, rw failed refl)
        | inr (p, planned) ↦
            let facts = plan_transfer-Planned x exact msg c planned in
            let n = p.asset.amount in
            let to = unwrap_or msg.to msg.from in
            let was =
              unwrap_or (get_balance x c msg.from p.asset.tick) (new_balance p.asset.tick) in
            let (was_key, _, _) =
              balance_read x c msg.from p.asset.tick was booked.balance_keys refl in
            let from_key : tick_key x p.from_balance.tick ≡ tick_key x p.asset.tick =
              ap (tick_key x) facts.withdrawn.same_tick ∙ was_key in
            let c1 = withdrawn_context c msg p in
            let b = unwrap_or (get_balance x c1 to p.asset.tick) (new_balance p.asset.tick) in
            let keys1 =
              insert-BalanceKeys x (script_tick_key x msg.from p.asset.tick) p.from_balance
                c.balances from_key booked.balance_keys in
            let (b_key, at_o, _) = balance_read x c1 to p.asset.tick b keys1 refl in
            let fits : b.overall_balance + n ≤ u128_max =
              omega (arith, at_o, room c msg p to booked facts) in
            let burned : p.info.burned_supply + n ≤ u128_max = omega (
              arith,
              burn_room p.asset facts.asset,
              burned_of-some (tick_key x p.asset.tick) c.tokens facts.token,
            ) in
            let is_n = exact.from_nat_nat n in
            inr (
              after_transfer c msg p b,
              Event.transfer p.info.tick n (not (is_some msg.to) || is_op_return to),
              rw
                  (
                    planned,
                    from_key,
                    credit-runs x exact to p.asset.tick (x.from_nat n) n c1 b refl is_n b_key fits,
                    facts.asset,
                    remove_transferable_asset,
                    burn_if-runs x exact (is_op_return to) p.asset.tick p.info n
                        (record (after_transfer c msg p b) { tokens = c.tokens }) facts.token
                        burned,
                    to_u128-fits x exact n is_n (omega (arith, fits)),
                  )
                  refl,
              after_transfer-IsTransferred c msg p b booked facts refl,
            )
      ]
