-- ===== src/Runes/Conserve/Store.antt =====
-- The outputs' balances enter the table, those of an OP_RETURN are burned.
use okx_ord.Common.{
  ℕ, ◌+◌, ◌≤◌, ◌≡◌, refl, List, [], ◌∷◌, none, Bool, true, false, leb, arith, length,
}
use okx_ord.Common.Dict.{Dict, lookup, insert, total, under, lookup-insert}
use okx_ord.Common.Outcome.{done, add_checked_fits, u32_max, u128_max}
use okx_ord.Runes.Types.{outpoint_key}
use okx_ord.Runes.RuneId.RoundTrip.{store_rune_id-try_from}
use okx_ord.Runes.Updater.State.{RuneUpdate}
use okx_ord.Runes.Updater.Settle.{store_output, store_outputs, count_burned}
use okx_ord.Runes.Conserve.Totals.{total_all, HasIds, AllHasIds}
use okx_ord.Runes.Conserve.Held.{held, TableHasIds, held-insert, insert-TableHasIds}
use okx_ord.Runes.Conserve.Buffers.{
  AllFit-of_totals, balances_of-encode_balances, total-sort_pairs, sort_pairs-HasIds,
}
use okx_ord.Runes.Conserve.Leftovers.{burn_all-Joined}
use okx_ord.Runes.Conserve.Minting.{update_of}

abbrev pub out_key : ℕ → ℕ → ℕ
out_key txid vout = outpoint_key (record { txid = txid; vout = vout })

-- No output of the transaction from `vout` on is in the table yet.
abbrev pub IsFresh : ℕ → ℕ → Dict (List ℕ) → Type 0
IsFresh txid vout table = (v : ℕ) → vout ≤ v → lookup (out_key txid v) table ≡ none

IsFresh-insert :
    (txid vout : ℕ) (buffer : List ℕ) (table : Dict (List ℕ))
    → IsFresh txid vout table
    → IsFresh txid (vout + 1) (insert (out_key txid vout) buffer table)
IsFresh-insert txid vout buffer table fresh v h =
    ground (
      arith,
      lookup-insert (out_key txid vout) (out_key txid v) buffer table,
      fresh v (omega arith),
    )

-- The balances of some outputs went to the table or were burned.
pub record Stored (txid : ℕ) (vout : ℕ) (from : ℕ → ℕ) (table : Dict (List ℕ)) (burned : Dict ℕ)
    (table' : Dict (List ℕ)) (burned' : Dict ℕ) : Type 0 where
  pub sums : (k : ℕ) → held k table' + total k burned' ≡ held k table + total k burned + from k
  pub table_ids : TableHasIds table'
  pub burned_ids : HasIds burned'
  pub fresh : IsFresh txid vout table'

store_output-Stored :
    (checks : Bool) (txid vout : ℕ) (op_return : Bool) (d : Dict ℕ) (table : Dict (List ℕ))
    (burned : Dict ℕ)
    → vout ≤ u32_max
    → IsFresh txid vout table
    → HasIds d
    → TableHasIds table
    → HasIds burned
    → ((k : ℕ) → total k burned + total k d ≤ u128_max)
    → (r : Dict (List ℕ) × Dict ℕ) × (store_output checks txid vout op_return d table burned
        ≡ done r)
      × Stored txid (vout + 1) (λ k. total k d) table burned r.0 r.1
unfolding store_output
store_output-Stored checks txid vout op_return [] table burned hv fresh hd ht hb fits = (
  (table, burned),
  refl,
  record {
    sums = λ k. unfold total in omega arith;
    table_ids = ht;
    burned_ids = hb;
    fresh = λ v h. fresh v (omega arith);
  },
)
store_output-Stored checks txid vout true (b ∷ bs) table burned hv fresh hd ht hb fits =
    let (burned', e, joined) = burn_all-Joined checks (b ∷ bs) burned fits in
    (
      (table, burned'),
      rw e refl,
      record {
        sums = λ k. omega (arith, joined.sums k);
        table_ids = ht;
        burned_ids = joined.has_ids hd hb;
        fresh = λ v h. fresh v (omega arith);
      },
    )
store_output-Stored checks txid vout false (b ∷ bs) table burned hv fresh hd ht hb fits =
    let (buffer, e, reads, sorted, same) =
      balances_of-encode_balances (b ∷ bs)
        (AllFit-of_totals (b ∷ bs) hd (λ k. omega (arith, fits k))) in
    let small : leb vout u32_max ≡ true = ground arith in
    (
      (insert (out_key txid vout) buffer table, burned),
      rw (e, small) refl,
      record {
        sums = λ k.
            rw
              (
                held-insert k (out_key txid vout) buffer table (fresh vout (omega arith)),
                reads,
                total-sort_pairs k (b ∷ bs),
              )
              (omega arith);
        table_ids =
            insert-TableHasIds (out_key txid vout) buffer table
              (rw reads (sort_pairs-HasIds (b ∷ bs) hd)) ht;
        burned_ids = hb;
        fresh = IsFresh-insert txid vout buffer table fresh;
      },
    )

pub store_outputs-Stored :
    (checks : Bool) (txid vout : ℕ) (outputs : List Bool) (ds : List (Dict ℕ))
    (table : Dict (List ℕ)) (burned : Dict ℕ)
    → length ds ≡ length outputs
    → vout + length outputs ≤ u32_max
    → IsFresh txid vout table
    → AllHasIds ds
    → TableHasIds table
    → HasIds burned
    → ((k : ℕ) → held k table + total k burned + total_all k ds ≤ u128_max)
    → (r : Dict (List ℕ) × Dict ℕ) × (store_outputs checks txid vout outputs ds table burned
        ≡ done r)
      × Stored txid (vout + length outputs) (λ k. total_all k ds) table burned r.0 r.1
unfolding store_outputs total_all AllHasIds
store_outputs-Stored checks txid vout [] [] table burned same hv fresh hd ht hb fits = (
  (table, burned),
  refl,
  record {
    sums = λ k. omega arith;
    table_ids = ht;
    burned_ids = hb;
    fresh = λ v h. fresh v (omega arith);
  },
)
store_outputs-Stored checks txid vout (o ∷ os) [] table burned same hv fresh hd ht hb fits =
    absurd (omega arith)
store_outputs-Stored checks txid vout [] (d ∷ ds) table burned same hv fresh hd ht hb fits =
    absurd (omega arith)
store_outputs-Stored checks txid vout (o ∷ os) (d ∷ ds) table burned same hv fresh hd ht hb fits =
    let ((table1, burned1), e, first) =
      store_output-Stored checks txid vout o d table burned (omega arith) fresh hd.0 ht hb
        (λ k. omega (arith, fits k)) in
    let (r, e', rest) =
      store_outputs-Stored checks txid (vout + 1) os ds table1 burned1 (omega arith) (omega arith)
        first.fresh hd.1 first.table_ids first.burned_ids
        (λ k. omega (arith, fits k, first.sums k)) in
    (
      r,
      rw e e',
      record {
        sums = λ k. omega (arith, rest.sums k, first.sums k);
        table_ids = rest.table_ids;
        burned_ids = rest.burned_ids;
        fresh = λ v h. rest.fresh v (omega arith);
      },
    )

burned_update : ℕ → ℕ → Dict RuneUpdate → RuneUpdate
burned_update id amount u = record (update_of id u) { burned = (update_of id u).burned + amount }

one_burn :
    (k id amount : ℕ) (u : Dict RuneUpdate)
    → let u' = insert id (burned_update id amount u) u in
      ((update_of k u').burned ≡ (update_of k u).burned + under k id amount)
      × ((update_of k u').supply ≡ (update_of k u).supply)
unfolding burned_update
one_burn k id amount u = ground (arith, lookup-insert id k (burned_update id amount u) u)

-- The burned balances are added to the updates, which keep their supplies.
pub count_burned_lem :
    (checks : Bool) (burned : Dict ℕ) (u : Dict RuneUpdate)
    → HasIds burned
    → ((k : ℕ) → (update_of k u).burned + total k burned ≤ u128_max)
    → (u' : Dict RuneUpdate) × (count_burned checks burned u ≡ done u')
      × ((k : ℕ)
          → ((update_of k u').burned ≡ (update_of k u).burned + total k burned)
            × ((update_of k u').supply ≡ (update_of k u).supply))
unfolding count_burned total HasIds burned_update
count_burned_lem checks [] u h fits = (u, refl, λ k. omega arith)
count_burned_lem checks ((id, amount) ∷ burned) u h fits =
    let (key, e, same) = store_rune_id-try_from id h.0 in
    let u1 = insert id (burned_update id amount u) u in
    let (u', e', sums) =
      count_burned_lem checks burned u1 h.1 (λ k. ground (arith, fits k, one_burn k id amount u)) in
    (
      u',
      rw
          (
            e,
            same,
            add_checked_fits checks u128_max (update_of id u).burned amount
                (ground (arith, fits id)),
          )
          e',
      λ k. ground (arith, sums k, one_burn k id amount u),
    )
