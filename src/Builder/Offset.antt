-- ===== src/Builder/Offset.antt =====
-- Where the builder finds the outgoing sat.
use okx_ord.Common.{
  ℕ, ◌+◌, ◌≤◌, ◌≡◌, ap, List, [], ◌∷◌, ◌++◌, true, ◌==◌, arith, All, Bool-cases, inl, inr,
}
use okx_ord.Common.Outcome.{u64_max}
use okx_ord.Builder.State.{Sizes, TransactionBuilder, built}
use okx_ord.Builder.Select.{offset_loop, calculate_sat_offset}
use okx_ord.Builder.Build.{count}
use okx_ord.Builder.Counts.{worth, value_of-some, ==-refl, ==-false-sym}
use okx_ord.Builder.Choice.{Known}
use okx_ord.Builder.Safe.{add-built}
use okx_ord.Builder.Request.{Request, IsWallet}
use okx_ord.Builder.Funds.{Ledger, state}

==-flip : (a b : ℕ) → (a == b) ≡ true → (b == a) ≡ true
==-flip a b h = ground arith

offset_loop_lem :
    (b : TransactionBuilder) (sum : ℕ) (before after : List ℕ)
    → count b.outgoing.outpoint before ≡ 0
    → All (Known b) before
    → sum + worth b.amounts before + b.outgoing.offset ≤ u64_max
    → offset_loop b sum (before ++ b.outgoing.outpoint ∷ after)
      ≡ built (sum + worth b.amounts before + b.outgoing.offset)
unfolding offset_loop worth count
offset_loop_lem b sum [] after absent known fits =
    rw (==-refl b.outgoing.outpoint, add-built sum b.outgoing.offset (omega (arith, fits)))
      (ap built (omega arith))
offset_loop_lem b sum (i ∷ is) after absent ((a, priced), known) fits =
    elim (Bool-cases (i == b.outgoing.outpoint)) [
      | inl same ↦
          absurd (
            let e = ==-flip i b.outgoing.outpoint same in
            let n = rw e at absent in omega (arith, n))
      | inr other ↦
          let w = value_of-some b.amounts i a priced in
          rw
            (
              other,
              priced,
              add-built sum a (omega (arith, w, fits)),
              offset_loop_lem b (sum + a) is after
                  (let o = ==-false-sym i b.outgoing.outpoint other in
                    let n = rw o at absent in omega (arith, n))
                  known (omega (arith, w, fits)),
            )
            (ap built (omega (arith, w)))
    ]

-- In each of the builder's states the outgoing sat comes right after the padding.
pub calculate_sat_offset_lem :
    (sizes : Sizes) (q : Request) (before after : List ℕ) (p v : ℕ) (utxos : List ℕ)
    (outputs : List (ℕ × ℕ)) (unused : List ℕ)
    → IsWallet sizes q
    → Ledger q before after p v utxos
    → calculate_sat_offset (state q before after outputs unused utxos) ≡ built p
unfolding calculate_sat_offset
calculate_sat_offset_lem sizes q before after p v utxos outputs unused wallet h =
    let o = h.once q.outgoing.outpoint in
    let same = ==-refl q.outgoing.outpoint in
    let o = rw same at o in
    rw
      (offset_loop_lem (state q before after outputs unused utxos) 0 before after (omega (arith, o))
        h.known_before (omega (arith, h.place, h.budget, wallet.fits)))
      (ap built (omega (arith, h.place)))
