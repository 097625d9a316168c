-- ===== src/Builder/Enough.antt =====
-- An outgoing output that is worth enough by itself.
use okx_ord.Common.{
  ℕ, ◌+◌, ◌-◌, ◌≤◌, ◌≡◌, refl, List, [], ◌∷◌, Option, none, some, false, ◌==◌, leb, arith,
  Bool-cases, inl, inr, le→leb,
}
use okx_ord.Common.Dict.{lookup}
use okx_ord.Common.Outcome.{u64_max}
use okx_ord.Builder.State.{
  Sizes, Target, Transaction, TransactionBuilder, Built, built, failed, panicked, ◌>>=◌,
  checked_add, ok_or, value_overflow, keys, remove_utxo, last, set_last, without_last,
}
use okx_ord.Builder.Select.{calculate_sat_offset}
use okx_ord.Builder.Steps.{
  check_inscriptions, select_outgoing, align_outgoing, pad_alignment_output, pad_loop, add_value,
  add_loop, strip_value, deduct_fee, min_value,
}
use okx_ord.Builder.Build.{check_target, prepare, build_transaction}
use okx_ord.Builder.Counts.{==-refl, ==-false-sym}
use okx_ord.Builder.Safe.{Sure, Sure-bind, sub-built, then_built}
use okx_ord.Builder.Request.{Request, IsWallet, IsRegular, IsChecked, order}
use okx_ord.Builder.Funds.{Ledger, state, plain_outputs, padding, unused}
use okx_ord.Builder.Offset.{calculate_sat_offset_lem}
use okx_ord.Builder.Outgoing.{Ledger-selected}
use okx_ord.Builder.Padding.{IsClear}
use okx_ord.Builder.Funding.{plain_fee, last-plain_outputs}
use okx_ord.Builder.Stripping.{Stripped, strip_value-Sure}
use okx_ord.Builder.Deducting.{Deducted, deduct_fee-Sure}
use okx_ord.Builder.Slop.{IsInexact}
use okx_ord.Builder.Sound.{IsSent, build-Sure}
use okx_ord.Builder.Whole.{two_addresses}
use okx_ord.Builder.Exact.{not_leb, not_ltb, apart_from_both}

module _ (sizes : Sizes) (q : Request) (a : Option ℕ) (v : ℕ) where
  abbrev own_state : List (ℕ × ℕ) → List ℕ → TransactionBuilder
  own_state outputs left =
      state q [] [] outputs left (remove_utxo q.outgoing.outpoint (keys q.amounts))

  abbrev ready : TransactionBuilder
  ready = own_state (plain_outputs q a v) (unused q a)

module _ (sizes : Sizes) (q : Request) where
  aligns :
      (a : Option ℕ) (v : ℕ)
      → calculate_sat_offset
          (own_state sizes q a v ((q.recipient, padding q a + v) ∷ []) (q.first ∷ q.second ∷ []))
        ≡ built (padding q a)
      → IsClear sizes q a
      → 1 ≤ sizes.dust_value q.second
      → align_outgoing sizes
          (own_state sizes q a v ((q.recipient, padding q a + v) ∷ []) (q.first ∷ q.second ∷ []))
        ≡ built (ready sizes q a v)
  unfolding align_outgoing last without_last set_last
  aligns none v e clear positive =
      let same : 0 + v ≡ v = omega arith in rw (==-refl q.recipient, e, same) refl
  aligns (some p) v e clear positive =
      let same : p + v - p ≡ v = omega arith in
      rw
        (
          ==-refl q.recipient,
          e,
          not_zero p (omega (arith, clear.0, positive)),
          sub-built (p + v) p (omega arith),
          same,
        )
        refl
    where
      not_zero : (n : ℕ) → 1 ≤ n → (n == 0) ≡ false
      not_zero n h = ground arith

  pads :
      (a : Option ℕ) (v : ℕ)
      → IsClear sizes q a
      → IsChecked sizes q
      → sizes.dust_value q.first ≡ sizes.dust_value q.second
      → pad_alignment_output sizes (ready sizes q a v) ≡ built (ready sizes q a v)
  unfolding pad_alignment_output last pad_loop
  pads none v clear checked same = rw (==-refl q.recipient) refl
  pads (some p) v clear checked same =
      rw
        (
          ==-false-sym q.recipient q.second checked.not_second,
          le→leb (sizes.dust_value q.first) p (omega (arith, same, clear.0)),
        )
        refl

module _ (sizes : Sizes) (q : Request) (a : Option ℕ) (v : ℕ) where
  module _ (wallet : IsWallet sizes q) (regular : IsRegular sizes q) (checked : IsChecked sizes q)
      (alone : check_inscriptions q.outgoing (sizes.dust_value q.second) q.inscriptions ≡ built tt)
      (place : q.outgoing.offset ≡ padding q a) (clear : IsClear sizes q a)
      (priced : lookup q.outgoing.outpoint q.amounts ≡ some (padding q a + v))
      (enough : min_value sizes q.target q.recipient + plain_fee sizes q [] [] a v ≤ v) where
    positive : 1 ≤ v
    positive = omega (arith, enough, checked.no_dust, regular.dust_positive q.recipient)

    own : Ledger q [] [] (padding q a) v (remove_utxo q.outgoing.outpoint (keys q.amounts))
    own =
        Ledger-selected sizes q wallet regular (padding q a + v) (padding q a) v priced
          (omega (arith, place, positive)) (omega (arith, place)) refl

    selected :
        select_outgoing sizes (order q)
        ≡ built
            (own_state sizes q a v ((q.recipient, padding q a + v) ∷ []) (q.first ∷ q.second ∷ []))
    unfolding select_outgoing last
    selected =
        rw
          (
            alone,
            priced,
            not_leb (padding q a + v) q.outgoing.offset (omega (arith, place, positive)),
          )
          refl

    funded : add_value sizes (ready sizes q a v) ≡ built (ready sizes q a v)
    unfolding add_value last add_loop
    funded =
        let total = min_value sizes q.target q.recipient + plain_fee sizes q [] [] a v in
        rw (last-plain_outputs q a v) (
          then_built
            (ok_or
              (checked_add (min_value sizes q.target q.recipient) (plain_fee sizes q [] [] a v))
              value_overflow)
            total _ (built (ready sizes q a v))
            (rw (le→leb total u64_max (omega (arith, enough, own.budget, wallet.fits))) refl)
            (elim (Bool-cases (leb v total)) [
              | inr over ↦ rw over refl
              | inl under ↦
                  let zero_left : total - v ≡ 0 = omega (arith, enough) in
                  rw (under, zero_left) refl
            ]))

    prepared :
        prepare sizes (order q) ≡ strip_value sizes (ready sizes q a v) >>= λ b. deduct_fee sizes b
    unfolding prepare
    prepared =
        rw
          (
            selected,
            aligns sizes q a v
                (calculate_sat_offset_lem sizes q [] [] (padding q a) v
                  (remove_utxo q.outgoing.outpoint (keys q.amounts))
                  ((q.recipient, padding q a + v) ∷ []) (q.first ∷ q.second ∷ []) wallet own)
                clear (regular.dust_positive q.second),
            pads sizes q a v clear checked regular.dust_same,
            funded,
          )
          refl

    prepare-Sure : Sure (Deducted sizes q) (prepare sizes (order q))
    prepare-Sure = rw prepared (
        Sure-bind (Stripped sizes q) (Deducted sizes q) (strip_value sizes (ready sizes q a v)) _
          (strip_value-Sure sizes q wallet regular (ready sizes q a v)
            ([], [], a, v, _, own, clear, enough, refl))
          (λ b h. deduct_fee-Sure sizes q wallet regular checked b h))

    passes_target :
        (t : Target)
        → sizes.dust_value q.recipient ≤ min_value sizes t q.recipient
        → check_target sizes t q.recipient ≡ built tt
    passes_target Target.postage h = refl
    passes_target (Target.value x) h = rw (not_ltb x (sizes.dust_value q.recipient) h) refl
    passes_target (Target.exact_postage x) h = rw (not_ltb x (sizes.dust_value q.recipient) h) refl

    build_transaction-Sure :
        IsInexact q.target → Sure (IsSent sizes q) (build_transaction sizes (order q))
    unfolding build_transaction
    build_transaction-Sure inexact =
        rw
          (
            two_addresses q.first q.second checked.different,
            apart_from_both q.recipient q.first q.second checked.not_first checked.not_second,
            passes_target q.target checked.no_dust,
          )
          (Sure-bind (Deducted sizes q) (IsSent sizes q) (prepare sizes (order q)) _ prepare-Sure
            (λ b h. build-Sure sizes q wallet regular checked inexact b h))

    -- For postage or a value, a wallet as in `IsWallet`, with 252 outpoints at most, a whole fee rate and
    -- sizes as in `IsRegular`, and addresses and a least value as in `IsChecked`: if no other inscription is
    -- in the way, and the outgoing output alone has no dust or nothing before the outgoing sat and the least
    -- value and the fee from it on, then the result is a transaction, and one as it should be.
    pub build_transaction-built :
        IsInexact q.target
        → (t : Transaction) × (build_transaction sizes (order q) ≡ built t) × IsSent sizes q t
    build_transaction-built inexact =
        finish (build_transaction sizes (order q)) (build_transaction-Sure inexact)
      where
        finish :
            (r : Built Transaction)
            → Sure (IsSent sizes q) r
            → (t : Transaction) × (r ≡ built t) × IsSent sizes q t
        finish panicked h = absurd h
        finish (failed e) h = absurd h
        finish (built t) h = (t, refl, h)
