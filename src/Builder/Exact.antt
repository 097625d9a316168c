-- ===== src/Builder/Exact.antt =====
-- The exact postage: what `strip_value` leaves, and the assertion of `build` on it.
use okx_ord.Common.{
  ℕ, ◌+◌, ◌-◌, ◌≤◌, ◌<◌, ◌≡◌, refl, [], ◌∷◌, none, some, false, ◌==◌, leb, ltb, arith, le→leb,
  lt→ltb,
}
use okx_ord.Common.Dict.{lookup}
use okx_ord.Common.Outcome.{u64_max}
use okx_ord.Builder.FeeRate.{fee, fee_add}
use okx_ord.Builder.State.{
  Sizes, Target, TransactionBuilder, built, panicked, sub, checked_add, ok_or, value_overflow, keys,
  contains, set_of_two, remove_utxo, last, set_last,
}
use okx_ord.Builder.Steps.{
  check_inscriptions, select_outgoing, align_outgoing, pad_alignment_output, add_value, add_loop,
  strip_value, strip_to, deduct_fee, sum_outputs, additional_output_vbytes,
}
use okx_ord.Builder.Build.{count, check_slop, check_outputs, build, prepare, build_transaction}
use okx_ord.Builder.Counts.{==-refl}
use okx_ord.Builder.Safe.{add-built, then_built, sub-built}
use okx_ord.Builder.Request.{Request, IsWallet, IsRegular, IsChecked, order}
use okx_ord.Builder.Funds.{Ledger, state}
use okx_ord.Builder.Offset.{calculate_sat_offset_lem}
use okx_ord.Builder.Addresses.{count-recipient, change_once}
use okx_ord.Builder.Checks.{count_amounts-once, find_output_lem}
use okx_ord.Builder.Whole.{two_addresses}
use okx_ord.Builder.Outgoing.{Ledger-selected}

pub not_leb : (a b : ℕ) → b < a → leb a b ≡ false
not_leb a b h = ground arith

pub not_ltb : (a b : ℕ) → b ≤ a → ltb a b ≡ false
not_ltb a b h = ground arith

count_alone : (u : ℕ) → count u (u ∷ []) ≡ 1
unfolding count
count_alone u = rw (==-refl u) refl

pub apart_from_both :
    (r a b : ℕ) → (r == a) ≡ false → (r == b) ≡ false → contains r (set_of_two a b) ≡ false
unfolding contains
apart_from_both r a b h g = ground (arith, h, g)

-- A request for an exact postage.
abbrev pub exactly : Request → ℕ → Request
exactly r p = record r { target = Target.exact_postage p }

module _ (sizes : Sizes) (r : Request) (p amount : ℕ) where
  abbrev q : Request
  q = exactly r p

  abbrev one_fee : ℕ
  one_fee = fee sizes.rate (sizes.vsize 1 (q.recipient ∷ []))

  abbrev lone : ℕ → TransactionBuilder
  lone v =
      state q [] [] ((q.recipient, v) ∷ []) (q.first ∷ q.second ∷ [])
        (remove_utxo q.outgoing.outpoint (keys q.amounts))

  module _ (wallet : IsWallet sizes q) (regular : IsRegular sizes q) (checked : IsChecked sizes q)
      (start : q.outgoing.offset ≡ 0)
      (alone : check_inscriptions q.outgoing (sizes.dust_value q.second) q.inscriptions ≡ built tt)
      (priced : lookup q.outgoing.outpoint q.amounts ≡ some amount)
      (much : p + fee sizes.rate additional_output_vbytes + one_fee < amount)
      (little : amount
        ≤ p
          + sizes.dust_value q.second
          + fee sizes.rate (sizes.vsize 1 (q.recipient ∷ []) + additional_output_vbytes)) where
    own : Ledger q [] [] 0 amount (remove_utxo q.outgoing.outpoint (keys q.amounts))
    own =
        Ledger-selected sizes q wallet regular amount 0 amount priced (omega (arith, start, much))
          (omega (arith, start)) (omega arith)

    worth_u64 : amount + 20000 + fee sizes.rate additional_output_vbytes ≤ u64_max
    worth_u64 = omega (arith, own.budget, wallet.fits)

    selected : select_outgoing sizes (order q) ≡ built (lone amount)
    unfolding select_outgoing last
    selected = rw (alone, priced, start, not_leb amount 0 (omega (arith, much))) refl

    aligned_at_0 : align_outgoing sizes (lone amount) ≡ built (lone amount)
    unfolding align_outgoing
    aligned_at_0 =
        rw (==-refl q.recipient, calculate_sat_offset_lem sizes q [] [] 0 amount _ _ _ wallet own)
          refl

    padded : pad_alignment_output sizes (lone amount) ≡ built (lone amount)
    unfolding pad_alignment_output
    padded = rw (==-refl q.recipient) refl

    funded : add_value sizes (lone amount) ≡ built (lone amount)
    unfolding add_value last add_loop
    funded =
        (then_built (ok_or (checked_add p one_fee) value_overflow) (p + one_fee) _
          (built (lone amount))
          (rw (le→leb (p + one_fee) u64_max (omega (arith, much, worth_u64))) refl)
          (rw (not_leb amount (p + one_fee) (omega (arith, much))) refl))

    kept : strip_value sizes (lone amount) ≡ built (lone amount)
    unfolding strip_value sum_outputs contains strip_to last
    kept =
        rw
          (
            calculate_sat_offset_lem sizes q [] [] 0 amount _ ((q.recipient, amount) ∷ []) _ wallet
                own,
            add-built 0 amount (omega (arith, worth_u64)),
            ==-refl q.recipient,
          )
          (then_built (sub (0 + amount) 0) amount _ (built (lone amount))
            (rw (sub-built (0 + amount) 0 (omega arith), unpadded) refl)
            (rw (le→leb one_fee amount (omega (arith, much))) (
              rw
                (
                  lt→ltb p (amount - one_fee) (omega (arith, much)),
                  sub-built amount p (omega (arith, much)),
                  add-built (sizes.dust_value q.second)
                      (fee sizes.rate (vbytes + additional_output_vbytes))
                      (omega (arith, sum, small, much, worth_u64, wallet.fits)),
                  no_change,
                )
                refl)))
      where
        vbytes : ℕ
        vbytes = sizes.vsize 1 (q.recipient ∷ [])

        unpadded : 0 + amount - 0 ≡ amount
        unpadded = omega arith

        small : sizes.dust_value q.second ≤ 10000
        small = regular.dust_small q.second

        sum :
            fee sizes.rate (vbytes + additional_output_vbytes)
            ≤ fee sizes.rate vbytes + fee sizes.rate additional_output_vbytes
        sum = fee_add sizes.rate regular.whole vbytes additional_output_vbytes

        no_change :
            ltb
              (sizes.dust_value q.second + fee sizes.rate (vbytes + additional_output_vbytes))
              (amount - p)
            ≡ false
        no_change =
            not_ltb (sizes.dust_value q.second + fee sizes.rate (vbytes + additional_output_vbytes))
              (amount - p) (omega (arith, little))

    deducted : deduct_fee sizes (lone amount) ≡ built (lone (amount - one_fee))
    unfolding deduct_fee sum_outputs last set_last
    deducted =
        rw
          (
            calculate_sat_offset_lem sizes q [] [] 0 amount _ ((q.recipient, amount) ∷ []) _ wallet
                own,
            add-built 0 amount (omega (arith, worth_u64)),
            sub-built (0 + amount) one_fee (omega (arith, much)),
            lt→ltb 0 (0 + amount - one_fee) (omega (arith, much)),
            le→leb one_fee amount (omega (arith, much)),
          )
          refl

    prepared : prepare sizes (order q) ≡ built (lone (amount - one_fee))
    unfolding prepare
    prepared = rw (selected, aligned_at_0, padded, funded, kept, deducted) refl

    stops :
        check_outputs sizes (lone (amount - one_fee)) 0 0 ((q.recipient, amount - one_fee) ∷ [])
        ≡ panicked
    unfolding check_outputs check_slop
    stops =
        rw
          (
            ==-refl q.recipient,
            add-built p (fee sizes.rate additional_output_vbytes) (omega (arith, much, worth_u64)),
            not_leb (amount - one_fee) (p + fee sizes.rate additional_output_vbytes)
                (omega (arith, much)),
          )
          refl

    build-stops : build sizes (lone (amount - one_fee)) ≡ panicked
    unfolding build
    build-stops =
        let least : 1 ≤ amount - one_fee = omega (arith, much) in
        rw
          (
            count_amounts-once q.outgoing.outpoint q.outgoing.offset amount q.amounts priced
                (omega (arith, start, much)) (wallet.once q.outgoing.outpoint),
            count_alone q.outgoing.outpoint,
            calculate_sat_offset_lem sizes q [] [] 0 amount _ ((q.recipient, amount - one_fee) ∷ [])
                _ wallet own,
            find_output_lem q none (amount - one_fee) none least (omega (arith, worth_u64)),
            count-recipient sizes q checked none (amount - one_fee) none,
            change_once sizes q checked none (amount - one_fee) none,
            stops,
          )
          refl

    -- For an exact postage, a wallet as in `IsWallet`, with 252 outpoints at most, a whole fee rate and
    -- sizes as in `IsRegular`, and addresses and a least value as in `IsChecked`: let an output start with
    -- the outgoing sat, alone with its inscription, and be worth more than the postage with the fees of the
    -- transaction and of one more output, but no more than what the code wants left for a change output.
    -- Then `strip_value` leaves it as it is, and the assertion of `build` on the recipient's value panics.
    pub build_transaction-exact_postage : build_transaction sizes (order q) ≡ panicked
    unfolding build_transaction
    build_transaction-exact_postage =
        rw
          (
            two_addresses q.first q.second checked.different,
            apart_from_both q.recipient q.first q.second checked.not_first checked.not_second,
            not_ltb p (sizes.dust_value q.recipient) checked.no_dust,
            prepared,
            build-stops,
          )
          refl
