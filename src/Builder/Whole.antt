-- ===== src/Builder/Whole.antt =====
-- `build_transaction` as a whole.
use okx_ord.Common.{
  ℕ, ◌≤◌, ◌≡◌, refl, sym, false, ◌==◌, ltb, arith, Bool-cases, inl, inr, ◌⊎◌, length,
}
use okx_ord.Builder.State.{
  Error, Sizes, Target, Transaction, Built, built, failed, panicked, ◌>>=◌, ◌>>◌, contains,
  set_of_two,
}
use okx_ord.Builder.Steps.{min_value}
use okx_ord.Builder.Build.{build, prepare, check_target, build_transaction}
use okx_ord.Builder.Safe.{Ends, Safe}
use okx_ord.Builder.Request.{Request, IsWallet, IsRegular, IsChecked, order}
use okx_ord.Builder.Slop.{IsInexact}
use okx_ord.Builder.Sound.{IsSent, steps-Safe}

pub two_addresses : (a b : ℕ) → (a == b) ≡ false → ltb (length (set_of_two a b)) 2 ≡ false
two_addresses a b different = ground (arith, different)

apart_both :
    (r a b : ℕ)
    → (a == b) ≡ false
    → contains r (set_of_two a b) ≡ false
    → ((r == a) ≡ false) × ((r == b) ≡ false)
unfolding contains
apart_both r a b different h = ground (arith, different, h)

module _ (sizes : Sizes) (q : Request) where
  Safe-cases :
      (r : Built Transaction)
      → Safe (IsSent sizes q) r
      → ((e : Error) × (r ≡ failed e)) ⊎ ((t : Transaction) × (r ≡ built t) × IsSent sizes q t)
  Safe-cases panicked h = absurd h
  Safe-cases (failed e) h = inl (e, refl)
  Safe-cases (built t) h = inr (t, refl, h)

  module _ (wallet : IsWallet sizes q) (regular : IsRegular sizes q) where
    checked_steps :
        (q.first == q.second) ≡ false
        → contains q.recipient (set_of_two q.first q.second) ≡ false
        → IsInexact q.target
        → Safe (IsSent sizes q) (
            check_target sizes q.target q.recipient
            >> (prepare sizes (order q) >>= λ b. build sizes b))
    checked_steps different apart inexact = go q.target refl inexact
      where
        found :
            sizes.dust_value q.recipient ≤ min_value sizes q.target q.recipient → IsChecked sizes q
        found h =
            let (not_first, not_second) = apart_both q.recipient q.first q.second different apart in
            record {
              different = different;
              not_first = not_first;
              not_second = not_second;
              no_dust = h;
            }

        go :
            (t : Target)
            → t ≡ q.target
            → IsInexact t
            → Safe (IsSent sizes q) (
                check_target sizes t q.recipient
                >> (prepare sizes (order q) >>= λ b. build sizes b))
        go Target.postage e i =
            steps-Safe sizes q wallet regular (found (rw (sym e) (omega arith))) inexact
        go (Target.value v) e i = elim (Bool-cases (ltb v (sizes.dust_value q.recipient))) [
          | inl less ↦ rw (Ends, less) tt
          | inr enough ↦
              rw (Ends, enough)
                (steps-Safe sizes q wallet regular
                  (found (
                    let d : sizes.dust_value q.recipient ≤ v = ground (arith, enough) in
                    rw (sym e) d))
                  inexact)
        ]
        go (Target.exact_postage v) e i = absurd i

    build_transaction-Safe :
        IsInexact q.target → Safe (IsSent sizes q) (build_transaction sizes (order q))
    unfolding build_transaction
    build_transaction-Safe inexact = elim (Bool-cases (q.first == q.second)) [
      | inl same ↦ rw same tt
      | inr different ↦ elim (Bool-cases (contains q.recipient (set_of_two q.first q.second))) [
        | inl clash ↦ rw (two_addresses q.first q.second different, clash) tt
        | inr apart ↦
            rw (two_addresses q.first q.second different, apart)
              (checked_steps different apart inexact)
      ]
    ]

    -- For postage or a value, a wallet as in `IsWallet`, with 252 outpoints at most, and a whole fee rate
    -- and sizes as in `IsRegular`, no step panics and no assertion of `build` fails: the result is an error,
    -- or a transaction. All its inputs but the outgoing one are cardinal, none is spent twice, and together
    -- they are worth the outputs and the fee for the transaction's size. The outgoing sat is the first of
    -- the recipient's output, which has at least the value that the target asks for, and not much more. No
    -- other output is dust.
    pub build_transaction-IsSent :
        IsInexact q.target
        → ((e : Error) × (build_transaction sizes (order q) ≡ failed e))
          ⊎ ((t : Transaction) × (build_transaction sizes (order q) ≡ built t) × IsSent sizes q t)
    build_transaction-IsSent inexact =
        Safe-cases (build_transaction sizes (order q)) (build_transaction-Safe inexact)
