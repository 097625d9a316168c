-- ===== src/Builder/Outgoing.antt =====
-- `select_outgoing` and `align_outgoing`.
use okx_ord.Common.{
  ℕ, ◌+◌, ◌-◌, ◌≤◌, ◌≡◌, refl, List, [], ◌∷◌, Option, none, some, not, ◌==◌, ltb, leb, ◌&&◌, arith,
  All, Bool-cases, Option-cases, inl, inr,
}
use okx_ord.Common.Dict.{Dict, lookup}
use okx_ord.Common.Outcome.{u64_max}
use okx_ord.Builder.State.{
  SatPoint, Sizes, TransactionBuilder, keys, remove_utxo, last, without_last, set_last,
}
use okx_ord.Builder.Steps.{check_inscriptions, select_outgoing, align_outgoing, target_postage}
use okx_ord.Builder.Build.{count}
use okx_ord.Builder.Counts.{
  length-remove_utxo, worth, value_of-some, ==-refl, count-remove_utxo, worth-remove_utxo,
  All-remove_utxo,
}
use okx_ord.Builder.Choice.{Known}
use okx_ord.Builder.Safe.{Safe, Safe-bind, add-built, sub-built}
use okx_ord.Builder.Request.{Request, IsWallet, IsRegular, order}
use okx_ord.Builder.Funds.{Ledger, state, plain_outputs, padding, unused}
use okx_ord.Builder.Offset.{calculate_sat_offset_lem}

listed_key : (k a : ℕ) (d : Dict ℕ) → lookup k d ≡ some a → 1 ≤ count k (keys d)
unfolding lookup count
listed_key k a [] h = cc
listed_key k a ((j, v) ∷ d) h = ground (arith, listed_key k a d)

abbrev IsKey : Dict ℕ → ℕ → Type 0
IsKey d k = (a : ℕ) × (lookup k d ≡ some a)

longer : (j v : ℕ) (d : Dict ℕ) (ks : List ℕ) → All (IsKey d) ks → All (IsKey ((j, v) ∷ d)) ks
unfolding lookup
longer j v d [] h = tt
longer j v d (k ∷ ks) ((a, e), h) = elim (Bool-cases (k == j)) [
  | inl same ↦ ((v, rw same refl), longer j v d ks h)
  | inr other ↦ ((a, rw other e), longer j v d ks h)
]

keys-IsKey : (d : Dict ℕ) → All (IsKey d) (keys d)
unfolding lookup
keys-IsKey [] = tt
keys-IsKey ((k, v) ∷ d) = ((v, rw (==-refl k) refl), longer k v d (keys d) (keys-IsKey d))

check_inscriptions-Safe :
    (outgoing : SatPoint) (dust_limit : ℕ) (inscriptions : List (SatPoint × ℕ))
    → dust_limit ≤ target_postage
    → All (λ (i : SatPoint × ℕ). i.0.offset + target_postage ≤ u64_max) inscriptions
    → Safe (λ u. Unit {0}) (check_inscriptions outgoing dust_limit inscriptions)
unfolding check_inscriptions
check_inscriptions-Safe outgoing dust_limit [] small places = tt
check_inscriptions-Safe outgoing dust_limit ((s, id) ∷ rest) small (place, places) =
    Safe-bind (λ u. Unit) (λ u. Unit) (check_inscriptions outgoing dust_limit rest) _
      (check_inscriptions-Safe outgoing dust_limit rest small places)
      (λ u t.
        elim (Bool-cases (outgoing.outpoint == s.outpoint && not (outgoing.offset == s.offset))) [
          | inl here ↦
              rw (here, add-built s.offset dust_limit (omega (arith, place, small)))
                (elim (Bool-cases (ltb outgoing.offset (s.offset + dust_limit))) [
                  | inl near ↦ rw near tt
                  | inr far ↦ rw far tt
                ])
          | inr other ↦ rw other tt
        ])

-- The builder after `select_outgoing`: the outgoing input, and the recipient's output with all its value.
abbrev pub Selected : Request → TransactionBuilder → Type 0
Selected q b =
    (amount : ℕ) × (lookup q.outgoing.outpoint q.amounts ≡ some amount)
    × (q.outgoing.offset + 1 ≤ amount)
    × (b
        ≡ state q [] [] ((q.recipient, amount) ∷ []) (q.first ∷ q.second ∷ [])
            (remove_utxo q.outgoing.outpoint (keys q.amounts)))

-- The builder after `align_outgoing`.
abbrev pub Aligned : Request → TransactionBuilder → Type 0
Aligned q b =
    (a : Option ℕ) × (v : ℕ) × (utxos : List ℕ) × Ledger q [] [] (padding q a) v utxos
    × (b ≡ state q [] [] (plain_outputs q a v) (unused q a) utxos)

module _ (sizes : Sizes) (q : Request) (wallet : IsWallet sizes q)
    (regular : IsRegular sizes q) where
  pub select_outgoing-Safe : Safe (Selected q) (select_outgoing sizes (order q))
  unfolding select_outgoing last
  select_outgoing-Safe =
      Safe-bind (λ u. Unit) (Selected q) _ _
        (check_inscriptions-Safe q.outgoing (sizes.dust_value q.second) q.inscriptions
          (regular.dust_small q.second) wallet.places)
        (λ u t. (elim (Option-cases (lookup q.outgoing.outpoint q.amounts)) [
          | inl missing ↦ rw missing tt
          | inr (amount, priced) ↦ rw priced (elim (Bool-cases (leb amount q.outgoing.offset)) [
            | inl outside ↦ rw (outside, sub-built amount 1 (wallet.filled amount priced)) tt
            | inr inside ↦ rw inside (amount, priced, ground (arith, inside), refl)
          ])
        ]))

  pub Ledger-selected :
      (amount p v : ℕ)
      → lookup q.outgoing.outpoint q.amounts ≡ some amount
      → q.outgoing.offset + 1 ≤ amount
      → p ≡ q.outgoing.offset
      → p + v ≡ amount
      → Ledger q [] [] p v (remove_utxo q.outgoing.outpoint (keys q.amounts))
  unfolding worth count
  Ledger-selected amount p v priced inside place total =
      let o = q.outgoing.outpoint in
      let w = value_of-some q.amounts o amount priced in
      let l = listed_key o amount q.amounts priced in
      let only : count o (keys q.amounts) ≡ 1 = (let k = wallet.once o in omega (arith, k, l)) in
      record {
        once = λ u.
            (let r = count-remove_utxo u o (keys q.amounts) in
              let k = wallet.once u in ground (arith, r, k));
        room = (let r = length-remove_utxo o (keys q.amounts) in omega (arith, r, only));
        inside = omega (arith, w, inside);
        place = omega (arith, place);
        total = omega (arith, w, total);
        budget = omega (arith, w, total, worth-remove_utxo q.amounts o (keys q.amounts) only);
        outgoing = (amount, priced);
        known_before = tt;
        known_after = tt;
        known_utxos = All-remove_utxo (Known (order q)) o (keys q.amounts) (keys-IsKey q.amounts);
        cardinal_before = tt;
        cardinal_after = tt;
      }

  pub align_outgoing-Safe :
      (b : TransactionBuilder) → Selected q b → Safe (Aligned q) (align_outgoing sizes b)
  unfolding align_outgoing last without_last set_last
  align_outgoing-Safe b (amount, priced, inside, e) = rw e (
      rw
        (
          ==-refl q.recipient,
          calculate_sat_offset_lem sizes q [] [] q.outgoing.offset (amount - q.outgoing.offset) _ _
              _ wallet
              (Ledger-selected amount q.outgoing.offset (amount - q.outgoing.offset) priced inside
                refl (omega (arith, inside))),
        )
        (elim (Bool-cases (q.outgoing.offset == 0)) [
          | inl start ↦ rw start (
            none,
            amount,
            _,
            Ledger-selected amount 0 amount priced inside (ground (arith, start)) (omega arith),
            refl,
          )
          | inr later ↦
              rw (later, sub-built amount q.outgoing.offset (omega (arith, inside)))
                (
                  some q.outgoing.offset,
                  amount - q.outgoing.offset,
                  _,
                  Ledger-selected amount q.outgoing.offset (amount - q.outgoing.offset) priced
                      inside refl (omega (arith, inside)),
                  refl,
                )
        ]))
