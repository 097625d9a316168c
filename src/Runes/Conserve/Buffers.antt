-- ===== src/Runes/Conserve/Buffers.antt =====
-- The stored buffers of balances, encoded and decoded.
use okx_ord.Common.{
  ℕ, zero, suc, ◌+◌, ◌≤◌, ◌≡◌, refl, ◌∙◌, List, [], ◌∷◌, ◌++◌, ltb, leb, ◌==◌, ◌||◌, ◌&&◌, arith,
  length, drop-append, length-append, Bool-cases, inl, inr, ap,
}
use mathlib.Core.List.{append-nil, append_assoc}
use okx_ord.Common.Dict.{Dict, total, under}
use okx_ord.Common.Outcome.{done, u128_max}
use okx_ord.Runes.Varint.{decode}
use okx_ord.Runes.Varint.RoundTrip.{decode-encode_to_vec}
use okx_ord.Runes.Updater.Settle.{insert_pair, sort_pairs, encode_balances}
use okx_ord.Runes.Conserve.Totals.{HasIds, IsRuneId}
use okx_ord.Runes.Conserve.Held.{pairs, balances_of}
use okx_ord.Runes.Conserve.Sorted.{IsSorted, times, sort_pairs-IsSorted, times-sort_pairs}

-- Ids and balances are `u128`s.
unfoldable pub AllFit : Dict ℕ → Type 0
AllFit [] = Unit
AllFit ((id, v) ∷ d) = (id ≤ u128_max) × (v ≤ u128_max) × AllFit d

pub AllFit-of_totals : (d : Dict ℕ) → HasIds d → ((k : ℕ) → total k d ≤ u128_max) → AllFit d
unfolding AllFit HasIds total
AllFit-of_totals [] h fits = tt
AllFit-of_totals ((id, v) ∷ d) h fits =
    (omega arith, ground (arith, fits id), AllFit-of_totals d h.1 (λ k. omega (arith, fits k)))

insert_pair-AllFit :
    (x : ℕ × ℕ) (d : Dict ℕ) → x.0 ≤ u128_max → x.1 ≤ u128_max → AllFit d → AllFit (insert_pair x d)
unfolding AllFit insert_pair
insert_pair-AllFit x [] hk hv h = (hk, hv, tt)
insert_pair-AllFit x (y ∷ d) hk hv h = ground (arith, insert_pair-AllFit x d hk hv)

sort_pairs-AllFit : (d : Dict ℕ) → AllFit d → AllFit (sort_pairs d)
unfolding AllFit sort_pairs
sort_pairs-AllFit [] h = tt
sort_pairs-AllFit (x ∷ d) h = insert_pair-AllFit x _ h.0 h.1 (sort_pairs-AllFit d h.2)

insert_pair-HasIds : (x : ℕ × ℕ) (d : Dict ℕ) → IsRuneId x.0 → HasIds d → HasIds (insert_pair x d)
unfolding HasIds insert_pair
insert_pair-HasIds x [] hk h = (hk, tt)
insert_pair-HasIds x (y ∷ d) hk h = ground (arith, insert_pair-HasIds x d hk)

pub sort_pairs-HasIds : (d : Dict ℕ) → HasIds d → HasIds (sort_pairs d)
unfolding HasIds sort_pairs
sort_pairs-HasIds [] h = tt
sort_pairs-HasIds (x ∷ d) h = insert_pair-HasIds x _ h.0 (sort_pairs-HasIds d h.1)

total-insert_pair :
    (k : ℕ) (x : ℕ × ℕ) (d : Dict ℕ) → total k (insert_pair x d) ≡ under k x.0 x.1 + total k d
unfolding total insert_pair
total-insert_pair k x [] = refl
total-insert_pair k x (y ∷ d) = elim (Bool-cases (ltb x.0 y.0 || (x.0 == y.0 && leb x.1 y.1))) [
  | inl first ↦ rw first refl
  | inr later ↦ rw later (omega (arith, total-insert_pair k x d))
]

-- Sorting keeps every sum.
pub total-sort_pairs : (k : ℕ) (d : Dict ℕ) → total k (sort_pairs d) ≡ total k d
unfolding total sort_pairs
total-sort_pairs k [] = refl
total-sort_pairs k (x ∷ d) =
    omega (arith, total-insert_pair k x (sort_pairs d), total-sort_pairs k d)

-- Two encoded numbers in front of a buffer decode to one more pair.
pairs_step :
    (fuel : ℕ) (xs ys rest : List ℕ) (id v : ℕ)
    → 1 ≤ length xs
    → ((r : List ℕ) → decode (xs ++ r) ≡ (id, length xs))
    → ((r : List ℕ) → decode (ys ++ r) ≡ (v, length ys))
    → pairs (suc fuel) (xs ++ (ys ++ rest)) ≡ (id, v) ∷ pairs fuel rest
unfolding pairs
pairs_step fuel [] ys rest id v h rx ry = absurd (omega arith)
pairs_step fuel (x ∷ xs) ys rest id v h rx ry =
    rw (rx (ys ++ rest), drop-append (x ∷ xs) (ys ++ rest), ry rest, drop-append ys rest) refl

encode_balances_lem :
    (d : Dict ℕ) (buffer : List ℕ)
    → AllFit d
    → (bs : List ℕ) × (encode_balances d buffer ≡ done (buffer ++ bs))
      × ((fuel : ℕ) → length bs ≤ fuel → pairs fuel bs ≡ d)
unfolding encode_balances AllFit
encode_balances_lem [] buffer h = ([], rw append-nil refl, λ fuel l. empty fuel)
  where
    empty : (fuel : ℕ) → pairs fuel [] ≡ []
    empty zero = unfold pairs in refl
    empty (suc fuel) = unfold pairs in refl
encode_balances_lem ((id, v) ∷ d) buffer h =
    let (xs, ex, lox, hix, rx) = decode-encode_to_vec id buffer h.0 in
    let (ys, ey, loy, hiy, ry) = decode-encode_to_vec v (buffer ++ xs) h.1 in
    let (bs, e, reads) = encode_balances_lem d ((buffer ++ xs) ++ ys) h.2 in
    (
      xs ++ (ys ++ bs),
      rw (ex, ey, e, append_assoc, append_assoc) refl,
      reads_on xs ys bs lox rx ry reads,
    )
  where
    reads_on :
        (xs ys bs : List ℕ)
        → 1 ≤ length xs
        → ((r : List ℕ) → decode (xs ++ r) ≡ (id, length xs))
        → ((r : List ℕ) → decode (ys ++ r) ≡ (v, length ys))
        → ((fuel : ℕ) → length bs ≤ fuel → pairs fuel bs ≡ d)
        → (fuel : ℕ) → length (xs ++ (ys ++ bs)) ≤ fuel
        → pairs fuel (xs ++ (ys ++ bs)) ≡ (id, v) ∷ d
    reads_on xs ys bs lo rx ry reads zero l = absurd (omega (arith, length-append xs (ys ++ bs)))
    reads_on xs ys bs lo rx ry reads (suc fuel) l =
        pairs_step fuel xs ys bs id v lo rx ry
        ∙ ap (◌∷◌ (id, v))
            (reads fuel (omega (arith, length-append xs (ys ++ bs), length-append ys bs)))

-- Let the ids and the balances fit a u128. Then the encoder fills the buffer of an output, and the
-- loop that loads an input reads the sorted pairs from it: each has an id below the next one's, or the
-- same id and no more of it, and every pair is there as often as before.
pub balances_of-encode_balances :
    (d : Dict ℕ)
    → AllFit d
    → (buffer : List ℕ) × (encode_balances (sort_pairs d) [] ≡ done buffer)
      × (balances_of buffer ≡ sort_pairs d)
      × IsSorted (balances_of buffer)
      × ((id v : ℕ) → times id v (balances_of buffer) ≡ times id v d)
unfolding balances_of
balances_of-encode_balances d h =
    let (bs, e, reads) = encode_balances_lem (sort_pairs d) [] (sort_pairs-AllFit d h) in
    let same = reads (length bs) (omega arith) in
    (bs, e, same, rw same (sort_pairs-IsSorted d), λ id v. rw same (times-sort_pairs id v d))
