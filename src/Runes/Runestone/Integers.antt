-- ===== src/Runes/Runestone/Integers.antt =====
-- The integers of a runestone through their bytes and through a script.
use okx_ord.Common.{
  ℕ, zero, suc, ◌+◌, ◌≤◌, ◌≡◌, refl, sym, ap, ◌∙◌, List, [], ◌∷◌, ◌++◌, some, Bool, arith, All,
  length, drop, leb, if◌then◌else◌,
}
use okx_ord.Common.Outcome.{done, u128_max}
use okx_ord.Runes.Types.{Runestone}
use okx_ord.Runes.Varint.{decode}
use okx_ord.Runes.Varint.RoundTrip.{decode-encode_to_vec}
use okx_ord.Runes.Varint.Progress.{decode_takes}
use okx_ord.Runes.Runestone.{
  Script, integers, integers_loop, pushes, payload, same_bytes, magic, op_return, op, push_bytes,
  from_transaction, decipher, runestone_of, from_integers,
}
use okx_ord.Runes.Runestone.Encipher.{encode_all, encipher, numbers, push_all, chunk_loop}

append_assoc : (xs ys zs : List ℕ) → (xs ++ ys) ++ zs ≡ xs ++ (ys ++ zs)
append_assoc [] ys zs = refl
append_assoc (x ∷ xs) ys zs = ap (λ l. x ∷ l) (append_assoc xs ys zs)

length-append : (xs ys : List ℕ) → length (xs ++ ys) ≡ length xs + length ys
length-append [] ys = omega arith
length-append (x ∷ xs) ys = omega (arith, length-append xs ys)

drop-append : (xs ys : List ℕ) → drop (length xs) (xs ++ ys) ≡ ys
drop-append [] ys = refl
drop-append (x ∷ xs) ys = drop-append xs ys

-- One round of the loop over the bytes of a number.
integers_loop-append :
    (n fuel : ℕ) (bs cs : List ℕ) {ns : List ℕ}
    → 1 ≤ length bs
    → decode (bs ++ cs) ≡ (n, length bs)
    → integers_loop fuel cs ≡ done ns
    → integers_loop (suc fuel) (bs ++ cs) ≡ done (n ∷ ns)
unfolding integers_loop
integers_loop-append n fuel [] cs long reads rest = absurd (omega arith)
integers_loop-append n fuel (b ∷ bs) cs long reads rest = rw (reads, drop-append bs cs, rest) refl

-- The bytes of numbers, and what the loop reads of them on enough fuel.
encode_all-Encodes :
    (ns v : List ℕ)
    → All (λ n. n ≤ u128_max) ns
    → (bs : List ℕ) × (encode_all ns v ≡ done (v ++ bs))
      × ((fuel : ℕ) → length bs ≤ fuel → integers_loop fuel bs ≡ done ns)
unfolding encode_all integers_loop
encode_all-Encodes [] v h = ([], ap done (sym (append_nil v)), λ fuel enough. refl)
  where
    append_nil : (xs : List ℕ) → xs ++ [] ≡ xs
    append_nil [] = refl
    append_nil (x ∷ xs) = ap (λ l. x ∷ l) (append_nil xs)
encode_all-Encodes (n ∷ ns) v h =
    let (bs, e, long, short, reads) = decode-encode_to_vec n v h.0 in
    let (cs, e', loop) = encode_all-Encodes ns (v ++ bs) h.1 in
    (
      bs ++ cs,
      rw (e, e') (ap done (append_assoc v bs cs)),
      λ fuel enough. more_fuel fuel bs cs long (reads cs) loop (rw (length-append bs cs) at enough),
    )
  where
    more_fuel :
        (fuel : ℕ) (bs cs : List ℕ)
        → 1 ≤ length bs
        → decode (bs ++ cs) ≡ (n, length bs)
        → ((fuel : ℕ) → length cs ≤ fuel → integers_loop fuel cs ≡ done ns)
        → length bs + length cs ≤ fuel
        → integers_loop fuel (bs ++ cs) ≡ done (n ∷ ns)
    more_fuel zero bs cs long reads loop enough = absurd (omega arith)
    more_fuel (suc fuel) bs cs long reads loop enough =
        integers_loop-append n fuel bs cs long reads (loop fuel (omega arith))

-- Numbers that fit a u128 are encoded without a panic, and `integers` reads them from their bytes.
pub integers-encode_all :
    (ns : List ℕ)
    → All (λ n. n ≤ u128_max) ns
    → (bs : List ℕ) × (encode_all ns [] ≡ done bs) × (integers bs ≡ done ns)
unfolding integers
integers-encode_all ns h =
    let (bs, e, loop) = encode_all-Encodes ns [] h in (bs, e, loop (length bs) (omega arith))

length-drop :
    (k : ℕ) (xs : List ℕ) → length (drop k xs) + k ≡ (if leb k (length xs) then length xs else k)
length-drop zero xs = grind arith
length-drop (suc k) [] = ground arith
length-drop (suc k) (x ∷ xs) = ground (arith, length-drop k xs)

integers_loop-done :
    (fuel : ℕ) (bs : List ℕ) → length bs ≤ fuel → (ns : List ℕ) × (integers_loop fuel bs ≡ done ns)
unfolding integers_loop
integers_loop-done fuel [] enough = ([], refl)
integers_loop-done zero (b ∷ bs) enough = absurd (omega arith)
integers_loop-done (suc fuel) (b ∷ bs) enough =
    let takes = decode_takes b bs in
    let shorter = length-drop (decode (b ∷ bs)).1 (b ∷ bs) in
    let (ns, e) =
      integers_loop-done fuel (drop (decode (b ∷ bs)).1 (b ∷ bs))
        (ground (arith, takes.1, takes.2, shorter)) in
    ((decode (b ∷ bs)).0 ∷ ns, rw e refl)

-- On every payload the loop of `integers` ends within one round for each byte.
pub integers-done : (bs : List ℕ) → (ns : List ℕ) × (integers bs ≡ done ns)
unfolding integers
integers-done bs = integers_loop-done (length bs) bs (omega arith)

-- The chunks of a list, one after the other.
flatten : List (List ℕ) → List ℕ
flatten [] = []
flatten (c ∷ cs) = c ++ flatten cs

flatten-chunk_loop : (room : ℕ) (bs : List ℕ) → flatten (chunk_loop room bs) ≡ bs
unfolding flatten chunk_loop
flatten-chunk_loop room [] = refl
flatten-chunk_loop room (b ∷ []) = refl
flatten-chunk_loop zero (b ∷ c ∷ bs) = ap (λ l. b ∷ l) (flatten-chunk_loop 519 (c ∷ bs))
flatten-chunk_loop (suc room) (b ∷ c ∷ bs) =
    into_first (chunk_loop room (c ∷ bs)) (flatten-chunk_loop room (c ∷ bs))
  where
    into_first :
        (chunks : List (List ℕ))
        → flatten chunks ≡ c ∷ bs
        → flatten (elim chunks [ [] ↦ (b ∷ []) ∷ [] | chunk ∷ chunks ↦ (b ∷ chunk) ∷ chunks ])
          ≡ b ∷ c ∷ bs
    into_first [] e = absurd cc
    into_first (chunk ∷ chunks) e = ap (λ l. b ∷ l) e

pushes-push_all : (chunks : List (List ℕ)) → pushes (push_all chunks) ≡ some (flatten chunks)
unfolding pushes flatten
pushes-push_all [] = refl
pushes-push_all (chunk ∷ chunks) = rw (pushes-push_all chunks) refl

payload-magic :
    (chunks : List (List ℕ)) (outputs : List Script)
    → payload ((some (op op_return) ∷ some (push_bytes magic) ∷ push_all chunks) ∷ outputs)
      ≡ some (some (flatten chunks))
unfolding payload same_bytes
payload-magic chunks outputs = rw (pushes-push_all chunks) refl

from_transaction-eq :
    (outputs : List Script) (bs ns : List ℕ)
    → payload outputs ≡ some (some bs)
    → integers bs ≡ done ns
    → from_transaction outputs ≡ done (some (runestone_of (from_integers ns)))
unfolding from_transaction decipher
from_transaction-eq outputs bs ns e read = ap decipher e ∙ rw read refl

-- Let the numbers of a runestone exist and fit a u128. Then `encipher` gives a script, and from a
-- transaction whose first output has it, whatever the others have, `from_transaction` reads the
-- runestone of just these numbers.
pub from_transaction-numbers :
    (checks : Bool) (r : Runestone) (ns : List ℕ) (outputs : List Script)
    → numbers checks r ≡ done ns
    → All (λ n. n ≤ u128_max) ns
    → (script : Script) × (encipher checks r ≡ done script)
      × (from_transaction (script ∷ outputs) ≡ done (some (runestone_of (from_integers ns))))
unfolding encipher
from_transaction-numbers checks r ns outputs e fits =
    let (bs, encoded, read) = integers-encode_all ns fits in
    (
      some (op op_return) ∷ some (push_bytes magic) ∷ push_all (chunk_loop 519 bs),
      rw (e, encoded) refl,
      from_transaction-eq _ bs ns
          (payload-magic (chunk_loop 519 bs) outputs ∙ rw (flatten-chunk_loop 519 bs) refl) read,
    )
