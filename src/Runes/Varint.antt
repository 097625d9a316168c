-- ===== src/Runes/Varint.antt =====
-- src/runes/varint.rs: numbers below 2 ^ 128 as prefix varints.
pub mod RoundTrip
pub mod Progress
mod Bits
use Prim.Native.Nat.{bit_and, bit_or}
use okx_ord.Common.{
  ℕ, zero, suc, ◌+◌, ◌-◌, ◌*◌, ◌/◌, ◌%◌, List, [], ◌∷◌, ◌++◌, Bool, true, false, ltb, if◌then◌else◌,
}
use okx_ord.Common.Outcome.{Outcome, done, panic, ◌>>=◌, saturate, u128_max}

-- The `while` loop of `encode_to_vec`: `out` is the written part `out[i..]` of the array. At `i`
-- zero `i -= 1` underflows, and panics there or at the access that follows.
unfoldable pub encode_loop : ℕ → ℕ → List ℕ → Outcome (List ℕ)
encode_loop zero n out = if ltb 127 n then panic else done out
encode_loop (suc i) n out =
    let n' = n / 128 - 1 in
    let more = encode_loop i n' (bit_or (n' % 256) 0x80 ∷ out) in
    if ltb 127 n then more else done out

-- `varint::encode_to_vec`
unfoldable pub encode_to_vec : ℕ → List ℕ → Outcome (List ℕ)
encode_to_vec n v = do out ← encode_loop 18 n (bit_and (n % 256) 0x7f ∷ []); done (v ++ out)

-- The `loop` of `decode`: the list is the buffer from index `i` on.
unfoldable pub decode_loop : List ℕ → ℕ → ℕ → ℕ × ℕ
decode_loop [] n i = (n, i)
decode_loop (b ∷ rest) n i =
    let n' = saturate u128_max (n * 128) in
    let more = decode_loop rest (saturate u128_max (n' + (b - 127))) (i + 1) in
    if ltb b 128 then (saturate u128_max (n' + b), i + 1) else more

-- `varint::decode`
unfoldable pub decode : List ℕ → ℕ × ℕ
unfolding decode_loop
decode buffer = decode_loop buffer 0 0
