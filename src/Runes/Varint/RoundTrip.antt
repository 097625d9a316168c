-- ===== src/Runes/Varint/RoundTrip.antt =====
-- `decode` on what `encode_to_vec` wrote.
use okx_ord.Common.{
  ℕ, zero, suc, ◌+◌, ◌-◌, ◌*◌, ◌/◌, ◌%◌, ◌^◌, ◌≤◌, ◌<◌, ◌≡◌, refl, List, [], ◌∷◌, ◌++◌, arith, ◌∙◌,
  inl, inr, false, Bool-cases, ltb, ltb→lt, length,
}
use mathlib.Core.Path.{ap₂}
use native.Mathlib.Nat.{pow-suc}
use okx_ord.Common.Outcome.{Outcome, done, u128_max}
use okx_ord.Runes.Varint.{encode_loop, encode_to_vec, decode_loop, decode}
use okx_ord.Runes.Varint.Bits.{low_group, high_group}

inner_byte :
    (g n i : ℕ) (rest : List ℕ)
    → g < 128
    → n * 128 + g + 1 ≤ u128_max
    → decode_loop ((g + 128) ∷ rest) n i ≡ decode_loop rest (n * 128 + g + 1) (i + 1)
unfolding decode_loop
inner_byte g n i rest h fits =
    let e : n * 128 + (g + 128 - 127) ≡ n * 128 + g + 1 = omega arith in ground (arith, e)

last_byte :
    (g n i : ℕ) (rest : List ℕ)
    → g < 128
    → n * 128 + g ≤ u128_max
    → decode_loop (g ∷ rest) n i ≡ (n * 128 + g, i + 1)
unfolding decode_loop
last_byte g n i rest h fits = ground arith

-- What the encoder's loop returns, from the state in which the lowest group of `n` stands first in
-- the output with its top bit set.
abbrev Encodes : ℕ → ℕ → List ℕ → Outcome (List ℕ) → Type 0
Encodes i n out r =
    (bs : List ℕ) × (r ≡ done bs)
    × (length bs ≤ i + 1 + length out)
    × (length out < length bs)
    × ((rest : List ℕ)
        → decode_loop (bs ++ rest) 0 0 ≡ decode_loop (out ++ rest) (n + 1) (length bs - length out))

not-lt : (n : ℕ) → n < 128 → ltb 127 n ≡ false
not-lt n h = ground arith

shrinks : (i n : ℕ) → n < 128 ^ suc (suc i) → n / 128 - 1 < 128 ^ suc i
shrinks i n h = omega (arith, pow-suc 128 (suc i))

stop_lem : (i n : ℕ) (out : List ℕ) → n < 128 → Encodes i n out (done ((n % 128 + 128) ∷ out))
stop_lem i n out h = (
  (n % 128 + 128) ∷ out,
  refl,
  omega arith,
  omega arith,
  λ rest.
      let e : 0 * 128 + n % 128 + 1 ≡ n + 1 = omega arith in
      let f : 0 + 1 ≡ suc (length out) - length out = omega arith in
      rw (inner_byte (n % 128) 0 0 (out ++ rest) (omega arith) (omega arith), e, f) refl,
)

more_lem :
    (i n : ℕ) (out : List ℕ) {r : Outcome (List ℕ)}
    → 127 < n
    → n + 1 ≤ u128_max
    → Encodes i (n / 128 - 1) ((n % 128 + 128) ∷ out) r
    → Encodes (suc i) n out r
more_lem i n out h fits (bs, e, short, long, reads) = (
  bs,
  e,
  omega arith,
  omega arith,
  λ rest.
      reads rest
      ∙ inner_byte (n % 128) (n / 128 - 1 + 1) (length bs - suc (length out)) (out ++ rest)
          (omega arith) (omega arith)
      ∙ ap₂ (decode_loop (out ++ rest)) (omega arith) (omega arith),
)

encode_loop-Encodes :
    (i n : ℕ) (out : List ℕ)
    → n < 128 ^ suc i
    → n + 1 ≤ u128_max
    → Encodes i n out (encode_loop i n ((n % 128 + 128) ∷ out))
unfolding encode_loop
encode_loop-Encodes zero n out h fits = rw (not-lt n (omega arith)) (stop_lem 0 n out (omega arith))
encode_loop-Encodes (suc i) n out h fits = elim (Bool-cases (ltb 127 n)) [
  | inl more ↦
      rw (more, high_group (n / 128 - 1))
        (more_lem i n out (ground arith) fits (
          encode_loop-Encodes i (n / 128 - 1) ((n % 128 + 128) ∷ out) (shrinks i n h)
            (omega arith)))
  | inr stop ↦ rw stop (stop_lem (suc i) n out (ground arith))
]

pair_eq : {a b i j : ℕ} → a ≡ b → i ≡ j → ◌≡◌ {A = ℕ × ℕ} (a, i) (b, j)
pair_eq p q = ap₂ (λ a i. (a, i)) p q

small : (n : ℕ) → ltb 127 n ≡ false → 0 * 128 + n % 128 ≡ n
small n h = ground arith

-- For a `u128` the encoder does not run out of the array: it appends 1 to 19 bytes, and `decode` on
-- these, whatever follows, returns the number and how many bytes it took.
pub decode-encode_to_vec :
    (n : ℕ) (v : List ℕ)
    → n ≤ u128_max
    → (bs : List ℕ) × (encode_to_vec n v ≡ done (v ++ bs))
      × (1 ≤ length bs)
      × (length bs ≤ 19)
      × ((rest : List ℕ) → decode (bs ++ rest) ≡ (n, length bs))
unfolding encode_to_vec decode encode_loop
decode-encode_to_vec n v h = elim (Bool-cases (ltb 127 n)) [
  | inl more ↦
      let (bs, e, short, long, reads) =
        encode_loop-Encodes 17 (n / 128 - 1) (n % 128 ∷ []) (omega arith) (omega arith) in
      (
        bs,
        rw (more, low_group n, high_group (n / 128 - 1), e) refl,
        omega arith,
        omega arith,
        λ rest.
            reads rest
            ∙ last_byte (n % 128) (n / 128 - 1 + 1) (length bs - 1) rest (omega arith) (omega arith)
            ∙ pair_eq (omega (arith, ltb→lt 127 n more)) (omega arith),
      )
  | inr stop ↦ (
    n % 128 ∷ [],
    rw (stop, low_group n) refl,
    omega arith,
    omega arith,
    λ rest.
        last_byte (n % 128) 0 0 rest (omega arith) (omega arith)
        ∙ pair_eq (small n stop) (omega arith),
  )
]
