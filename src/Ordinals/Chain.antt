-- ===== src/Ordinals/Chain.antt =====
-- The epochs as a division of the sats.
use okx_ord.Common.{
  ℕ, zero, suc, ◌+◌, ◌*◌, ◌/◌, ◌^◌, ◌≤◌, ◌<◌, ◌≡◌, refl, ◌∙◌, List, [], ◌∷◌, some, Bool, true,
  false, ltb, ◌==◌, ◌&&◌, arith, length, get_elem?, ap, Bool-cases, inl, inr, unwrap_or, drop,
  ltb→lt, lt→ltb,
}
use okx_ord.Ordinals.Epoch.{supply, starting_sats, epoch_from, epoch_of_sat, epoch_starting_sat}

abbrev pub reward : ℕ → ℕ
reward epoch = 5000000000 / 2 ^ epoch

-- Each start is the start before it and the rewards of 210000 blocks.
is_chain : ℕ → ℕ → List ℕ → Bool
is_chain e start [] = true
is_chain e start (t ∷ ts) =
    t == start + 210000 * reward e && ltb 0 (reward e) && is_chain (e + 1) t ts

last : ℕ → List ℕ → ℕ
last start [] = start
last start (t ∷ ts) = last t ts

chain_step :
    (e start t : ℕ) (ts : List ℕ)
    → is_chain e start (t ∷ ts) ≡ true
    → (t ≡ start + 210000 * reward e) × (0 < reward e) × (is_chain (e + 1) t ts ≡ true)
unfolding is_chain
chain_step e start t ts h = ground arith

-- The place of a sat: the k-th start from here, and its epoch.
record Place (sat e start : ℕ) (starts : List ℕ) (k s : ℕ) : Type 0 where
  inside : k < length starts
  start_of : get_elem? (start ∷ starts) k ≡ some s
  from : s ≤ sat
  to : sat < s + 210000 * reward (e + k)

step-Place :
    (sat e start t : ℕ) (ts : List ℕ) (k s : ℕ)
    → Place sat (e + 1) t ts k s
    → Place sat e start (t ∷ ts) (suc k) s
step-Place sat e start t ts k s p =
    let q : e + suc k ≡ e + 1 + k = omega arith in
    record {
      inside = omega (arith, p.inside);
      start_of = p.start_of;
      from = p.from;
      to = rw q p.to;
    }

find-Place :
    (sat e start : ℕ) (starts : List ℕ)
    → is_chain e start starts ≡ true
    → start ≤ sat
    → sat < last start starts
    → (k : ℕ) × (s : ℕ) × Place sat e start starts k s
      × (epoch_from sat e starts ≡ e + k)
      × (0 < reward (e + k))
unfolding epoch_from last
find-Place sat e start [] h lo hi = absurd (omega arith)
find-Place sat e start (t ∷ ts) h lo hi =
    let (at, pos, rest) = chain_step e start t ts h in
    elim (Bool-cases (ltb sat t)) [
      | inl here ↦
          let lt : sat < t = ltb→lt sat t here in
          let q : e + 0 ≡ e = omega arith in
          (
            0,
            start,
            record {
              inside = omega arith;
              start_of = refl;
              from = lo;
              to = rw q (omega (arith, at, lt));
            },
            rw (here, q) refl,
            rw q pos,
          )
      | inr later ↦
          let (k, s, place, e', pos') = find-Place sat (e + 1) t ts rest (ground arith) hi in
          let q : e + suc k ≡ e + 1 + k = omega arith in
          (suc k, s, step-Place sat e start t ts k s place, rw (later, e', q) refl, rw q pos')
    ]

start-le :
    (e start : ℕ) (starts : List ℕ) (k s : ℕ)
    → is_chain e start starts ≡ true
    → get_elem? (start ∷ starts) k ≡ some s
    → start ≤ s
start-le e start starts zero s h f = ground arith
start-le e start [] (suc k) s h f = cc
start-le e start (t ∷ ts) (suc k) s h f =
    let (at, pos, rest) = chain_step e start t ts h in
    omega (arith, at, start-le (e + 1) t ts k s rest f)

only-Place :
    (sat e start : ℕ) (starts : List ℕ) (k s : ℕ)
    → is_chain e start starts ≡ true
    → Place sat e start starts k s
    → epoch_from sat e starts ≡ e + k
unfolding epoch_from
only-Place sat e start [] k s h p = absurd (omega (arith, p.inside))
only-Place sat e start (t ∷ ts) zero s h p =
    let (at, pos, rest) = chain_step e start t ts h in
    let f : s ≡ start = (let g = p.start_of in ground arith) in
    let q : e + 0 ≡ e = omega arith in
    let hi : sat < s + 210000 * reward e = (rw q at p.to) in
    let here : ltb sat t ≡ true = lt→ltb sat t (omega (arith, at, f, hi)) in rw here (omega arith)
only-Place sat e start (t ∷ ts) (suc k) s h p =
    let (at, pos, rest) = chain_step e start t ts h in
    let q : e + suc k ≡ e + 1 + k = omega arith in
    let le = start-le (e + 1) t ts k s rest p.start_of in
    let later : ltb sat t ≡ false = (let g = p.from in ground arith) in
    let place : Place sat (e + 1) t ts k s = record {
      inside = omega (arith, p.inside);
      start_of = p.start_of;
      from = p.from;
      to = rw q at p.to;
    } in
    rw (later, only-Place sat (e + 1) t ts k s rest place) (omega arith)

start-le-last :
    (e start : ℕ) (starts : List ℕ) → is_chain e start starts ≡ true → start ≤ last start starts
unfolding last
start-le-last e start [] h = omega arith
start-le-last e start (t ∷ ts) h =
    let (at, pos, rest) = chain_step e start t ts h in
    omega (arith, at, start-le-last (e + 1) t ts rest)

end-le-last :
    (e start : ℕ) (starts : List ℕ) (k s : ℕ)
    → is_chain e start starts ≡ true
    → k < length starts
    → get_elem? (start ∷ starts) k ≡ some s
    → s + 210000 * reward (e + k) ≤ last start starts
unfolding last
end-le-last e start [] k s h inside f = absurd (omega arith)
end-le-last e start (t ∷ ts) zero s h inside f =
    let (at, pos, rest) = chain_step e start t ts h in
    let q : e + 0 ≡ e = omega arith in
    let g : s ≡ start = ground arith in
    rw (q, g) (omega (arith, at, start-le-last (e + 1) t ts rest))
end-le-last e start (t ∷ ts) (suc k) s h inside f =
    let (at, pos, rest) = chain_step e start t ts h in
    let q : e + suc k ≡ e + 1 + k = omega arith in
    rw q (end-le-last (e + 1) t ts k s rest (omega arith) f)

starts_chain : is_chain 0 0 (drop 1 starting_sats) ≡ true
unfolding is_chain
starts_chain = refl

start_exists : (k : ℕ) (xs : List ℕ) → k < length xs → (s : ℕ) × (get_elem? xs k ≡ some s)
start_exists k [] h = absurd (omega arith)
start_exists zero (x ∷ xs) h = (x, refl)
start_exists (suc k) (x ∷ xs) h = start_exists k xs (omega arith)

-- No epoch ends after the supply.
pub epoch_end-le :
    (epoch : ℕ) → epoch < 33 → epoch_starting_sat epoch + 210000 * reward epoch ≤ supply
unfolding epoch_starting_sat last
epoch_end-le epoch h =
    let q : 0 + epoch ≡ epoch = omega arith in
    let (s, f) = start_exists epoch starting_sats (omega arith) in
    let same : unwrap_or (get_elem? starting_sats epoch) supply ≡ s =
      ap (λ o. unwrap_or o supply) f in
    let le : s + 210000 * reward (0 + epoch) ≤ supply =
      end-le-last 0 0 (drop 1 starting_sats) epoch s starts_chain h f in
    rw same (rw q at le)

-- A sat is in an epoch.
pub record InEpoch (sat epoch : ℕ) : Type 0 where
  pub subsidised : epoch < 33
  pub from : epoch_starting_sat epoch ≤ sat
  pub to : sat < epoch_starting_sat epoch + 210000 * reward epoch
  pub pos : 0 < reward epoch

-- A sat below the supply is in the epoch that the chain of conditions finds.
pub epoch_of_sat-InEpoch : (sat : ℕ) → sat < supply → InEpoch sat (epoch_of_sat sat)
unfolding epoch_of_sat epoch_starting_sat last
epoch_of_sat-InEpoch sat h =
    let (k, s, p, e, pos) =
      find-Place sat 0 0 (drop 1 starting_sats) starts_chain (omega arith) h in
    let q : 0 + k ≡ k = omega arith in
    let same : unwrap_or (get_elem? starting_sats k) supply ≡ s =
      ap (λ o. unwrap_or o supply) p.start_of in
    record {
      subsidised = rw (e, q) p.inside;
      from = rw (e, q, same) p.from;
      to = rw (e, q, same) (rw q at p.to);
      pos = rw (e, q) (rw q at pos);
    }

-- Every other epoch is not the sat's.
pub epoch_of_sat_unique :
    (sat epoch : ℕ)
    → epoch < 33
    → epoch_starting_sat epoch ≤ sat
    → sat < epoch_starting_sat epoch + 210000 * reward epoch
    → epoch_of_sat sat ≡ epoch
unfolding epoch_of_sat epoch_starting_sat
epoch_of_sat_unique sat epoch h lo hi =
    let q : 0 + epoch ≡ epoch = omega arith in
    let (s, f) = start_exists epoch starting_sats (omega arith) in
    let same : unwrap_or (get_elem? starting_sats epoch) supply ≡ s =
      ap (λ o. unwrap_or o supply) f in
    only-Place sat 0 0 (drop 1 starting_sats) epoch s starts_chain
      (record { inside = h; start_of = f; from = rw same at lo; to = rw q (rw same at hi) })
    ∙ q
