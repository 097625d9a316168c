-- ===== src/Builder/Select.antt =====
-- `select_cardinal_utxo` and `calculate_sat_offset`.
use okx_ord.Common.{
  ℕ, ◌-◌, List, [], ◌∷◌, Option, none, some, Bool, not, ltb, leb, ◌==◌, ◌&&◌, ◌||◌, if◌then◌else◌,
}
use okx_ord.Builder.State.{
  SatPoint, TransactionBuilder, Built, built, panicked, ◌>>=◌, ok_or, add, index, contains,
  remove_utxo, not_enough_cardinal_utxos,
}

-- `max(a, b) - min(a, b)`
abbrev pub abs_diff : ℕ → ℕ → ℕ
abs_diff a b = if ltb a b then b - a else a - b

-- The three tests that a candidate's value may pass against the best one's.
abbrev pub is_better : Bool → ℕ → ℕ → ℕ → Bool
is_better prefer_under target best current =
    let is_closer = ltb (abs_diff current target) (abs_diff best target) in
    if prefer_under
    then (leb current target && is_closer)
      || (ltb target best && is_closer)
      || (ltb target best && leb current target)
    else (leb target current && is_closer)
      || (ltb best target && is_closer)
      || (ltb best target && leb target current)

-- The best match after a candidate.
abbrev pub best_of : Bool → ℕ → Option (ℕ × ℕ) → ℕ → ℕ → ℕ × ℕ
best_of prefer_under target none utxo current = (utxo, current)
best_of prefer_under target (some best) utxo current =
    if is_better prefer_under target best.1 current then (utxo, current) else best

abbrev pub inscribed_utxos : List (SatPoint × ℕ) → List ℕ
inscribed_utxos [] = []
inscribed_utxos ((s, i) ∷ d) = s.outpoint ∷ inscribed_utxos d

abbrev pub is_cardinal : TransactionBuilder → ℕ → Bool
is_cardinal b utxo = not (
    contains utxo b.runic_utxos
    || contains utxo (inscribed_utxos b.inscriptions)
    || contains utxo b.locked_utxos)

-- The loop over `self.utxos`.
unfoldable pub match_loop :
    TransactionBuilder → Bool → ℕ → Option (ℕ × ℕ) → List ℕ → Built (Option (ℕ × ℕ))
match_loop b prefer_under target best [] = built best
match_loop b prefer_under target best (utxo ∷ utxos) =
    if is_cardinal b utxo
    then (do
      current ← index b.amounts utxo
      match_loop b prefer_under target (some (best_of prefer_under target best utxo current)) utxos)
    else match_loop b prefer_under target best utxos

-- `select_cardinal_utxo`: the chosen output, its value, and the builder without it.
unfoldable pub select_cardinal_utxo :
    TransactionBuilder → ℕ → Bool → Built ((ℕ × ℕ) × TransactionBuilder)
unfolding match_loop remove_utxo
select_cardinal_utxo b target prefer_under = do
  best ← match_loop b prefer_under target none b.utxos
  chosen ← ok_or best not_enough_cardinal_utxos
  built (chosen, record b { utxos = remove_utxo chosen.0 b.utxos })

-- The loop of `calculate_sat_offset`, and of the search for the sat in `build`.
unfoldable pub offset_loop : TransactionBuilder → ℕ → List ℕ → Built ℕ
offset_loop b sum [] = panicked
offset_loop b sum (input ∷ inputs) =
    if input == b.outgoing.outpoint
    then add sum b.outgoing.offset
    else (do amount ← index b.amounts input; sum' ← add sum amount; offset_loop b sum' inputs)

-- `calculate_sat_offset`
unfoldable pub calculate_sat_offset : TransactionBuilder → Built ℕ
unfolding offset_loop
calculate_sat_offset b = offset_loop b 0 b.inputs
