-- ===== src/SatRanges/Fifo.antt =====
-- The sats of the outputs are those of the inputs, in their order.
use okx_ord.Common.{
  ℕ, zero, suc, ◌+◌, ◌-◌, ◌≤◌, ◌<◌, ◌≡◌, refl, sym, ap, ◌∙◌, List, [], ◌∷◌, ◌++◌, some, Bool, false,
  ltb, arith, All, Bool-cases, inl, inr, length, length-append, ltb→lt,
}
use mathlib.Core.List.{append_assoc}
use okx_ord.Common.Dict.{Dict, insert}
use okx_ord.Common.Outcome.{done, u64_max, sub_checked_fits, add_checked_fits}
use okx_ord.Ordinals.Constants.{bitcoin}
use okx_ord.Ordinals.Epoch.{supply}
use okx_ord.Ordinals.Rarity.{is_common-rarity, is_common_rarity}
use okx_ord.SatRanges.{SatUpdater, enter_sat, assign_ranges, index_transaction_sats}
use okx_ord.SatRanges.Sats.{sats_from, sats_of, IsRange, divided, length-one, length-first}

enter_sat_lem :
    (checks : Bool) (output : ℕ × ℕ) (s : SatUpdater) (remaining sat : ℕ)
    → sat < supply
    → remaining ≤ output.1
    → (s' : SatUpdater) × (enter_sat checks bitcoin output s remaining sat ≡ done s')
      × (s'.range_cache ≡ s.range_cache)
unfolding enter_sat
enter_sat_lem checks output s remaining sat below fits =
    let (r, rare, test) = is_common-rarity checks bitcoin sat refl below in
    rw test (elim (Bool-cases (is_common_rarity r)) [
      | inl common ↦ rw common (s, refl, refl)
      | inr other ↦
          rw (other, sub_checked_fits checks u64_max output.1 remaining fits) (_, refl, refl)
    ])

-- What one output is assigned: the first sats of the ranges, as many as its value.
record IsAssigned (s : SatUpdater) (remaining : ℕ) (ranges : List (ℕ × ℕ)) (s' : SatUpdater)
    (sats left : List (ℕ × ℕ)) : Type 0 where
  order : sats_of ranges ≡ sats_of sats ++ sats_of left
  amount : length (sats_of sats) ≡ remaining
  valid : All IsRange left
  cache : s'.range_cache ≡ s.range_cache

not_lt : (a b : ℕ) → ltb a b ≡ false → b ≤ a
not_lt a b h = ground arith

assign_ranges-IsAssigned :
    (checks : Bool) (output : ℕ × ℕ) (s : SatUpdater) (remaining : ℕ) (ranges : List (ℕ × ℕ))
    → remaining ≤ output.1
    → remaining ≤ length (sats_of ranges)
    → All IsRange ranges
    → (s' : SatUpdater) × (sats : List (ℕ × ℕ)) × (left : List (ℕ × ℕ)) × (assign_ranges checks
          bitcoin output s remaining ranges
        ≡ done (some (s', sats, left)))
      × IsAssigned s remaining ranges s' sats left
unfolding assign_ranges sats_of
assign_ranges-IsAssigned checks output s zero ranges fits enough valid =
    (s, [], ranges, refl, record { order = refl; amount = refl; valid = valid; cache = refl })
assign_ranges-IsAssigned checks output s (suc remaining) [] fits enough valid =
    absurd (omega (arith, enough))
assign_ranges-IsAssigned checks output s (suc remaining) ((start, end) ∷ ranges) fits enough
      ((short, within), valid) =
    let (entered, e, same) =
      enter_sat_lem checks output s (suc remaining) start (omega (arith, short, within)) fits in
    elim (Bool-cases (ltb (suc remaining) (end - start))) [
      | inl more ↦
          let lt = ltb→lt (suc remaining) (end - start) more in
          (
            record entered {
              sat_ranges_written = entered.sat_ranges_written + 1;
              sat_ranges_since_flush = entered.sat_ranges_since_flush + 1;
            },
            (start, start + suc remaining) ∷ [],
            (start + suc remaining, end) ∷ ranges,
            rw
                (
                  e,
                  sub_checked_fits checks u64_max end start (omega (arith, short)),
                  more,
                  add_checked_fits checks u64_max start (suc remaining) (omega (arith, within, lt)),
                )
                refl,
            record {
              order =
                  divided start (start + suc remaining) end ranges (omega arith)
                    (omega (arith, lt));
              amount = omega (arith, length-one start (start + suc remaining));
              valid = ((omega (arith, lt), within), valid);
              cache = same;
            },
          )
      | inr less ↦
          let le = not_lt (suc remaining) (end - start) less in
          let l = length-first start end ranges in
          let (s', sats, left, f, h) =
            assign_ranges-IsAssigned checks output
              (record entered { sat_ranges_written = entered.sat_ranges_written + 1 })
              (suc remaining - (end - start)) ranges (omega (arith, fits))
              (omega (arith, enough, l)) valid in
          (
            s',
            (start, end) ∷ sats,
            left,
            rw (e, sub_checked_fits checks u64_max end start (omega (arith, short)), less, f) refl,
            record {
              order =
                  ap (λ l. sats_from start (end - start) ++ l) h.order
                  ∙ sym
                      (append_assoc (sats_from start (end - start)) (sats_of sats) (sats_of left));
              amount = omega (arith, length-first start end sats, h.amount, le);
              valid = h.valid;
              cache = h.cache ∙ same;
            },
          )
    ]

-- The values of outputs, and what is put in the cache for them.
abbrev pub values : List (ℕ × ℕ) → List ℕ
values [] = []
values ((outpoint, value) ∷ outputs) = value ∷ values outputs

unfoldable pub sum : List ℕ → ℕ
sum [] = 0
sum (n ∷ ns) = n + sum ns

abbrev pub amounts : List (List (ℕ × ℕ)) → List ℕ
amounts [] = []
amounts (part ∷ parts) = length (sats_of part) ∷ amounts parts

unfoldable pub sats_in : List (List (ℕ × ℕ)) → List ℕ
sats_in [] = []
sats_in (part ∷ parts) = sats_of part ++ sats_in parts

unfoldable pub cached :
    List (ℕ × ℕ) → List (List (ℕ × ℕ)) → Dict (List (ℕ × ℕ)) → Dict (List (ℕ × ℕ))
cached [] parts cache = cache
cached (output ∷ outputs) [] cache = cache
cached (output ∷ outputs) (part ∷ parts) cache = cached outputs parts (insert output.0 part cache)

-- The outputs' parts and what is left have the sats of the ranges, in their order; each part has the output's
-- value, and is in the cache under its outpoint.
pub record IsFifo (s : SatUpdater) (outputs ranges : List (ℕ × ℕ)) (s' : SatUpdater)
    (left : List (ℕ × ℕ)) : Type 0 where
  pub parts : List (List (ℕ × ℕ))
  pub order : sats_of ranges ≡ sats_in parts ++ sats_of left
  pub filled : amounts parts ≡ values outputs
  pub cache : s'.range_cache ≡ cached outputs parts s.range_cache

-- With the `bitcoin` crate's constants, over ranges that are not empty and lie below the supply, outputs that are worth no more than them are all assigned
-- their values in sats, first in, first out, and what is left stays in order.
pub index_transaction_sats-IsFifo :
    (checks : Bool) (s : SatUpdater) (outputs ranges : List (ℕ × ℕ))
    → All IsRange ranges
    → sum (values outputs) ≤ length (sats_of ranges)
    → (s' : SatUpdater) × (left : List (ℕ × ℕ)) × (index_transaction_sats checks bitcoin s outputs
          ranges
        ≡ done (some (s', left)))
      × IsFifo s outputs ranges s' left
unfolding index_transaction_sats sum sats_in cached
index_transaction_sats-IsFifo checks s [] ranges valid enough =
    (s, ranges, refl, record { parts = []; order = refl; filled = refl; cache = refl })
index_transaction_sats-IsFifo checks s ((outpoint, value) ∷ outputs) ranges valid enough =
    let (s', sats, left, e, h) =
      assign_ranges-IsAssigned checks (outpoint, value) s value ranges (omega arith)
        (omega (arith, enough)) valid in
    let total : length (sats_of ranges) ≡ length (sats_of sats) + length (sats_of left) =
      ap length h.order ∙ length-append (sats_of sats) (sats_of left) in
    let next : SatUpdater = record s' {
      range_cache = insert outpoint sats s'.range_cache;
      outputs_traversed = s'.outputs_traversed + 1;
      outputs_inserted_since_flush = s'.outputs_inserted_since_flush + 1;
    } in
    let (end, rest, f, g) =
      index_transaction_sats-IsFifo checks next outputs left h.valid
        (omega (arith, total, h.amount, enough)) in
    (
      end,
      rest,
      rw (e, f) refl,
      record {
        parts = sats ∷ g.parts;
        order =
            h.order
            ∙ (ap (λ l. sats_of sats ++ l) g.order
                ∙ sym (append_assoc (sats_of sats) (sats_in g.parts) (sats_of rest)));
        filled = rw (h.amount, g.filled) refl;
        cache = g.cache ∙ ap (λ c. cached outputs g.parts (insert outpoint sats c)) h.cache;
      },
    )
