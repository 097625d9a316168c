-- ===== src/Runes/Conserve/Leftovers.antt =====
-- The balances that no edict allocated: the default output, and burning.
use okx_ord.Common.{
  ℕ, ◌+◌, ◌≤◌, ◌<◌, ◌≡◌, refl, ◌∙◌, List, [], ◌∷◌, Option, none, some, Bool, true, false, ltb,
  if◌then◌else◌, arith, length, Bool-cases, Option-cases, inl, inr,
}
use okx_ord.Common.Dict.{Dict, total, under}
use okx_ord.Common.Outcome.{done, u128_max}
use okx_ord.Runes.Updater.State.{add_to, add_at}
use okx_ord.Runes.Updater.Settle.{
  first_output, leftover_output, burn_all, burn_positive, assign, settle,
}
use okx_ord.Runes.Conserve.Totals.{
  total_all, HasIds, AllHasIds, IsRuneId, added, add_to-added, total-added, added-HasIds, added_at,
  add_at-added_at, total_all-added_at, length-added_at, added_at-AllHasIds,
}

-- Balances went over to a map.
pub record Joined (from into r : Dict ℕ) : Type 0 where
  pub sums : (k : ℕ) → total k r ≡ total k into + total k from
  pub has_ids : HasIds from → HasIds into → HasIds r

pub burn_all-Joined :
    (checks : Bool) (from into : Dict ℕ)
    → ((k : ℕ) → total k into + total k from ≤ u128_max)
    → (r : Dict ℕ) × (burn_all checks from into ≡ done r) × Joined from into r
unfolding burn_all total HasIds
burn_all-Joined checks [] into fits =
    (into, refl, record { sums = λ k. omega arith; has_ids = λ _ h. h })
burn_all-Joined checks ((id, v) ∷ from) into fits =
    let (r, e, joined) =
      burn_all-Joined checks from (added id v into)
        (λ k. ground (arith, total-added id v k into, fits k)) in
    (
      r,
      rw (add_to-added checks id v into (ground (arith, fits id))) e,
      record {
        sums = λ k. omega (arith, joined.sums k, total-added id v k into);
        has_ids = λ hf hi. joined.has_ids hf.1 (added-HasIds id v into hf.0 hi);
      },
    )

positive_round :
    (checks : Bool) (id v : ℕ) (into : Dict ℕ)
    → total id into + v ≤ u128_max
    → (r : Dict ℕ) × ((if ltb 0 v then add_to checks id v into else done into) ≡ done r)
      × ((k : ℕ) → total k r ≡ total k into + under k id v)
      × (IsRuneId id → HasIds into → HasIds r)
positive_round checks id v into fits = elim (Bool-cases (ltb 0 v)) [
  | inl positive ↦ (
    added id v into,
    rw (positive, add_to-added checks id v into fits) refl,
    λ k. total-added id v k into,
    λ hk h. added-HasIds id v into hk h,
  )
  | inr nothing ↦ (into, rw nothing refl, λ k. ground arith, λ hk h. h)
]

burn_positive-Joined :
    (checks : Bool) (from into : Dict ℕ)
    → ((k : ℕ) → total k into + total k from ≤ u128_max)
    → (r : Dict ℕ) × (burn_positive checks from into ≡ done r) × Joined from into r
unfolding burn_positive total HasIds
burn_positive-Joined checks [] into fits =
    (into, refl, record { sums = λ k. omega arith; has_ids = λ _ h. h })
burn_positive-Joined checks ((id, v) ∷ from) into fits =
    let (into', e, sums, ids) = positive_round checks id v into (ground (arith, fits id)) in
    let (r, e', joined) =
      burn_positive-Joined checks from into' (λ k. ground (arith, sums k, fits k)) in
    (
      r,
      rw e e',
      record {
        sums = λ k. omega (arith, joined.sums k, sums k);
        has_ids = λ hf hi. joined.has_ids hf.1 (ids hf.0 hi);
      },
    )

-- Balances went over to the outputs.
record Assigned (from : Dict ℕ) (ds r : List (Dict ℕ)) : Type 0 where
  sums : (k : ℕ) → total_all k r ≡ total_all k ds + total k from
  has_ids : HasIds from → AllHasIds ds → AllHasIds r
  same_length : length r ≡ length ds

assign_round :
    (checks : Bool) (vout id v : ℕ) (ds : List (Dict ℕ))
    → vout < length ds
    → total_all id ds + v ≤ u128_max
    → (r : List (Dict ℕ)) × ((if ltb 0 v then add_at checks vout id v ds else done ds) ≡ done r)
      × ((k : ℕ) → total_all k r ≡ total_all k ds + under k id v)
      × (IsRuneId id → AllHasIds ds → AllHasIds r)
      × (length r ≡ length ds)
assign_round checks vout id v ds h fits = elim (Bool-cases (ltb 0 v)) [
  | inl positive ↦ (
    added_at vout id v ds,
    rw (positive, add_at-added_at checks vout id v ds h fits) refl,
    λ k. total_all-added_at vout id v k ds h,
    λ hk hd. added_at-AllHasIds vout id v ds hk hd,
    length-added_at vout id v ds,
  )
  | inr nothing ↦ (ds, rw nothing refl, λ k. ground arith, λ hk hd. hd, refl)
]

assign-Assigned :
    (checks : Bool) (vout : ℕ) (from : Dict ℕ) (ds : List (Dict ℕ))
    → vout < length ds
    → ((k : ℕ) → total_all k ds + total k from ≤ u128_max)
    → (r : List (Dict ℕ)) × (assign checks vout from ds ≡ done r) × Assigned from ds r
unfolding assign total HasIds
assign-Assigned checks vout [] ds h fits =
    (ds, refl, record { sums = λ k. omega arith; has_ids = λ _ hd. hd; same_length = refl })
assign-Assigned checks vout ((id, v) ∷ from) ds h fits =
    let (ds', e, sums, ids, same) = assign_round checks vout id v ds h (ground (arith, fits id)) in
    let (r, e', rest) =
      assign-Assigned checks vout from ds' (omega (arith, same))
        (λ k. ground (arith, sums k, fits k)) in
    (
      r,
      rw e e',
      record {
        sums = λ k. omega (arith, rest.sums k, sums k);
        has_ids = λ hf hd. rest.has_ids hf.1 (ids hf.0 hd);
        same_length = rest.same_length ∙ same;
      },
    )

first_output-lt :
    (vout v : ℕ) (outputs : List Bool)
    → first_output vout outputs ≡ some v
    → v < vout + length outputs
unfolding first_output
first_output-lt vout v [] e = cc
first_output-lt vout v (true ∷ outputs) e = omega (arith, first_output-lt (vout + 1) v outputs e)
first_output-lt vout v (false ∷ outputs) e = ground arith

pub leftover_output-lt :
    (default : Option ℕ) (v : ℕ) (outputs : List Bool)
    → leftover_output default outputs ≡ some v
    → v < length outputs
unfolding leftover_output
leftover_output-lt none v outputs e = omega (arith, first_output-lt 0 v outputs e)
leftover_output-lt (some vout) v outputs e = ground (arith, first_output-lt 0 v outputs)

-- What is left of the inputs is in the outputs or in what is burned.
pub record Settled (u : Dict ℕ) (ds ds' : List (Dict ℕ)) (burned : Dict ℕ) : Type 0 where
  pub sums : (k : ℕ) → total_all k ds' + total k burned ≡ total_all k ds + total k u
  pub has_ids : AllHasIds ds'
  pub burned_ids : HasIds burned
  pub same_length : length ds' ≡ length ds

-- Let the keys be rune ids, let there be a map for each output, and let the sum of each rune over
-- the outputs and the rest fit a u128. Then what no edict allocated is settled without a panic:
-- each rune's rest is in the outputs or in what is burned, and the number of outputs stays.
pub settle-Settled :
    (checks burn : Bool) (default : Option ℕ) (outputs : List Bool) (u : Dict ℕ)
    (ds : List (Dict ℕ))
    → HasIds u
    → AllHasIds ds
    → length ds ≡ length outputs
    → ((k : ℕ) → total_all k ds + total k u ≤ u128_max)
    → (r : List (Dict ℕ) × Dict ℕ) × (settle checks burn default outputs u ds ≡ done r)
      × Settled u ds r.0 r.1
unfolding settle total HasIds
settle-Settled checks true default outputs u ds hu hd same fits =
    let (burned, e, joined) = burn_all-Joined checks u [] (λ k. omega (arith, fits k)) in
    (
      (ds, burned),
      rw e refl,
      record {
        sums = λ k. omega (arith, joined.sums k);
        has_ids = hd;
        burned_ids = joined.has_ids hu tt;
        same_length = refl;
      },
    )
settle-Settled checks false default outputs u ds hu hd same fits =
    elim (Option-cases (leftover_output default outputs)) [
      | inl e ↦
          let (burned, e', joined) =
            burn_positive-Joined checks u [] (λ k. omega (arith, fits k)) in
          (
            (ds, burned),
            rw (e, settle, e') refl,
            record {
              sums = λ k. omega (arith, joined.sums k);
              has_ids = hd;
              burned_ids = joined.has_ids hu tt;
              same_length = refl;
            },
          )
      | inr (vout, e) ↦
          let (ds', e', assigned) =
            assign-Assigned checks vout u ds
              (omega (arith, leftover_output-lt default vout outputs e)) fits in
          (
            (ds', []),
            rw (e, settle, e') refl,
            record {
              sums = λ k. omega (arith, assigned.sums k);
              has_ids = assigned.has_ids hu hd;
              burned_ids = tt;
              same_length = assigned.same_length;
            },
          )
    ]
