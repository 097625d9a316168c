-- ===== src/Runes/Conserve/Held.antt =====
-- What the stored buffers hold, and the loading of the inputs.
use okx_ord.Common.{
  ℕ, zero, suc, ◌+◌, ◌≤◌, ◌≡◌, refl, List, [], ◌∷◌, none, some, Bool, ◌==◌, arith, length, drop,
  length-drop, Bool-cases, Option-cases, inl, inr,
}
use okx_ord.Common.Dict.{Dict, lookup, insert, remove, total}
use okx_ord.Common.Outcome.{done, u128_max}
use okx_ord.Runes.Types.{OutPoint, outpoint_key}
use okx_ord.Runes.Varint.{decode}
use okx_ord.Runes.Varint.Progress.{decode_takes}
use okx_ord.Runes.Updater.Inputs.{load_balances, load_inputs}
use okx_ord.Runes.Conserve.Totals.{HasIds, added, add_to-added, total-added, added-HasIds}

-- The (id, balance) pairs that a buffer encodes.
unfoldable pub pairs : ℕ → List ℕ → Dict ℕ
pairs zero buffer = []
pairs (suc fuel) [] = []
pairs (suc fuel) (b ∷ bs) =
    let rest = drop (decode (b ∷ bs)).1 (b ∷ bs) in
    ((decode (b ∷ bs)).0, (decode rest).0) ∷ pairs fuel (drop (decode rest).1 rest)

unfoldable pub balances_of : List ℕ → Dict ℕ
unfolding pairs
balances_of buffer = pairs (length buffer) buffer

-- What the outputs of a table hold of a rune.
unfoldable pub held : ℕ → Dict (List ℕ) → ℕ
held k [] = 0
held k ((key, buffer) ∷ table) = total k (balances_of buffer) + held k table

unfoldable pub TableHasIds : Dict (List ℕ) → Type 0
TableHasIds [] = Unit
TableHasIds ((key, buffer) ∷ table) = HasIds (balances_of buffer) × TableHasIds table

pub held-remove :
    (k key : ℕ) (buffer : List ℕ) (table : Dict (List ℕ))
    → lookup key table ≡ some buffer
    → held k (remove key table) + total k (balances_of buffer) ≡ held k table
unfolding held lookup remove
held-remove k key buffer [] e = cc
held-remove k key buffer ((j, b) ∷ table) e = elim (Bool-cases (key == j)) [
  | inl same ↦ let f : b ≡ buffer = ground arith in rw (same, f) (omega arith)
  | inr other ↦ rw other (omega (arith, held-remove k key buffer table (rw other at e)))
]

pub held-insert :
    (k key : ℕ) (buffer : List ℕ) (table : Dict (List ℕ))
    → lookup key table ≡ none
    → held k (insert key buffer table) ≡ held k table + total k (balances_of buffer)
unfolding held lookup insert
held-insert k key buffer [] e = omega arith
held-insert k key buffer ((j, b) ∷ table) e = elim (Bool-cases (key == j)) [
  | inl same ↦ ground arith
  | inr other ↦ rw other (omega (arith, held-insert k key buffer table (rw other at e)))
]

lookup-TableHasIds :
    (key : ℕ) (buffer : List ℕ) (table : Dict (List ℕ))
    → TableHasIds table
    → lookup key table ≡ some buffer
    → HasIds (balances_of buffer)
unfolding TableHasIds lookup
lookup-TableHasIds key buffer [] h e = cc
lookup-TableHasIds key buffer ((j, b) ∷ table) h e = elim (Bool-cases (key == j)) [
  | inl same ↦ let f : b ≡ buffer = ground arith in rw f at h.0
  | inr other ↦ lookup-TableHasIds key buffer table h.1 (rw other at e)
]

remove-TableHasIds :
    (key : ℕ) (table : Dict (List ℕ)) → TableHasIds table → TableHasIds (remove key table)
unfolding TableHasIds remove
remove-TableHasIds key [] h = tt
remove-TableHasIds key ((j, b) ∷ table) h = elim (Bool-cases (key == j)) [
  | inl same ↦ rw same h.1
  | inr other ↦ rw other (h.0, remove-TableHasIds key table h.1)
]

pub insert-TableHasIds :
    (key : ℕ) (buffer : List ℕ) (table : Dict (List ℕ))
    → HasIds (balances_of buffer)
    → TableHasIds table
    → TableHasIds (insert key buffer table)
unfolding TableHasIds insert
insert-TableHasIds key buffer [] hb h = (hb, tt)
insert-TableHasIds key buffer ((j, b) ∷ table) hb h = elim (Bool-cases (key == j)) [
  | inl same ↦ rw same (hb, h.1)
  | inr other ↦ rw other (h.0, insert-TableHasIds key buffer table hb h.1)
]

lookup-remove-none :
    (j key : ℕ) (table : Dict (List ℕ)) → lookup j table ≡ none → lookup j (remove key table) ≡ none
unfolding lookup remove
lookup-remove-none j key [] e = refl
lookup-remove-none j key ((i, b) ∷ table) e = ground (arith, lookup-remove-none j key table)

-- A loading of some pairs into the unallocated balances.
record Loaded (ps u u' : Dict ℕ) : Type 0 where
  sums : (k : ℕ) → total k u' ≡ total k u + total k ps
  has_ids : HasIds ps → HasIds u → HasIds u'

load_balances-Loaded :
    (checks : Bool) (fuel : ℕ) (buffer : List ℕ) (u : Dict ℕ)
    → length buffer ≤ fuel
    → ((k : ℕ) → total k u + total k (pairs fuel buffer) ≤ u128_max)
    → (u' : Dict ℕ) × (load_balances checks fuel buffer u ≡ done u')
      × Loaded (pairs fuel buffer) u u'
unfolding load_balances pairs total HasIds
load_balances-Loaded checks zero [] u h fits =
    (u, refl, record { sums = λ k. omega arith; has_ids = λ _ hu. hu })
load_balances-Loaded checks (suc fuel) [] u h fits =
    (u, refl, record { sums = λ k. omega arith; has_ids = λ _ hu. hu })
load_balances-Loaded checks zero (b ∷ bs) u h fits = absurd (omega arith)
load_balances-Loaded checks (suc fuel) (b ∷ bs) u h fits =
    let rest = drop (decode (b ∷ bs)).1 (b ∷ bs) in
    let id = (decode (b ∷ bs)).0 in
    let (u', e, loaded) =
      load_balances-Loaded checks fuel (drop (decode rest).1 rest) (added id (decode rest).0 u)
        (omega (
          arith,
          length-drop (decode rest).1 rest,
          length-drop (decode (b ∷ bs)).1 (b ∷ bs),
          decode_takes b bs,
        ))
        (λ k. ground (arith, total-added id (decode rest).0 k u, fits k)) in
    (
      u',
      rw (add_to-added checks id (decode rest).0 u (ground (arith, fits id))) e,
      record {
        sums = λ k. omega (arith, loaded.sums k, total-added id (decode rest).0 k u);
        has_ids = λ hp hu. loaded.has_ids hp.1 (added-HasIds id (decode rest).0 u hp.0 hu);
      },
    )

-- The inputs' buffers leave the table, and what they held becomes unallocated.
pub record InputsLoaded (table : Dict (List ℕ)) (u : Dict ℕ) (table' : Dict (List ℕ)) (u' : Dict ℕ)
    : Type 0 where
  pub sums : (k : ℕ) → total k u' + held k table' ≡ total k u + held k table
  pub table_ids : TableHasIds table'
  pub has_ids : HasIds u'
  pub absent : (j : ℕ) → lookup j table ≡ none → lookup j table' ≡ none

pub load_inputs-InputsLoaded :
    (checks : Bool) (inputs : List OutPoint) (table : Dict (List ℕ)) (u : Dict ℕ)
    → TableHasIds table
    → HasIds u
    → ((k : ℕ) → total k u + held k table ≤ u128_max)
    → (r : Dict (List ℕ) × Dict ℕ) × (load_inputs checks inputs table u ≡ done r)
      × InputsLoaded table u r.0 r.1
unfolding load_inputs
load_inputs-InputsLoaded checks [] table u ht hu fits =
    ((table, u), refl, record { sums = λ k. refl; table_ids = ht; has_ids = hu; absent = λ j e. e })
load_inputs-InputsLoaded checks (input ∷ inputs) table u ht hu fits =
    elim (Option-cases (lookup (outpoint_key input) table)) [
      | inl e ↦ rw (e, load_inputs) (load_inputs-InputsLoaded checks inputs table u ht hu fits)
      | inr (buffer, e) ↦
          let key = outpoint_key input in
          let (u1, e1, loaded) =
            load_balances-Loaded checks (length buffer) buffer u (omega arith)
              (λ k. in_reach k buffer e) in
          let (r, e2, rest) =
            load_inputs-InputsLoaded checks inputs (remove key table) u1
              (remove-TableHasIds key table ht) (loaded.has_ids (found_ids buffer e) hu)
              (λ k. omega (arith, fits k, loaded.sums k, removed k buffer e)) in
          (
            r,
            rw (e, load_inputs, e1) e2,
            record {
              sums = λ k. omega (arith, rest.sums k, loaded.sums k, removed k buffer e);
              table_ids = rest.table_ids;
              has_ids = rest.has_ids;
              absent = λ j x. rest.absent j (lookup-remove-none j key table x);
            },
          )
    ]
  where
    removed :
        (k : ℕ) (buffer : List ℕ)
        → lookup (outpoint_key input) table ≡ some buffer
        → held k (remove (outpoint_key input) table) + total k (pairs (length buffer) buffer)
          ≡ held k table
    removed k buffer e = unfold balances_of in held-remove k (outpoint_key input) buffer table e

    in_reach :
        (k : ℕ) (buffer : List ℕ)
        → lookup (outpoint_key input) table ≡ some buffer
        → total k u + total k (pairs (length buffer) buffer) ≤ u128_max
    in_reach k buffer e = omega (arith, fits k, removed k buffer e)

    found_ids :
        (buffer : List ℕ)
        → lookup (outpoint_key input) table ≡ some buffer
        → HasIds (pairs (length buffer) buffer)
    found_ids buffer e =
        unfold balances_of in lookup-TableHasIds (outpoint_key input) buffer table ht e
