-- ===== src/Runes/Runestone/Fields.antt =====
-- The fields of a message: what the loop of `from_integers` gathers, and what `decipher` finds in it.
use okx_ord.Common.{
  ℕ, ◌≡◌, refl, sym, ap, ◌∙◌, List, [], ◌∷◌, ◌++◌, Option, none, some, false, arith, ◌==◌,
  if◌then◌else◌, Bool-cases, inl, inr, Option-cases, ==_iff, is_some,
}
use okx_ord.Common.Dict.{Dict, lookup, insert, remove, lookup-insert}
use okx_ord.Runes.Runestone.{or_insert, read_fields, read_edicts, tag_body}
use okx_ord.Runes.Runestone.Encipher.{field}

-- The fields after an optional field.
abbrev pub add_field : ℕ → Option ℕ → Dict ℕ → Dict ℕ
add_field tag none fields = fields
add_field tag (some value) fields = or_insert tag value fields

abbrev pub or_else : Option ℕ → Option ℕ → Option ℕ
or_else none o = o
or_else (some value) o = some value

pub read_fields-field :
    (tag : ℕ) (o : Option ℕ) (fields : Dict ℕ) (rest : List ℕ)
    → (tag == tag_body) ≡ false
    → read_fields fields (field tag o ++ rest) ≡ read_fields (add_field tag o fields) rest
unfolding read_fields
read_fields-field tag none fields rest h = refl
read_fields-field tag (some value) fields rest h = rw h refl

pub read_fields-body :
    (fields : Dict ℕ) (ns : List ℕ)
    → read_fields fields (tag_body ∷ ns) ≡ record { fields = fields; body = read_edicts 0 ns }
unfolding read_fields read_edicts
read_fields-body fields [] = refl
read_fields-body fields (n ∷ ns) = refl

lookup-or_insert :
    (k tag value : ℕ) (fields : Dict ℕ)
    → lookup k (or_insert tag value fields)
      ≡ (if k == tag then or_else (lookup k fields) (some value) else lookup k fields)
lookup-or_insert k tag value fields = elim (Option-cases (lookup tag fields)) [
  | inl free ↦ rw (or_insert, free) (lookup-insert tag k value fields ∙ by_key free)
  | inr (present, there) ↦
      rw (or_insert, there)
        (elim (Bool-cases (k == tag)) [
          | inl same ↦ let q : k ≡ tag = (==_iff k tag).0 same in rw (same, q, there) refl
          | inr other ↦ rw other refl
        ])
]
  where
    by_key :
        lookup tag fields ≡ none
        → (if k == tag then some value else lookup k fields)
          ≡ (if k == tag then or_else (lookup k fields) (some value) else lookup k fields)
    by_key free = elim (Bool-cases (k == tag)) [
      | inl same ↦ let q : k ≡ tag = (==_iff k tag).0 same in rw (same, q, free) refl
      | inr other ↦ rw other refl
    ]

pub lookup-add_field :
    (k tag : ℕ) (o : Option ℕ) (fields : Dict ℕ)
    → lookup k (add_field tag o fields)
      ≡ (if k == tag then or_else (lookup k fields) o else lookup k fields)
lookup-add_field k tag (some value) fields = lookup-or_insert k tag value fields
lookup-add_field k tag none fields = elim (Bool-cases (k == tag)) [
  | inl same ↦ rw same (elim (Option-cases (lookup k fields)) [
    | inl free ↦ rw free refl
    | inr (present, there) ↦ rw there refl
  ])
  | inr other ↦ rw other refl
]

remove-absent : (k : ℕ) (fields : Dict ℕ) → lookup k fields ≡ none → remove k fields ≡ fields
unfolding lookup remove
remove-absent k [] h = refl
remove-absent k ((j, v) ∷ fields) h = elim (Bool-cases (k == j)) [
  | inl same ↦ absurd (let h = rw same at h in cc)
  | inr other ↦ rw other (ap (λ d. (j, v) ∷ d) (remove-absent k fields (rw other at h)))
]

remove-insert :
    (k v : ℕ) (fields : Dict ℕ) → lookup k fields ≡ none → remove k (insert k v fields) ≡ fields
unfolding lookup remove insert
remove-insert k v [] h = ground arith
remove-insert k v ((j, w) ∷ fields) h = elim (Bool-cases (k == j)) [
  | inl same ↦ absurd (let h = rw same at h in cc)
  | inr other ↦ rw (other, other) (ap (λ d. (j, w) ∷ d) (remove-insert k v fields (rw other at h)))
]

remove-insert-other :
    (k tag v : ℕ) (fields : Dict ℕ)
    → (k == tag) ≡ false
    → remove k (insert tag v fields) ≡ insert tag v (remove k fields)
unfolding remove insert
remove-insert-other k tag v [] h = rw h refl
remove-insert-other k tag v ((j, w) ∷ fields) h = elim (Bool-cases (k == j)) [
  | inl same ↦ let q : (tag == j) ≡ false = ground arith in rw (q, same) refl
  | inr other ↦ elim (Bool-cases (tag == j)) [
    | inl here ↦ rw (here, h, other, here) refl
    | inr there ↦
        rw (there, other, there) (ap (λ d. (j, w) ∷ d) (remove-insert-other k tag v fields h))
  ]
]

lookup-remove-other :
    (k tag : ℕ) (fields : Dict ℕ)
    → (k == tag) ≡ false
    → lookup tag (remove k fields) ≡ lookup tag fields
unfolding lookup remove
lookup-remove-other k tag [] h = refl
lookup-remove-other k tag ((j, w) ∷ fields) h = ground (arith, lookup-remove-other k tag fields h)

pub remove-add_field :
    (k tag : ℕ) (o : Option ℕ) (fields : Dict ℕ)
    → remove k (add_field tag o fields) ≡ (
        if k == tag
        then (if is_some (lookup k fields) then remove k fields else fields)
        else add_field tag o (remove k fields))
remove-add_field k tag o fields = elim (Bool-cases (k == tag)) [
  | inl same ↦ let q : tag ≡ k = sym ((==_iff k tag).0 same) in rw same (rw q (at_same o))
  | inr other ↦ rw other (at_other o other)
]
  where
    at_same :
        (o : Option ℕ)
        → remove k (add_field k o fields)
          ≡ (if is_some (lookup k fields) then remove k fields else fields)
    at_same none = elim (Option-cases (lookup k fields)) [
      | inl free ↦ rw free (remove-absent k fields free)
      | inr (present, there) ↦ rw there refl
    ]
    at_same (some value) = elim (Option-cases (lookup k fields)) [
      | inl free ↦ rw (or_insert, free) (remove-insert k value fields free)
      | inr (present, there) ↦ rw (or_insert, there) refl
    ]

    at_other :
        (o : Option ℕ)
        → (k == tag) ≡ false
        → remove k (add_field tag o fields) ≡ add_field tag o (remove k fields)
    at_other none other = refl
    at_other (some value) other = elim (Option-cases (lookup tag fields)) [
      | inl free ↦
          rw (or_insert, free, lookup-remove-other k tag fields other, free)
            (remove-insert-other k tag value fields other)
      | inr (present, there) ↦
          rw (or_insert, there, lookup-remove-other k tag fields other, there) refl
    ]
