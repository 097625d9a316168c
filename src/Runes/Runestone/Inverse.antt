-- ===== src/Runes/Runestone/Inverse.antt =====
-- The runestone of the numbers that `encipher` encodes.
use okx_ord.Common.{
  ℕ, ◌≤◌, ◌≡◌, refl, ap, ◌∙◌, List, [], ◌∷◌, ◌++◌, Option, none, some, Bool, true, false, arith,
  ◌==◌, leb, Bool-cases, inl, inr, All, then_some, and_then, unwrap_or,
}
use okx_ord.Common.Dict.{Dict, lookup, insert, remove}
use okx_ord.Common.Outcome.{done, try_from, u8_max, u32_max, u128_max}
use okx_ord.Runes.Types.{Edict, Etching, Runestone, max_limit}
use okx_ord.Runes.Runestone.{
  read_fields, from_integers, runestone_of, etching_of_fields, remove_known, any_even,
  char_from_u32, max_spacers, max_divisibility, tag_body, tag_flags, tag_rune, tag_limit, tag_term,
  tag_deadline, tag_default_output, tag_divisibility, tag_spacers, tag_symbol, tag_burn,
}
use okx_ord.Runes.Runestone.Encipher.{
  field, nonzero, numbers, body_numbers, etching_numbers, burn_numbers, sort_edicts,
}
use okx_ord.Runes.Runestone.Edicts.{read_edicts-sort_edicts}
use okx_ord.Runes.Runestone.Fields.{
  add_field, read_fields-field, read_fields-body, lookup-add_field, remove-add_field,
}

-- The fields of an etching, and those of a runestone.
abbrev etching_fields : Option Etching → Dict ℕ
etching_fields none = []
etching_fields (some e) = add_field tag_term e.term (
    add_field tag_limit e.limit (
      add_field tag_symbol e.symbol (
        add_field tag_spacers (nonzero e.spacers) (
          add_field tag_divisibility (nonzero e.divisibility) (
            add_field tag_deadline e.deadline
              (add_field tag_rune e.rune (add_field tag_flags (some 1) [])))))))

abbrev burn_field : Bool → Option ℕ
burn_field burn = then_some burn 0

abbrev all_fields : Runestone → Dict ℕ
all_fields r =
    add_field tag_burn (burn_field r.burn)
      (add_field tag_default_output r.default_output (etching_fields r.etching))

append_assoc : (xs ys zs : List ℕ) → (xs ++ ys) ++ zs ≡ xs ++ (ys ++ zs)
append_assoc [] ys zs = refl
append_assoc (x ∷ xs) ys zs = ap (λ l. x ∷ l) (append_assoc xs ys zs)

read_fields-etching :
    (e : Option Etching) (rest : List ℕ)
    → read_fields [] (etching_numbers e ++ rest) ≡ read_fields (etching_fields e) rest
read_fields-etching none rest = refl
read_fields-etching (some e) rest = simp append_assoc (
    read_fields-field tag_flags (some 1) [] _ refl
    ∙ read_fields-field tag_rune e.rune _ _ refl
    ∙ read_fields-field tag_deadline e.deadline _ _ refl
    ∙ read_fields-field tag_divisibility (nonzero e.divisibility) _ _ refl
    ∙ read_fields-field tag_spacers (nonzero e.spacers) _ _ refl
    ∙ read_fields-field tag_symbol e.symbol _ _ refl
    ∙ read_fields-field tag_limit e.limit _ _ refl
    ∙ read_fields-field tag_term e.term _ _ refl)

read_fields-burn :
    (burn : Bool) (fields : Dict ℕ) (rest : List ℕ)
    → read_fields fields (burn_numbers burn ++ rest)
      ≡ read_fields (add_field tag_burn (burn_field burn) fields) rest
read_fields-burn false fields rest = refl
read_fields-burn true fields rest = read_fields-field tag_burn (some 0) fields rest refl

remove_known-fields :
    (b d : Option ℕ) (e : Option Etching)
    → remove_known (add_field tag_burn b (add_field tag_default_output d (etching_fields e)))
      ≡ add_field tag_burn b []
unfolding lookup remove insert
remove_known-fields b d none = simp remove-add_field
remove_known-fields b d (some e) = simp (remove-add_field, lookup-add_field)

any_even_burn : (burn : Bool) → any_even (add_field tag_burn (burn_field burn) []) ≡ burn
unfolding any_even lookup insert
any_even_burn false = refl
any_even_burn true = refl

any_even_known : (r : Runestone) → any_even (remove_known (all_fields r)) ≡ r.burn
any_even_known r =
    ap any_even (remove_known-fields (burn_field r.burn) r.default_output r.etching)
    ∙ any_even_burn r.burn

abbrev pub Within : ℕ → Option ℕ → Type 0
Within max o = (n : ℕ) → o ≡ some n → n ≤ max

-- What fits the types and the limits of a runestone.
pub record IsWritable (e : Etching) : Type 0 where
  pub deadline : Within u32_max e.deadline
  pub divisibility : e.divisibility ≤ max_divisibility
  pub limit : Within max_limit e.limit
  pub symbol : and_then (and_then e.symbol (try_from u32_max)) char_from_u32 ≡ e.symbol
  pub term : Within u32_max e.term
  pub spacers : e.spacers ≤ max_spacers

kept : (max : ℕ) (o : Option ℕ) → Within max o → and_then o (try_from max) ≡ o
kept max none h = refl
kept max (some n) h = let le : leb n max ≡ true = (let f = h n refl in ground arith) in rw le refl

kept_nonzero :
    (n small large : ℕ)
    → n ≤ small
    → small ≤ large
    → unwrap_or (and_then (and_then (nonzero n) (try_from large)) λ n. then_some (leb n small) n) 0
      ≡ n
kept_nonzero n small large h le = elim (Bool-cases (n == 0)) [
  | inl zero ↦ rw zero (ground arith)
  | inr more ↦
      let fits : leb n large ≡ true = ground arith in
      let within : leb n small ≡ true = ground arith in rw (more, fits, within) refl
]

abbrev with_rest : Option ℕ → Option ℕ → Etching → Dict ℕ
with_rest b d e = add_field tag_burn b (add_field tag_default_output d (etching_fields (some e)))

etching-with_rest :
    (b d : Option ℕ) (e : Etching) → IsWritable e → etching_of_fields (with_rest b d e) ≡ e
unfolding lookup insert
etching-with_rest b d e h = simp (
  lookup-add_field,
  kept u32_max e.deadline h.deadline,
  kept max_limit e.limit h.limit,
  kept u32_max e.term h.term,
  h.symbol,
  kept_nonzero e.divisibility max_divisibility u8_max h.divisibility (omega arith),
  kept_nonzero e.spacers max_spacers u32_max h.spacers (omega arith),
)

abbrev pub AllWritable : Option Etching → Type 0
AllWritable none = Unit
AllWritable (some e) = IsWritable e

fields_burn :
    (b : Bool) (d : Option ℕ) (e : Option Etching)
    → any_even (
        remove_known
          (add_field tag_burn (burn_field b) (add_field tag_default_output d (etching_fields e))))
      ≡ b
fields_burn b d e = ap any_even (remove_known-fields (burn_field b) d e) ∙ any_even_burn b

lookup_default :
    (b d : Option ℕ) (e : Option Etching)
    → lookup tag_default_output
        (add_field tag_burn b (add_field tag_default_output d (etching_fields e)))
      ≡ d
unfolding lookup insert
lookup_default b d none = simp lookup-add_field
lookup_default b d (some e) = simp lookup-add_field

lookup_flags :
    (b d : Option ℕ) (e : Option Etching)
    → lookup tag_flags (add_field tag_burn b (add_field tag_default_output d (etching_fields e)))
      ≡ elim e [ none ↦ none | some x ↦ some 1 ]
unfolding lookup insert
lookup_flags b d none = simp lookup-add_field
lookup_flags b d (some e) = simp lookup-add_field

runestone_of-fields :
    (b : Bool) (d : Option ℕ) (e : Option Etching) (body : List Edict)
    → AllWritable e
    → Within u32_max d
    → runestone_of (record {
      fields =
          add_field tag_burn (burn_field b) (add_field tag_default_output d (etching_fields e));
      body = body;
    })
      ≡ record { edicts = body; etching = e; default_output = d; burn = b }
unfolding runestone_of
runestone_of-fields b d none body h fits =
    rw
      (
        lookup_flags (burn_field b) d none,
        lookup_default (burn_field b) d none,
        kept u32_max d fits,
        fields_burn b d none,
      )
      refl
runestone_of-fields b d (some e) body h fits =
    rw
      (
        lookup_flags (burn_field b) d (some e),
        lookup_default (burn_field b) d (some e),
        kept u32_max d fits,
        fields_burn b d (some e),
        etching-with_rest (burn_field b) d e h,
      )
      refl

-- The numbers of the body, and what is read of them after any fields.
body_numbers-read :
    (checks : Bool) (es : List Edict)
    → All (λ e. e.id ≤ u128_max) es
    → (ns : List ℕ) × (body_numbers checks es ≡ done ns)
      × ((fields : Dict ℕ)
          → read_fields fields ns ≡ record { fields = fields; body = sort_edicts es })
unfolding body_numbers read_fields sort_edicts
body_numbers-read checks [] h = ([], refl, λ fields. refl)
body_numbers-read checks (e ∷ es) h =
    let (ns, runs, reads) = read_edicts-sort_edicts checks (e ∷ es) h in
    (tag_body ∷ ns, rw runs refl, λ fields. read_fields-body fields ns ∙ rw reads refl)

-- Let the ids of the edicts fit a u128, the default output a u32, and the etching's fields their types and
-- limits. Then `encipher` has numbers to encode, without an underflow, and the runestone that is read
-- from them is the one that they are of, with its edicts sorted by id.
pub runestone_of-numbers :
    (checks : Bool) (r : Runestone)
    → All (λ e. e.id ≤ u128_max) r.edicts
    → AllWritable r.etching
    → Within u32_max r.default_output
    → (ns : List ℕ) × (numbers checks r ≡ done ns)
      × (runestone_of (from_integers ns) ≡ record r { edicts = sort_edicts r.edicts })
unfolding numbers from_integers
runestone_of-numbers checks r ids writable fits =
    let (body, runs, reads) = body_numbers-read checks r.edicts ids in
    (
      etching_numbers r.etching
          ++ (field tag_default_output r.default_output ++ (burn_numbers r.burn ++ body)),
      rw runs refl,
      ap runestone_of (
            read_fields-etching r.etching _
            ∙ read_fields-field tag_default_output r.default_output _ _ refl
            ∙ read_fields-burn r.burn _ _
            ∙ reads _)
          ∙ runestone_of-fields r.burn r.default_output r.etching (sort_edicts r.edicts) writable
              fits,
    )
