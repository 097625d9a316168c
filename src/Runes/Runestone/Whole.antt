-- ===== src/Runes/Runestone/Whole.antt =====
-- A runestone through the script of a transaction.
use okx_ord.Common.{
  ℕ, ◌≤◌, ◌≡◌, refl, ◌∙◌, sym, List, [], ◌∷◌, ◌++◌, Option, none, some, Bool, true, false, arith,
  All, leb, ◌==◌, Bool-cases, inl, inr, and_then,
}
use okx_ord.Common.Outcome.{done, try_from, sub_checked_fits, u32_max, u128_max}
use okx_ord.Runes.Types.{Edict, Etching, Runestone}
use okx_ord.Runes.Runestone.{Script, from_transaction, char_from_u32}
use okx_ord.Runes.Runestone.Encipher.{
  encipher, numbers, deltas, sort_edicts, insert_edict, field, nonzero, etching_numbers,
  burn_numbers, body_numbers,
}
use okx_ord.Runes.Runestone.Integers.{from_transaction-numbers}
use okx_ord.Runes.Runestone.Edicts.{IsAscending, read_edicts-deltas, sort_edicts-IsAscending}
use okx_ord.Runes.Runestone.Inverse.{IsWritable, AllWritable, Within, runestone_of-numbers}

abbrev pub AllFit : List ℕ → Type 0
AllFit ns = All (λ n. n ≤ u128_max) ns

abbrev pub EdictFits : Edict → Type 0
EdictFits e = (e.id ≤ u128_max) × (e.amount ≤ u128_max) × (e.output ≤ u128_max)

append-AllFit : (xs ys : List ℕ) → AllFit xs → AllFit ys → AllFit (xs ++ ys)
append-AllFit [] ys h g = g
append-AllFit (x ∷ xs) ys h g = (h.0, append-AllFit xs ys h.1 g)

insert_edict-All :
    (P : Edict → Type 0) (e : Edict) (es : List Edict) → P e → All P es → All P (insert_edict e es)
unfolding insert_edict
insert_edict-All P e [] p h = (p, tt)
insert_edict-All P e (f ∷ fs) p h = elim (Bool-cases (leb e.id f.id)) [
  | inl before ↦ rw before (p, h)
  | inr after ↦ rw after (h.0, insert_edict-All P e fs p h.1)
]

sort_edicts-All : (P : Edict → Type 0) (es : List Edict) → All P es → All P (sort_edicts es)
unfolding sort_edicts
sort_edicts-All P [] h = tt
sort_edicts-All P (e ∷ es) h = insert_edict-All P e (sort_edicts es) h.0 (sort_edicts-All P es h.1)

done_inj : {a b : List ℕ} → done a ≡ done b → a ≡ b
done_inj h = cc

deltas-AllFit :
    (checks : Bool) (id : ℕ) (es : List Edict) {ns : List ℕ}
    → IsAscending id es
    → All EdictFits es
    → deltas checks id es ≡ done ns
    → AllFit ns
unfolding deltas
deltas-AllFit checks id [] up h e = rw (sym (done_inj e)) tt
deltas-AllFit checks id (e ∷ es) (le, fits, later) ((id_fits, amount_fits, output_fits), h) runs =
    let (ns, rest_runs, _) = read_edicts-deltas checks e.id es later in
    let rest = deltas-AllFit checks e.id es later h rest_runs in
    let q = done_inj (rw (sub_checked_fits checks u128_max e.id id le, rest_runs) at runs) in
    rw (sym q) (omega arith, (amount_fits, (output_fits, rest)))

field-AllFit : (tag : ℕ) (o : Option ℕ) → tag ≤ u128_max → Within u128_max o → AllFit (field tag o)
field-AllFit tag none h fits = tt
field-AllFit tag (some n) h fits = (h, (fits n refl, tt))

Within-wider : (small large : ℕ) (o : Option ℕ) → small ≤ large → Within small o → Within large o
Within-wider small large o le h n e = (let f = h n e in omega (arith, f))

symbol-Within :
    (o : Option ℕ) → and_then (and_then o (try_from u32_max)) char_from_u32 ≡ o → Within u128_max o
symbol-Within none h n e = absurd cc
symbol-Within (some m) h n e = elim (Bool-cases (leb m u32_max)) [
  | inl small ↦ (let q : m ≡ n = cc in ground arith)
  | inr large ↦ absurd (let h = rw large at h in cc)
]

nonzero-Within : (n max : ℕ) → n ≤ max → Within max (nonzero n)
nonzero-Within n max le m e = elim (Bool-cases (n == 0)) [
  | inl zero ↦ absurd (let e = rw zero at e in cc)
  | inr more ↦ (let q : n ≡ m = (let e = rw more at e in cc) in omega (arith, q, le))
]

etching_numbers-AllFit :
    (e : Etching) → IsWritable e → Within u128_max e.rune → AllFit (etching_numbers (some e))
etching_numbers-AllFit e h rune =
    let add : (tag : ℕ) (o : Option ℕ) (ns : List ℕ)
        → tag ≤ u128_max
        → Within u128_max o
        → AllFit ns
        → AllFit (field tag o ++ ns) =
      λ tag o ns t w rest. append-AllFit (field tag o) ns (field-AllFit tag o t w) rest in
    (
      omega arith,
      (
        omega arith,
        add _ e.rune _ (omega arith) rune (
            add _ e.deadline _ (omega arith)
              (Within-wider u32_max u128_max e.deadline (omega arith) h.deadline)
              (add _ (nonzero e.divisibility) _ (omega arith)
                (nonzero-Within e.divisibility u128_max (omega (arith, h.divisibility)))
                (add _ (nonzero e.spacers) _ (omega arith)
                  (nonzero-Within e.spacers u128_max (omega (arith, h.spacers)))
                  (add _ e.symbol _ (omega arith) (symbol-Within e.symbol h.symbol) (
                    add _ e.limit _ (omega arith)
                      (Within-wider _ u128_max e.limit (omega arith) h.limit)
                      (field-AllFit _ e.term (omega arith)
                        (Within-wider u32_max u128_max e.term (omega arith) h.term))))))),
      ),
    )

-- What fits the types and the limits of a whole runestone.
pub record IsEncipherable (r : Runestone) : Type 0 where
  pub edicts : All EdictFits r.edicts
  pub etching : AllWritable r.etching
  pub rune : (e : Etching) → r.etching ≡ some e → Within u128_max e.rune
  pub default_output : Within u32_max r.default_output

ids-fit : (es : List Edict) → All EdictFits es → All (λ e. e.id ≤ u128_max) es
ids-fit [] h = tt
ids-fit (e ∷ es) ((id_fits, amount_fits, output_fits), h) = (id_fits, ids-fit es h)

etching-AllFit :
    (e : Option Etching)
    → AllWritable e
    → ((x : Etching) → e ≡ some x → Within u128_max x.rune)
    → AllFit (etching_numbers e)
etching-AllFit none h rune = tt
etching-AllFit (some e) h rune = etching_numbers-AllFit e h (rune e refl)

burn-AllFit : (burn : Bool) → AllFit (burn_numbers burn)
burn-AllFit false = tt
burn-AllFit true = (omega arith, (omega arith, tt))

body_numbers-AllFit :
    (checks : Bool) (es : List Edict)
    → All EdictFits es
    → (ns : List ℕ) × (body_numbers checks es ≡ done ns) × AllFit ns
unfolding body_numbers
body_numbers-AllFit checks [] h = ([], refl, tt)
body_numbers-AllFit checks (e ∷ es) h =
    let up = sort_edicts-IsAscending (e ∷ es) (ids-fit (e ∷ es) h) in
    let (ns, runs, _) = read_edicts-deltas checks 0 (sort_edicts (e ∷ es)) up in
    (
      0 ∷ ns,
      rw runs refl,
      (
        omega arith,
        deltas-AllFit checks 0 (sort_edicts (e ∷ es)) up (sort_edicts-All EdictFits (e ∷ es) h)
            runs,
      ),
    )

numbers-AllFit :
    (checks : Bool) (r : Runestone) {ns : List ℕ}
    → IsEncipherable r
    → numbers checks r ≡ done ns
    → AllFit ns
unfolding numbers
numbers-AllFit checks r h e =
    let (body, runs, body_fits) = body_numbers-AllFit checks r.edicts h.edicts in
    let q = done_inj (rw runs at e) in
    rw (sym q) (
      append-AllFit (etching_numbers r.etching) _ (etching-AllFit r.etching h.etching h.rune) (
        append-AllFit (field 12 r.default_output) _
          (field-AllFit 12 r.default_output (omega arith)
            (Within-wider u32_max u128_max r.default_output (omega arith) h.default_output))
          (append-AllFit (burn_numbers r.burn) body (burn-AllFit r.burn) body_fits)))

-- Let the numbers of a runestone fit their types and limits. Then `encipher` gives a script without a
-- panic, and from a transaction whose first output has it, whatever the others have,
-- `from_transaction` reads the same runestone, with its edicts sorted by id.
pub from_transaction-encipher :
    (checks : Bool) (r : Runestone) (outputs : List Script)
    → IsEncipherable r
    → (script : Script) × (encipher checks r ≡ done script)
      × (from_transaction (script ∷ outputs)
          ≡ done (some (record r { edicts = sort_edicts r.edicts })))
from_transaction-encipher checks r outputs h =
    let (ns, runs, same) =
      runestone_of-numbers checks r (ids-fit r.edicts h.edicts) h.etching h.default_output in
    let (script, enciphers, reads) =
      from_transaction-numbers checks r ns outputs runs (numbers-AllFit checks r h runs) in
    (script, enciphers, reads ∙ rw same refl)
