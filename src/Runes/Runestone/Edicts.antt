-- ===== src/Runes/Runestone/Edicts.antt =====
-- The edicts of a runestone through their delta-encoded numbers.
use okx_ord.Common.{
  ℕ, ◌+◌, ◌-◌, ◌≤◌, ◌≡◌, refl, List, [], ◌∷◌, Bool, arith, All, leb, Bool-cases, inl, inr,
}
use okx_ord.Common.Outcome.{done, saturate, sub_checked_fits, u128_max}
use okx_ord.Runes.Types.{Edict}
use okx_ord.Runes.Runestone.{read_edicts}
use okx_ord.Runes.Runestone.Encipher.{deltas, insert_edict, sort_edicts}

-- Edicts in the order of their ids, from an id on.
abbrev pub IsAscending : ℕ → List Edict → Type 0
IsAscending id [] = Unit
IsAscending id (e ∷ es) = (id ≤ e.id) × (e.id ≤ u128_max) × IsAscending e.id es

pub read_edicts-deltas :
    (checks : Bool) (id : ℕ) (es : List Edict)
    → IsAscending id es
    → (ns : List ℕ) × (deltas checks id es ≡ done ns) × (read_edicts id ns ≡ es)
unfolding deltas read_edicts
read_edicts-deltas checks id [] h = ([], refl, refl)
read_edicts-deltas checks id (e ∷ es) (le, fits, later) =
    let (ns, runs, reads) = read_edicts-deltas checks e.id es later in
    let sum : saturate u128_max (id + (e.id - id)) ≡ e.id = ground arith in
    (
      (e.id - id) ∷ e.amount ∷ e.output ∷ ns,
      rw (sub_checked_fits checks u128_max e.id id le, runs) refl,
      rw (sum, reads) refl,
    )

insert_edict-IsAscending :
    (id : ℕ) (e : Edict) (es : List Edict)
    → id ≤ e.id
    → e.id ≤ u128_max
    → IsAscending id es
    → IsAscending id (insert_edict e es)
unfolding insert_edict
insert_edict-IsAscending id e [] le fits h = (le, fits, tt)
insert_edict-IsAscending id e (f ∷ fs) le fits (le', fits', later) =
    elim (Bool-cases (leb e.id f.id)) [
      | inl before ↦ rw before (le, fits, (ground arith, fits', later))
      | inr after ↦
          rw after (le', fits', insert_edict-IsAscending f.id e fs (ground arith) fits later)
    ]

pub sort_edicts-IsAscending :
    (es : List Edict) → All (λ e. e.id ≤ u128_max) es → IsAscending 0 (sort_edicts es)
unfolding sort_edicts
sort_edicts-IsAscending [] h = tt
sort_edicts-IsAscending (e ∷ es) (fits, later) =
    insert_edict-IsAscending 0 e (sort_edicts es) (omega arith) fits
      (sort_edicts-IsAscending es later)

-- Let the ids of edicts fit a u128. Then the subtractions of the delta encoding do not underflow, and
-- the loop of `from_integers` over the encoded edicts reads back the edicts, sorted by id.
pub read_edicts-sort_edicts :
    (checks : Bool) (es : List Edict)
    → All (λ e. e.id ≤ u128_max) es
    → (ns : List ℕ) × (deltas checks 0 (sort_edicts es) ≡ done ns)
      × (read_edicts 0 ns ≡ sort_edicts es)
read_edicts-sort_edicts checks es h =
    read_edicts-deltas checks 0 (sort_edicts es) (sort_edicts-IsAscending es h)
