-- ===== src/Runes/Runestone/Encipher.antt =====
-- `Runestone::encipher` of src/runes/runestone.rs. The script builder yields the pushed slices.
use okx_ord.Common.{
  ℕ, zero, suc, List, [], ◌∷◌, ◌++◌, Option, none, some, Bool, true, false, leb, ◌==◌,
  if◌then◌else◌,
}
use okx_ord.Common.Outcome.{Outcome, done, ◌>>=◌, sub_checked, u128_max}
use okx_ord.Runes.Types.{Edict, Etching, Runestone}
use okx_ord.Runes.Varint.{encode_to_vec}
use okx_ord.Runes.Runestone.{
  Script, op, push_bytes, op_return, magic, tag_body, tag_flags, tag_rune, tag_limit, tag_term,
  tag_deadline, tag_default_output, tag_divisibility, tag_spacers, tag_symbol, tag_burn, flag_etch,
}

-- A tag and its value, if there is one.
abbrev pub field : ℕ → Option ℕ → List ℕ
field tag none = []
field tag (some value) = tag ∷ value ∷ []

-- A number that is left out where it is zero.
abbrev pub nonzero : ℕ → Option ℕ
nonzero n = if n == 0 then none else some n

-- `edicts.sort_by_key(|edict| edict.id)`, which is stable.
unfoldable pub insert_edict : Edict → List Edict → List Edict
insert_edict e [] = e ∷ []
insert_edict e (f ∷ fs) =
    let rest = insert_edict e fs in if leb e.id f.id then e ∷ f ∷ fs else f ∷ rest

unfoldable pub sort_edicts : List Edict → List Edict
unfolding insert_edict
sort_edicts [] = []
sort_edicts (e ∷ es) = insert_edict e (sort_edicts es)

-- The numbers of the edicts, each id less the one before.
unfoldable pub deltas : Bool → ℕ → List Edict → Outcome (List ℕ)
deltas checks id [] = done []
deltas checks id (e ∷ es) = do
  delta ← sub_checked checks u128_max e.id id
  later ← deltas checks e.id es
  done (delta ∷ e.amount ∷ e.output ∷ later)

abbrev pub etching_numbers : Option Etching → List ℕ
etching_numbers none = []
etching_numbers (some e) =
    field tag_flags (some flag_etch)
    ++ (field tag_rune e.rune
        ++ (field tag_deadline e.deadline
            ++ (field tag_divisibility (nonzero e.divisibility)
                ++ (field tag_spacers (nonzero e.spacers)
                    ++ (field tag_symbol e.symbol
                        ++ (field tag_limit e.limit ++ field tag_term e.term))))))

abbrev pub burn_numbers : Bool → List ℕ
burn_numbers false = []
burn_numbers true = tag_burn ∷ 0 ∷ []

-- `if !self.edicts.is_empty()`
unfoldable pub body_numbers : Bool → List Edict → Outcome (List ℕ)
unfolding deltas sort_edicts
body_numbers checks [] = done []
body_numbers checks (e ∷ es) = do
  later ← deltas checks 0 (sort_edicts (e ∷ es))
  done (tag_body ∷ later)

-- The numbers that `encipher` encodes, in its order.
unfoldable pub numbers : Bool → Runestone → Outcome (List ℕ)
unfolding body_numbers
numbers checks r = do
  body ← body_numbers checks r.edicts
  done (
      etching_numbers r.etching
      ++ (field tag_default_output r.default_output ++ (burn_numbers r.burn ++ body)))

unfoldable pub encode_all : List ℕ → List ℕ → Outcome (List ℕ)
encode_all [] v = done v
encode_all (n ∷ ns) v = do v' ← encode_to_vec n v; encode_all ns v'

-- `payload.chunks(MAX_SCRIPT_ELEMENT_SIZE)`: `room` is what is left in the chunk that is open.
unfoldable pub chunk_loop : ℕ → List ℕ → List (List ℕ)
chunk_loop room [] = []
chunk_loop room (b ∷ []) = (b ∷ []) ∷ []
chunk_loop zero (b ∷ c ∷ bs) = (b ∷ []) ∷ chunk_loop 519 (c ∷ bs)
chunk_loop (suc room) (b ∷ c ∷ bs) = elim (chunk_loop room (c ∷ bs)) [
  | [] ↦ (b ∷ []) ∷ []
  | chunk ∷ chunks ↦ (b ∷ chunk) ∷ chunks
]

abbrev pub push_all : List (List ℕ) → Script
push_all [] = []
push_all (chunk ∷ chunks) = some (push_bytes chunk) ∷ push_all chunks

-- `Runestone::encipher`
unfoldable pub encipher : Bool → Runestone → Outcome Script
unfolding numbers encode_all chunk_loop
encipher checks r = do
  ns ← numbers checks r
  bytes ← encode_all ns []
  done (some (op op_return) ∷ some (push_bytes magic) ∷ push_all (chunk_loop 519 bytes))
