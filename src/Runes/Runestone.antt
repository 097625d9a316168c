-- ===== src/Runes/Runestone.antt =====
-- src/runes/runestone.rs: the message of a runestone in the scripts of a transaction. A script stands
-- for what `instructions` yields: instructions, where `none` is an error.
pub mod Encipher
pub mod Integers
pub mod Edicts
pub mod Fields
pub mod Inverse
pub mod Whole
mod Tests
use okx_ord.Common.{
  ℕ, zero, suc, ◌+◌, ◌-◌, ◌*◌, ◌/◌, ◌%◌, ◌^◌, List, [], ◌∷◌, ◌++◌, Option, none, some, Bool, true,
  false, not, ltb, leb, ◌==◌, ◌&&◌, ◌||◌, if◌then◌else◌, length, drop, and_then, then_some,
  unwrap_or,
}
use okx_ord.Common.Dict.{Dict, lookup, insert, remove}
use okx_ord.Common.Outcome.{
  Outcome, done, panic, ◌>>=◌, saturate, sub_checked, try_from, u8_max, u32_max, u128_max,
}
use okx_ord.Runes.Types.{Edict, Etching, Runestone, max_limit}
use okx_ord.Runes.Varint.{encode_to_vec, decode}

abbrev pub tag_body : ℕ
tag_body = 0

abbrev pub tag_flags : ℕ
tag_flags = 2

abbrev pub tag_rune : ℕ
tag_rune = 4

abbrev pub tag_limit : ℕ
tag_limit = 6

abbrev pub tag_term : ℕ
tag_term = 8

abbrev pub tag_deadline : ℕ
tag_deadline = 10

abbrev pub tag_default_output : ℕ
tag_default_output = 12

abbrev pub tag_divisibility : ℕ
tag_divisibility = 1

abbrev pub tag_spacers : ℕ
tag_spacers = 3

abbrev pub tag_symbol : ℕ
tag_symbol = 5

abbrev pub flag_etch : ℕ
flag_etch = 1

abbrev pub tag_burn : ℕ
tag_burn = 254

abbrev pub max_spacers : ℕ
max_spacers = 2 ^ 27 - 1

-- `MAX_DIVISIBILITY` of src/runes.rs
abbrev pub max_divisibility : ℕ
max_divisibility = 38

-- `char::from_u32`: the code points without the surrogates.
abbrev pub char_from_u32 : ℕ → Option ℕ
char_from_u32 n = if ltb n 0x110000 && not (leb 0xd800 n && leb n 0xdfff) then some n else none

pub record Message : Type 0 where
  pub fields : Dict ℕ
  pub body : List Edict

-- The loop over `chunks_exact(3)`.
unfoldable pub read_edicts : ℕ → List ℕ → List Edict
read_edicts id (delta ∷ amount ∷ output ∷ rest) =
    let id' = saturate u128_max (id + delta) in
    record { id = id'; amount = amount; output = output } ∷ read_edicts id' rest
read_edicts id _ = []

-- `fields.entry(tag).or_insert(value)`
abbrev pub or_insert : ℕ → ℕ → Dict ℕ → Dict ℕ
or_insert tag value fields = elim (lookup tag fields) [
  | none ↦ insert tag value fields
  | some present ↦ fields
]

-- The loop of `from_integers`, from one index to the next but one.
unfoldable pub read_fields : Dict ℕ → List ℕ → Message
unfolding read_edicts
read_fields fields [] = record { fields = fields; body = [] }
read_fields fields (tag ∷ []) = record { fields = fields; body = [] }
read_fields fields (tag ∷ value ∷ rest) =
    let later = read_fields (or_insert tag value fields) rest in
    if tag == tag_body
    then record { fields = fields; body = read_edicts 0 (value ∷ rest) }
    else later

-- `Message::from_integers`
unfoldable pub from_integers : List ℕ → Message
unfolding read_fields
from_integers payload = read_fields [] payload

-- The `while` loop of `integers`, on fuel.
unfoldable pub integers_loop : ℕ → List ℕ → Outcome (List ℕ)
integers_loop fuel [] = done []
integers_loop zero (b ∷ bs) = panic
integers_loop (suc fuel) (b ∷ bs) = do
  later ← integers_loop fuel (drop (decode (b ∷ bs)).1 (b ∷ bs))
  done ((decode (b ∷ bs)).0 ∷ later)

-- `Runestone::integers`
unfoldable pub integers : List ℕ → Outcome (List ℕ)
unfolding integers_loop
integers payload = integers_loop (length payload) payload

pub data Instruction : Type 0 where
  op : ℕ → Instruction
  push_bytes : List ℕ → Instruction

abbrev pub op_return : ℕ
op_return = 0x6a

-- `b"RUNE_TEST"`
abbrev pub magic : List ℕ
magic = 0x52 ∷ 0x55 ∷ 0x4e ∷ 0x45 ∷ 0x5f ∷ 0x54 ∷ 0x45 ∷ 0x53 ∷ 0x54 ∷ []

unfoldable pub same_bytes : List ℕ → List ℕ → Bool
same_bytes [] [] = true
same_bytes [] (d ∷ ds) = false
same_bytes (c ∷ cs) [] = false
same_bytes (c ∷ cs) (d ∷ ds) = let rest = same_bytes cs ds in c == d && rest

abbrev pub is_op_return : Instruction → Bool
is_op_return (op code) = code == op_return
is_op_return (push_bytes bytes) = false

abbrev pub is_magic : Instruction → Bool
is_magic (op code) = false
is_magic (push_bytes bytes) = same_bytes bytes magic

abbrev pub Script : Type 0
Script = List (Option Instruction)

-- The pushes of the rest of a script, one after the other; an error ends with `none`.
unfoldable pub pushes : Script → Option (List ℕ)
pushes [] = some []
pushes (none ∷ rest) = none
pushes (some (op code) ∷ rest) = pushes rest
pushes (some (push_bytes bytes) ∷ rest) = and_then (pushes rest) λ later. some (bytes ++ later)

-- `Runestone::payload`: `none` is an error in a script, and `some none` that there is no runestone.
unfoldable pub payload : List Script → Option (Option (List ℕ))
unfolding pushes same_bytes
payload [] = some none
payload ([] ∷ outputs) = payload outputs
payload ((none ∷ rest) ∷ outputs) = none
payload ((some first ∷ []) ∷ outputs) = payload outputs
payload ((some first ∷ none ∷ rest) ∷ outputs) =
    let later = payload outputs in if is_op_return first then none else later
payload ((some first ∷ some second ∷ rest) ∷ outputs) =
    let later = payload outputs in
    if is_op_return first && is_magic second
    then and_then (pushes rest) (λ bytes. some (some bytes))
    else later

-- `fields.keys().any(|tag| tag % 2 == 0)`
unfoldable pub any_even : Dict ℕ → Bool
any_even [] = false
any_even ((tag, value) ∷ fields) = let rest = any_even fields in tag % 2 == 0 || rest

-- The fields that `decipher` removes.
abbrev pub remove_known : Dict ℕ → Dict ℕ
remove_known fields = remove tag_default_output (
    remove tag_term (
      remove tag_symbol (
        remove tag_spacers (
          remove tag_rune (
            remove tag_limit
              (remove tag_flags (remove tag_divisibility (remove tag_deadline fields))))))))

abbrev pub etching_of_fields : Dict ℕ → Etching
etching_of_fields fields = record {
  deadline = and_then (lookup tag_deadline fields) (try_from u32_max);
  divisibility =
      unwrap_or
        (and_then (and_then (lookup tag_divisibility fields) (try_from u8_max))
          λ n. then_some (leb n max_divisibility) n)
        0;
  limit = and_then (lookup tag_limit fields) λ n. then_some (leb n max_limit) n;
  rune = lookup tag_rune fields;
  symbol = and_then (and_then (lookup tag_symbol fields) (try_from u32_max)) char_from_u32;
  term = and_then (lookup tag_term fields) (try_from u32_max);
  spacers =
      unwrap_or
        (and_then (and_then (lookup tag_spacers fields) (try_from u32_max))
          λ n. then_some (leb n max_spacers) n)
        0;
}

-- The runestone of a message, in `decipher`.
unfoldable pub runestone_of : Message → Runestone
unfolding any_even
runestone_of m =
    let flags = unwrap_or (lookup tag_flags m.fields) 0 in
    record {
      edicts = m.body;
      etching = then_some (not (flags % 2 == 0)) (etching_of_fields m.fields);
      default_output = and_then (lookup tag_default_output m.fields) (try_from u32_max);
      burn = not (flags / 2 == 0) || any_even (remove_known m.fields);
    }

-- `Runestone::decipher`, for the payload that it finds.
unfoldable pub decipher : Option (Option (List ℕ)) → Outcome (Option Runestone)
unfolding integers from_integers runestone_of
decipher none = done none
decipher (some none) = done none
decipher (some (some bytes)) = do ns ← integers bytes; done (some (runestone_of (from_integers ns)))

-- `Runestone::from_transaction`, for the scripts of a transaction's outputs.
unfoldable pub from_transaction : List Script → Outcome (Option Runestone)
unfolding payload decipher
from_transaction outputs = decipher (payload outputs)
