-- ===== src/Runes/Runestone/Tests.antt =====
-- Runs of the model of runestones, and examples of its theorems.
use okx_ord.Common.{ℕ, ◌≤◌, ◌≡◌, refl, List, [], ◌∷◌, none, some, true, arith, All}
use okx_ord.Common.Dict.{lookup, insert, remove}
use okx_ord.Common.Outcome.{done, u128_max, sub_checked}
use okx_ord.Runes.Types.{Edict, Runestone}
use okx_ord.Runes.Runestone.{
  Script, integers, from_transaction, decipher, runestone_of, from_integers, read_fields,
  read_edicts, payload, pushes, same_bytes, any_even, push_bytes, op,
}
use okx_ord.Runes.Runestone.Encipher.{
  encipher, numbers, body_numbers, deltas, sort_edicts, insert_edict, encode_all,
}
use okx_ord.Runes.Runestone.Integers.{integers-encode_all, integers-done}
use okx_ord.Runes.Runestone.Inverse.{IsWritable, runestone_of-numbers}
use okx_ord.Runes.Runestone.Whole.{IsEncipherable, from_transaction-encipher}
use okx_ord.Runes.Runestone.Edicts.{read_edicts-sort_edicts}

abbrev edict : ℕ → ℕ → Edict
edict id amount = record { id = id; amount = amount; output = 1 }

abbrev two_edicts : List Edict
two_edicts = edict 300 5 ∷ edict 7 2 ∷ []

abbrev sample : List Edict → Runestone
sample edicts = record {
  edicts = edicts;
  etching = some (record {
    deadline = none;
    divisibility = 3;
    limit = some 1000;
    rune = some 4000000;
    symbol = some 0x24;
    term = none;
    spacers = 0;
  });
  default_output = some 1;
  burn = true;
}

abbrev sample_numbers : List ℕ
sample_numbers =
    2 ∷ 1 ∷ 4 ∷ 4000000 ∷ 1 ∷ 3 ∷ 5 ∷ 0x24 ∷ 6 ∷ 1000 ∷ 12 ∷ 1 ∷ 254 ∷ 0 ∷ 0 ∷ 7 ∷ 2 ∷ 1 ∷ 293 ∷ 5
    ∷ 1 ∷ []

numbers_of_sample : numbers true (sample two_edicts) ≡ done sample_numbers
unfolding numbers body_numbers deltas sort_edicts insert_edict sub_checked
numbers_of_sample = refl

reads_sample : runestone_of (from_integers sample_numbers) ≡ sample (edict 7 2 ∷ edict 300 5 ∷ [])
unfolding runestone_of from_integers read_fields read_edicts any_even lookup insert remove
reads_sample = refl

fits : All (λ n. n ≤ u128_max) sample_numbers
fits = ground arith

integers-encode_all_example :
    (bs : List ℕ) × (encode_all sample_numbers [] ≡ done bs) × (integers bs ≡ done sample_numbers)
integers-encode_all_example = integers-encode_all sample_numbers fits

integers-done_example : (ns : List ℕ) × (integers (0x87 ∷ 0x01 ∷ 0x05 ∷ 0xff ∷ []) ≡ done ns)
integers-done_example = integers-done (0x87 ∷ 0x01 ∷ 0x05 ∷ 0xff ∷ [])

read_edicts-sort_edicts_example :
    (ns : List ℕ) × (deltas true 0 (sort_edicts two_edicts) ≡ done ns)
    × (read_edicts 0 ns ≡ sort_edicts two_edicts)
read_edicts-sort_edicts_example = read_edicts-sort_edicts true two_edicts (ground arith)

-- A push of another text, an error after it, and an OP_RETURN with nothing after.
finds_none :
    from_transaction
      ((some (op 0x6a) ∷ []) ∷ (some (op 0x6a) ∷ some (push_bytes []) ∷ none ∷ []) ∷ [])
    ≡ done none
unfolding from_transaction decipher payload pushes same_bytes
finds_none = refl

sample_etching : IsWritable (record {
  deadline = none;
  divisibility = 3;
  limit = some 1000;
  rune = some 4000000;
  symbol = some 0x24;
  term = none;
  spacers = 0;
})
sample_etching = record {
  deadline = λ n h. absurd cc;
  divisibility = omega arith;
  limit = λ n h. (let q : 1000 ≡ n = cc in omega (arith, q));
  symbol = refl;
  term = λ n h. absurd cc;
  spacers = omega arith;
}

runestone_of-numbers_example :
    (ns : List ℕ) × (numbers true (sample two_edicts) ≡ done ns)
    × (runestone_of (from_integers ns) ≡ sample (sort_edicts two_edicts))
runestone_of-numbers_example =
    runestone_of-numbers true (sample two_edicts) (ground arith) sample_etching
      (λ n h. (let q : 1 ≡ n = cc in omega (arith, q)))

sample-IsEncipherable : IsEncipherable (sample two_edicts)
sample-IsEncipherable = record {
  edicts = ground arith;
  etching = sample_etching;
  rune = λ e h n g. (let q : 4000000 ≡ n = cc in omega (arith, q));
  default_output = λ n h. (let q : 1 ≡ n = cc in omega (arith, q));
}

from_transaction-encipher_example :
    (script : Script) × (encipher true (sample two_edicts) ≡ done script)
    × (from_transaction (script ∷ []) ≡ done (some (sample (sort_edicts two_edicts))))
from_transaction-encipher_example =
    from_transaction-encipher true (sample two_edicts) [] sample-IsEncipherable
