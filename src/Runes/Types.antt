-- ===== src/Runes/Types.antt =====
-- The data of the runes protocol: src/runes/edict.rs, etching.rs, runestone.rs, and RuneEntry of
-- src/index/entry.rs. A `Rune` and a `Txid` stand as the number that they wrap.
use okx_ord.Common.{ℕ, List, Option, Bool, ◌+◌, ◌*◌, ◌^◌}

pub record Edict : Type 0 where
  pub id : ℕ
  pub amount : ℕ
  pub output : ℕ

pub record Etching : Type 0 where
  pub deadline : Option ℕ
  pub divisibility : ℕ
  pub limit : Option ℕ
  pub rune : Option ℕ
  pub symbol : Option ℕ
  pub term : Option ℕ
  pub spacers : ℕ

pub record Runestone : Type 0 where
  pub edicts : List Edict
  pub etching : Option Etching
  pub default_output : Option ℕ
  pub burn : Bool

pub record RuneEntry : Type 0 where
  pub burned : ℕ
  pub deadline : Option ℕ
  pub divisibility : ℕ
  pub end : Option ℕ
  pub etching : ℕ
  pub limit : Option ℕ
  pub mints : ℕ
  pub number : ℕ
  pub rune : ℕ
  pub spacers : ℕ
  pub supply : ℕ
  pub symbol : Option ℕ
  pub timestamp : ℕ

pub record OutPoint : Type 0 where
  pub txid : ℕ
  pub vout : ℕ

-- The tables are keyed by the stored form of an `OutPoint`. The model numbers these keys, with
-- different numbers for different outputs, and does not describe the bytes.
abbrev pub outpoint_key : OutPoint → ℕ
outpoint_key o = o.txid * 2 ^ 32 + o.vout

-- The keys that are stored forms of an `InscriptionId`, numbered in the same way.
abbrev pub inscription_key : ℕ → ℕ → ℕ
inscription_key txid index = txid * 2 ^ 32 + index

-- What the indexer reads of a transaction: the outputs that it spends, and of each output
-- whether its script is an OP_RETURN.
pub record Transaction : Type 0 where
  pub input : List OutPoint
  pub is_op_return : List Bool

abbrev pub claim_bit : ℕ
claim_bit = 2 ^ 48

abbrev pub max_limit : ℕ
max_limit = 2 ^ 64

abbrev pub reserved : ℕ
reserved = 6402364363415443603228541259936211926
