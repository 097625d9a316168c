-- ===== src/Builder/State.antt =====
-- The state of the transaction builder of src/subcommand/wallet/transaction_builder.rs, and results
-- that may be errors or panics. Outpoints, addresses and inscription ids stand as numbers, outpoints
-- in their order, and an address for its script too: all are of one network.
use okx_ord.Common.{
  ℕ, ◌+◌, ◌-◌, List, [], ◌∷◌, Option, none, some, Bool, true, false, ltb, leb, ◌==◌, if◌then◌else◌,
}
use okx_ord.Common.Dict.{Dict, lookup}
use okx_ord.Common.Outcome.{u64_max}
use okx_ord.Builder.FeeRate.{FeeRate}

pub record SatPoint : Type 0 where
  pub outpoint : ℕ
  pub offset : ℕ

pub data Error : Type 0 where
  duplicate_address : ℕ → Error
  dust : ℕ → ℕ → Error
  not_enough_cardinal_utxos : Error
  not_in_wallet : SatPoint → Error
  out_of_range : SatPoint → ℕ → Error
  utxo_contains_additional_inscription : SatPoint → SatPoint → ℕ → Error
  value_overflow : Error

pub data Target : Type 0 where
  value : ℕ → Target
  postage : Target
  exact_postage : ℕ → Target

-- What the code takes from elsewhere: the least value of an output to an address that is no dust, and
-- the virtual size of a transaction with so many inputs, each with one Schnorr signature, and outputs
-- to these addresses; and the builder's fee rate.
pub record Sizes : Type 0 where
  pub dust_value : ℕ → ℕ
  pub vsize : ℕ → List ℕ → ℕ
  pub rate : FeeRate

-- `BTreeMap`s and `BTreeSet`s are in the order of their keys. The fee rate stands in `Sizes`.
pub record TransactionBuilder : Type 0 where
  pub amounts : Dict ℕ
  pub change_addresses : List ℕ
  pub inputs : List ℕ
  pub inscriptions : List (SatPoint × ℕ)
  pub locked_utxos : List ℕ
  pub outgoing : SatPoint
  pub outputs : List (ℕ × ℕ)
  pub recipient : ℕ
  pub runic_utxos : List ℕ
  pub target : Target
  pub unused_change_addresses : List ℕ
  pub utxos : List ℕ

pub record Transaction : Type 0 where
  pub input : List ℕ
  pub output : List (ℕ × ℕ)

pub data Built {ℓ} (A : Type ℓ) : Type ℓ where
  panicked : Built A
  failed : Error → Built A
  built : A → Built A

infixl 5 ◌>>=◌ ◌>>◌
abbrev pub ◌>>=◌ {ℓ κ} : {A : Type ℓ} {B : Type κ} → Built A → (A → Built B) → Built B
r >>= next = elim r [ panicked ↦ panicked | failed e ↦ failed e | built a ↦ next a ]

abbrev pub ◌>>◌ {κ} : {B : Type κ} → Built (Unit {0}) → Built B → Built B
first >> second = first >>= λ u. second

-- `assert!`
abbrev pub assert : Bool → Built (Unit {0})
assert test = if test then built tt else panicked

-- `.unwrap()` and `.expect()`, and `.ok_or(e)?`
abbrev pub expect {ℓ} : {A : Type ℓ} → Option A → Built A
expect none = panicked
expect (some a) = built a

abbrev pub ok_or {ℓ} : {A : Type ℓ} → Option A → Error → Built A
ok_or none e = failed e
ok_or (some a) e = built a

-- Sums and differences of amounts and of `u64`s that panic where they do not fit, as in a build with
-- overflow checks, and `checked_add` and `checked_sub`.
abbrev pub add : ℕ → ℕ → Built ℕ
add a b = if leb (a + b) u64_max then built (a + b) else panicked

abbrev pub sub : ℕ → ℕ → Built ℕ
sub a b = if leb b a then built (a - b) else panicked

abbrev pub checked_add : ℕ → ℕ → Option ℕ
checked_add a b = if leb (a + b) u64_max then some (a + b) else none

abbrev pub checked_sub : ℕ → ℕ → Option ℕ
checked_sub a b = if leb b a then some (a - b) else none

unfoldable pub contains : ℕ → List ℕ → Bool
contains x [] = false
contains x (y ∷ ys) = let rest = contains x ys in if x == y then true else rest

unfoldable pub remove_utxo : ℕ → List ℕ → List ℕ
remove_utxo x [] = []
remove_utxo x (y ∷ ys) = let rest = remove_utxo x ys in if x == y then rest else y ∷ rest

-- `last`, `pop` and a write through `last_mut`.
unfoldable pub last {ℓ} : {A : Type ℓ} → List A → Option A
last [] = none
last (x ∷ []) = some x
last (x ∷ y ∷ ys) = last (y ∷ ys)

unfoldable pub without_last {ℓ} : {A : Type ℓ} → List A → List A
without_last [] = []
without_last (x ∷ []) = []
without_last (x ∷ y ∷ ys) = x ∷ without_last (y ∷ ys)

unfoldable pub set_last : ℕ → List (ℕ × ℕ) → List (ℕ × ℕ)
set_last v [] = []
set_last v ((a, w) ∷ []) = (a, v) ∷ []
set_last v (x ∷ y ∷ ys) = x ∷ set_last v (y ∷ ys)

abbrev pub keys : Dict ℕ → List ℕ
keys [] = []
keys ((k, a) ∷ d) = k ∷ keys d

-- `change.iter().cloned().collect()`
abbrev pub set_of_two : ℕ → ℕ → List ℕ
set_of_two a b = if a == b then a ∷ [] else if ltb a b then a ∷ b ∷ [] else b ∷ a ∷ []

-- `TransactionBuilder::new`
abbrev pub new_builder :
    SatPoint
    → List (SatPoint × ℕ)
    → Dict ℕ
    → List ℕ
    → List ℕ
    → ℕ
    → ℕ
    → ℕ
    → Target
    → TransactionBuilder
new_builder outgoing inscriptions amounts locked_utxos runic_utxos recipient first second target =
    record {
      amounts = amounts;
      change_addresses = set_of_two first second;
      inputs = [];
      inscriptions = inscriptions;
      locked_utxos = locked_utxos;
      outgoing = outgoing;
      outputs = [];
      recipient = recipient;
      runic_utxos = runic_utxos;
      target = target;
      unused_change_addresses = first ∷ second ∷ [];
      utxos = keys amounts;
    }

-- `self.amounts[utxo]`
abbrev pub index : Dict ℕ → ℕ → Built ℕ
index amounts utxo = expect (lookup utxo amounts)
