-- ===== src/Runes/Updater/Etch.antt =====
-- The issuance of a new rune.
use okx_ord.Common.{
  ℕ, ◌+◌, Option, none, some, Bool, false, ◌||◌, ltb, leb, ◌==◌, if◌then◌else◌, unwrap_or, is_some,
}
use okx_ord.Common.Dict.{lookup, insert}
use okx_ord.Common.Outcome.{
  Outcome, done, ◌>>=◌, add_checked, sub_checked, try_from, unwrap, u16_max, u32_max, u64_max,
  u128_max,
}
use okx_ord.Runes.Types.{Etching, RuneEntry, reserved, max_limit, inscription_key}
use okx_ord.Runes.RuneId.{RuneId, rune_id_try_from, u128_from, store_rune_id}
use okx_ord.Runes.Updater.State.{RuneUpdater}

pub record Allocation : Type 0 where
  pub balance : ℕ
  pub deadline : Option ℕ
  pub divisibility : ℕ
  pub end : Option ℕ
  pub id : ℕ
  pub limit : Option ℕ
  pub rune : ℕ
  pub spacers : ℕ
  pub symbol : Option ℕ

-- `Statistic::ReservedRunes` and `Statistic::Runes`
abbrev pub reserved_runes : ℕ
reserved_runes = 8

abbrev pub runes_count : ℕ
runes_count = 9

-- `Rune::is_reserved`
unfoldable pub is_reserved : ℕ → Bool
is_reserved rune = leb reserved rune

-- The condition under which an etching is ignored: its name is too short yet, reserved or taken.
unfoldable pub is_rejected : RuneUpdater → Option ℕ → Bool
unfolding is_reserved
is_rejected s none = false
is_rejected s (some rune) =
    ltb rune s.minimum || is_reserved rune || is_some (lookup rune s.rune_to_id)

-- The rune's name: the one asked for, or the next reserved one.
unfoldable pub name_rune : Bool → RuneUpdater → Option ℕ → Outcome (RuneUpdater × ℕ)
name_rune checks s (some rune) = done (s, rune)
name_rune checks s none = do
  let taken = unwrap_or (lookup reserved_runes s.statistic_to_count) 0
  next ← add_checked checks u64_max taken 1
  rune ← unwrap (try_from u128_max (reserved + taken))
  done (record s { statistic_to_count = insert reserved_runes next s.statistic_to_count }, rune)

-- `match (etching.limit, etching.term)`: a term with no limit gets the greatest limit.
abbrev pub effective_limit : Option ℕ → Option ℕ → Option ℕ
effective_limit none (some term) = some max_limit
effective_limit limit term = limit

-- The balance that the etching's own edicts may allocate.
unfoldable pub initial_balance : Option ℕ → Option ℕ → ℕ
initial_balance none term = u128_max
initial_balance (some limit) none = limit
initial_balance (some limit) (some term) = if term == 0 then 0 else limit

-- `term.map(|term| term + self.height)` on `u32`
unfoldable pub mint_end : Bool → Option ℕ → ℕ → Outcome (Option ℕ)
mint_end checks none height = done none
mint_end checks (some term) height = do
  end ← add_checked checks u32_max term height
  done (some end)

-- The `match runestone.etching`: `index` is the transaction's place in the block.
unfoldable pub etch : Bool → RuneUpdater → ℕ → Etching → Outcome (RuneUpdater × Option Allocation)
unfolding is_rejected name_rune initial_balance mint_end
etch checks s index etching = if is_rejected s etching.rune then done (s, none) else do
  (s', rune) ← name_rune checks s etching.rune
  let limit = effective_limit etching.limit etching.term
  elim (try_from u16_max index) [
    | none ↦ done (s', none)
    | some index' ↦ do
      end ← mint_end checks etching.term s.height
      done (
        s',
        some (record {
          balance = initial_balance limit etching.term;
          deadline = etching.deadline;
          divisibility = etching.divisibility;
          end = end;
          id = u128_from (record { height = s.height; index = index' });
          limit = limit;
          rune = rune;
          spacers = etching.spacers;
          symbol = etching.symbol;
        }),
      )
  ]

-- The supply that an allocation stands for: `limit`, none of it after a term of no blocks.
unfoldable pub issued : ℕ → Option ℕ → Option ℕ → ℕ
issued height none end = u128_max
issued height (some limit) none = limit
issued height (some limit) (some end) = if end == height then 0 else limit

-- The entry of a new rune. A burning runestone leaves it with no limit, end and deadline.
unfoldable pub new_entry : RuneUpdater → ℕ → Bool → Allocation → ℕ → RuneEntry
new_entry s txid burn a supply = record {
  burned = 0;
  deadline = if burn then none else a.deadline;
  divisibility = a.divisibility;
  end = if burn then none else a.end;
  etching = txid;
  limit = if burn then none else a.limit;
  mints = 0;
  number = s.runes;
  rune = a.rune;
  spacers = a.spacers;
  supply = supply;
  symbol = a.symbol;
  timestamp = s.timestamp;
}

-- The rune id under the inscription of the same transaction, if there is one.
unfoldable pub link_inscription : RuneUpdater → ℕ → RuneId → RuneUpdater
link_inscription s txid id =
    elim (lookup (inscription_key txid 0) s.inscription_id_to_sequence_number) [
      | none ↦ s
      | some number ↦ record s {
        sequence_number_to_rune_id = insert number (store_rune_id id) s.sequence_number_to_rune_id;
      }
    ]

-- `if let Some(Allocation { .. }) = allocation`: the new rune enters the tables.
unfoldable pub enter : Bool → RuneUpdater → ℕ → Bool → Allocation → Outcome RuneUpdater
enter checks s txid burn a = do
  id ← unwrap (rune_id_try_from a.id)
  runes ← add_checked checks u64_max s.runes 1
  supply ← sub_checked checks u128_max (issued s.height a.limit a.end) a.balance
  done (
      link_inscription
        (record s {
          rune_to_id = insert a.rune (store_rune_id id) s.rune_to_id;
          transaction_id_to_rune = insert txid a.rune s.transaction_id_to_rune;
          runes = runes;
          statistic_to_count = insert runes_count runes s.statistic_to_count;
          id_to_entry = insert (store_rune_id id) (new_entry s txid burn a supply) s.id_to_entry;
        })
        txid id)
