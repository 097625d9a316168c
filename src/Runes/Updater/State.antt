-- ===== src/Runes/Updater/State.antt =====
-- The state of `RuneUpdater`, and the update of a map of balances.
use okx_ord.Common.{ℕ, List, [], ◌∷◌, Bool, unwrap_or, zero, suc}
use okx_ord.Common.Dict.{Dict, lookup, insert}
use okx_ord.Common.Outcome.{Outcome, done, panic, ◌>>=◌, add_checked, u128_max}
use okx_ord.Runes.Types.{RuneEntry}

pub record RuneUpdate : Type 0 where
  pub burned : ℕ
  pub mints : ℕ
  pub supply : ℕ

abbrev pub no_update : RuneUpdate
no_update = record { burned = 0; mints = 0; supply = 0 }

-- The tables are maps from the stored keys. `updates` is the map of the same name.
pub record RuneUpdater : Type 0 where
  pub height : ℕ
  pub id_to_entry : Dict RuneEntry
  pub inscription_id_to_sequence_number : Dict ℕ
  pub minimum : ℕ
  pub outpoint_to_balances : Dict (List ℕ)
  pub rune_to_id : Dict ℕ
  pub runes : ℕ
  pub sequence_number_to_rune_id : Dict ℕ
  pub statistic_to_count : Dict ℕ
  pub timestamp : ℕ
  pub transaction_id_to_rune : Dict ℕ
  pub updates : Dict RuneUpdate

-- `*balances.entry(id).or_default() += amount`
unfoldable pub add_to : Bool → ℕ → ℕ → Dict ℕ → Outcome (Dict ℕ)
add_to checks id amount balances = do
  sum ← add_checked checks u128_max (unwrap_or (lookup id balances) 0) amount
  done (insert id sum balances)

-- `*allocated[output].entry(id).or_default() += amount`
unfoldable pub add_at : Bool → ℕ → ℕ → ℕ → List (Dict ℕ) → Outcome (List (Dict ℕ))
unfolding add_to
add_at checks output id amount [] = panic
add_at checks zero id amount (balances ∷ allocated) = do
  balances' ← add_to checks id amount balances
  done (balances' ∷ allocated)
add_at checks (suc output) id amount (balances ∷ allocated) = do
  allocated' ← add_at checks output id amount allocated
  done (balances ∷ allocated')
