-- ===== src/Runes/Tests.antt =====
-- Runs of the model of runes, and examples of its theorems.
use okx_ord.Common.{
  Option, ℕ, ◌+◌, ◌^◌, ◌≤◌, ◌<◌, ◌≡◌, refl, List, [], ◌∷◌, none, some, Bool, true, false, arith,
  length, ◌&&◌, is_some, ◌*◌, ◌++◌,
}
use okx_ord.Common.Dict.{Dict, lookup, insert, total}
use okx_ord.Common.Outcome.{
  done, panic, add_checked, sub_checked, div_checked, rem_checked, u32_max, u128_max,
}
use okx_ord.Runes.Types.{
  Edict, Etching, RuneEntry, Runestone, Transaction, claim_bit, max_limit, reserved,
}
use okx_ord.Runes.RuneId.{rune_id_try_from, u128_from}
use okx_ord.Runes.RuneId.RoundTrip.{rune_id_try_from-u128_from}
use okx_ord.Runes.Varint.{encode_to_vec, decode}
use okx_ord.Runes.Varint.RoundTrip.{decode-encode_to_vec}
use okx_ord.Runes.Varint.Progress.{decode_takes}
use okx_ord.Runes.Updater.State.{RuneUpdater, RuneUpdate, add_at}
use okx_ord.Runes.Updater.Etch.{Allocation, etch, enter, issued, is_rejected}
use okx_ord.Runes.Updater.Edicts.{Pools, apply_edict, apply_edicts, borrow, claim, destinations}
use okx_ord.Runes.Updater.Mints.{count_mints, mint_limit, mintable_of}
use okx_ord.Runes.Conserve.Sorted.{IsSorted, times}
use okx_ord.Runes.Updater.Settle.{settle, sort_pairs, encode_balances}
use okx_ord.Runes.Updater.Index.{flush_updates, index_all, index_runes}
use okx_ord.Runes.Conserve.Totals.{HasIds, AllHasIds, total_all}
use okx_ord.Runes.Conserve.Edicts.{apply_edicts-Keeps}
use okx_ord.Runes.Conserve.Pools.{Keeps, potential, IsValid, Fits, Shrinks}
use okx_ord.Runes.Conserve.Held.{held, TableHasIds, balances_of}
use okx_ord.Runes.Conserve.Minting.{count_mints-Counted, Counted, Holds}
use okx_ord.Runes.Conserve.Buffers.{balances_of-encode_balances, AllFit}
use okx_ord.Runes.Conserve.Leftovers.{settle-Settled, Settled}
use okx_ord.Runes.Conserve.Block.{index_all-Indexed, AreIndexable}
use okx_ord.Runes.Conserve.Ledger.{IsRunnable}
use okx_ord.Runes.Conserve.Flush.{flush_updates-Flushed, Flushed, IsFlushable}
use okx_ord.Runes.Conserve.Etching.{etch-Etched, Etched, new_id}
use okx_ord.Runes.Conserve.Issue.{enter-Entered, Entered}
use okx_ord.Runes.Conserve.Balance.{IsBalanced, index_runes-Indexed, Indexed}
use okx_ord.Runes.Faults.{apply_edict-panics, etch-overflow, is_panic, splits_between_none}

abbrev no_runes : RuneUpdater
no_runes = record {
  height = 840000;
  id_to_entry = [];
  inscription_id_to_sequence_number = [];
  minimum = 0;
  outpoint_to_balances = [];
  rune_to_id = [];
  runes = 0;
  sequence_number_to_rune_id = [];
  statistic_to_count = [];
  timestamp = 0;
  transaction_id_to_rune = [];
  updates = [];
}

abbrev two_outputs : Transaction
two_outputs = record { input = []; is_op_return = true ∷ false ∷ [] }

-- A new rune of which 1000 go to the second output.
abbrev issue_1000 : Runestone
issue_1000 = record {
  edicts = record { id = 0; amount = 1000; output = 1 } ∷ [];
  etching = some (record {
    deadline = none;
    divisibility = 2;
    limit = none;
    rune = some 77;
    symbol = none;
    term = none;
    spacers = 0;
  });
  default_output = none;
  burn = false;
}

issue_1000-IsRunnable : IsRunnable 3 two_outputs.is_op_return no_runes issue_1000
unfolding lookup mintable_of total
issue_1000-IsRunnable = record {
  splits = (λ at_end even. absurd (omega (arith, at_end)), tt);
  etching = record { limit = tt; term = tt; reserved_room = omega arith };
  no_entry = refl;
  no_supply = refl;
  runes_room = omega arith;
  mint_room = λ k. omega arith;
  mint_count = λ k. omega arith;
}

no_runes-IsBalanced : IsBalanced no_runes
unfolding lookup held TableHasIds
no_runes-IsBalanced = record { sums = λ k. refl; table_ids = tt }

index_runes-Indexed_example :
    (s' : RuneUpdater) × (index_runes true 3 two_outputs 5 (some issue_1000) no_runes ≡ done s')
    × Indexed no_runes s'
unfolding lookup
index_runes-Indexed_example =
    index_runes-Indexed true 3 two_outputs 5 (some issue_1000) no_runes (omega arith) (omega arith)
      (λ v h. refl) (λ k. omega arith) issue_1000-IsRunnable no_runes-IsBalanced

-- A block of one transaction, with the runestone in it.
abbrev one_transaction : List (Transaction × ℕ)
one_transaction = (two_outputs, 5) ∷ []

abbrev find_issue : Transaction → Option Runestone
find_issue tx = some issue_1000

one_transaction-AreIndexable : AreIndexable true find_issue 3 one_transaction no_runes
unfolding AreIndexable lookup
one_transaction-AreIndexable = (
  record {
    height = omega arith;
    outputs = omega arith;
    fresh = λ v h. refl;
    ready = issue_1000-IsRunnable;
  },
  λ s' run. tt,
)

index_all-Indexed_example :
    (s' : RuneUpdater) × (index_all true find_issue 3 one_transaction no_runes ≡ done s')
    × Indexed no_runes s'
unfolding lookup
index_all-Indexed_example =
    index_all-Indexed true find_issue 3 one_transaction no_runes one_transaction-AreIndexable
      (λ k. omega arith) no_runes-IsBalanced

abbrev some_pools : Pools
some_pools = record {
  allocation = none;
  mintable = (5, 10) ∷ [];
  unallocated = (7, 9) ∷ [];
  allocated = [] ∷ [] ∷ [] ∷ [];
}

abbrev three_outputs : List Bool
three_outputs = false ∷ true ∷ false ∷ []

-- All of rune 7 is split between the destinations, and 4 of rune 5 are minted to output 0.
abbrev two_edicts : List Edict
two_edicts =
    record { id = 7; amount = 0; output = 3 }
    ∷ record { id = claim_bit + 5; amount = 4; output = 0 }
    ∷ []

some_pools-IsValid : IsValid three_outputs some_pools
unfolding HasIds AllHasIds
some_pools-IsValid = record {
  issue_id = tt;
  mintable_ids = (omega arith, tt);
  unallocated_ids = (omega arith, tt);
  allocated_ids = (tt, (tt, (tt, tt)));
  one_each = refl;
}

some_pools-Fits : Fits some_pools
unfolding potential total total_all
some_pools-Fits k = ground arith

apply_edicts-Keeps_example :
    (p' : Pools) × (apply_edicts true three_outputs two_edicts some_pools ≡ done p')
    × Keeps three_outputs some_pools p'
unfolding destinations
apply_edicts-Keeps_example =
    apply_edicts-Keeps true three_outputs two_edicts some_pools
      (λ at_end even. omega arith, (λ at_end even. omega arith, tt)) some_pools-Fits
      some_pools-IsValid

apply_edicts_run :
    apply_edicts true three_outputs two_edicts some_pools
    ≡ done (record {
      allocation = none;
      mintable = (5, 6) ∷ [];
      unallocated = (7, 0) ∷ [];
      allocated = ((7, 5) ∷ (5, 4) ∷ []) ∷ [] ∷ ((7, 4) ∷ []) ∷ [];
    })
unfolding apply_edicts claim lookup div_checked rem_checked sub_checked add_at add_checked insert
apply_edicts_run = refl

abbrev burned_outputs : List Bool
burned_outputs = true ∷ true ∷ true ∷ []

burned_pools-IsValid : IsValid burned_outputs some_pools
unfolding HasIds AllHasIds
burned_pools-IsValid = record {
  issue_id = tt;
  mintable_ids = (omega arith, tt);
  unallocated_ids = (omega arith, tt);
  allocated_ids = (tt, (tt, (tt, tt)));
  one_each = refl;
}

abbrev even_split : Edict
even_split = record { id = 7; amount = 0; output = 3 }

apply_edict-panics_example :
    is_panic (apply_edict false burned_outputs even_split some_pools)
    ≡ (splits_between_none burned_outputs even_split && is_some (borrow 7 some_pools))
apply_edict-panics_example =
    apply_edict-panics false burned_outputs even_split some_pools (omega arith) some_pools-Fits
      burned_pools-IsValid

apply_edict_run : apply_edict false burned_outputs even_split some_pools ≡ panic
unfolding apply_edict claim lookup div_checked
apply_edict_run = refl

abbrev small_issue : Allocation
small_issue = record {
  balance = 400;
  deadline = none;
  divisibility = 0;
  end = none;
  id = 840000 * 2 ^ 16 + 3;
  limit = some 1000;
  rune = 77;
  spacers = 0;
  symbol = none;
}

enter-Entered_example :
    (s' : RuneUpdater) × (enter true no_runes 5 false small_issue ≡ done s')
    × Entered no_runes small_issue s'
unfolding lookup issued
enter-Entered_example =
    enter-Entered true no_runes 5 false small_issue 3 (omega arith) (omega arith) refl refl
      (omega arith) (omega arith)

settle-Settled_example :
    (r : List (Dict ℕ) × Dict ℕ) × (settle true false none
        (true ∷ false ∷ [])
        ((7, 9) ∷ [])
        ([] ∷ ((7, 1) ∷ []) ∷ [])
      ≡ done r)
    × Settled ((7, 9) ∷ []) ([] ∷ ((7, 1) ∷ []) ∷ []) r.0 r.1
unfolding HasIds AllHasIds total total_all
settle-Settled_example =
    settle-Settled true false none (true ∷ false ∷ []) ((7, 9) ∷ []) ([] ∷ ((7, 1) ∷ []) ∷ [])
      (omega arith, tt) (tt, ((omega arith, tt), tt)) refl (λ k. ground arith)

count_mints-Counted_example :
    (u' : Dict RuneUpdate) × (count_mints true ((5, 10) ∷ []) ((5, 6) ∷ []) [] ≡ done u')
    × Counted ((5, 10) ∷ []) ((5, 6) ∷ []) [] u'
unfolding Holds HasIds Shrinks total lookup
count_mints-Counted_example =
    count_mints-Counted true ((5, 10) ∷ []) ((5, 10) ∷ []) ((5, 6) ∷ []) [] (refl, tt)
      (omega arith, tt) (refl, omega arith, tt) (λ k. omega arith) (λ k. ground arith)

balances_of-encode_balances_example :
    (buffer : List ℕ) × (encode_balances (sort_pairs ((300, 9) ∷ (7, 1000) ∷ [])) [] ≡ done buffer)
    × (balances_of buffer ≡ sort_pairs ((300, 9) ∷ (7, 1000) ∷ []))
    × IsSorted (balances_of buffer)
    × ((id v : ℕ) → times id v (balances_of buffer) ≡ times id v ((300, 9) ∷ (7, 1000) ∷ []))
unfolding AllFit
balances_of-encode_balances_example =
    balances_of-encode_balances ((300, 9) ∷ (7, 1000) ∷ [])
      (omega arith, omega arith, (omega arith, omega arith, tt))

decode-encode_to_vec_example :
    (bs : List ℕ) × (encode_to_vec 300 (1 ∷ []) ≡ done (1 ∷ [] ++ bs))
    × (1 ≤ length bs)
    × (length bs ≤ 19)
    × ((rest : List ℕ) → decode (bs ++ rest) ≡ (300, length bs))
decode-encode_to_vec_example = decode-encode_to_vec 300 (1 ∷ []) (omega arith)

decode_takes_example :
    ((decode (255 ∷ 3 ∷ [])).0 ≤ u128_max)
    × (1 ≤ (decode (255 ∷ 3 ∷ [])).1)
    × ((decode (255 ∷ 3 ∷ [])).1 ≤ 1 + length {A = ℕ} (3 ∷ []))
    × (decode [] ≡ (0, 0))
decode_takes_example = decode_takes 255 (3 ∷ [])

rune_id_try_from-u128_from_example :
    (rune_id_try_from (u128_from (record { height = 840000; index = 3 }))
      ≡ some (record { height = 840000; index = 3 }))
    × (u128_from (record { height = 840000; index = 3 }) < 2 ^ 48)
    × (rune_id_try_from (2 ^ 48 + 1) ≡ none)
rune_id_try_from-u128_from_example =
    rune_id_try_from-u128_from (record { height = 840000; index = 3 }) (2 ^ 48 + 1) (omega arith)
      (omega arith) (omega arith)

abbrev one_block_term : Etching
one_block_term = record {
  deadline = none;
  divisibility = 0;
  limit = none;
  rune = none;
  symbol = none;
  term = some 1;
  spacers = 0;
}

abbrev longest_term : Etching
longest_term = record one_block_term { term = some u32_max }

-- The entry of a rune with the longest term, etched at height 840000.
abbrev closed_entry : RuneEntry
closed_entry = record {
  burned = 0;
  deadline = none;
  divisibility = 0;
  end = some 839999;
  etching = 5;
  limit = some max_limit;
  mints = 0;
  number = 0;
  rune = reserved;
  spacers = 0;
  supply = 0;
  symbol = none;
  timestamp = 0;
}

abbrev next_block : RuneUpdater
next_block = record no_runes {
  height = 840001;
  id_to_entry = (new_id no_runes 3, closed_entry) ∷ [];
}

etch-overflow_example :
    (etch true no_runes 3 longest_term ≡ panic)
    × ((s' : RuneUpdater) × (a : Allocation) × (etch false no_runes 3 longest_term
          ≡ done (s', some a))
        × (a.id ≡ new_id no_runes 3)
        × (a.end ≡ some 839999)
        × (mint_limit next_block a.id ≡ none))
unfolding lookup is_rejected
etch-overflow_example =
    etch-overflow no_runes next_block 3 u32_max longest_term closed_entry (omega arith)
      (omega arith) refl (omega arith) (omega arith) refl (omega arith) (omega arith) refl refl

etch-Etched_example :
    (r : RuneUpdater × Option Allocation) × (etch false no_runes 3 one_block_term ≡ done r)
    × Etched no_runes 3 one_block_term r
unfolding lookup
etch-Etched_example =
    etch-Etched false no_runes 3 one_block_term (omega arith)
      (record { limit = tt; term = omega arith; reserved_room = omega arith })

abbrev one_entry : Dict RuneEntry
one_entry =
    (
      9,
      record {
        burned = 0;
        deadline = none;
        divisibility = 0;
        end = none;
        etching = 5;
        limit = none;
        mints = 2;
        number = 0;
        rune = 77;
        spacers = 0;
        supply = 20;
        symbol = none;
        timestamp = 0;
      },
    )
    ∷ []

abbrev one_update : Dict RuneUpdate
one_update = (9, record { burned = 3; mints = 1; supply = 10 }) ∷ []

flush_updates-Flushed_example :
    (entries' : Dict RuneEntry) × (flush_updates true one_update one_entry ≡ done entries')
    × Flushed one_update one_entry entries'
unfolding IsFlushable lookup
flush_updates-Flushed_example =
    flush_updates-Flushed true one_update one_entry (refl, (_, refl), tt) (λ k. ground arith)
      (λ k. ground arith) (λ k. ground arith)
