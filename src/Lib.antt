-- ===== src/Lib.antt =====
-- The runes index, the BRC-20 protocol, the ordinal numbering, the output cache, the sat ranges
-- and the wallet's transaction builder of ord, modelled and proved.
--
-- The program is an indexer for Bitcoin. For each block it hands the transactions to updaters,
-- which keep tables of inscriptions, of rune entries and of unspent rune balances. The sats of the
-- ordinal numbering are numbered by the order in which they were mined.
--
-- Runes. `index/updater/rune_updater.rs` under `src/` of the repository has one entry,
-- `RuneUpdater::index_runes`. Here its steps are one definition each, in the source's order:
--   Runes/Types          the records of runes/edict.rs, etching.rs, runestone.rs, index/entry.rs
--   Runes/Varint         runes/varint.rs: encode_to_vec and decode
--   Runes/Runestone      runes/runestone.rs: from_transaction; Runestone/Encipher has encipher
--                        and, beside it, proofs on its numbers (Integers, Edicts, Fields,
--                        Inverse) that Whole joins
--   Runes/RuneId         runes/rune_id.rs: the conversions between a rune id and a u128
--   Runes/Updater/State  the fields of `RuneUpdater`, and `+=` on a map of balances
--   Runes/Updater/Inputs the balances of the spent outputs become unallocated
--   Runes/Updater/Etch   the allocation of an etching, and the entry of a new rune
--   Runes/Updater/Mints  the open mints that the edicts claim, and their count
--   Runes/Updater/Edicts the loop over the edicts
--   Runes/Updater/Settle the default output, burning, and the buffers of the outputs
--   Runes/Updater/Index  `index_runes`, and, of index/updater.rs, the loop over a block's
--                        transactions and the flush of the updates
-- Runes/Conserve has a proof module for each step (Pay, Pools and Edicts, Minting, Held, Buffers
-- and Sorted, Leftovers, Store, Naming, Etching, Issue, Flush), composed by Ledger, Books, Balance
-- and Block; Runes/Faults has the inputs at which the code fails. The steps interact through the state
-- `RuneUpdater`, and within one transaction through `Pools`, the balances that edicts draw on.
--
-- Ordinals. Ordinals/Epoch has epoch.rs and height.rs; Ordinals/Sat has sat.rs, degree.rs,
-- decimal_sat.rs and rarity.rs. Chain is about the division of the sats into epochs, Blocks about
-- the place of a sat in its block, and Rarity about rarities.
--
-- BRC-20. `okx/protocol/` resolves the inscription operations of a transaction to messages and
-- executes them on the tables of `okx/datastore/brc20/`:
--   Brc20/External       what the code takes from `bigdecimal` and from text functions, with its laws
--   Brc20/Types          okx/datastore/brc20/: balance, token_info, transferable_log, tick, errors,
--                        events; okx/protocol/brc20/operation/
--   Brc20/Num            okx/protocol/brc20/num.rs and params.rs
--   Brc20/Store          the tables of `Context` and redb/table.rs
--   Brc20/Plan           the part of each handler of msg_executor.rs up to its first write
--   Brc20/Execute        the handlers and `execute`
--   Brc20/Messages       msg_resolver.rs, operation/mod.rs and resolve_manager.rs
--   Brc20/Manager        `from_message`, execute_manager.rs and the loop of protocol_manager.rs
-- Brc20/Exact has the arithmetic on decimals that are natural numbers. Brc20/Books says what the
-- tables must agree on, Books/Effects what each operation does to them, and Deploys, Mints,
-- Inscribes, Transfers (with Withdrawals and Burns) and Process are about the handlers;
-- Messages/Backing and Manager/Ledger are about the messages of a transaction. Handlers run in a
-- monad `Exec` on `Context`: an error keeps what was written before it, as the source's early
-- returns do.
--
-- SimpleLru has okx/lru.rs, the cache of outputs that the block updater refreshes before each
-- block, with a generation of new and a generation of old entries; SimpleLru/Lookups is about what
-- it finds.
--
-- Sat ranges. SatRanges has `index_transaction_sats` of index/updater.rs, which assigns the ranges
-- of a transaction's inputs to its outputs; SatRanges/Block has what `index_block` does with it
-- for a block, from the mined range to the lost ones, and SatRanges/Fifo (with Sats) is about the
-- order of the sats. Ranges are kept as their bounds, not as bytes, and the null outpoint is 0.
-- The call of the inscription updater is left out.
--
-- Transaction builder. The wallet sends a sat with `subcommand/wallet/transaction_builder.rs`: it
-- picks inputs, aligns the sat with the recipient's output, and pays the fee. Its steps are one
-- definition each:
--   Builder/FeeRate      fee_rate.rs: the fee for a size
--   Builder/State        the types, `TransactionBuilder::new`, and results that may be errors or panics
--   Builder/Select       select_cardinal_utxo and calculate_sat_offset
--   Builder/Steps        select_outgoing, align_outgoing, pad_alignment_output, add_value, strip_value,
--                        deduct_fee, estimate_vbytes and estimate_fee
--   Builder/Build        build with its assertions, and build_transaction
-- Builder/Request says what a request is and what the theorems ask of it, Builder/Funds what
-- inputs are worth in the states between the steps (`Ledger`). Outputs is about the outputs in
-- them, and Outgoing, Padding, Funding, Stripping and Deducting about a step each; Offset,
-- Addresses, Checks and Slop about the assertions; Sound, Whole and Enough put them together.
-- Choice and Nearest are about what select_cardinal_utxo chooses, and Exact about exact postages.
-- Each step hands the next one the builder, in a state whose shape (`state`) a predicate for the
-- step describes.
--
-- Conventions. An `Outcome` is a value or a panic. Arithmetic that Rust checks or wraps takes the
-- flag `checks`: a build with overflow checks panics where one without them wraps around. Hash
-- maps and tables are association lists with one entry to a key, and a loop over a hash map takes
-- its entries in the order of the list. The transaction builder's sums and differences panic where
-- they do not fit, as in a build with overflow checks, and its addresses and outpoints stand as
-- numbers. Table keys are numbers that differ where the stored keys differ.
--
-- Fuel. `load_balances` runs on the length of its buffer, which is enough since `decode` takes a
-- byte at least from what is not empty. `encode_loop` runs on the index into its array of 19
-- bytes, as in the source. `integers_loop` runs on the length of its payload, for the same reason
-- as `load_balances`. `pad_loop` and `add_loop` of the transaction builder run on one more than
-- the number of outputs that are left, since each round but the last takes one. No other loop
-- needs fuel.
--
-- Scripts. A script stands for the instructions that it yields, with `none` for an error, and the
-- script builder of `encipher` for the slices that it pushes.
--
-- Parameters. What `Runestone::from_transaction` finds in a transaction is an argument of
-- `index_runes`. Of a transaction the model has the outputs that it spends, and of each of its own
-- outputs whether the script is an OP_RETURN. The three constants that the code takes from the
-- `bitcoin` crate are the record `Constants`, and `bitcoin` has the crate's values. The BRC-20
-- handlers take the record `External`, and its laws `IsExact`: decimals that are natural numbers
-- are added, subtracted, multiplied, compared and converted exactly, and a text that the code lets
-- through is a natural number of units. `Texts` has JSON and UTF-8, and `Outputs` the tables that
-- a message is completed from.The transaction builder takes the record `Sizes`: the
-- dust value of a script and the size of a transaction, which the `bitcoin` crate computes, and the
-- builder's fee rate. The code keeps the rate in floating point; a fraction stands for it, with
-- the code's rounding to whole sats. `IsRegular` has what the theorems ask of these: a rate of
-- whole sats, since at others rounded fees do not add up and the code may panic; sizes in which an
-- input and a change output take at most what the code allows for them, up to 252 inputs and
-- outputs, as far as their counts take one byte; dust values that are positive and at most the
-- postage, and the same for both change addresses. `IsWallet` says that outpoints are different
-- and 252 at most, that sums fit a u64 and that the outgoing output is not worth 0. The tests have
-- the sizes of transactions to taproot addresses.
-- Formatted texts inside errors and events are left out.
--
-- Not modelled: errors of the database, the serialisation of table entries, text forms, queries
-- that only read, and the other parts of the program (inscriptions, server, command line and the
-- rest of the wallet).
pub mod Common
pub mod Runes
pub mod Ordinals
pub mod SimpleLru
pub mod Brc20
pub mod Builder
pub mod SatRanges
