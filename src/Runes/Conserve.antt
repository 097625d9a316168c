-- ===== src/Runes/Conserve.antt =====
-- The sums of runes over the steps of src/index/updater/rune_updater.rs.
pub mod Totals
pub mod Pay
pub mod Pools
pub mod Edicts
pub mod Minting
pub mod Held
pub mod Buffers
pub mod Sorted
pub mod Leftovers
pub mod Store
pub mod Naming
pub mod Etching
pub mod Issue
pub mod Ledger
pub mod Books
pub mod Balance
pub mod Flush
pub mod Block
