-- ===== src/Runes/Updater.antt =====
-- src/index/updater/rune_updater.rs: how a transaction moves runes.
pub mod State
pub mod Inputs
pub mod Etch
pub mod Edicts
pub mod Mints
pub mod Settle
pub mod Index
