-- ===== src/Runes.antt =====
-- The runes protocol: src/runes/ and src/index/updater/rune_updater.rs.
pub mod Varint
pub mod Types
pub mod RuneId
pub mod Runestone
pub mod Updater
pub mod Conserve
pub mod Faults
mod Tests
