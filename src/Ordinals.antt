-- ===== src/Ordinals.antt =====
-- The numbering of satoshis: src/epoch.rs, height.rs, sat.rs, degree.rs, decimal_sat.rs, rarity.rs.
pub mod Constants
pub mod Epoch
pub mod Sat
pub mod Chain
pub mod Blocks
pub mod Rarity
mod Tests
