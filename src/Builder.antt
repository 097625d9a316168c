-- ===== src/Builder.antt =====
-- The transaction builder of the wallet: src/subcommand/wallet/transaction_builder.rs.
pub mod FeeRate
pub mod State
pub mod Select
pub mod Steps
pub mod Build
pub mod Counts
pub mod Choice
pub mod Request
pub mod Funds
pub mod Safe
pub mod Offset
pub mod Outgoing
pub mod Padding
pub mod Funding
pub mod Outputs
pub mod Stripping
pub mod Deducting
pub mod Addresses
pub mod Checks
pub mod Slop
pub mod Sound
pub mod Whole
pub mod Nearest
pub mod Exact
pub mod Enough
mod Tests
