-- ===== src/Brc20.antt =====
-- The BRC-20 protocol: src/okx/protocol/brc20/ and src/okx/datastore/brc20/.
pub mod External
pub mod Types
pub mod Num
pub mod Store
pub mod Plan
pub mod Exact
pub mod Execute
pub mod Books
pub mod Messages
pub mod Manager
mod Tests
