-- ===== src/Core.antt =====
-- The chain's data (src/core): transactions and blocks.
mod Tests
pub mod Transaction
pub mod Block
