-- ===== src/Consensus.antt =====
-- Consensus rules (src/consensus): proof of work, rewards and fees.
mod Tests
pub mod Pow
pub mod Reward
pub mod Fees
pub mod Daa
