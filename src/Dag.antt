-- ===== src/Dag.antt =====
-- The block graph (src/dag): its index, its traversals and the insertion of blocks.
pub mod Tests
pub mod Worklist
pub mod Index
pub mod Engine
pub mod Order
pub mod Queries
pub mod Integrity
pub mod Genesis
pub mod IntegrityTests
