-- ===== src/Mempool.antt =====
-- The pool of transactions that wait for a block.
pub mod Pool
mod Tests
