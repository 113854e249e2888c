-- ===== src/State.antt =====
-- The account state (src/state): the tree of accounts and the manager that applies
-- transactions to it.
mod Tests
pub mod Tree
pub mod Manager
