-- ===== src/Execution.antt =====
-- The execution of transactions (src/execution).
mod Tests
mod RunTests
pub mod Access
pub mod Schedule
pub mod Run
