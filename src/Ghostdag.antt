-- ===== src/Ghostdag.antt =====
-- The GHOSTDAG consensus (src/consensus/dag_traversal.rs, src/consensus/blue_set.rs and
-- src/consensus/ghostdag.rs).
pub mod Traversal
pub mod Path
pub mod BlueSet
pub mod Engine
pub mod Ordering
pub mod Tests
pub mod Annotation
