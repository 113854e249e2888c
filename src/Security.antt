-- ===== src/Security.antt =====
-- Protection against abuse (src/security).
mod Tests
pub mod Dos
pub mod PreValidation
