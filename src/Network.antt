-- ===== src/Network.antt =====
-- The network layer (src/network): the table of peers.
mod Tests
pub mod Peers
