-- ===== src/Communication.antt =====
-- The communication layer: sessions, outbound channels, connections, and the registry of them.
pub mod Session
pub mod Outbound
pub mod RequestQueue
pub mod Gate
pub mod Protocol
pub mod Connection
pub mod Registry
