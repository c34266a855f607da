-- ===== src/Connections.antt =====
-- The peers a node connects to: src/libranet/connections.
pub mod PeerMix
pub mod Responses
