-- ===== src/Connections/Responses.antt =====
-- The responses of peers, taken out of the bytes received: src/libranet/connections/response_parser.py.
pub mod Bytes
pub mod Head
pub mod Parser
pub mod Growth
pub mod Cases
pub mod Loops
pub mod Fuel
pub mod Chunks
pub mod Restart
pub mod Early
