-- ===== src/Webserver.antt =====
-- The web server: src/libranet/webserver.
pub mod ByteRange
pub mod Sessions
pub mod Clients
pub mod Peers
pub mod Router
pub mod AppUse
