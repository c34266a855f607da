-- ===== src/Identity.antt =====
-- The identities that people and nodes trust, and the documents kept in signed versions: src/libranet/identity/.
pub mod Versions
pub mod Reading
pub mod Trust
