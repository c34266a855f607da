-- ===== src/Cas.antt =====
-- Content addressing: src/libranet/cas/.
pub mod Prefix
pub mod ContentId
pub mod Layered
