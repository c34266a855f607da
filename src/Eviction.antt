-- ===== src/Eviction.antt =====
-- Making room in storage: src/libranet/eviction.
pub mod Pressure
