-- ===== src/Bundle.antt =====
-- Bundles: src/libranet/bundle.
pub mod Splitting
