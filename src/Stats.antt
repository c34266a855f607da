-- ===== src/Stats.antt =====
-- What a node counts of its peers: src/libranet/stats/.
pub mod Ratings
