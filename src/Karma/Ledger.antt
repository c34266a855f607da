-- ===== src/Karma/Ledger.antt =====
-- A generation's arithmetic: src/libranet/karma/ledger.py. `Sheet` has its balances, `Reward` the
-- pot and its shares, and `Reach` how far back balances are stated.
pub mod Age
pub mod Sheet
pub mod Reward
pub mod Reach
