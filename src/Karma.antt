-- ===== src/Karma.antt =====
-- The Karma ledger: src/libranet/karma/ and the values of src/libranet/protocol/karma_*.py.
pub mod Amounts
pub mod Generations
pub mod Weight
pub mod Balances
pub mod Blocks
pub mod History
pub mod Payments
pub mod Ledger
pub mod Staking
