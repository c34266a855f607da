-- ===== src/Tests.antt =====
-- Runs at concrete inputs, and the theorems applied to them.
mod Ledger
mod Values
mod Services
mod Records
mod Exchanges
mod Reads
