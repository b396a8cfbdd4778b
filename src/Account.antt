-- ===== src/Account.antt =====
-- The accounts: src/account/type/accounts.ts and src/account/account.repository.ts.
pub mod Types
pub mod Schema
pub mod Repository
pub mod Balances
pub mod Freezing
pub mod Lookups
pub mod Ledger
pub mod Numbers
pub mod Refinement
pub mod Outline
