-- ===== src/Tests.antt =====
-- Runs at concrete inputs, and the theorems applied to them.
mod Data
mod Transfers
mod Frauds
mod Auths
mod Resolvers
mod Accounts
mod Ledgers
mod Answers
mod Utilities
mod Concurrent
