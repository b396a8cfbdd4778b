-- ===== src/Transaction.antt =====
-- The transactions: the files of src/transaction.
pub mod Types
pub mod Dto
pub mod Schema
pub mod NestSchema
pub mod Validation
pub mod Repository
pub mod Service
pub mod Concurrency
pub mod Resolver
