-- ===== src/Fraud.antt =====
-- The fraud detection: the files of src/fraud-detection.
pub mod Types
pub mod Repository
pub mod Service
