-- ===== src/Fraud/Types.antt =====
-- The transaction log: src/fraud-detection/entity/transaction-log.interface.ts.
use transaction_service.Shared.{ℕ, String, ℤ}

pub record GeoLocation : Type 0 where
  pub longitude : ℤ
  pub latitude : ℤ

pub record SecurityContext : Type 0 where
  pub ip_address : String
  pub device_id : String
  pub geo_location : GeoLocation

pub record TransactionLog : Type 0 where
  pub transaction_id : String
  pub account_no : String
  pub amount : ℤ
  pub security_context : SecurityContext
  pub timestamp : ℕ
