-- ===== src/Transaction/Types.antt =====
-- The transaction document: src/transaction/types/transaction.ts. Amounts are in hundredths,
-- dates in milliseconds. `updatedAt` and `metadata` are read nowhere and left out.
use transaction_service.Shared.{ℕ, String, ℤ, Option}

pub data TransactionType : Type 0 where
  transfer bill_payment deposit withdrawal refund : TransactionType

pub data TransactionStatus : Type 0 where
  pending success failed reversed processing : TransactionStatus

-- The enums' values, by number.
abbrev pub status_index : TransactionStatus → ℕ
status_index pending = 0
status_index success = 1
status_index failed = 2
status_index reversed = 3
status_index processing = 4

abbrev pub type_index : TransactionType → ℕ
type_index transfer = 0
type_index bill_payment = 1
type_index deposit = 2
type_index withdrawal = 3
type_index refund = 4

pub record Transaction : Type 0 where
  pub transaction_id : String
  pub type : TransactionType
  pub status : TransactionStatus
  pub from_account : Option String
  pub to_account : Option String
  pub amount : ℤ
  pub currency : String
  pub description : Option String
  pub reference_no : Option String
  pub balance_after : Option ℤ
  pub provider : Option String
  pub bill_reference : Option String
  pub confirmation_code : Option String
  pub idempotency_key : Option String
  pub user_id : Option String
  pub error_message : Option String
  pub created_at : ℕ
  pub processed_at : Option ℕ

-- `Partial<Transaction>`, what `new this.transactionModel` is given.
pub record TransactionData : Type 0 where
  pub transaction_id : Option String
  pub type : Option TransactionType
  pub status : Option TransactionStatus
  pub from_account : Option String
  pub to_account : Option String
  pub amount : Option ℤ
  pub currency : Option String
  pub description : Option String
  pub reference_no : Option String
  pub balance_after : Option ℤ
  pub provider : Option String
  pub bill_reference : Option String
  pub confirmation_code : Option String
  pub idempotency_key : Option String
  pub user_id : Option String
  pub error_message : Option String
  pub processed_at : Option ℕ
