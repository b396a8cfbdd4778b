-- ===== src/Transaction/Dto.antt =====
-- The requests and responses: src/transaction/dto/transfer-request.dto.ts, and the objects that
-- the service returns.
use transaction_service.Shared.{ℕ, String, ℤ, Number, Option, List}
use transaction_service.Transaction.Types.{TransactionStatus}

pub record TransferRequest : Type 0 where
  pub from_account : String
  pub to_account : String
  pub amount : Number
  pub currency : String
  pub description : Option String
  pub reference_no : Option String
  pub user_id : Option String
  pub idempotency_key : Option String

pub record BillPaymentRequest : Type 0 where
  pub account_no : String
  pub provider : String
  pub amount : Number
  pub bill_reference : String
  pub description : Option String
  pub currency : Option String
  pub user_id : Option String
  pub idempotency_key : Option String

-- `response` in `transfer`; the status is the text 'SUCCESS' in each.
pub record TransferResponse : Type 0 where
  pub transaction_id : String
  pub status : String
  pub from_account : String
  pub amount : ℤ
  pub new_balance : ℤ
  pub timestamp : ℕ

-- What `getTransactionHistory` reads of its request. The GraphQL input has dates, a status and a
-- type too, which it does not read.
pub record TransactionHistoryRequest : Type 0 where
  pub account_no : String
  pub limit : Option ℤ
  pub offset : Option ℤ

pub data Direction : Type 0 where
  debit credit : Direction

pub record HistoryItem : Type 0 where
  pub id : String
  pub type : Direction
  pub amount : ℤ
  pub status : TransactionStatus
  pub timestamp : ℕ

pub record HistoryResponse : Type 0 where
  pub account_no : String
  pub total_count : ℕ
  pub transactions : List HistoryItem
