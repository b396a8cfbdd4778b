-- ===== src/Driver/Calls.antt =====
-- The calls that the program awaits. A filter object is the test that it makes of a document, an
-- update object the change that it makes to one. The scope says whether a session is passed.
use transaction_service.Shared.{ℕ, String, ℤ, Bool, Option, List}
use transaction_service.Account.Types.{Account}
use transaction_service.Transaction.Types.{Transaction, TransactionType}
use transaction_service.Transaction.Dto.{TransferResponse}
use transaction_service.Fraud.Types.{TransactionLog}

pub data Scope : Type 0 where
  direct in_session : Scope

-- A group of the statistics' aggregation: its key, `$sum: 1`, `$sum: '$amount'` and
-- `$avg: '$amount'` as the sum and the number that it divides by.
pub record Statistic : Type 0 where
  pub type : TransactionType
  pub count : ℕ
  pub total_amount : ℤ
  pub avg_amount : ℤ × ℕ

pub data Call : Type 0 where
  account_save : Account → Call
  account_find_one : (Account → Bool) → Scope → Call
  account_find : (Account → Bool) → Call
  account_find_one_and_update : (Account → Bool) → (Account → Account) → Scope → Call
  account_delete_one : (Account → Bool) → Call
  transaction_save : Transaction → Scope → Call
  transaction_find_one : (Transaction → Bool) → Call
  -- `.sort({ createdAt: -1 }).skip(…).limit(…)`
  transaction_find : (Transaction → Bool) → Option ℤ → Option ℤ → Call
  transaction_count_documents : (Transaction → Bool) → Call
  transaction_find_one_and_update :
      (Transaction → Bool) → (Transaction → Transaction) → Scope → Call
  transaction_aggregate : (Transaction → Bool) → Call
  transaction_delete_one : (Transaction → Bool) → Call
  log_insert_one : TransactionLog → Call
  log_count_documents : (TransactionLog → Bool) → Call
  -- `findOne(filter, { sort: { timestamp: -1 } })`
  log_find_latest : (TransactionLog → Bool) → Call
  create_session start_transaction commit_transaction abort_transaction end_session : Call
  cache_get : String → Call
  cache_set : String → TransferResponse → ℕ → Call
  uuid now : Call

abbrev pub Answer : Call → Type 0
-- Whether the unique index on `accountNo` has let the document in.
Answer (account_save _) = Bool
Answer (account_find_one _ _) = Option Account
Answer (account_find _) = List Account
Answer (account_find_one_and_update _ _ _) = Option Account
Answer (account_delete_one _) = ℕ
Answer (transaction_save _ _) = Transaction
Answer (transaction_find_one _) = Option Transaction
Answer (transaction_find _ _ _) = List Transaction
Answer (transaction_count_documents _) = ℕ
Answer (transaction_find_one_and_update _ _ _) = Option Transaction
Answer (transaction_aggregate _) = List Statistic
Answer (transaction_delete_one _) = ℕ
Answer (log_insert_one _) = Unit
Answer (log_count_documents _) = ℕ
Answer (log_find_latest _) = Option TransactionLog
Answer create_session = Unit
Answer start_transaction = Unit
Answer commit_transaction = Unit
Answer abort_transaction = Unit
Answer end_session = Unit
Answer (cache_get _) = Option TransferResponse
Answer (cache_set _ _ _) = Unit
Answer uuid = String
Answer now = ℕ
