-- ===== src/Fraud/Repository.antt =====
-- `TransactionLogRepository` of src/fraud-detection/repository/transaction-log.repository.ts. Its
-- log lines are left out.
use transaction_service.Shared.{ℕ, String, Option, Bool, not, ◌&&◌, ◌==◌, leb}
use transaction_service.Driver.Calls.{log_insert_one, log_count_documents, log_find_latest}
use transaction_service.Driver.Prog.{Prog, throw, await, catch}
use transaction_service.Fraud.Types.{TransactionLog}

-- `{ account_no: accountNo, timestamp: { $gte: since } }`
abbrev pub recent : String → ℕ → TransactionLog → Bool
recent n since l = l.account_no == n && leb since l.timestamp

-- `{ account_no: accountNo, transaction_id: { $ne: currentTxId } }`
abbrev pub other_log : String → String → TransactionLog → Bool
other_log n id l = l.account_no == n && not (l.transaction_id == id)

unfoldable pub create : TransactionLog → Prog Unit
create log = catch (await (log_insert_one log)) throw

unfoldable pub count_recent_by_account : String → ℕ → Prog ℕ
count_recent_by_account n since = await (log_count_documents (recent n since))

unfoldable pub get_last_transaction : String → String → Prog (Option TransactionLog)
get_last_transaction n id = await (log_find_latest (other_log n id))
