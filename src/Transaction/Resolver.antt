-- ===== src/Transaction/Resolver.antt =====
-- The resolvers of src/transaction/resolver/transaction.resolver.ts, with the repositories and the
-- service that they name. Their log lines are left out, and `catch (error) { throw error; }` is
-- kept as a handler that throws. A missing text and a null one are one value here.
pub mod Access
pub mod DateTime
pub mod Statistics
pub mod Queries
pub mod Answers
pub mod Payments
use transaction_service.Shared.{
  ℕ, String, ℤ, Option, none, some, List, map, Bool, true, false, not, ◌==◌, includes,
  if◌then◌else◌,
}
use transaction_service.Driver.Errors.{ErrorClass, non_error, plain_error, Exception, exception}
use transaction_service.Driver.Calls.{Statistic}
use transaction_service.Driver.Prog.{Prog, ret, throw, ◌>>=◌, ◌>>◌, catch}
use transaction_service.Middleware.Auth.{User, Context}
use transaction_service.Account.Types.{Account}
use transaction_service.Account.Repository.{find_by_account_no}
use transaction_service.Transaction.Types.{Transaction, TransactionType}
use transaction_service.Transaction.Dto.{
  TransferRequest, BillPaymentRequest, TransferResponse, TransactionHistoryRequest, HistoryResponse,
}
use transaction_service.Transaction.Repository.{find_by_id, get_statistics}
use transaction_service.Transaction.Service.{
  Config, throw_if, transfer, bill_payment, get_transaction_history,
}

-- `a === b` on texts that may be missing.
abbrev pub same_id : Option String → Option String → Bool
same_id none none = true
same_id (some a) (some b) = a == b
same_id _ _ = false

-- `context.user && owner !== context.user.id`
abbrev pub unauthorized : Option User → Option String → Bool
unauthorized none owner = false
unauthorized (some user) owner = not (same_id owner user.id)

-- `if (!found) throw new Error(message);`
abbrev pub present : {A : Type 0} → Option A → String → Prog A
present none message = throw (exception plain_error message)
present (some a) message = ret a

-- The tests that precede the work on an account: it exists, and the user owns it.
unfoldable pub authorize : Option User → String → String → String → Prog Account
authorize user account_no missing denied = do
  found ← find_by_account_no account_no
  account ← present found missing
  throw_if (unauthorized user (some account.user_id)) plain_error denied
  ret account

unfoldable pub transaction_query : String → Context → Prog Transaction
transaction_query transaction_id context =
    catch
      (do
        found ← find_by_id transaction_id
        transaction ← present found "Transaction not found"
        throw_if (unauthorized context.user transaction.user_id) plain_error
            "Unauthorized access to transaction"
        ret transaction)
      throw

unfoldable pub transaction_history_query :
    TransactionHistoryRequest → Context → Prog HistoryResponse
transaction_history_query input context =
    catch
      (do
        authorize context.user input.account_no "Account not found" "Unauthorized access to account"
        get_transaction_history input)
      throw

unfoldable pub account_query : String → Context → Prog Account
account_query account_no context =
    catch (authorize context.user account_no "Account not found" "Unauthorized access to account")
      throw

-- A row of the statistics as the schema names it.
pub record StatisticRow : Type 0 where
  pub type : TransactionType
  pub count : ℕ
  pub total_amount : ℤ
  pub avg_amount : ℤ × ℕ

unfoldable pub statistic_row : Statistic → StatisticRow
statistic_row stat = record {
  type = stat.type;
  count = stat.count;
  total_amount = stat.total_amount;
  avg_amount = stat.avg_amount;
}

unfoldable pub transaction_statistics_query :
    String → Option ℕ → Option ℕ → Context → Prog (List StatisticRow)
transaction_statistics_query account_no start_date end_date context =
    catch
      (do
        authorize context.user account_no "Account not found" "Unauthorized access to account"
        stats ← get_statistics account_no start_date end_date
        ret (map statistic_row stats))
      throw

-- `error instanceof Error`
abbrev pub is_error : ErrorClass → Bool
is_error non_error = false
is_error _ = true

abbrev duplicate_error : Exception
duplicate_error = exception plain_error "409: Duplicate transaction (idempotency key already used)"

-- The handler of `transfer`, up to its last `throw`.
unfoldable pub map_transfer_error : Exception → Exception
map_transfer_error e =
    if not (is_error e.error_class)
    then e
    else if includes e.message "Insufficient funds"
    then exception plain_error "400: Insufficient funds"
    else if includes e.message "frozen"
    then exception plain_error "423: Account frozen due to fraud detection"
    else if includes e.message "Duplicate"
    then duplicate_error
    else if includes e.message "not found"
    then exception plain_error "400: Invalid account number"
    else e

-- The handler of `billPayment`.
unfoldable pub map_bill_payment_error : Exception → Exception
map_bill_payment_error e =
    if not (is_error e.error_class)
    then e
    else if includes e.message "Insufficient funds"
    then exception plain_error "400: Insufficient funds"
    else if includes e.message "not found"
    then exception plain_error "400: Invalid account number"
    else if includes e.message "Duplicate"
    then duplicate_error
    else e

-- `if (context.user) { input.userId = context.user.id; }`
abbrev pub attach : Option User → TransferRequest → TransferRequest
attach none input = input
attach (some user) input = record input { user_id = user.id }

abbrev pub attach_to_bill : Option User → BillPaymentRequest → BillPaymentRequest
attach_to_bill none input = input
attach_to_bill (some user) input = record input { user_id = user.id }

unfoldable pub transfer_mutation : Config → TransferRequest → Context → Prog TransferResponse
transfer_mutation cfg input context =
    catch
      (do
        authorize context.user input.from_account "From account not found"
            "Unauthorized: You can only transfer from your own accounts"
        transfer cfg (attach context.user input))
      λ e. throw (map_transfer_error e)

unfoldable pub bill_payment_mutation : BillPaymentRequest → Context → Prog Unit
bill_payment_mutation input context =
    catch
      (do
        authorize context.user input.account_no "Account not found"
            "Unauthorized: You can only make payments from your own accounts"
        bill_payment (attach_to_bill context.user input))
      λ e. throw (map_bill_payment_error e)
