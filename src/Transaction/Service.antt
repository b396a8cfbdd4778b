-- ===== src/Transaction/Service.antt =====
-- `TransactionService` of src/transaction/service/transaction.service.ts. Its log lines are left
-- out. `billPayment` has no body there, and `processExternalPayment` only logs.
pub mod Requests
pub mod Rules
pub mod Checks
pub mod Moves
pub mod Calls
pub mod Release
pub mod Session
pub mod Outcome
pub mod Runs
pub mod Guarantees
use transaction_service.Shared.{
  ℕ, String, ℤ, pos, ◌-ℤ◌, neg_ℤ, ltb_ℤ, Number, finite, nan, num_lt, num_or, is_finite, Option,
  none, some, map, Bool, true, false, not, ◌||◌, ◌==◌, if◌then◌else◌,
}
use transaction_service.Driver.Errors.{
  ErrorClass, Result, ok, err, exception, bad_request, not_found,
}
use transaction_service.Driver.Calls.{
  direct, in_session, create_session, start_transaction, commit_transaction, abort_transaction,
  end_session, cache_get, cache_set, uuid, now,
}
use transaction_service.Driver.Prog.{
  Prog, ret, throw, call, ◌>>=◌, ◌>>◌, settle, await, catch, finally,
}
use transaction_service.Account.Types.{Account, AccountStatus, frozen}
use transaction_service.Account.Repository.{find_by_account_no, update_balance}
use transaction_service.Transaction.Types.{
  Transaction, TransactionData, transfer as transfer_type, success, processing,
}
use transaction_service.Transaction.Dto.{
  TransferRequest, BillPaymentRequest, TransferResponse, TransactionHistoryRequest, HistoryItem,
  HistoryResponse, Direction, debit, credit,
}
use transaction_service.Transaction.Repository.{
  create, update_status, session_object, find_by_account, is_text, bare_number, Filters,
  PageOptions,
}
use Requests.{int_or, min_ℤ, truthy_text}

-- The settings that the constructor reads, and what the libraries give: `Number(…)` of the two
-- variables of the environment, the setter `uppercase`, and the text of a session object.
pub record Config : Type 0 where
  pub max_setting : Number
  pub min_setting : Number
  pub upper_case : String → String
  pub session_text : String

abbrev pub max_amount : Config → Number
max_amount cfg = num_or cfg.max_setting (finite (pos 100000000))

abbrev pub min_amount : Config → Number
min_amount cfg = num_or cfg.min_setting (finite (pos 1))

abbrev pub idempotency_ttl : ℕ
idempotency_ttl = 86400000

-- The code's method returns nothing. Here it hands on the finite amount that it has accepted.
unfoldable pub validate_amount : Config → Number → Result ℤ
validate_amount cfg amount =
    if num_lt amount (min_amount cfg) || num_lt (max_amount cfg) amount || not (is_finite amount)
    then err (exception bad_request "Invalid transaction amount")
    else elim amount [
      | finite a ↦ ok a
      | _ ↦ err (exception bad_request "Invalid transaction amount")
    ]

-- `if (failing) throw new …(message);`
abbrev pub throw_if : Bool → ErrorClass → String → Prog Unit
throw_if failing c m = if failing then throw (exception c m) else ret tt

-- `if (!account) throw new NotFoundException(message);`
abbrev pub found : Option Account → String → Prog Account
found none m = throw (exception not_found m)
found (some a) m = ret a

abbrev pub is_frozen : AccountStatus → Bool
is_frozen frozen = true
is_frozen _ = false

-- The record that `transfer` creates.
unfoldable pub transfer_data : String → TransferRequest → ℤ → TransactionData
transfer_data id req amount = record {
  transaction_id = some id;
  type = some transfer_type;
  status = some processing;
  from_account = some req.from_account;
  to_account = some req.to_account;
  amount = some amount;
  currency = none;
  description = none;
  reference_no = none;
  balance_after = none;
  provider = none;
  bill_reference = none;
  confirmation_code = none;
  idempotency_key = none;
  user_id = req.user_id;
  error_message = none;
  processed_at = none;
}

-- The tests of step 2 on the two accounts that were read.
unfoldable pub accept : ℤ → Option Account → Option Account → Prog Account
accept amount from_account to_account = do
  from_account ← found from_account "From account not found"
  found to_account "To account not found"
  throw_if (is_frozen from_account.status) bad_request "Account frozen due to fraud detection"
  throw_if (ltb_ℤ from_account.balance amount) bad_request "Insufficient funds"
  ret from_account

-- Step 2: the accounts exist, the sender is not frozen and has the funds.
unfoldable pub check_accounts : TransferRequest → ℤ → Prog Account
check_accounts req amount = do
  from_account ← find_by_account_no req.from_account
  to_account ← find_by_account_no req.to_account
  accept amount from_account to_account

-- Steps 3 to 5: the record, the two balances, the status, the commit. `updateBalance` takes no
-- session, and the third argument of `updateStatus` is its error message.
unfoldable pub move_funds : Config → TransferRequest → String → ℤ → Prog Unit
move_funds cfg req id amount = do
  create cfg.upper_case (transfer_data id req amount) in_session
  update_balance req.from_account (neg_ℤ amount)
  update_balance req.to_account amount
  update_status id success (session_object cfg.session_text) direct
  await commit_transaction

-- `response` in `transfer`.
abbrev pub transfer_response : TransferRequest → String → ℤ → Account → ℕ → TransferResponse
transfer_response req id amount from_account date = record {
  transaction_id = id;
  status = "SUCCESS";
  from_account = req.from_account;
  amount = amount;
  new_balance = from_account.balance -ℤ amount;
  timestamp = date;
}

-- Step 6, under the key of the request if it has one.
unfoldable pub remember : Option String → TransferResponse → Prog Unit
remember none response = ret tt
remember (some key) response = await (cache_set key response idempotency_ttl)

-- The rest of the `try` block after the commit.
unfoldable pub finish : TransferRequest → String → ℤ → Account → Prog TransferResponse
finish req id amount from_account = do
  date ← await now
  let response = transfer_response req id amount from_account date
  remember (truthy_text req.idempotency_key) response
  await now
  ret response

-- The body of the `try` block.
unfoldable pub transfer_body : Config → TransferRequest → String → ℤ → Prog TransferResponse
transfer_body cfg req id amount = do
  from_account ← check_accounts req amount
  move_funds cfg req id amount
  finish req id amount from_account

-- `session.endSession()` is not awaited, so that its failure reaches nobody.
abbrev pub end_quietly : Prog Unit
end_quietly = call end_session (λ _. ret tt)

-- The `try` block with its handlers.
unfoldable pub in_transaction : {A : Type 0} → Prog A → Prog A
in_transaction body = finally (catch body (λ e. await abort_transaction >> throw e)) end_quietly

-- From the validation on, when the cache has no response.
unfoldable pub transfer_uncached : Config → TransferRequest → Prog TransferResponse
transfer_uncached cfg req = do
  amount ← settle (validate_amount cfg req.amount)
  throw_if (req.from_account == req.to_account) bad_request "Cannot transfer to the same account"
  id ← await uuid
  await create_session
  await start_transaction
  in_transaction (transfer_body cfg req id amount)

-- The idempotency check, under the key of the request if it has one.
unfoldable pub cached_response : Option String → Prog (Option TransferResponse)
cached_response none = ret none
cached_response (some key) = await (cache_get key)

abbrev pub or_perform : Option TransferResponse → Prog TransferResponse → Prog TransferResponse
or_perform none m = m
or_perform (some response) m = ret response

unfoldable pub transfer : Config → TransferRequest → Prog TransferResponse
transfer cfg req = do
  start_time ← await now
  cached ← cached_response (truthy_text req.idempotency_key)
  or_perform cached (transfer_uncached cfg req)

-- `billPayment` of the source: an empty body.
unfoldable pub bill_payment : BillPaymentRequest → Prog Unit
bill_payment req = ret tt

-- One row of the history, as the account sees it.
unfoldable pub history_item : String → Transaction → HistoryItem
history_item n t = record {
  id = t.transaction_id;
  type = if is_text t.from_account n then debit else credit;
  amount = t.amount;
  status = t.status;
  timestamp = t.created_at;
}

-- `Math.min(request.limit || 50, 100)`
unfoldable pub page_limit : TransactionHistoryRequest → ℤ
page_limit req = min_ℤ (int_or req.limit (pos 50)) (pos 100)

-- The limit and the offset are handed over as `options` and `filters`.
unfoldable pub get_transaction_history : TransactionHistoryRequest → Prog HistoryResponse
get_transaction_history req = do
  let options = PageOptions.bare_number (page_limit req)
  let offset = Filters.bare_number (int_or req.offset (pos 0))
  (transactions, total) ← find_by_account req.account_no options offset
  ret (record {
    account_no = req.account_no;
    total_count = total;
    transactions = map (history_item req.account_no) transactions;
  })
