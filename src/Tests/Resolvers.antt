-- ===== src/Tests/Resolvers.antt =====
-- The resolvers over memory.
use transaction_service.Shared.{
  ℕ, String, ℤ, pos, finite, none, some, List, [], ◌∷◌, map, ◌≡◌, refl, includes,
}
use transaction_service.Driver.Errors.{Result, ok, err, exception, plain_error}
use transaction_service.Driver.Prog.{run}
use transaction_service.Driver.Documents.{Documents, Failure}
use transaction_service.Driver.Memory.{World, memory, steady, memory-Follows, steady-Follows}
use transaction_service.Driver.Memory.Order.{newest_first}
use transaction_service.Middleware.Auth.{Context}
use transaction_service.Account.Repository.{find_by_account_no}
use transaction_service.Transaction.Types.{
  Transaction, transfer as transfer_type, TransactionStatus, success, processing,
}
use transaction_service.Transaction.Dto.{
  BillPaymentRequest, TransactionHistoryRequest, HistoryItem, HistoryResponse,
}
use transaction_service.Transaction.Repository.{find_by_account, history_query}
use transaction_service.Transaction.Service.{get_transaction_history, history_item}
use transaction_service.Transaction.Resolver.{
  transaction_query, transaction_history_query, transaction_statistics_query, transfer_mutation,
  map_transfer_error, bill_payment_mutation, authorize,
}
use transaction_service.Transaction.Resolver.Queries.{Reads, Permitted, IsTransaction, IsComplete}
use transaction_service.Transaction.Resolver.Answers.{
  IsCounted, transaction_query-IsTransaction, transaction_history_query-IsComplete,
  transaction_statistics_query-IsCounted,
}
use transaction_service.Transaction.Resolver.Payments.{
  Owned, Inert, transfer_mutation-Owned, bill_payment_mutation-Inert,
}
use transaction_service.Transaction.Resolver.Payments.Codes.{Told, transfer_mutation-Told}
use transaction_service.Tests.Data.{cfg, documents, world, payment, from_frozen}

abbrev view : World → Documents
view w = w.documents

abbrev logged_in : String → Context
logged_in id = record {
  user = some (record { id = some id; email = none; role = none });
  ip = "127.0.0.1";
  user_agent = none;
}

abbrev nobody : Context
nobody = record { user = none; ip = "127.0.0.1"; user_agent = none }

abbrev past : String → TransactionStatus → String → String → ℤ → ℕ → Transaction
past id status from to amount time = record {
  transaction_id = id;
  type = transfer_type;
  status = status;
  from_account = some from;
  to_account = some to;
  amount = amount;
  currency = "USD";
  description = none;
  reference_no = none;
  balance_after = none;
  provider = none;
  bill_reference = none;
  confirmation_code = none;
  idempotency_key = none;
  user_id = some "user-001";
  error_message = none;
  created_at = time;
  processed_at = none;
}

abbrev records : List Transaction
records =
    past "t1" success "ACC-1001" "ACC-2002" (pos 100) 10
    ∷ past "t2" success "ACC-2002" "ACC-1001" (pos 40) 30
    ∷ past "t3" processing "ACC-1001" "ACC-2002" (pos 7) 20
    ∷ []

abbrev recorded : World
recorded = record {
  documents = record documents { transactions = records };
  clock = 1000;
  faults = [];
}

abbrev one_row : TransactionHistoryRequest
one_row = record { account_no = "ACC-1001"; limit = some (pos 1); offset = some (pos 1) }

abbrev ids : Result HistoryResponse → List String
ids (ok h) = map (λ (i : HistoryItem). i.id) h.transactions
ids (err e) = []

-- A request for one row is answered with all three.
all_rows :
    ids (run memory (transaction_history_query one_row (logged_in "user-001")) recorded).0
    ≡ "t2" ∷ "t3" ∷ "t1" ∷ []
unfolding run memory transaction_history_query authorize find_by_account_no get_transaction_history
    find_by_account history_query history_item newest_first
all_rows = refl

not_the_owner :
    (run memory (transfer_mutation cfg from_frozen (logged_in "user-002")) recorded).0
    ≡ err (exception plain_error "Unauthorized: You can only transfer from your own accounts")
unfolding run memory transfer_mutation authorize find_by_account_no map_transfer_error includes
not_the_owner = refl

transaction_query-IsTransaction_example :
    let (r, w') = run memory (transaction_query "t2" (logged_in "user-001")) recorded in
    Reads Failure
      (λ c s s' f. f)
      (view recorded)
      (IsTransaction Failure (λ c s s' f. f) (logged_in "user-001").user "t2" (view recorded))
      r
      (view w')
transaction_query-IsTransaction_example =
    transaction_query-IsTransaction view memory memory-Follows "t2" (logged_in "user-001") recorded

transaction_history_query-IsComplete_example :
    let (r, w') = run memory (transaction_history_query one_row nobody) recorded in
    Reads Failure
      (λ c s s' f. f)
      (view recorded)
      (λ h.
        IsComplete "ACC-1001" (view recorded) h
        × Permitted Failure (λ c s s' f. f) none "ACC-1001" (view recorded))
      r
      (view w')
transaction_history_query-IsComplete_example =
    transaction_history_query-IsComplete view memory memory-Follows one_row nobody recorded

transaction_statistics_query-IsCounted_example :
    let (r, w') =
      run memory (transaction_statistics_query "ACC-1001" (some 10) none nobody) recorded in
    Reads Failure
      (λ c s s' f. f)
      (view recorded)
      (IsCounted "ACC-1001" (some 10) none nobody (view recorded))
      r
      (view w')
transaction_statistics_query-IsCounted_example =
    transaction_statistics_query-IsCounted view memory memory-Follows "ACC-1001" (some 10) none
      nobody recorded

transfer_mutation-Owned_example :
    let (r, w') = run memory (transfer_mutation cfg payment (logged_in "user-001")) (world []) in
    Owned cfg payment (logged_in "user-001") documents r (view w')
transfer_mutation-Owned_example =
    transfer_mutation-Owned view memory memory-Follows cfg payment (logged_in "user-001") (world [])

transfer_mutation-Told_example :
    let (r, w') = run steady (transfer_mutation cfg from_frozen nobody) (world []) in
    Told cfg from_frozen nobody documents r (view w')
transfer_mutation-Told_example =
    transfer_mutation-Told view steady steady-Follows cfg from_frozen nobody (world [])

abbrev bill : BillPaymentRequest
bill = record {
  account_no = "ACC-1001";
  provider = "Power";
  amount = finite (pos 100);
  bill_reference = "B-1";
  description = none;
  currency = none;
  user_id = none;
  idempotency_key = none;
}

bill_payment_mutation-Inert_example :
    let (r, w') = run memory (bill_payment_mutation bill (logged_in "user-001")) (world []) in
    Inert bill (logged_in "user-001") documents r (view w')
bill_payment_mutation-Inert_example =
    bill_payment_mutation-Inert view memory memory-Follows bill (logged_in "user-001") (world [])
