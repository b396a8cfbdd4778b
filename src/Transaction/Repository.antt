-- ===== src/Transaction/Repository.antt =====
-- `TransactionRepository` of src/transaction/repository/transaction.repository.ts, over the
-- documents of src/transaction/types/transaction.ts. Its log lines are left out. The two calls of
-- `Promise.all` are made in the order in which they are written.
use transaction_service.Shared.{
  ℕ, String, ℤ, Option, none, some, List, Bool, true, false, ◌&&◌, ◌||◌, ◌==◌, ltb, leb, nat_eq,
  if◌then◌else◌,
}
use transaction_service.Driver.Errors.{Result, ok, err, exception, internal_server_error}
use transaction_service.Driver.Calls.{
  Scope, Statistic, transaction_save, transaction_find_one, transaction_find,
  transaction_count_documents, transaction_find_one_and_update, transaction_aggregate,
  transaction_delete_one, now,
}
use transaction_service.Driver.Prog.{Prog, ret, throw, ◌>>=◌, await, catch}
use transaction_service.Transaction.Types.{
  Transaction, TransactionData, TransactionStatus, TransactionType, success, status_index,
  type_index,
}
use transaction_service.Transaction.Schema.{validated, pre_save, is_success}

abbrev pub has_status : TransactionStatus → Transaction → Bool
has_status s t = nat_eq (status_index t.status) (status_index s)

abbrev pub has_type : TransactionType → Transaction → Bool
has_type k t = nat_eq (type_index t.type) (type_index k)

-- An optional text equals a given one.
abbrev pub is_text : Option String → String → Bool
is_text none n = false
is_text (some m) n = m == n

-- The filters `{ transactionId }` and `{ idempotencyKey: key }`.
abbrev pub has_transaction_id : String → Transaction → Bool
has_transaction_id n t = t.transaction_id == n

abbrev pub has_idempotency_key : String → Transaction → Bool
has_idempotency_key k t = is_text t.idempotency_key k

-- `$or: [{ fromAccount: accountNo }, { toAccount: accountNo }]`
abbrev pub involves : String → Transaction → Bool
involves n t = is_text t.from_account n || is_text t.to_account n

-- The condition on `createdAt`, with `$gte` and `$lte` where a date is given.
abbrev pub in_period : Option ℕ → Option ℕ → Transaction → Bool
in_period none none t = true
in_period (some a) none t = leb a t.created_at
in_period none (some b) t = leb t.created_at b
in_period (some a) (some b) t = leb a t.created_at && leb t.created_at b

-- `options: any`: the object that `.offset` and `.limit` are read from, or a bare number, which
-- has neither.
pub data PageOptions : Type 0 where
  page : Option ℤ → Option ℤ → PageOptions
  bare_number : ℤ → PageOptions

abbrev pub offset_of : PageOptions → Option ℤ
offset_of (page offset _) = offset
offset_of (bare_number _) = none

abbrev pub limit_of : PageOptions → Option ℤ
limit_of (page _ limit) = limit
limit_of (bare_number _) = none

pub record HistoryFilters : Type 0 where
  pub status : Option TransactionStatus
  pub type : Option TransactionType
  pub start_date : Option ℕ
  pub end_date : Option ℕ

-- `filters?: Partial<any>`
pub data Filters : Type 0 where
  no_filters : Filters
  filters : HistoryFilters → Filters
  bare_number : ℤ → Filters

abbrev none_set : HistoryFilters
none_set = record { status = none; type = none; start_date = none; end_date = none }

-- What `filters?.status` and its like read.
abbrev pub filters_of : Filters → HistoryFilters
filters_of no_filters = none_set
filters_of (filters f) = f
filters_of (bare_number _) = none_set

abbrev status_matches : Option TransactionStatus → Transaction → Bool
status_matches none t = true
status_matches (some s) t = has_status s t

abbrev type_matches : Option TransactionType → Transaction → Bool
type_matches none t = true
type_matches (some k) t = has_type k t

-- The query that `findByAccount` builds.
unfoldable pub history_query : String → HistoryFilters → Transaction → Bool
history_query n f t =
    involves n t
    && status_matches f.status t
    && type_matches f.type t
    && in_period f.start_date f.end_date t

-- The `$match` stage of `getStatistics`.
unfoldable pub match_stage : String → Option ℕ → Option ℕ → Transaction → Bool
match_stage n start_date end_date t =
    involves n t && has_status success t && in_period start_date end_date t

-- `transaction.save({ session })`: the validators, the hook, and the write.
unfoldable pub save : Result Transaction → Scope → Prog Transaction
save (err e) scope = throw e
save (ok transaction) scope = do
  transaction ← pre_save transaction
  await (transaction_save transaction scope)

unfoldable pub create : (String → String) → TransactionData → Scope → Prog Transaction
create upper_case data_ session =
    catch (save (validated upper_case data_) session)
      λ e. throw (exception internal_server_error "Database error during transaction creation")

unfoldable pub find_by_id : String → Prog (Option Transaction)
find_by_id n = await (transaction_find_one (has_transaction_id n))

unfoldable pub find_by_idempotency_key : String → Prog (Option Transaction)
find_by_idempotency_key k = await (transaction_find_one (has_idempotency_key k))

unfoldable pub find_by_account : String → PageOptions → Filters → Prog (List Transaction × ℕ)
find_by_account n options fs =
    catch
      (do
        let query = history_query n (filters_of fs)
        transactions ← await (transaction_find query (offset_of options) (limit_of options))
        total ← await (transaction_count_documents query)
        ret (transactions, total))
      throw

-- The argument `errorMessage`: none, a text, or a session object, with the text that mongoose
-- casts it to if it does.
pub data ErrorArgument : Type 0 where
  no_message : ErrorArgument
  text session_object : String → ErrorArgument

-- `if (errorMessage) update.errorMessage = errorMessage;`
abbrev pub message_after : ErrorArgument → Option String → Option String
message_after no_message old = old
message_after (text m) old = if m == "" then old else some m
message_after (session_object m) old = some m

-- The update object of `updateStatus`. The date is given on success only.
unfoldable pub status_update :
    TransactionStatus → ErrorArgument → Option ℕ → Transaction → Transaction
status_update status message date t = record t {
  status = status;
  error_message = message_after message t.error_message;
  processed_at = elim date [ none ↦ t.processed_at | some d ↦ some d ];
}

-- `new Date()`, read on success only
abbrev processed_date : TransactionStatus → Prog (Option ℕ)
processed_date status =
    if is_success status then (do date ← await now; ret (some date)) else ret none

unfoldable pub update_status :
    String → TransactionStatus → ErrorArgument → Scope → Prog (Option Transaction)
update_status n status message session = do
  date ← processed_date status
  await (
      transaction_find_one_and_update (has_transaction_id n) (status_update status message date)
        session)

unfoldable pub get_statistics : String → Option ℕ → Option ℕ → Prog (List Statistic)
get_statistics n start_date end_date =
    await (transaction_aggregate (match_stage n start_date end_date))

unfoldable pub delete : String → Prog Bool
delete n = do
  deleted_count ← await (transaction_delete_one (has_transaction_id n))
  ret (ltb 0 deleted_count)
