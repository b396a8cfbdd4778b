-- ===== src/Graphql/Answers.antt =====
-- The objects that the resolvers return, by the names of their properties, against the types of
-- src/schema.ts.
use transaction_service.Shared.{
  ℕ, String, some, List, [], ◌∷◌, true, Bool, ◌&&◌, if◌then◌else◌, ◌≡◌, refl, ap, ◌∙◌,
}
use transaction_service.Account.Types.{Account, AccountStatus, active, frozen, suspended, closed}
use transaction_service.Transaction.Types.{
  Transaction, TransactionType, transfer, bill_payment, deposit, withdrawal, refund,
  TransactionStatus, pending, success, failed, reversed, processing,
}
use transaction_service.Transaction.Dto.{
  TransferResponse, Direction, debit, credit, HistoryItem, HistoryResponse,
}
use transaction_service.Transaction.Resolver.{StatisticRow}
use transaction_service.Graphql.{
  text, number, quotient, whole, date, list_of, Object, among, refused_fields,
}
use transaction_service.Graphql.Inputs.{
  transaction_type_values, transaction_status_values, account_status_values,
}
use transaction_service.Graphql.Outputs.{
  transfer_response_fields, transaction_history_response_fields, transaction_item_fields,
  transaction_fields, account_fields, transaction_stats_fields,
}

-- The values of the enums.
abbrev pub account_status_text : AccountStatus → String
account_status_text active = "ACTIVE"
account_status_text frozen = "FROZEN"
account_status_text suspended = "SUSPENDED"
account_status_text closed = "CLOSED"

abbrev pub type_text : TransactionType → String
type_text transfer = "TRANSFER"
type_text bill_payment = "BILL_PAYMENT"
type_text deposit = "DEPOSIT"
type_text withdrawal = "WITHDRAWAL"
type_text refund = "REFUND"

abbrev pub status_text : TransactionStatus → String
status_text pending = "PENDING"
status_text success = "SUCCESS"
status_text failed = "FAILED"
status_text reversed = "REVERSED"
status_text processing = "PROCESSING"

abbrev pub direction_text : Direction → String
direction_text debit = "DEBIT"
direction_text credit = "CREDIT"

-- The documents, with the two dates that mongoose keeps.
abbrev pub account_object : Account → ℕ → ℕ → Object
account_object a created updated =
    ("accountNo", text (some a.account_no))
    ∷ ("userId", text (some a.user_id))
    ∷ ("balance", number (some a.balance))
    ∷ ("currency", text (some a.currency))
    ∷ ("status", text (some (account_status_text a.status)))
    ∷ ("accountType", text (some a.account_type))
    ∷ ("frozenReason", text a.frozen_reason)
    ∷ ("frozenAt", date a.frozen_at)
    ∷ ("lastTransactionAt", date a.last_transaction_at)
    ∷ ("createdAt", date (some created))
    ∷ ("updatedAt", date (some updated))
    ∷ []

abbrev pub transaction_object : Transaction → ℕ → Object
transaction_object t updated =
    ("transactionId", text (some t.transaction_id))
    ∷ ("type", text (some (type_text t.type)))
    ∷ ("status", text (some (status_text t.status)))
    ∷ ("fromAccount", text t.from_account)
    ∷ ("toAccount", text t.to_account)
    ∷ ("amount", number (some t.amount))
    ∷ ("currency", text (some t.currency))
    ∷ ("description", text t.description)
    ∷ ("referenceNo", text t.reference_no)
    ∷ ("balanceAfter", number t.balance_after)
    ∷ ("provider", text t.provider)
    ∷ ("billReference", text t.bill_reference)
    ∷ ("confirmationCode", text t.confirmation_code)
    ∷ ("idempotencyKey", text t.idempotency_key)
    ∷ ("userId", text t.user_id)
    ∷ ("errorMessage", text t.error_message)
    ∷ ("createdAt", date (some t.created_at))
    ∷ ("updatedAt", date (some updated))
    ∷ ("processedAt", date t.processed_at)
    ∷ []

-- The timestamp is the text of a date, which the scalar `DateTime` reads.
abbrev pub transfer_response_object : TransferResponse → Object
transfer_response_object r =
    ("transaction_id", text (some r.transaction_id))
    ∷ ("status", text (some r.status))
    ∷ ("from_account", text (some r.from_account))
    ∷ ("amount", number (some r.amount))
    ∷ ("new_balance", number (some r.new_balance))
    ∷ ("timestamp", date (some r.timestamp))
    ∷ []

abbrev pub history_item_object : HistoryItem → Object
history_item_object t =
    ("id", text (some t.id))
    ∷ ("type", text (some (direction_text t.type)))
    ∷ ("amount", number (some t.amount))
    ∷ ("status", text (some (status_text t.status)))
    ∷ ("timestamp", date (some t.timestamp))
    ∷ []

abbrev pub history_response_object : HistoryResponse → Object
history_response_object h =
    ("account_no", text (some h.account_no))
    ∷ ("total_count", whole h.total_count)
    ∷ ("transactions", list_of "TransactionItem")
    ∷ []

abbrev pub statistic_row_object : StatisticRow → Object
statistic_row_object r =
    ("type", text (some (type_text r.type)))
    ∷ ("count", whole r.count)
    ∷ ("totalAmount", number (some r.total_amount))
    ∷ ("avgAmount", quotient r.avg_amount)
    ∷ []

among-account_status :
    (s : AccountStatus) → among (account_status_text s) account_status_values ≡ true
among-account_status active = refl
among-account_status frozen = refl
among-account_status suspended = refl
among-account_status closed = refl

among-type : (t : TransactionType) → among (type_text t) transaction_type_values ≡ true
among-type transfer = refl
among-type bill_payment = refl
among-type deposit = refl
among-type withdrawal = refl
among-type refund = refl

among-status : (s : TransactionStatus) → among (status_text s) transaction_status_values ≡ true
among-status pending = refl
among-status success = refl
among-status failed = refl
among-status reversed = refl
among-status processing = refl

-- The fields refused at a choice, and behind it.
abbrev one_choice : String → List String → Bool → List String
one_choice name rest b = if b && true then rest else name ∷ rest

-- Every account, transaction, row of statistics and item of a history has all that its type in the
-- schema promises, with a value of its enum where there is one. The answer of a transfer lacks
-- `to_account`, and a history lacks `limit` and `offset`, although their types say that these are
-- never null.
pub refused_fields-answers :
    (a : Account) (t : Transaction) (r : StatisticRow) (i : HistoryItem) (p : TransferResponse)
    (h : HistoryResponse) (created updated : ℕ)
    → (refused_fields account_fields (account_object a created updated) ≡ [])
      × (refused_fields transaction_fields (transaction_object t updated) ≡ [])
      × (refused_fields transaction_stats_fields (statistic_row_object r) ≡ [])
      × (refused_fields transaction_item_fields (history_item_object i) ≡ [])
      × (refused_fields transfer_response_fields (transfer_response_object p) ≡ "to_account" ∷ [])
      × (refused_fields transaction_history_response_fields (history_response_object h)
          ≡ "limit" ∷ "offset" ∷ [])
refused_fields-answers a t r i p h created updated = (
  ap (one_choice "status" []) (among-account_status a.status),
  ap
        (λ b.
          one_choice "type"
            (one_choice "status" [] (among (status_text t.status) transaction_status_values)) b)
        (among-type t.type)
      ∙ ap (one_choice "status" []) (among-status t.status),
  refl,
  refl,
  refl,
  refl,
)
