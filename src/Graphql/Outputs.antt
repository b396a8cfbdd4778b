-- ===== src/Graphql/Outputs.antt =====
-- The object types of src/schema.ts.
use transaction_service.Shared.{List, [], ◌∷◌}
use transaction_service.Graphql.{
  identifier, string, float, int, date_time, choice, objects, Field, required, nullable,
}
use transaction_service.Graphql.Inputs.{
  transaction_type_values, transaction_status_values, account_status_values,
}

abbrev pub transfer_response_fields : List Field
transfer_response_fields =
    required "transaction_id" identifier
    ∷ required "status" string
    ∷ required "from_account" string
    ∷ required "to_account" string
    ∷ required "amount" float
    ∷ required "new_balance" float
    ∷ required "timestamp" date_time
    ∷ nullable "reference_no" string
    ∷ []

abbrev pub bill_payment_response_fields : List Field
bill_payment_response_fields =
    required "transaction_id" identifier
    ∷ required "status" string
    ∷ required "provider" string
    ∷ required "amount" float
    ∷ required "confirmation_code" string
    ∷ required "timestamp" date_time
    ∷ []

abbrev pub transaction_history_response_fields : List Field
transaction_history_response_fields =
    required "account_no" string
    ∷ required "total_count" int
    ∷ required "limit" int
    ∷ required "offset" int
    ∷ required "transactions" (objects "TransactionItem")
    ∷ []

abbrev pub transaction_item_fields : List Field
transaction_item_fields =
    required "id" identifier
    ∷ required "type" string
    ∷ required "amount" float
    ∷ nullable "description" string
    ∷ required "timestamp" date_time
    ∷ nullable "balance_after" float
    ∷ required "status" string
    ∷ nullable "reference_no" string
    ∷ []

abbrev pub transaction_fields : List Field
transaction_fields =
    required "transactionId" identifier
    ∷ required "type" (choice transaction_type_values)
    ∷ required "status" (choice transaction_status_values)
    ∷ nullable "fromAccount" string
    ∷ nullable "toAccount" string
    ∷ required "amount" float
    ∷ required "currency" string
    ∷ nullable "description" string
    ∷ nullable "referenceNo" string
    ∷ nullable "balanceAfter" float
    ∷ nullable "provider" string
    ∷ nullable "billReference" string
    ∷ nullable "confirmationCode" string
    ∷ nullable "userId" string
    ∷ nullable "errorMessage" string
    ∷ required "createdAt" date_time
    ∷ required "updatedAt" date_time
    ∷ nullable "processedAt" date_time
    ∷ []

abbrev pub account_fields : List Field
account_fields =
    required "accountNo" string
    ∷ required "userId" string
    ∷ required "balance" float
    ∷ required "currency" string
    ∷ required "status" (choice account_status_values)
    ∷ required "accountType" string
    ∷ nullable "frozenReason" string
    ∷ nullable "frozenAt" date_time
    ∷ nullable "lastTransactionAt" date_time
    ∷ required "createdAt" date_time
    ∷ required "updatedAt" date_time
    ∷ []

abbrev pub transaction_stats_fields : List Field
transaction_stats_fields =
    required "type" string
    ∷ required "count" int
    ∷ required "totalAmount" float
    ∷ required "avgAmount" float
    ∷ []
