-- ===== src/Graphql/Inputs.antt =====
-- The enums, the inputs, the queries and the mutations of src/schema.ts.
use transaction_service.Shared.{String, List, [], ◌∷◌}
use transaction_service.Graphql.{
  identifier, string, float, int, date_time, choice, object, objects, Field, required, nullable,
  Endpoint,
}

abbrev pub transaction_type_values : List String
transaction_type_values = "TRANSFER" ∷ "BILL_PAYMENT" ∷ "DEPOSIT" ∷ "WITHDRAWAL" ∷ "REFUND" ∷ []

abbrev pub transaction_status_values : List String
transaction_status_values = "PENDING" ∷ "SUCCESS" ∷ "FAILED" ∷ "REVERSED" ∷ "PROCESSING" ∷ []

abbrev pub account_status_values : List String
account_status_values = "ACTIVE" ∷ "FROZEN" ∷ "SUSPENDED" ∷ "CLOSED" ∷ []

abbrev pub transfer_input_fields : List Field
transfer_input_fields =
    required "fromAccount" string
    ∷ required "toAccount" string
    ∷ required "amount" float
    ∷ required "currency" string
    ∷ nullable "description" string
    ∷ nullable "referenceNo" string
    ∷ nullable "userId" string
    ∷ nullable "idempotencyKey" string
    ∷ []

abbrev pub bill_payment_input_fields : List Field
bill_payment_input_fields =
    required "accountNo" string
    ∷ required "provider" string
    ∷ required "amount" float
    ∷ required "billReference" string
    ∷ nullable "description" string
    ∷ nullable "currency" string
    ∷ nullable "userId" string
    ∷ nullable "idempotencyKey" string
    ∷ []

abbrev pub transaction_history_input_fields : List Field
transaction_history_input_fields =
    required "accountNo" string
    ∷ nullable "limit" int
    ∷ nullable "offset" int
    ∷ nullable "startDate" string
    ∷ nullable "endDate" string
    ∷ nullable "status" (choice transaction_status_values)
    ∷ nullable "type" (choice transaction_type_values)
    ∷ []

abbrev pub query_fields : List Endpoint
query_fields =
    record {
      arguments = required "transactionId" identifier ∷ [];
      result = nullable "transaction" (object "Transaction");
    }
    ∷ record {
      arguments = required "input" (object "TransactionHistoryInput") ∷ [];
      result = required "transactionHistory" (object "TransactionHistoryResponse");
    }
    ∷ record {
      arguments = required "accountNo" string ∷ [];
      result = nullable "account" (object "Account");
    }
    ∷ record {
      arguments =
          required "accountNo" string
          ∷ nullable "startDate" date_time
          ∷ nullable "endDate" date_time
          ∷ [];
      result = required "transactionStatistics" (objects "TransactionStats");
    }
    ∷ []

abbrev pub mutation_fields : List Endpoint
mutation_fields =
    record {
      arguments = required "input" (object "TransferInput") ∷ [];
      result = required "transfer" (object "TransferResponse");
    }
    ∷ record {
      arguments = required "input" (object "BillPaymentInput") ∷ [];
      result = required "billPayment" (object "BillPaymentResponse");
    }
    ∷ []

-- The enums and inputs of src/transaction/transaction.schema.ts, declared by decorators.
abbrev pub nest_transaction_type_values : List String
nest_transaction_type_values =
    "TRANSFER" ∷ "BILL_PAYMENT" ∷ "DEPOSIT" ∷ "WITHDRAWAL" ∷ "REFUND" ∷ []

abbrev pub nest_transaction_status_values : List String
nest_transaction_status_values = "PENDING" ∷ "SUCCESS" ∷ "FAILED" ∷ "REVERSED" ∷ "PROCESSING" ∷ []

abbrev pub nest_transfer_input_fields : List Field
nest_transfer_input_fields =
    required "fromAccount" string
    ∷ required "toAccount" string
    ∷ required "amount" float
    ∷ required "currency" string
    ∷ nullable "description" string
    ∷ nullable "referenceNo" string
    ∷ nullable "userId" string
    ∷ nullable "idempotencyKey" string
    ∷ []

abbrev pub nest_transaction_history_input_fields : List Field
nest_transaction_history_input_fields =
    required "accountNo" string
    ∷ nullable "limit" int
    ∷ nullable "offset" int
    ∷ nullable "startDate" string
    ∷ nullable "endDate" string
    ∷ nullable "status" (choice nest_transaction_status_values)
    ∷ nullable "type" (choice nest_transaction_type_values)
    ∷ []
