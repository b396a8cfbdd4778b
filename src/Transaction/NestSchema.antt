-- ===== src/Transaction/NestSchema.antt =====
-- The class `Transaction` of src/transaction/transaction.schema.ts, a second schema of the
-- transaction document: its properties with their defaults and validators. Mongoose drops what the
-- schema does not name.
use transaction_service.Shared.{
  String, pos, Option, none, Bool, not, ◌||◌, ◌==◌, or_else, is_some, if◌then◌else◌,
}
use transaction_service.Driver.Errors.{Result, ok, err, exception, validation_error}
use transaction_service.Transaction.Types.{Transaction, TransactionData, transfer, processing}

-- A required text: absent and empty ones fail the validator.
abbrev is_absent : Option String → Bool
is_absent o = or_else o "" == ""

unfoldable pub nest_is_invalid : TransactionData → Bool
nest_is_invalid d = is_absent d.transaction_id || not (is_some d.type) || not (is_some d.amount)

unfoldable pub nest_transaction : TransactionData → Transaction
nest_transaction d = record {
  transaction_id = or_else d.transaction_id "";
  type = or_else d.type transfer;
  status = or_else d.status processing;
  from_account = d.from_account;
  to_account = d.to_account;
  amount = or_else d.amount (pos 0);
  currency = or_else d.currency "USD";
  description = none;
  reference_no = none;
  balance_after = d.balance_after;
  provider = none;
  bill_reference = none;
  confirmation_code = none;
  idempotency_key = d.idempotency_key;
  user_id = d.user_id;
  error_message = none;
  created_at = 0;
  processed_at = none;
}

unfoldable pub nest_validated : TransactionData → Result Transaction
nest_validated d =
    if nest_is_invalid d
    then err (exception validation_error "Transaction validation failed")
    else ok (nest_transaction d)

-- A document without the fields that the class does not name.
abbrev pub unnamed_dropped : Transaction → Transaction
unnamed_dropped t = record t {
  description = none;
  reference_no = none;
  provider = none;
  bill_reference = none;
  confirmation_code = none;
  error_message = none;
  processed_at = none;
}

abbrev pub dropped : Result Transaction → Result Transaction
dropped (ok t) = ok (unnamed_dropped t)
dropped (err e) = err e
