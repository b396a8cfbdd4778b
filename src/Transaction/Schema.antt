-- ===== src/Transaction/Schema.antt =====
-- The mongoose schema of transactions, src/transaction/types/transaction.ts: defaults, validators
-- and the pre-save hook. `upper_case` is the setter that `uppercase: true` stands for.
use Prim.Native.Char.{code}
use transaction_service.Shared.{
  ℕ, ◌+◌, String, pos, ltb_ℤ, Option, some, Bool, true, false, not, ◌&&◌, ◌||◌, ◌==◌, ltb, or_else,
  is_some, ◌≡◌, ◌⊎◌, inl, inr, Bool-cases, if◌then◌else◌,
}
use transaction_service.Driver.Errors.{Exception, Result, ok, err, exception, validation_error}
use transaction_service.Driver.Calls.{now}
use transaction_service.Driver.Prog.{Prog, ret, ◌>>=◌, await}
use transaction_service.Transaction.Types.{
  Transaction, TransactionData, TransactionStatus, transfer, pending, success,
}

-- JavaScript's `length` of a text: its UTF-16 code units.
abbrev pub utf16_length : String → ℕ
utf16_length String.[] = 0
utf16_length (String.◌∷◌ c s) = (if ltb (code c) 65536 then 1 else 2) + utf16_length s

abbrev pub is_success : TransactionStatus → Bool
is_success success = true
is_success _ = false

abbrev is_absent : Option String → Bool
is_absent o = or_else o "" == ""

-- The validators of `transactionId`, `type`, `amount`, `currency` and `description`.
unfoldable pub is_invalid : (String → String) → TransactionData → Bool
is_invalid upper_case d =
    is_absent d.transaction_id
    || not (is_some d.type)
    || not (is_some d.amount)
    || ltb_ℤ (or_else d.amount (pos 0)) (pos 0)
    || upper_case (or_else d.currency "USD") == ""
    || ltb 500 (utf16_length (or_else d.description ""))

-- `new Transaction(data)` with the defaults filled in. `save` sets `createdAt`.
unfoldable pub new_transaction : (String → String) → TransactionData → Transaction
new_transaction upper_case d = record {
  transaction_id = or_else d.transaction_id "";
  type = or_else d.type transfer;
  status = or_else d.status pending;
  from_account = d.from_account;
  to_account = d.to_account;
  amount = or_else d.amount (pos 0);
  currency = upper_case (or_else d.currency "USD");
  description = d.description;
  reference_no = d.reference_no;
  balance_after = d.balance_after;
  provider = d.provider;
  bill_reference = d.bill_reference;
  confirmation_code = d.confirmation_code;
  idempotency_key = d.idempotency_key;
  user_id = d.user_id;
  error_message = d.error_message;
  created_at = 0;
  processed_at = d.processed_at;
}

-- The validators that `save` runs before the hook.
unfoldable pub validated : (String → String) → TransactionData → Result Transaction
validated upper_case d =
    if is_invalid upper_case d
    then err (exception validation_error "Transaction validation failed")
    else ok (new_transaction upper_case d)

-- `TransactionSchema.pre('save', …)` for a new document, whose status counts as modified.
unfoldable pub pre_save : Transaction → Prog Transaction
pre_save t =
    if is_success t.status && not (is_some t.processed_at)
    then (do date ← await now; ret (record t { processed_at = some date }))
    else ret t

pub validated-cases :
    (upper_case : String → String) (d : TransactionData)
    → ((is_invalid upper_case d ≡ true) × (e : Exception) × (validated upper_case d ≡ err e))
      ⊎ (validated upper_case d ≡ ok (new_transaction upper_case d))
unfolding validated
validated-cases upper_case d = elim (Bool-cases (is_invalid upper_case d)) [
  | inl invalid ↦
      inl (invalid, exception validation_error "Transaction validation failed", rw invalid)
  | inr valid ↦ inr (rw valid)
]
