-- ===== src/Account/Schema.antt =====
-- The mongoose schema of accounts, src/account/type/accounts.ts: defaults, validators and the two
-- instance methods. `upper_case` is the setter that `uppercase: true` stands for.
use transaction_service.Shared.{
  ℕ, String, pos, ltb_ℤ, Option, none, some, Bool, ◌||◌, ◌==◌, or_else, if◌then◌else◌,
}
use transaction_service.Driver.Errors.{Result, ok, err, exception, validation_error}
use transaction_service.Account.Types.{Account, AccountData, active, frozen}

-- A required text: absent and empty ones fail the validator.
abbrev is_absent : Option String → Bool
is_absent o = or_else o "" == ""

abbrev missing : AccountData → Bool
missing d = is_absent d.account_no || is_absent d.user_id

-- `new Account(data)` followed by the validators that `save` runs first. Text fields with a
-- default fail only where an empty text is given.
unfoldable pub new_account : (String → String) → AccountData → Result Account
new_account upper_case d =
    let balance = or_else d.balance (pos 0) in
    let currency = upper_case (or_else d.currency "USD") in
    let account_type = or_else d.account_type "SAVINGS" in
    if missing d || currency == "" || account_type == "" || ltb_ℤ balance (pos 0)
    then err (exception validation_error "Account validation failed")
    else ok (record {
      account_no = or_else d.account_no "";
      user_id = or_else d.user_id "";
      balance = balance;
      currency = currency;
      status = or_else d.status active;
      account_type = account_type;
      frozen_reason = d.frozen_reason;
      frozen_at = d.frozen_at;
      last_transaction_at = d.last_transaction_at;
    })

-- `AccountSchema.methods.freeze`, up to its `save`
unfoldable pub freeze_method : String → ℕ → Account → Account
freeze_method reason date a = record a {
  status = frozen;
  frozen_reason = some reason;
  frozen_at = some date;
}

-- `AccountSchema.methods.unfreeze`, up to its `save`
unfoldable pub unfreeze_method : Account → Account
unfreeze_method a = record a { status = active; frozen_reason = none; frozen_at = none }
