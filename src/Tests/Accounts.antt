-- ===== src/Tests/Accounts.antt =====
-- Accounts created, looked up and deleted over memory.
use transaction_service.Shared.{
  String, ℤ, pos, Option, none, some, [], is_some, ◌≡◌, refl, first, arith,
}
use transaction_service.Driver.Errors.{Result, ok, err, exception, validation_error}
use transaction_service.Driver.Prog.{run}
use transaction_service.Driver.Documents.{Documents}
use transaction_service.Driver.Memory.{World, memory, steady, steady-Follows}
use transaction_service.Account.Types.{Account, AccountData}
use transaction_service.Account.Schema.{new_account}
use transaction_service.Account.Repository.{
  has_account_no, duplicate_key, create, find_by_account_no, delete,
}
use transaction_service.Account.Lookups.{find-create, find-delete}
use transaction_service.Tests.Data.{account, documents, world}

abbrev pub view : World → Documents
view w = w.documents

abbrev pub account_data : Option ℤ → AccountData
account_data balance = record {
  account_no = some "ACC-4004";
  user_id = some "user-003";
  balance = balance;
  currency = none;
  status = none;
  account_type = none;
  frozen_reason = none;
  frozen_at = none;
  last_transaction_at = none;
}

abbrev pub same_case : String → String
same_case s = s

negative_balance :
    (run memory (create same_case (account_data (some (ℤ.negsuc 0)))) (world [])).0
    ≡ err (exception validation_error "Account validation failed")
unfolding run memory create new_account
negative_balance = refl

created :
    (run steady (create same_case (account_data none)) (world [])).0
    ≡ ok (account "ACC-4004" "user-003" (pos 0))
unfolding run memory steady create new_account
created = refl

taken : Result Account
taken =
    (run steady (create same_case (account_data none))
      (run steady (create same_case (account_data none)) (world [])).1).0

taken-duplicate_key : taken ≡ err duplicate_key
unfolding taken run memory steady create new_account
taken-duplicate_key = refl

find-create_example :
    let w' = (run steady (create same_case (account_data none)) (world [])).1 in
    (first (has_account_no "ACC-4004") documents.accounts ≡ none)
    × ((run steady (find_by_account_no "ACC-4004") w').0
        ≡ ok (some (account "ACC-4004" "user-003" (pos 0))))
find-create_example =
    find-create view steady steady-Follows same_case (account_data none)
      (account "ACC-4004" "user-003" (pos 0)) (world []) created

find-delete_example :
    let (r, w') = run steady (delete "ACC-2002") (world []) in
    (r ≡ ok (is_some (first (has_account_no "ACC-2002") documents.accounts)))
    × ((run steady (find_by_account_no "ACC-2002") w').0 ≡ ok none)
find-delete_example = find-delete view steady steady-Follows "ACC-2002" (world []) (omega arith)
