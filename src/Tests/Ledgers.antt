-- ===== src/Tests/Ledgers.antt =====
-- Operations on the sample accounts over memory, and on the ledger that they stand for.
use transaction_service.Shared.{pos, none, some, List, [], ◌∷◌, refl, arith}
use transaction_service.Transaction.Service.{transfer}
use transaction_service.Transaction.Service.Guarantees.Ledger.{Transferred, transfer-Transferred}
use transaction_service.Tests.Data.{cfg, payment}
use transaction_service.Driver.Prog.{run}
use transaction_service.Driver.Memory.{steady, steady-Follows}
use transaction_service.Account.Numbers.{IsUnique, insert-IsUnique}
use transaction_service.Account.Ledger.{
  Operation, open_account, look_up, owned_by, add, block, unblock, covers_amount, in_use,
  close_account, Outcome, specified_all,
}
use transaction_service.Account.Refinement.Entries.{ledger}
use transaction_service.Account.Refinement.{perform_all, Implements, perform_all-Implements}
use transaction_service.Tests.Data.{first_account, second_account, third_account, documents, world}
use transaction_service.Tests.Accounts.{account_data, same_case, view}

pub documents-IsUnique : IsUnique documents.accounts
documents-IsUnique = insert-IsUnique third_account (first_account ∷ second_account ∷ []) refl (
    insert-IsUnique second_account (first_account ∷ []) refl
      (insert-IsUnique first_account [] refl (λ n. omega arith)))

abbrev operations : List Operation
operations =
    open_account (account_data none)
    ∷ open_account (account_data (some (pos 9)))
    ∷ owned_by "user-003"
    ∷ add "ACC-4004" (pos 50)
    ∷ covers_amount "ACC-4004" (pos 50)
    ∷ covers_amount "ACC-4004" (pos 51)
    ∷ block "ACC-2002" "dispute"
    ∷ in_use "ACC-2002"
    ∷ unblock "ACC-2002"
    ∷ in_use "ACC-2002"
    ∷ close_account "ACC-1001"
    ∷ look_up "ACC-1001"
    ∷ close_account "ACC-1001"
    ∷ []

answers : List Outcome
answers = (specified_all same_case operations (ledger documents.accounts)).0

perform_all-Implements_example :
    let (r, w') = run steady (perform_all same_case operations) (world []) in
    Implements r (view w') (specified_all same_case operations (ledger documents.accounts))
perform_all-Implements_example =
    perform_all-Implements view steady steady-Follows same_case operations (world [])
      documents-IsUnique

transfer-Transferred_example :
    let (r, w') = run steady (transfer cfg payment) (world []) in
    Transferred cfg payment documents r (view w')
transfer-Transferred_example =
    transfer-Transferred view steady steady-Follows cfg payment (world [])
