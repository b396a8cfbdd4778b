-- ===== src/Tests/Concurrent.antt =====
-- Two transfers at a time over memory.
use transaction_service.Shared.{
  ℕ, zero, suc, ℤ, pos, negsuc, ◌+ℤ◌, ◌-ℤ◌, finite, none, List, [], ◌∷◌, map, ◌≡◌, refl,
}
use transaction_service.Driver.Prog.{run}
use transaction_service.Driver.Documents.{Documents}
use transaction_service.Driver.Memory.{World, Fault, memory, steady, steady-Follows, new_id}
use transaction_service.Driver.Interleaving.{
  Turn, first_request, second_request, Parked, with_writes, run_two,
}
use transaction_service.Account.Types.{Account}
use transaction_service.Account.Balances.{total}
use transaction_service.Account.Repository.{find_by_account_no, update_balance, increment}
use transaction_service.Transaction.Schema.{is_invalid, new_transaction, validated, pre_save}
use transaction_service.Transaction.Repository.{save, create, update_status, status_update}
use transaction_service.Transaction.Dto.{TransferRequest}
use transaction_service.Transaction.Service.{
  validate_amount, transfer_data, accept, check_accounts, move_funds, remember, finish,
  transfer_body, in_transaction, transfer_uncached, cached_response, transfer,
}
use transaction_service.Transaction.Concurrency.{no_writes}
use transaction_service.Transaction.Concurrency.Accounted.{Losses, many_transfers_accounted}
use transaction_service.Driver.Interleaving.Pool.{run_pool}
use transaction_service.Transaction.Concurrency.Many.{waiting, many_transfers_conserve}
use transaction_service.Account.Outline.{outline}
use transaction_service.Transaction.Concurrency.Failures.{outline-many_transfers}
use transaction_service.Driver.Memory.{memory-Follows, answered, lost, unacknowledged}
use transaction_service.Tests.Data.{documents, world, cfg, request, payment}

abbrev view : World → Documents
view w = w.documents

abbrev enter : Parked → World → World
enter u w = record w { documents = with_writes u w.documents }

-- Each request reads the accounts before the other writes to them.
abbrev both_read : List Turn
both_read =
    first_request ∷ first_request ∷ first_request ∷ first_request ∷ first_request ∷ first_request
    ∷ first_request ∷ second_request ∷ second_request ∷ second_request ∷ second_request
    ∷ second_request ∷ second_request ∷ second_request ∷ []

balances_after : List Turn → TransferRequest → TransferRequest → List ℤ
unfolding run_two run memory transfer cached_response transfer_uncached validate_amount
    in_transaction transfer_body check_accounts find_by_account_no accept move_funds create save
    validated is_invalid new_transaction transfer_data pre_save update_balance increment
    update_status status_update finish remember new_id ◌+ℤ◌ ◌-ℤ◌
balances_after ts req req' =
    map (λ (a : Account). a.balance)
      (run_two view memory enter ts (transfer cfg req) (transfer cfg req') no_writes no_writes
        (world [])).2.documents.accounts

abbrev large : TransferRequest
large = request "ACC-1001" "ACC-2002" (finite (pos 300000)) none

-- Two payments of 3000.00 from an account that holds 5000.00: it ends up below zero.
overdrawn : balances_after both_read large large ≡ negsuc 99999 ∷ pos 900000 ∷ pos 1000000 ∷ []
unfolding balances_after
overdrawn = refl

-- One after the other, the second is refused.
not_overdrawn : balances_after [] large large ≡ pos 200000 ∷ pos 600000 ∷ pos 1000000 ∷ []
unfolding balances_after
not_overdrawn = refl

-- Two requests with one idempotency key: the payment is made twice.
paid_twice : balances_after both_read payment payment ≡ pos 460000 ∷ pos 340000 ∷ pos 1000000 ∷ []
unfolding balances_after
paid_twice = refl

-- One call of each request after the other, for a while.
abbrev in_turn : List ℕ
in_turn = 0 ∷ 1 ∷ 2 ∷ 0 ∷ 1 ∷ 2 ∷ 0 ∷ 1 ∷ 2 ∷ 0 ∷ 1 ∷ 2 ∷ 0 ∷ 1 ∷ 2 ∷ 0 ∷ 1 ∷ 2 ∷ 0 ∷ 1 ∷ 2 ∷ []

many_transfers_conserve_example :
    total
      (run_pool view steady enter in_turn
        (waiting cfg (large ∷ payment ∷ large ∷ []))
        (world [])).1.documents.accounts
    ≡ total documents.accounts
many_transfers_conserve_example =
    many_transfers_conserve view steady steady-Follows enter (λ u w. refl) cfg
      (large ∷ payment ∷ large ∷ []) in_turn (world [])

outline-many_transfers_example :
    let w' =
      (run_pool view memory enter in_turn
        (waiting cfg (large ∷ payment ∷ large ∷ []))
        (world (answered ∷ answered ∷ lost ∷ answered ∷ unacknowledged ∷ []))).1 in
    (map (λ (a : Account). a.account_no) (view w').accounts
      ≡ map (λ (a : Account). a.account_no) documents.accounts)
    × (outline (view w').accounts ≡ outline documents.accounts)
outline-many_transfers_example =
    outline-many_transfers view memory memory-Follows enter (λ u w. refl) cfg
      (large ∷ payment ∷ large ∷ []) in_turn
      (world (answered ∷ answered ∷ lost ∷ answered ∷ unacknowledged ∷ []))

abbrev answered_times : ℕ → List Fault → List Fault
answered_times zero fs = fs
answered_times (suc n) fs = answered ∷ answered_times n fs

-- The credit of the first request fails.
abbrev uncredited : World
uncredited = world (answered_times 16 (lost ∷ []))

balances_of_three : World → List ℤ
unfolding run_pool run memory transfer cached_response transfer_uncached validate_amount
    in_transaction transfer_body check_accounts find_by_account_no accept move_funds create save
    validated is_invalid new_transaction transfer_data pre_save update_balance increment
    update_status status_update finish remember new_id ◌+ℤ◌ ◌-ℤ◌
balances_of_three w =
    map (λ (a : Account). a.balance)
      (run_pool view memory enter in_turn (waiting cfg (large ∷ payment ∷ large ∷ []))
        w).1.documents.accounts

-- The amount of the first request is gone.
amount_lost : balances_of_three uncredited ≡ negsuc 119999 ∷ pos 620000 ∷ pos 1000000 ∷ []
unfolding balances_of_three
amount_lost = refl

many_transfers_accounted_example :
    let (results, w') =
      run_pool view memory enter in_turn (waiting cfg (large ∷ payment ∷ large ∷ [])) uncredited in
    (d : ℤ) × (total w'.documents.accounts +ℤ d ≡ total documents.accounts)
    × Losses cfg (large ∷ payment ∷ large ∷ []) results d
many_transfers_accounted_example =
    many_transfers_accounted view memory memory-Follows enter (λ u w. refl) cfg
      (large ∷ payment ∷ large ∷ []) in_turn uncredited
