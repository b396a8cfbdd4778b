-- ===== src/Tests/Transfers.antt =====
-- Transfers over memory.
use transaction_service.Shared.{
  String, ℤ, pos, ◌+ℤ◌, ◌-ℤ◌, ◌≤ℤ◌, finite, nan, none, some, List, [], ◌∷◌, map, select, first,
  update_first, ◌≡◌, ◌≢◌, eq_iff, refl, arith,
}
use transaction_service.Driver.Errors.{Result, ok, err, exception, bad_request}
use transaction_service.Driver.Calls.{cache_get}
use transaction_service.Driver.Prog.{run}
use transaction_service.Driver.Documents.{Documents, cached}
use transaction_service.Driver.Memory.{
  World, answered, lost, memory, steady, memory-Follows, steady-Follows, connection_lost, new_id,
}
use transaction_service.Account.Types.{Account}
use transaction_service.Account.Repository.{
  has_account_no, set_active, freeze, unfreeze, find_by_account_no, update_balance, increment,
}
use transaction_service.Account.Freezing.{unfreeze-freeze}
use transaction_service.Transaction.Repository.{match_stage, has_idempotency_key}
use transaction_service.Transaction.Service.Guarantees.Lookups.{
  transfer_uncounted, transfer_unkeyed,
}
use transaction_service.Transaction.Service.Guarantees.Freezing.{freeze_stops_transfer}
use transaction_service.Account.Balances.{IsSolvent}
use transaction_service.Transaction.Types.{Transaction, TransactionStatus, processing}
use transaction_service.Transaction.Schema.{is_invalid, new_transaction, validated, pre_save}
use transaction_service.Transaction.Repository.{save, create, update_status, status_update}
use transaction_service.Transaction.Dto.{TransferRequest, TransferResponse}
use transaction_service.Transaction.Service.{
  validate_amount, transfer_data, accept, check_accounts, move_funds, remember, finish,
  transfer_body, in_transaction, transfer_uncached, cached_response, transfer,
}
use transaction_service.Transaction.Service.Rules.{
  Outcome, IsApproved, Refused, sender_frozen, IsPerformed, IsSame,
}
use transaction_service.Transaction.Service.Guarantees.{transfer-Outcome}
use transaction_service.Transaction.Service.Guarantees.Funds.{
  IsAccounted, transfer-IsAccounted, transfer-IsSolvent,
}
use transaction_service.Transaction.Service.Guarantees.Records.{Records, transfer-Records}
use transaction_service.Transaction.Service.Guarantees.Availability.{
  Decided, transfer-Decided, transfer_succeeds, transfer_refuses,
}
use transaction_service.Transaction.Service.Guarantees.Idempotency.{transfers, transfer_twice}
use transaction_service.Tests.Data.{
  documents, world, cfg, request, payment, from_frozen, first_account, third_account,
}

abbrev view : World → Documents
view w = w.documents

balances : World → List ℤ
balances w = map (λ (a : Account). a.balance) w.documents.accounts

statuses : World → List TransactionStatus
statuses w = map (λ (t : Transaction). t.status) w.documents.transactions

-- Everything that a run of `transfer` over memory calls.
run_transfer : TransferRequest → World → Result TransferResponse × World
unfolding run memory transfer cached_response transfer_uncached validate_amount in_transaction
    transfer_body check_accounts find_by_account_no accept move_funds create save validated
    is_invalid new_transaction transfer_data pre_save update_balance increment update_status
    status_update finish remember new_id ◌+ℤ◌ ◌-ℤ◌
run_transfer req w = run memory (transfer cfg req) w

payment_moves_funds :
    (balances (run_transfer payment (world [])).1 ≡ pos 480000 ∷ pos 320000 ∷ pos 1000000 ∷ [])
    × (statuses (run_transfer payment (world [])).1 ≡ processing ∷ [])
unfolding run_transfer balances statuses
payment_moves_funds = (refl, refl)

-- The second update fails: the money has left the sender and reached nobody, and the caller gets
-- an error.
half_done :
    let faults =
      answered ∷ answered ∷ answered ∷ answered ∷ answered ∷ answered ∷ answered ∷ lost ∷ [] in
    let (r, w') = run_transfer payment (world faults) in
    (r ≡ err connection_lost)
    × (balances w' ≡ pos 480000 ∷ pos 300000 ∷ pos 1000000 ∷ [])
    × (statuses w' ≡ [])
unfolding run_transfer balances statuses
half_done = (refl, refl, refl)

-- The cache fails after the commit: the transfer is made, and the caller gets an error.
reported_failed :
    let faults =
      answered ∷ answered ∷ answered ∷ answered ∷ answered ∷ answered ∷ answered ∷ answered
      ∷ answered ∷ answered ∷ lost ∷ [] in
    let (r, w') = run_transfer payment (world faults) in
    (r ≡ err connection_lost)
    × (balances w' ≡ pos 480000 ∷ pos 320000 ∷ pos 1000000 ∷ [])
    × (statuses w' ≡ processing ∷ [])
unfolding run_transfer balances statuses
reported_failed = (refl, refl, refl)

not_a_number :
    (run_transfer (request "ACC-1001" "ACC-2002" nan none) (world [])).0
    ≡ err (exception bad_request "Invalid transaction amount")
unfolding run_transfer
not_a_number = refl

payment_valid : validate_amount cfg (finite (pos 20000)) ≡ ok (pos 20000)
unfolding validate_amount
payment_valid = refl

payment_apart : payment.from_account ≢ payment.to_account
payment_apart same = cc ((eq_iff "ACC-1001" "ACC-2002").1 same)

frozen_apart : from_frozen.from_account ≢ from_frozen.to_account
frozen_apart same = cc ((eq_iff "ACC-3003" "ACC-2002").1 same)

payment_approved : IsApproved cfg payment (pos 20000) documents.accounts first_account
payment_approved = record {
  valid = payment_valid;
  apart = payment_apart;
  covered = record { sender = refl; receiver = λ h. cc; unfrozen = λ h. cc; funds = omega arith };
}

frozen-Refused :
    Refused from_frozen
      (pos 20000)
      documents.accounts
      (exception bad_request "Account frozen due to fraud detection")
frozen-Refused = sender_frozen third_account refl (λ h. cc) refl refl

payment_nonnegative : (x : ℤ) → validate_amount cfg payment.amount ≡ ok x → pos 0 ≤ℤ x
unfolding validate_amount
payment_nonnegative x h = ground arith

documents-IsSolvent : IsSolvent documents.accounts
documents-IsSolvent = omega arith

transfer-Outcome_example :
    let (r, w') = run memory (transfer cfg payment) (world (answered ∷ lost ∷ [])) in
    Outcome cfg payment documents r (view w')
transfer-Outcome_example =
    transfer-Outcome view memory memory-Follows cfg payment (world (answered ∷ lost ∷ []))

transfer-IsAccounted_example :
    let (r, w') = run memory (transfer cfg payment) (world []) in
    IsAccounted cfg payment documents.accounts r (view w').accounts
transfer-IsAccounted_example =
    transfer-IsAccounted view memory memory-Follows cfg payment (world [])

transfer-IsSolvent_example :
    let (r, w') = run memory (transfer cfg payment) (world []) in IsSolvent (view w').accounts
transfer-IsSolvent_example =
    transfer-IsSolvent view memory memory-Follows cfg payment (world []) payment_nonnegative
      documents-IsSolvent

transfer-Records_example :
    let (r, w') = run memory (transfer cfg payment) (world []) in
    Records payment documents r (view w')
transfer-Records_example = transfer-Records view memory memory-Follows cfg payment (world [])

transfer-Decided_example :
    let (r, w') = run steady (transfer cfg payment) (world []) in
    Decided cfg payment documents r (view w')
transfer-Decided_example = transfer-Decided view steady steady-Follows cfg payment (world [])

transfer_succeeds_example :
    let (r, w') = run steady (transfer cfg payment) (world []) in
    (response : TransferResponse) × (r ≡ ok response)
    × IsPerformed cfg payment response documents (view w')
transfer_succeeds_example =
    transfer_succeeds view steady steady-Follows cfg payment (pos 20000) first_account (world [])
      payment_approved (omega arith) refl (λ key e. refl)

transfer_refuses_example :
    let (r, w') = run steady (transfer cfg from_frozen) (world []) in
    (r ≡ err (exception bad_request "Account frozen due to fraud detection"))
    × IsSame documents (view w')
transfer_refuses_example =
    transfer_refuses view steady steady-Follows cfg from_frozen (pos 20000)
      (exception bad_request "Account frozen due to fraud detection") (world []) payment_valid
      frozen_apart frozen-Refused (λ key e. refl)

abbrev retry : TransferRequest
retry = request "ACC-1001" "ACC-3003" (finite (pos 5)) (some "key-1")

steady_retains :
    (k : String) (w : World) → (steady (cache_get k) w).0 ≡ ok (cached k (view w).cache)
unfolding steady
steady_retains k w = refl

steady_transfer : TransferRequest → World → Result TransferResponse × World
unfolding run_transfer steady
steady_transfer req w = run steady (transfer cfg req) w

abbrev payment_response : TransferResponse
payment_response = record {
  transaction_id = "t";
  status = "SUCCESS";
  from_account = "ACC-1001";
  amount = pos 20000;
  new_balance = pos 480000;
  timestamp = 1015;
}

transfer_twice_example :
    let w' =
      transfers steady cfg
        (from_frozen ∷ retry ∷ [])
        (run steady (transfer cfg payment) (world [])).1 in
    let (result, w'') = run steady (transfer cfg retry) w' in
    (result ≡ ok payment_response) × (view w'' ≡ view w')
unfolding steady_transfer
transfer_twice_example =
    transfer_twice view steady steady-Follows steady_retains cfg payment retry
      (from_frozen ∷ retry ∷ []) "key-1" payment_response (world []) refl refl refl

freeze_stops_transfer_example :
    let w' = (run steady (freeze "ACC-1001" "stolen card") (world [])).1 in
    let (r, w'') = run steady (transfer cfg payment) w' in
    (r ≡ err (exception bad_request "Account frozen due to fraud detection"))
    × IsSame (view w') (view w'')
freeze_stops_transfer_example =
    freeze_stops_transfer view steady steady-Follows cfg payment (pos 20000) "stolen card"
      first_account (world []) payment_valid payment_apart refl (λ h. cc) (λ key e. refl)

unfreeze-freeze_example :
    let w' = (run steady (freeze "ACC-1001" "stolen card") (world [])).1 in
    let w'' = (run steady (unfreeze "ACC-1001") w').1 in
    view w'' ≡ record documents {
      accounts = update_first (has_account_no "ACC-1001") set_active documents.accounts;
    }
unfreeze-freeze_example =
    unfreeze-freeze view steady steady-Follows "ACC-1001" "stolen card" (world [])

transfer_uncounted_example :
    let (_, w') = run memory (transfer cfg payment) (world []) in
    select (match_stage "ACC-1001" none (some 5000)) (view w').transactions
    ≡ select (match_stage "ACC-1001" none (some 5000)) documents.transactions
transfer_uncounted_example =
    transfer_uncounted view memory memory-Follows cfg payment "ACC-1001" none (some 5000) (world [])

transfer_unkeyed_example :
    let (_, w') = run memory (transfer cfg payment) (world []) in
    first (has_idempotency_key "key-1") (view w').transactions
    ≡ first (has_idempotency_key "key-1") documents.transactions
transfer_unkeyed_example =
    transfer_unkeyed view memory memory-Follows cfg payment "key-1" (world [])
