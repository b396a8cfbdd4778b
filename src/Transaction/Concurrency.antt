-- ===== src/Transaction/Concurrency.antt =====
-- Two transfers at a time: src/transaction/service/transaction.service.ts.
pub mod Neutral
pub mod Presence
pub mod Steps
pub mod Owing
pub mod Many
pub mod Failures
pub mod Losses
pub mod Accounted
use transaction_service.Shared.{
  ℕ, String, ℤ, pos, ◌+ℤ◌, neg_ℤ, ltb_ℤ, int_laws, arith, Option, none, some, List, [], ◌∷◌, map,
  Bool, true, false, ◌||◌, ◌==◌, ◌≡◌, refl, sym, ap, ◌∙◌, ◌⊎◌, inl, inr, is_some, first,
  update_first, Bool-cases, Option-cases, if◌then◌else◌,
}
use transaction_service.Driver.Errors.{ErrorClass, bad_request, Exception, Result, ok, err}
use transaction_service.Driver.Calls.{
  Call, Answer, Scope, direct, in_session, transaction_save, commit_transaction, abort_transaction,
  create_session, start_transaction, end_session, uuid, now, cache_get, cache_set,
  transaction_find_one_and_update,
}
use transaction_service.Driver.Prog.{Prog, ret, throw, call, ◌>>=◌, ◌>>◌, Driver, await, settle}
use transaction_service.Driver.Documents.{
  Documents, NoFailure, Follows, Reply, committed, apply_writes,
}
use transaction_service.Driver.Interleaving.{
  Turn, Parked, with_writes, run_two, IsSettled, Owes, Nothing, OwesThen, OwesCaught, Owes->>=,
  Owes-catch, Owes-finally, OwesFinally, Owes-mono,
}
use transaction_service.Driver.Interleaving.Runs.{run_two-Adds}
use transaction_service.Account.Types.{Account}
use transaction_service.Account.Balances.{total, total-increment}
use transaction_service.Account.Repository.{
  has_account_no, increment, find_by_account_no, update_balance,
}
use transaction_service.Transaction.Dto.{TransferRequest, TransferResponse}
use transaction_service.Transaction.Types.{Transaction, success}
use transaction_service.Transaction.Schema.{validated, validated-cases, pre_save, new_transaction}
use transaction_service.Transaction.Repository.{save, create, update_status, session_object}
use transaction_service.Transaction.Service.{
  Config, validate_amount, throw_if, is_frozen, transfer_data, accept, check_accounts, move_funds,
  remember, finish, transfer_body, in_transaction, transfer_uncached, cached_response, transfer,
  transfer_response, idempotency_ttl, or_perform, end_quietly,
}
use transaction_service.Transaction.Service.Requests.{truthy_text}
use transaction_service.Transaction.Concurrency.Neutral.{
  IsNeutral, passing, now-IsNeutral, uuid-IsNeutral, create_session-IsNeutral,
  start_transaction-IsNeutral, abort_transaction-IsNeutral, end_session-IsNeutral,
  commit_transaction-IsNeutral, transaction_save-IsNeutral, transaction_update-IsNeutral,
  cache_get-IsNeutral, cache_set-IsNeutral,
}
use transaction_service.Transaction.Concurrency.Owing.{transfer-Owes}

-- A session without writes.
abbrev pub no_writes : Parked
no_writes = record { account_writes = []; transaction_writes = [] }

zero_twice : (a : ℤ) → a +ℤ (pos 0 +ℤ pos 0) ≡ a
zero_twice a = omega int_laws

-- When no call fails, two transfers whose calls interleave in any order leave the sum of all
-- balances as it was, each with a session of its own: `enter` brings a session's writes back.
pub transfers_conserve :
    {W : Type 0} (view : W → Documents) (driver : Driver W)
    → Follows NoFailure view driver
    → (enter : Parked → W → W) → ((u : Parked) (w : W) → view (enter u w) ≡ with_writes u (view w))
    → (cfg : Config) (req req' : TransferRequest) (ts : List Turn) (w : W)
    → total
        (view
          (run_two view driver enter ts
            (transfer cfg req)
            (transfer cfg req')
            no_writes
            no_writes
            w).2).accounts
      ≡ total (view w).accounts
transfers_conserve view driver follows enter enters cfg req req' ts w =
    run_two-Adds _ view driver follows enter enters ts (transfer cfg req) (transfer cfg req')
      (pos 0) (pos 0) no_writes no_writes w refl refl refl (transfer-Owes _ cfg req)
      (transfer-Owes _ cfg req')
    ∙ zero_twice (total (view w).accounts)
