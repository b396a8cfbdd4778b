-- ===== src/Transaction/Service/Guarantees.antt =====
-- What `transfer` of src/transaction/service/transaction.service.ts guarantees, under every driver
-- that keeps its contract.
pub mod Funds
pub mod Records
pub mod Ledger
pub mod Idempotency
pub mod Availability
pub mod Lookups
pub mod Freezing
use transaction_service.Shared.{
  ℕ, String, ℤ, pos, ◌+ℤ◌, ◌-ℤ◌, neg_ℤ, ◌≤ℤ◌, int_laws, Option, none, some, List, [], ◌∷◌, ◌++◌,
  true, false, ◌==◌, ◌≡◌, ◌≢◌, refl, sym, ap, ◌⊎◌, inl, inr, arith, first, Bool-cases, Option-cases,
}
use transaction_service.Driver.Errors.{Exception, Result, ok, err}
use transaction_service.Driver.Calls.{Call, Answer, cache_get}
use transaction_service.Driver.Prog.{Driver, run}
use transaction_service.Driver.Documents.{Documents, Failure, NoFailure, Follows, cached, committed}
use transaction_service.Driver.Triples.{Ensures-mono, Ensures-run}
use transaction_service.Account.Types.{Account}
use transaction_service.Account.Repository.{has_account_no}
use transaction_service.Account.Balances.{
  total, IsSolvent, total-increment, increment-IsSolvent, first-increment_ne,
}
use transaction_service.Transaction.Types.{Transaction, success, processing}
use transaction_service.Transaction.Dto.{TransferRequest, TransferResponse}
use transaction_service.Transaction.Schema.{is_invalid}
use transaction_service.Transaction.Service.{Config, validate_amount, transfer_data, transfer}
use transaction_service.Transaction.Service.Requests.{truthy_text}
use transaction_service.Transaction.Service.Rules.{
  IsCovered, Refused, IsApproved, IsStage, untouched, debited, moved, debit, credit, sender_of,
  receiver_of, IsSame, IsInterrupted, IsRefusal, invalid_amount, same_account, by_accounts,
  by_schema, IsPerformed, IsReplayed, Outcome, completed, processing_record, remembered,
}
use transaction_service.Transaction.Service.Runs.{Answered, transfer-Answered}

pub Answered-Outcome :
    (cfg : Config) (req : TransferRequest) (s : Documents) (r : Result TransferResponse)
    (s' : Documents)
    → Answered Failure (λ c s s' f. f) cfg req s r s'
    → Outcome cfg req s r s'
Answered-Outcome cfg req s (ok r) s' h = h
Answered-Outcome cfg req s (err e) s' (inl (_, left)) = inl left
Answered-Outcome cfg req s (err e) s' (inr refused) = inr refused

module _ {W : Type 0} (view : W → Documents) (driver : Driver W)
    (follows : Follows Failure view driver) where
  -- Whatever calls fail, a transfer ends in one of four ways: the cached response comes back and
  -- nothing changes; it is performed, with every rule kept, and just the two balances, one record
  -- and the cached response are new; it is refused for a rule, and nothing changes; or it is cut
  -- short, and then the accounts are as before, debited, or debited and credited as approved, with
  -- at most the one record and the one cached response added.
  pub transfer-Outcome :
      (cfg : Config) (req : TransferRequest) (w : W)
      → let (r, w') = run driver (transfer cfg req) w in Outcome cfg req (view w) r (view w')
  transfer-Outcome cfg req w =
      Ensures-run Failure view driver follows (transfer cfg req) (Outcome cfg req (view w)) w (
        Ensures-mono Failure (transfer cfg req) (view w) (Answered-Outcome cfg req (view w))
          (transfer-Answered Failure (λ c s s' f. f) cfg req (view w)))
