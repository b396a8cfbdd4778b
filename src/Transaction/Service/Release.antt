-- ===== src/Transaction/Service/Release.antt =====
-- The session of a transfer: src/transaction/service/transaction.service.ts ends it on every path.
use transaction_service.Shared.{
  ℕ, ◌+◌, String, ℤ, Option, none, some, Bool, true, false, ◌==◌, ◌≡◌, refl, arith,
}
use transaction_service.Driver.Errors.{Result, ok, err, bad_request}
use transaction_service.Driver.Calls.{
  Call, create_session, start_transaction, abort_transaction, end_session, uuid,
}
use transaction_service.Driver.Prog.{Prog, Driver, throw, ◌>>=◌, ◌>>◌, settle, await, catch}
use transaction_service.Driver.Budget.{Within, Within-catch}
use transaction_service.Driver.Release.{
  kind_of, plain, trace, IsReleased, Releases, trace-Releases, finally-Releases,
}
use transaction_service.Transaction.Dto.{TransferRequest, TransferResponse}
use transaction_service.Transaction.Service.{
  Config, validate_amount, throw_if, transfer_body, end_quietly, in_transaction, transfer_uncached,
  cached_response, or_perform, transfer,
}
use transaction_service.Transaction.Service.Requests.{truthy_text}
use transaction_service.Transaction.Service.Calls.{InBody, transfer_body-Within}

plain-InBody : (c : Call) → InBody c → kind_of c ≡ plain
plain-InBody create_session h = absurd h
plain-InBody start_transaction h = absurd h
plain-InBody end_session h = absurd h
plain-InBody c h = refl

in_transaction-Releases :
    {A : Type 0} (n : ℕ) (body : Prog A)
    → Within InBody n body
    → Releases true (in_transaction body)
unfolding in_transaction
in_transaction-Releases n body h =
    finally-Releases InBody plain-InBody (n + 1)
      (catch body (λ e. await abort_transaction >> throw e)) end_quietly
      (Within-catch InBody n 1 body _ h (λ e. (tt, omega arith, λ e'. tt, λ u. tt)))
      (λ k over. (refl, λ r. over))

transfer_uncached-Releases :
    (cfg : Config) (req : TransferRequest) → Releases false (transfer_uncached cfg req)
unfolding transfer_uncached
transfer_uncached-Releases cfg req = checked (validate_amount cfg req.amount)
  where
    begun :
        (amount : ℤ) (same : Bool)
        → Releases false (
            throw_if same bad_request "Cannot transfer to the same account"
            >> (await uuid >>= λ id.
                await create_session
                >> (await start_transaction >> in_transaction (transfer_body cfg req id amount))))
    begun amount true = refl
    begun amount false = (
      λ e. refl,
      λ id. (
        λ e. refl,
        λ u. (
          refl,
          λ e. refl,
          λ u.
              in_transaction-Releases 14 (transfer_body cfg req id amount)
                (transfer_body-Within cfg req id amount),
        ),
      ),
    )

    checked :
        (r : Result ℤ)
        → Releases false (
            settle r >>= λ amount.
            throw_if
              (req.from_account == req.to_account)
              bad_request
              "Cannot transfer to the same account"
            >> (await uuid >>= λ id.
                await create_session
                >> (await start_transaction >> in_transaction (transfer_body cfg req id amount))))
    checked (ok amount) = begun amount (req.from_account == req.to_account)
    checked (err e) = refl

transfer-Releases : (cfg : Config) (req : TransferRequest) → Releases false (transfer cfg req)
unfolding transfer cached_response
transfer-Releases cfg req = (λ e. refl, λ start_time. looked_up (truthy_text req.idempotency_key))
  where
    answered :
        (o : Option TransferResponse) → Releases false (or_perform o (transfer_uncached cfg req))
    answered none = transfer_uncached-Releases cfg req
    answered (some r) = refl

    looked_up :
        (key : Option String)
        → Releases false (cached_response key >>= λ o. or_perform o (transfer_uncached cfg req))
    looked_up none = answered none
    looked_up (some key) = (λ e. refl, answered)

-- Whatever is answered and wherever a call fails, a transfer starts one transaction at most, and
-- once it has been started its session is ended, once and by the last call that is made; no session
-- is ended otherwise.
pub trace-transfer :
    {W : Type 0} (driver : Driver W) (cfg : Config) (req : TransferRequest) (w : W)
    → IsReleased false (trace driver (transfer cfg req) w)
trace-transfer driver cfg req w =
    trace-Releases driver false (transfer cfg req) w (transfer-Releases cfg req)
