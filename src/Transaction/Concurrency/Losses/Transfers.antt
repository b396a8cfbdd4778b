-- ===== src/Transaction/Concurrency/Losses/Transfers.antt =====
-- What `transfer` of src/transaction/service/transaction.service.ts owes to the sum of the balances
-- at its end, where its calls may fail.
use transaction_service.Shared.{String, ℤ, pos, Option, none, some, List, ◌==◌, ◌≡◌, refl, inl}
use transaction_service.Driver.Errors.{Result, ok, err, bad_request}
use transaction_service.Driver.Calls.{
  abort_transaction, create_session, start_transaction, end_session, cache_get, uuid, now,
}
use transaction_service.Driver.Prog.{Prog, ret, throw, ◌>>=◌, ◌>>◌, settle, await}
use transaction_service.Driver.Interleaving.Settling.{
  by_result, Settles, SettlesThen, SettlesCaught, SettlesFinally, Settles->>=, Settles-catch,
  Settles-finally, Settles-mono,
}
use transaction_service.Account.Types.{Account}
use transaction_service.Transaction.Dto.{TransferRequest, TransferResponse}
use transaction_service.Transaction.Service.{
  Config, validate_amount, throw_if, check_accounts, move_funds, finish, transfer_body, end_quietly,
  in_transaction, transfer_uncached, cached_response, or_perform, transfer,
}
use transaction_service.Transaction.Service.Requests.{truthy_text}
use transaction_service.Transaction.Service.Calls.{finish-Within}
use transaction_service.Transaction.Concurrency.Neutral.{
  now-IsNeutral, uuid-IsNeutral, create_session-IsNeutral, start_transaction-IsNeutral,
  abort_transaction-IsNeutral, end_session-IsNeutral, cache_get-IsNeutral,
}
use transaction_service.Transaction.Concurrency.Steps.{Checked}
use transaction_service.Transaction.Concurrency.Losses.{past, quiet}
use transaction_service.Transaction.Concurrency.Losses.Moves.{
  Lost, move_funds-Settles, throw_if-Settles, check_accounts-Settles,
}

module _ (numbers : List String) where
  body-Settles :
      (cfg : Config) (req : TransferRequest) (id : String) (amount : ℤ)
      → validate_amount cfg req.amount ≡ ok amount
      → Settles numbers (transfer_body cfg req id amount) (Lost cfg req) (pos 0)
  unfolding transfer_body
  body-Settles cfg req id amount valid =
      Settles->>= numbers (check_accounts req amount) _ _ (pos 0) (
        Settles-mono numbers (check_accounts req amount) (pos 0) checked
          (check_accounts-Settles numbers req amount))
    where
      done :
          (a : Account) (r : Result Unit) (d : ℤ)
          → Lost cfg req r d
          → SettlesThen numbers (λ _. finish req id amount a) (Lost cfg req) r d
      done a (ok x) d none_left =
          quiet numbers 3 (finish req id amount a) (Lost cfg req) d (finish-Within req id amount a)
            (by_result _ (λ _. none_left) (λ e. inl none_left))
      done a (err e) d lost = lost

      checked :
          (r : Result Account) (d : ℤ)
          → Checked numbers req r d
          → SettlesThen numbers
              (λ a. move_funds cfg req id amount >> finish req id amount a)
              (Lost cfg req)
              r
              d
      checked (ok a) d (none_left, from, to) = rw none_left (
          Settles->>= numbers (move_funds cfg req id amount) _ _ (pos 0) (
            Settles-mono numbers (move_funds cfg req id amount) (pos 0) (done a)
              (move_funds-Settles numbers cfg req id amount valid from to)))
      checked (err e) d none_left = inl none_left

  in_transaction-Settles :
      (cfg : Config) (req : TransferRequest) (m : Prog TransferResponse)
      → Settles numbers m (Lost cfg req) (pos 0)
      → Settles numbers (in_transaction m) (Lost cfg req) (pos 0)
  unfolding in_transaction
  in_transaction-Settles cfg req m h =
      Settles-finally numbers _ _ (Lost cfg req) (pos 0)
        (Settles-catch numbers m _ _ (pos 0) (Settles-mono numbers m (pos 0) caught h))
    where
      ended :
          (r : Result TransferResponse) (d : ℤ)
          → Lost cfg req r d
          → SettlesFinally numbers end_quietly (Lost cfg req) r d
      ended (ok a) d h =
          past numbers end_session end_session-IsNeutral {A = TransferResponse} (λ _. ret a)
            (Lost cfg req) d (λ _. h)
      ended (err e) d h =
          past numbers end_session end_session-IsNeutral {A = TransferResponse} (λ _. throw e)
            (Lost cfg req) d (λ _. h)

      caught :
          (r : Result TransferResponse) (d : ℤ)
          → Lost cfg req r d
          → SettlesCaught numbers
              (λ e. await abort_transaction >> throw e)
              (SettlesFinally numbers end_quietly (Lost cfg req))
              r
              d
      caught (ok a) d h = ended (ok a) d h
      caught (err e) d h =
          past numbers abort_transaction abort_transaction-IsNeutral {A = TransferResponse}
            (λ r. settle r >> throw e) (SettlesFinally numbers end_quietly (Lost cfg req)) d
            (by_result _ (λ _. ended (err e) d h) (λ e'. ended (err e') d h))

  begun :
      (cfg : Config) (req : TransferRequest) (amount : ℤ)
      → validate_amount cfg req.amount ≡ ok amount
      → Settles numbers
          (await uuid >>= λ id.
            await create_session
            >> (await start_transaction >> in_transaction (transfer_body cfg req id amount)))
          (Lost cfg req)
          (pos 0)
  begun cfg req amount valid = past numbers uuid uuid-IsNeutral _ (Lost cfg req) (pos 0) (
      by_result _
        (λ id. past numbers create_session create_session-IsNeutral _ (Lost cfg req) (pos 0) (
          by_result _
            (λ x.
              past numbers start_transaction start_transaction-IsNeutral _ (Lost cfg req) (pos 0) (
                by_result _
                  (λ y. in_transaction-Settles cfg req _ (body-Settles cfg req id amount valid))
                  (λ e. inl refl)))
            (λ e. inl refl)))
        (λ e. inl refl))

  uncached-Settles :
      (cfg : Config) (req : TransferRequest)
      → Settles numbers (transfer_uncached cfg req) (Lost cfg req) (pos 0)
  unfolding transfer_uncached
  uncached-Settles cfg req = validated_amount (validate_amount cfg req.amount) refl
    where
      validated_amount :
          (r : Result ℤ)
          → validate_amount cfg req.amount ≡ r
          → Settles numbers
              (settle r >>= λ amount.
                throw_if
                  (req.from_account == req.to_account)
                  bad_request
                  "Cannot transfer to the same account"
                >> (await uuid >>= λ id.
                    await create_session
                    >> (await start_transaction
                        >> in_transaction (transfer_body cfg req id amount))))
              (Lost cfg req)
              (pos 0)
      validated_amount (ok amount) valid =
          throw_if-Settles numbers (req.from_account == req.to_account) bad_request
            "Cannot transfer to the same account" _ (Lost cfg req) (pos 0) (λ e. inl refl)
            (begun cfg req amount valid)
      validated_amount (err e) invalid = inl refl

  -- A transfer in the middle of others, whatever fails.
  pub transfer-Settles :
      (cfg : Config) (req : TransferRequest)
      → Settles numbers (transfer cfg req) (Lost cfg req) (pos 0)
  unfolding transfer cached_response
  transfer-Settles cfg req =
      past numbers now now-IsNeutral _ (Lost cfg req) (pos 0)
        (by_result _ (λ time. looked_up (truthy_text req.idempotency_key)) (λ e. inl refl))
    where
      answered :
          (o : Option TransferResponse)
          → Settles numbers (or_perform o (transfer_uncached cfg req)) (Lost cfg req) (pos 0)
      answered none = uncached-Settles cfg req
      answered (some r) = refl

      looked_up :
          (key : Option String)
          → Settles numbers
              (cached_response key >>= λ o. or_perform o (transfer_uncached cfg req))
              (Lost cfg req)
              (pos 0)
      looked_up none = answered none
      looked_up (some key) =
          past numbers (cache_get key) (cache_get-IsNeutral key) _ (Lost cfg req) (pos 0)
            (by_result _ answered (λ e. inl refl))
