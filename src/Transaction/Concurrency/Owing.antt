-- ===== src/Transaction/Concurrency/Owing.antt =====
-- What `transfer` of src/transaction/service/transaction.service.ts owes to the sum of the balances
-- when no call fails.
use transaction_service.Shared.{String, ℤ, pos, Option, none, some, List, ◌==◌, ◌≡◌, refl}
use transaction_service.Driver.Errors.{bad_request, Result, ok, err}
use transaction_service.Driver.Calls.{
  abort_transaction, create_session, start_transaction, uuid, now,
}
use transaction_service.Driver.Prog.{Prog, ret, throw, ◌>>=◌, ◌>>◌, await, settle}
use transaction_service.Driver.Interleaving.{
  Owes, Nothing, OwesThen, OwesCaught, Owes->>=, Owes-catch, Owes-finally, OwesFinally, Owes-mono,
}
use transaction_service.Account.Types.{Account}
use transaction_service.Transaction.Dto.{TransferRequest, TransferResponse}
use transaction_service.Transaction.Service.{
  Config, validate_amount, throw_if, check_accounts, move_funds, remember, finish, transfer_body,
  in_transaction, transfer_uncached, cached_response, transfer, transfer_response, idempotency_ttl,
  or_perform, end_quietly,
}
use transaction_service.Transaction.Service.Requests.{truthy_text}
use transaction_service.Transaction.Concurrency.Neutral.{
  passing, now-IsNeutral, uuid-IsNeutral, create_session-IsNeutral, start_transaction-IsNeutral,
  abort_transaction-IsNeutral, end_session-IsNeutral, cache_get-IsNeutral, cache_set-IsNeutral,
}
use transaction_service.Transaction.Concurrency.Steps.{
  Checked, throw_if-Owes, check_accounts-Owes, move_funds-Owes,
}

module _ (numbers : List String) where
  finish-Owes :
      (req : TransferRequest) (id : String) (amount : ℤ) (a : Account)
      → Owes numbers (finish req id amount a) (Nothing numbers) (pos 0)
  unfolding finish remember
  finish-Owes req id amount a = λ s date s' settled reply.
      passing numbers now-IsNeutral s date s' settled reply (pos 0)
        (stored (truthy_text req.idempotency_key) (transfer_response req id amount a date))
    where
      last :
          (response : TransferResponse)
          → Owes numbers (await now >> ret response) (Nothing numbers) (pos 0)
      last response =
          λ s x s' settled reply. passing numbers now-IsNeutral s x s' settled reply (pos 0) refl

      stored :
          (key : Option String) (response : TransferResponse)
          → Owes numbers
              (remember key response >> (await now >> ret response))
              (Nothing numbers)
              (pos 0)
      stored none response = last response
      stored (some key) response = λ s x s' settled reply.
          passing numbers (cache_set-IsNeutral key response idempotency_ttl) s x s' settled reply
            (pos 0) (last response)

  body-Owes :
      (cfg : Config) (req : TransferRequest) (id : String) (amount : ℤ)
      → Owes numbers (transfer_body cfg req id amount) (Nothing numbers) (pos 0)
  unfolding transfer_body
  body-Owes cfg req id amount = Owes->>= numbers (check_accounts req amount) _ _ (pos 0) (
      Owes-mono numbers (check_accounts req amount) (pos 0) checked
        (check_accounts-Owes numbers req amount))
    where
      done :
          (a : Account) (r : Result Unit) (d : ℤ)
          → d ≡ pos 0
          → OwesThen numbers (λ _. finish req id amount a) (Nothing numbers) r d
      done a (ok x) d none_left = rw none_left (finish-Owes req id amount a)
      done a (err e) d none_left = none_left

      checked :
          (r : Result Account) (d : ℤ)
          → Checked numbers req r d
          → OwesThen numbers
              (λ a. move_funds cfg req id amount >> finish req id amount a)
              (Nothing numbers)
              r
              d
      checked (ok a) d (none_left, from, to) = rw none_left (
          Owes->>= numbers (move_funds cfg req id amount) _ _ (pos 0) (
            Owes-mono numbers (move_funds cfg req id amount) (pos 0) (done a)
              (move_funds-Owes numbers cfg req id amount from to)))
      checked (err e) d none_left = none_left

  in_transaction-Owes :
      (m : Prog TransferResponse)
      → Owes numbers m (Nothing numbers) (pos 0)
      → Owes numbers (in_transaction m) (Nothing numbers) (pos 0)
  unfolding in_transaction
  in_transaction-Owes m h =
      Owes-finally numbers _ _ (Nothing numbers) (pos 0)
        (Owes-catch numbers m _ _ (pos 0) (Owes-mono numbers m (pos 0) caught h))
    where
      ended :
          (r : Result TransferResponse) (d : ℤ)
          → d ≡ pos 0
          → OwesFinally numbers end_quietly (Nothing numbers) r d
      ended (ok a) d none_left = λ s x s' settled reply.
          passing numbers end_session-IsNeutral s x s' settled reply d none_left
      ended (err e) d none_left = λ s x s' settled reply.
          passing numbers end_session-IsNeutral s x s' settled reply d none_left

      caught :
          (r : Result TransferResponse) (d : ℤ)
          → d ≡ pos 0
          → OwesCaught numbers
              (λ e. await abort_transaction >> throw e)
              (OwesFinally numbers end_quietly (Nothing numbers))
              r
              d
      caught (ok a) d none_left = ended (ok a) d none_left
      caught (err e) d none_left = λ s x s' settled reply.
          passing numbers abort_transaction-IsNeutral s x s' settled reply d
            (ended (err e) d none_left)

  uncached-Owes :
      (cfg : Config) (req : TransferRequest)
      → Owes numbers (transfer_uncached cfg req) (Nothing numbers) (pos 0)
  unfolding transfer_uncached
  uncached-Owes cfg req = validated_amount (validate_amount cfg req.amount)
    where
      begun :
          (amount : ℤ)
          → Owes numbers
              (await uuid >>= λ id.
                await create_session
                >> (await start_transaction >> in_transaction (transfer_body cfg req id amount)))
              (Nothing numbers)
              (pos 0)
      begun amount = λ s id s' settled reply.
          passing numbers uuid-IsNeutral s id s' settled reply (pos 0) (λ t x t' settled' reply'.
            passing numbers create_session-IsNeutral t x t' settled' reply' (pos 0)
              (λ v y v' settled'' reply''.
                passing numbers start_transaction-IsNeutral v y v' settled'' reply'' (pos 0)
                  (in_transaction-Owes _ (body-Owes cfg req id amount))))

      validated_amount :
          (r : Result ℤ)
          → Owes numbers
              (settle r >>= λ amount.
                throw_if
                  (req.from_account == req.to_account)
                  bad_request
                  "Cannot transfer to the same account"
                >> (await uuid >>= λ id.
                    await create_session
                    >> (await start_transaction
                        >> in_transaction (transfer_body cfg req id amount))))
              (Nothing numbers)
              (pos 0)
      validated_amount (ok amount) =
          throw_if-Owes numbers (req.from_account == req.to_account) bad_request
            "Cannot transfer to the same account" _ (Nothing numbers) (pos 0) (λ e. refl)
            (begun amount)
      validated_amount (err e) = refl

  pub transfer-Owes :
      (cfg : Config) (req : TransferRequest)
      → Owes numbers (transfer cfg req) (Nothing numbers) (pos 0)
  unfolding transfer cached_response
  transfer-Owes cfg req = λ s time s' settled reply.
      passing numbers now-IsNeutral s time s' settled reply (pos 0)
        (looked_up (truthy_text req.idempotency_key))
    where
      answered :
          (o : Option TransferResponse)
          → Owes numbers (or_perform o (transfer_uncached cfg req)) (Nothing numbers) (pos 0)
      answered none = uncached-Owes cfg req
      answered (some r) = refl

      looked_up :
          (key : Option String)
          → Owes numbers
              (cached_response key >>= λ o. or_perform o (transfer_uncached cfg req))
              (Nothing numbers)
              (pos 0)
      looked_up none = answered none
      looked_up (some key) = λ s o s' settled reply.
          passing numbers (cache_get-IsNeutral key) s o s' settled reply (pos 0) (answered o)
