-- ===== src/Transaction/Service/Guarantees/Freezing.antt =====
-- A frozen account sends nothing: src/transaction/service/transaction.service.ts after `freeze` of
-- src/account/account.repository.ts.
use transaction_service.Shared.{
  String, ℤ, Option, none, some, List, [], ◌∷◌, Bool, ◌≡◌, ◌≢◌, refl, arith, map_option, ◌∙◌, ap,
  first, update_first, first-update_first,
}
use transaction_service.Driver.Errors.{Result, ok, err, exception, bad_request}
use transaction_service.Driver.Prog.{Driver, run}
use transaction_service.Driver.Documents.{Documents, NoFailure, Follows}
use transaction_service.Account.Types.{Account}
use transaction_service.Account.Repository.{has_account_no, set_frozen, freeze}
use transaction_service.Account.Freezing.{Frozen, run-freeze}
use transaction_service.Transaction.Dto.{TransferRequest}
use transaction_service.Transaction.Service.{Config, validate_amount, transfer}
use transaction_service.Transaction.Service.Rules.{
  Refused, sender_frozen, IsSame, sender_of, receiver_of,
}
use transaction_service.Transaction.Service.Guarantees.Availability.{IsUncached, transfer_refuses}

-- An update of accounts that keeps their numbers takes none away.
not_found_before :
    (p q : Account → Bool) (f : Account → Account) (xs : List Account)
    → ((x : Account) → q (f x) ≡ q x)
    → first q (update_first p f xs) ≡ none
    → first q xs ≡ none
not_found_before p q f [] keeps h = refl
not_found_before p q f (x ∷ xs) keeps h = ground (arith, keeps x, not_found_before p q f xs keeps)

still_found :
    (p q : Account → Bool) (f : Account → Account) (xs : List Account)
    → ((x : Account) → q (f x) ≡ q x)
    → first q xs ≢ none
    → first q (update_first p f xs) ≢ none
still_found p q f xs keeps h = λ lost. h (not_found_before p q f xs keeps lost)

Frozen-Refused :
    (req : TransferRequest) (amount : ℤ) (reason : String) (a : Account) (s s' : Documents)
    (r : Result (Option Account))
    → sender_of req s.accounts ≡ some a
    → receiver_of req s.accounts ≢ none
    → Frozen req.from_account reason s r s'
    → Refused req amount s'.accounts (exception bad_request "Account frozen due to fraud detection")
unfolding set_frozen
Frozen-Refused req amount reason a s s' (ok o) sent received (date, _, h) = rw h (
    sender_frozen (set_frozen reason date a)
      (first-update_first (has_account_no req.from_account) (set_frozen reason date) s.accounts
          (λ x. refl)
        ∙ ap (map_option (set_frozen reason date)) sent)
      (still_found (has_account_no req.from_account) (has_account_no req.to_account)
        (set_frozen reason date) s.accounts (λ x. refl) received)
      refl refl)
Frozen-Refused req amount reason a s s' (err e) sent received h = absurd h

Frozen-IsUncached :
    (req : TransferRequest) (reason : String) (s s' : Documents) (r : Result (Option Account))
    → Frozen req.from_account reason s r s'
    → IsUncached req s
    → IsUncached req s'
Frozen-IsUncached req reason s s' (ok o) (date, _, h) uncached = rw h uncached
Frozen-IsUncached req reason s s' (err e) h uncached = absurd h

-- When no call fails: once an account is frozen, a transfer from it of an accepted amount to
-- another account that exists, whose response is not in the cache, is refused with "Account frozen
-- due to fraud detection", and nothing changes.
pub freeze_stops_transfer :
    {W : Type 0} (view : W → Documents) (driver : Driver W)
    → Follows NoFailure view driver
    → (cfg : Config) (req : TransferRequest) (amount : ℤ) (reason : String) (a : Account) (w : W)
    → validate_amount cfg req.amount ≡ ok amount
    → req.from_account ≢ req.to_account
    → sender_of req (view w).accounts ≡ some a
    → receiver_of req (view w).accounts ≢ none
    → IsUncached req (view w)
    → let w' = (run driver (freeze req.from_account reason) w).1 in
      let (r, w'') = run driver (transfer cfg req) w' in
      (r ≡ err (exception bad_request "Account frozen due to fraud detection"))
      × IsSame (view w') (view w'')
freeze_stops_transfer view driver follows cfg req amount reason a w valid apart sent received
      uncached =
    transfer_refuses view driver follows cfg req amount _
      (run driver (freeze req.from_account reason) w).1 valid apart
      (Frozen-Refused req amount reason a (view w) _ _ sent received
        (run-freeze view driver follows req.from_account reason w))
      (Frozen-IsUncached req reason (view w) _ _
        (run-freeze view driver follows req.from_account reason w) uncached)
