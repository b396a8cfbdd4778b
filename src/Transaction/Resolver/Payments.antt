-- ===== src/Transaction/Resolver/Payments.antt =====
-- Whose money the mutations of src/transaction/resolver/transaction.resolver.ts move, and what
-- they throw.
pub mod Codes
use transaction_service.Shared.{String, Option, none, some, ◌≡◌, refl, ◌⊎◌, inl, inr, arith, first}
use transaction_service.Driver.Errors.{Exception, Result, exception, plain_error, ok, err}
use transaction_service.Driver.Calls.{Call}
use transaction_service.Driver.Prog.{Prog, Driver, ret, run, throw, ◌>>=◌, ◌>>◌, catch}
use transaction_service.Driver.Documents.{Documents, Failure, Follows}
use transaction_service.Driver.Triples.{
  Post, Ensures, Then, Caught, Ensures->>=, Ensures-catch, Ensures-mono, Ensures-run,
}
use transaction_service.Middleware.Auth.{User, Context}
use transaction_service.Account.Types.{Account}
use transaction_service.Account.Repository.{has_account_no}
use transaction_service.Transaction.Dto.{TransferRequest, TransferResponse, BillPaymentRequest}
use transaction_service.Transaction.Service.{Config, transfer, bill_payment}
use transaction_service.Transaction.Service.Checks.{Faulty}
use transaction_service.Transaction.Service.Rules.{Outcome}
use transaction_service.Transaction.Service.Runs.{Answered, transfer-Answered}
use transaction_service.Transaction.Service.Guarantees.{Answered-Outcome}
use transaction_service.Transaction.Resolver.{
  authorize, attach, attach_to_bill, map_transfer_error, map_bill_payment_error, transfer_mutation,
  bill_payment_mutation,
}
use transaction_service.Transaction.Resolver.Access.{Allowed, Authorized, authorize-Authorized}

module _ (F : Call → Documents → Documents → Type 0)
    (sound : (c : Call) (s s' : Documents) → F c s s' → Failure c s s') (cfg : Config)
    (input : TransferRequest) (context : Context) (s : Documents) where
  abbrev Sent : Type 0
  Sent =
      (a : Account) × (first (has_account_no input.from_account) s.accounts ≡ some a)
      × Allowed context.user (some a.user_id)

  -- How the mutation ends: refused by the tests on the account, or as the transfer itself, with
  -- its exception mapped.
  abbrev pub Mutated : Post TransferResponse
  Mutated (ok r) s' = Sent × Answered F sound cfg (attach context.user input) s (ok r) s'
  Mutated (err e) s' =
      ((s' ≡ s)
        × ((e' : Exception) × (e ≡ map_transfer_error e')
            × Authorized F sound context.user input.from_account "From account not found"
                "Unauthorized: You can only transfer from your own accounts" s (err e') s'))
      ⊎ (Sent
          × ((e' : Exception) × (e ≡ map_transfer_error e')
              × Answered F sound cfg (attach context.user input) s (err e') s'))

  handled :
      (r : Result TransferResponse) (s' : Documents)
      → Sent
      → Answered F sound cfg (attach context.user input) s r s'
      → Caught F (λ e. throw (map_transfer_error e)) Mutated r s'
  handled (ok r) s' sent h = (sent, h)
  handled (err e) s' sent h = inr (sent, (e, refl, h))

  passed :
      (r : Result Account) (s' : Documents)
      → Authorized F sound context.user input.from_account "From account not found"
          "Unauthorized: You can only transfer from your own accounts" s r s'
      → Then F
          (λ _. transfer cfg (attach context.user input))
          (Caught F (λ e. throw (map_transfer_error e)) Mutated)
          r
          s'
  passed (ok a) s' (same, found, allowed) = rw same (
      Ensures-mono F (transfer cfg (attach context.user input)) s
        (λ r t h. handled r t (a, found, allowed) h)
        (transfer-Answered F sound cfg (attach context.user input) s))
  passed (err e) s' h = inl (h.0, (e, refl, h))

  pub transfer_mutation-Mutated : Ensures F (transfer_mutation cfg input context) Mutated s
  unfolding transfer_mutation
  transfer_mutation-Mutated =
      Ensures-catch F
        (authorize context.user input.from_account _ _ >> transfer cfg (attach context.user input))
        _ Mutated s
        (Ensures->>= F (authorize context.user input.from_account _ _) _ _ s (
          Ensures-mono F (authorize context.user input.from_account _ _) s passed
            (authorize-Authorized F sound context.user input.from_account _ _ s)))

-- A mutation is refused and changes nothing, or the sending account exists, nobody is logged in or
-- it is its owner who is, and the transfer ends as transfers do, with its exception mapped.
abbrev pub Owned :
    Config → TransferRequest → Context → Documents → Result TransferResponse → Documents → Type 0
Owned cfg input context s (ok r) s' =
    ((a : Account) × (first (has_account_no input.from_account) s.accounts ≡ some a)
      × Allowed context.user (some a.user_id))
    × Outcome cfg (attach context.user input) s (ok r) s'
Owned cfg input context s (err e) s' =
    (s' ≡ s)
    ⊎ (((a : Account) × (first (has_account_no input.from_account) s.accounts ≡ some a)
          × Allowed context.user (some a.user_id))
        × ((e' : Exception) × (e ≡ map_transfer_error e')
            × Outcome cfg (attach context.user input) s (err e') s'))

Mutated-Owned :
    (cfg : Config) (input : TransferRequest) (context : Context) (s : Documents)
    (r : Result TransferResponse) (s' : Documents)
    → Mutated Failure (λ c s s' f. f) cfg input context s r s'
    → Owned cfg input context s r s'
Mutated-Owned cfg input context s (ok r) s' h = h
Mutated-Owned cfg input context s (err e) s' (inl (same, _)) = inl same
Mutated-Owned cfg input context s (err e) s' (inr (sent, (e', mapped, h))) =
    inr (sent, (e', mapped, Answered-Outcome cfg (attach context.user input) s (err e') s' h))

-- Nothing has changed, and whoever is answered may use the account.
abbrev pub Inert : BillPaymentRequest → Context → Documents → Post Unit
Inert input context s (ok _) s' =
    (s' ≡ s)
    × ((a : Account) × (first (has_account_no input.account_no) s.accounts ≡ some a)
        × Allowed context.user (some a.user_id))
Inert input context s (err e) s' = s' ≡ s

inert :
    (input : BillPaymentRequest) (context : Context) (s : Documents) (r : Result Account)
    (s' : Documents)
    → Authorized Failure
        (λ c s s' f. f)
        context.user
        input.account_no
        "Account not found"
        "Unauthorized: You can only make payments from your own accounts"
        s
        r
        s'
    → Then Failure
        (λ _. ret tt)
        (Caught Failure (λ e. throw (map_bill_payment_error e)) (Inert input context s))
        r
        s'
inert input context s (ok a) s' (same, found, allowed) = (same, (a, found, allowed))
inert input context s (err e) s' h = h.0

module _ {W : Type 0} (view : W → Documents) (driver : Driver W)
    (follows : Follows Failure view driver) where
  -- Whatever calls fail, the transfer mutation changes something only if the sending account
  -- exists, and nobody is logged in or it belongs to the user who is. It then ends like a transfer
  -- in that user's name: replayed or performed with every rule kept if it returns a response, and
  -- refused or cut short, with the exception mapped, if it throws.
  pub transfer_mutation-Owned :
      (cfg : Config) (input : TransferRequest) (context : Context) (w : W)
      → let (r, w') = run driver (transfer_mutation cfg input context) w in
        Owned cfg input context (view w) r (view w')
  transfer_mutation-Owned cfg input context w =
      Ensures-run Failure view driver follows (transfer_mutation cfg input context)
        (Owned cfg input context (view w)) w
        (Ensures-mono Failure (transfer_mutation cfg input context) (view w)
          (Mutated-Owned cfg input context (view w))
          (transfer_mutation-Mutated Failure (λ c s s' f. f) cfg input context (view w)))

  -- Whatever calls fail, the bill payment mutation changes nothing that is stored: it moves no
  -- money and makes no record. It returns only if the account exists, and nobody is logged in or
  -- it belongs to the user who is.
  pub bill_payment_mutation-Inert :
      (input : BillPaymentRequest) (context : Context) (w : W)
      → let (r, w') = run driver (bill_payment_mutation input context) w in
        Inert input context (view w) r (view w')
  unfolding bill_payment_mutation bill_payment
  bill_payment_mutation-Inert input context w =
      Ensures-run Failure view driver follows (bill_payment_mutation input context)
        (Inert input context (view w)) w
        (Ensures-catch Failure (authorize context.user input.account_no _ _ >> ret tt) _
          (Inert input context (view w)) (view w)
          (Ensures->>= Failure (authorize context.user input.account_no _ _) _ _ (view w) (
            Ensures-mono Failure (authorize context.user input.account_no _ _) (view w)
              (inert input context (view w))
              (authorize-Authorized Failure (λ c s s' f. f) context.user input.account_no _ _
                (view w)))))
