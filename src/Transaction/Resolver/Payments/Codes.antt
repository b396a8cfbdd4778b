-- ===== src/Transaction/Resolver/Payments/Codes.antt =====
-- The codes that the transfer mutation throws when no call fails:
-- src/transaction/resolver/transaction.resolver.ts.
use transaction_service.Shared.{
  ℤ, Number, finite, nan, infinity, neg_infinity, Option, none, some, List, Bool, true, false, ◌≡◌,
  refl, ◌∙◌, ap, ◌⊎◌, inl, inr, arith, includes, if◌then◌else◌, ◌<ℤ◌,
}
use transaction_service.Driver.Errors.{
  Exception, Result, exception, plain_error, bad_request, internal_server_error, ok, err,
}
use transaction_service.Driver.Calls.{Call}
use transaction_service.Driver.Prog.{Driver, run}
use transaction_service.Driver.Documents.{Documents, NoFailure, Failure, Follows}
use transaction_service.Driver.Triples.{Ensures-mono, Ensures-run}
use transaction_service.Middleware.Auth.{User, Context}
use transaction_service.Account.Types.{Account, frozen}
use transaction_service.Transaction.Dto.{TransferRequest, TransferResponse}
use transaction_service.Transaction.Service.{Config, validate_amount}
use transaction_service.Transaction.Service.Rules.{
  Refused, no_sender, no_receiver, sender_frozen, short_of_funds, IsRefusal, invalid_amount,
  same_account, by_accounts, by_schema, IsSame, IsPerformed, IsReplayed, sender_of, receiver_of,
}
use transaction_service.Transaction.Resolver.{attach, map_transfer_error, transfer_mutation}
use transaction_service.Transaction.Resolver.Access.{Allowed}
use transaction_service.Transaction.Resolver.Payments.{Mutated, transfer_mutation-Mutated}

-- What the caller is told, and why.
pub data Coded (cfg : Config) (input : TransferRequest) (user : Option User)
    (accounts : List Account) (e : Exception) : Type 0 where
  unknown_account :
      (sender_of input accounts ≡ none) ⊎ (receiver_of input accounts ≡ none)
      → e ≡ exception plain_error "400: Invalid account number"
      → Coded cfg input user accounts e
  not_owner :
      (a : Account)
      → sender_of input accounts ≡ some a
      → ¬ Allowed user (some a.user_id)
      → e ≡ exception plain_error "Unauthorized: You can only transfer from your own accounts"
      → Coded cfg input user accounts e
  frozen_sender :
      (a : Account)
      → sender_of input accounts ≡ some a
      → a.status ≡ frozen
      → e ≡ exception plain_error "423: Account frozen due to fraud detection"
      → Coded cfg input user accounts e
  insufficient_funds :
      (a : Account) (amount : ℤ)
      → sender_of input accounts ≡ some a
      → validate_amount cfg input.amount ≡ ok amount
      → a.balance <ℤ amount
      → e ≡ exception plain_error "400: Insufficient funds"
      → Coded cfg input user accounts e
  bad_amount :
      (e' : Exception)
      → validate_amount cfg input.amount ≡ err e'
      → e ≡ exception bad_request "Invalid transaction amount"
      → Coded cfg input user accounts e
  to_itself :
      input.from_account ≡ input.to_account
      → e ≡ exception bad_request "Cannot transfer to the same account"
      → Coded cfg input user accounts e
  unstorable :
      e ≡ exception internal_server_error "Database error during transaction creation"
      → Coded cfg input user accounts e

err-injective : {d e : Exception} → Path (Result ℤ) (err d) (err e) → e ≡ d
err-injective h = ground arith

branch-message :
    (b : Bool) (amount : Number) (d e : Exception)
    → (if b then err d else elim amount [ finite a ↦ ok a | _ ↦ err d ]) ≡ err e
    → e ≡ d
branch-message true amount d e h = err-injective h
branch-message false (finite a) d e h = absurd (ground arith)
branch-message false nan d e h = err-injective h
branch-message false infinity d e h = err-injective h
branch-message false neg_infinity d e h = err-injective h

invalid_amount-message :
    (cfg : Config) (amount : Number) (e : Exception)
    → validate_amount cfg amount ≡ err e
    → e ≡ exception bad_request "Invalid transaction amount"
unfolding validate_amount
invalid_amount-message cfg amount e h = branch-message _ amount _ e h

module _ (cfg : Config) (input : TransferRequest) (user : Option User)
    (accounts : List Account) where
  Refused-Coded :
      (amount : ℤ) (e : Exception)
      → validate_amount cfg input.amount ≡ ok amount
      → Refused input amount accounts e
      → Coded cfg input user accounts (map_transfer_error e)
  unfolding map_transfer_error includes
  Refused-Coded amount e valid (no_sender absent m) = unknown_account (inl absent) (rw m refl)
  Refused-Coded amount e valid (no_receiver _ absent m) = unknown_account (inr absent) (rw m refl)
  Refused-Coded amount e valid (sender_frozen a found _ is_frozen m) =
      frozen_sender a found is_frozen (rw m refl)
  Refused-Coded amount e valid (short_of_funds a found _ _ short m) =
      insufficient_funds a amount found valid short (rw m refl)

  IsRefusal-Coded :
      (e : Exception)
      → IsRefusal cfg input accounts e
      → Coded cfg input user accounts (map_transfer_error e)
  unfolding map_transfer_error includes
  IsRefusal-Coded e (invalid_amount h) =
      bad_amount e h (rw (invalid_amount-message cfg input.amount e h) refl)
  IsRefusal-Coded e (same_account same m) = to_itself same (rw m refl)
  IsRefusal-Coded e (by_accounts amount valid refused) = Refused-Coded amount e valid refused
  IsRefusal-Coded e (by_schema _ _ _ _ _ _ m) = unstorable (rw m refl)

-- The user's name on the request has no part in it.
attach-Coded :
    (cfg : Config) (input : TransferRequest) (user attached : Option User) (accounts : List Account)
    (e : Exception)
    → Coded cfg (attach attached input) user accounts e
    → Coded cfg input user accounts e
attach-Coded cfg input user none accounts e h = h
attach-Coded cfg input user (some u) accounts e (unknown_account h m) = unknown_account h m
attach-Coded cfg input user (some u) accounts e (not_owner a h n m) = not_owner a h n m
attach-Coded cfg input user (some u) accounts e (frozen_sender a h f m) = frozen_sender a h f m
attach-Coded cfg input user (some u) accounts e (insufficient_funds a x h v l m) =
    insufficient_funds a x h v l m
attach-Coded cfg input user (some u) accounts e (bad_amount e' h m) = bad_amount e' h m
attach-Coded cfg input user (some u) accounts e (to_itself h m) = to_itself h m
attach-Coded cfg input user (some u) accounts e (unstorable m) = unstorable m

-- The two exceptions of the tests on the account, as the handler maps them.
missing-mapped :
    map_transfer_error (exception plain_error "From account not found")
    ≡ exception plain_error "400: Invalid account number"
unfolding map_transfer_error includes
missing-mapped = refl

denied-mapped :
    map_transfer_error
      (exception plain_error "Unauthorized: You can only transfer from your own accounts")
    ≡ exception plain_error "Unauthorized: You can only transfer from your own accounts"
unfolding map_transfer_error includes
denied-mapped = refl

-- A response tells of the transfer, replayed or performed. An exception tells why nothing was done.
abbrev pub Told :
    Config → TransferRequest → Context → Documents → Result TransferResponse → Documents → Type 0
Told cfg input context s (ok r) s' =
    ((a : Account) × (sender_of input s.accounts ≡ some a) × Allowed context.user (some a.user_id))
    × (IsReplayed (attach context.user input) r s s'
        ⊎ IsPerformed cfg (attach context.user input) r s s')
Told cfg input context s (err e) s' = IsSame s s' × Coded cfg input context.user s.accounts e

no_faults : (c : Call) (s s' : Documents) → NoFailure c s s' → Failure c s s'
no_faults c s s' f = absurd f

no_change : (s s' : Documents) → s' ≡ s → IsSame s s'
no_change s s' same =
    rw same (record { accounts = refl; transactions = refl; cache = refl; logs = refl })

Mutated-Told :
    (cfg : Config) (input : TransferRequest) (context : Context) (s : Documents)
    (r : Result TransferResponse) (s' : Documents)
    → Mutated NoFailure no_faults cfg input context s r s'
    → Told cfg input context s r s'
Mutated-Told cfg input context s (ok r) s' h = h
Mutated-Told cfg input context s (err e) s' (inl (_, (_, _, (_, inl faulty)))) = absurd faulty.3
Mutated-Told cfg input context s (err e) s' (inl (same, (e', mapped, (_, inr (inl (absent, m)))))) =
    (
      no_change s s' same,
      unknown_account (inl absent) (mapped ∙ (ap map_transfer_error m ∙ missing-mapped)),
    )
Mutated-Told cfg input context s (err e) s'
      (inl (same, (e', mapped, (_, inr (inr (a, found, denied, m)))))) =
    (
      no_change s s' same,
      not_owner a found denied (mapped ∙ (ap map_transfer_error m ∙ denied-mapped)),
    )
Mutated-Told cfg input context s (err e) s' (inr (_, (_, _, inl (faulty, _)))) = absurd faulty.3
Mutated-Told cfg input context s (err e) s' (inr (_, (e', mapped, inr (refusal, same)))) = (
  same,
  rw mapped (
      attach-Coded cfg input context.user context.user s.accounts _
        (IsRefusal-Coded cfg (attach context.user input) context.user s.accounts e' refusal)),
)

-- When no call fails, the transfer mutation returns the response of a transfer that is replayed or
-- performed, for an owner or where nobody is logged in, or it throws and changes nothing, and then
-- the exception tells why: an account is unknown, the user does not own the sender, the sender is
-- frozen or short of funds, the amount is not accepted, the accounts are one, or the record cannot
-- be stored. The code of a duplicate, 409, is never thrown.
pub transfer_mutation-Told :
    {W : Type 0} (view : W → Documents) (driver : Driver W)
    → Follows NoFailure view driver
    → (cfg : Config) (input : TransferRequest) (context : Context) (w : W)
    → let (r, w') = run driver (transfer_mutation cfg input context) w in
      Told cfg input context (view w) r (view w')
transfer_mutation-Told view driver follows cfg input context w =
    Ensures-run NoFailure view driver follows (transfer_mutation cfg input context)
      (Told cfg input context (view w)) w
      (Ensures-mono NoFailure (transfer_mutation cfg input context) (view w)
        (Mutated-Told cfg input context (view w))
        (transfer_mutation-Mutated NoFailure no_faults cfg input context (view w)))
