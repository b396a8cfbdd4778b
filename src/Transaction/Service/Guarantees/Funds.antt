-- ===== src/Transaction/Service/Guarantees/Funds.antt =====
-- What becomes of the money in a transfer, whatever calls fail:
-- src/transaction/service/transaction.service.ts.
use transaction_service.Shared.{
  ℕ, String, ℤ, pos, ◌+ℤ◌, neg_ℤ, ◌≤ℤ◌, int_laws, Option, none, some, List, ◌≡◌, refl, sym, ap, ◌⊎◌,
  inl, inr, Option-cases,
}
use mathlib.Core.Path.{◌∙◌, subst}
use mathlib.Core.Option.{some-injective}
use transaction_service.Driver.Errors.{Exception, Result, ok, err}
use transaction_service.Driver.Prog.{Driver, run}
use transaction_service.Driver.Documents.{Documents, Failure, Follows}
use transaction_service.Account.Types.{Account}
use transaction_service.Account.Repository.{has_account_no}
use transaction_service.Account.Balances.{
  total, IsSolvent, total-increment, increment-IsSolvent, first-increment_ne,
}
use transaction_service.Transaction.Dto.{TransferRequest, TransferResponse}
use transaction_service.Transaction.Service.{Config, validate_amount, transfer}
use transaction_service.Transaction.Service.Requests.{truthy_text}
use transaction_service.Transaction.Service.Rules.{
  IsApproved, IsStage, untouched, debited, moved, debit, credit, receiver_of, IsPerformed, Outcome,
  remembered,
}
use transaction_service.Transaction.Service.Guarantees.{transfer-Outcome}

module _ (cfg : Config) (req : TransferRequest) (amount : ℤ) (accounts : List Account) (a : Account)
    (approved : IsApproved cfg req amount accounts a) where
  total-debit : (d : ℕ) → total (debit req amount d accounts) +ℤ amount ≡ total accounts
  total-debit d =
      rw
        (total-increment (has_account_no req.from_account) (neg_ℤ amount) d accounts a
          approved.covered.sender)
        (omega int_laws)

  -- The debit leaves the receiver as it is.
  receiver-debit :
      (d : ℕ) → receiver_of req (debit req amount d accounts) ≡ receiver_of req accounts
  receiver-debit d = first-increment_ne _ _ (neg_ℤ amount) d accounts approved.apart

  total-credit :
      (d d' : ℕ) → total (credit req amount d' (debit req amount d accounts)) ≡ total accounts
  total-credit d d' = elim (Option-cases (receiver_of req accounts)) [
    | inl absent ↦ absurd (approved.covered.receiver absent)
    | inr (b, present) ↦
        rw
          (total-increment (has_account_no req.to_account) amount d' (debit req amount d accounts) b
            (receiver-debit d ∙ present))
          (total-debit d)
  ]

  debit-IsSolvent : (d : ℕ) → IsSolvent accounts → IsSolvent (debit req amount d accounts)
  debit-IsSolvent d =
      increment-IsSolvent (has_account_no req.from_account) (neg_ℤ amount) d accounts
        (λ b e h. covers_debit b (some-injective a b (sym approved.covered.sender ∙ e)))
    where
      covers_debit : (b : Account) → a ≡ b → pos 0 ≤ℤ b.balance +ℤ neg_ℤ amount
      covers_debit b same =
          subst (λ (x : Account). pos 0 ≤ℤ x.balance +ℤ neg_ℤ amount) same
            (omega (int_laws, approved.covered.funds))

  credit-IsSolvent :
      (d d' : ℕ)
      → pos 0 ≤ℤ amount
      → IsSolvent accounts
      → IsSolvent (credit req amount d' (debit req amount d accounts))
  credit-IsSolvent d d' positive h =
      increment-IsSolvent (has_account_no req.to_account) amount d' (debit req amount d accounts)
        (λ b e k. omega int_laws) (debit-IsSolvent d h)

-- The sum of the balances after a transfer that began with `accounts`.
abbrev pub IsAccounted :
    Config → TransferRequest → List Account → Result TransferResponse → List Account → Type 0
IsAccounted cfg req accounts (ok r) after = total after ≡ total accounts
IsAccounted cfg req accounts (err e) after =
    (total after ≡ total accounts)
    ⊎ ((amount : ℤ) × (validate_amount cfg req.amount ≡ ok amount)
        × (total after +ℤ amount ≡ total accounts))

stage-IsAccounted :
    (cfg : Config) (req : TransferRequest) (amount : ℤ) (before after : List Account)
    (e : Exception)
    → IsStage cfg req amount before after
    → IsAccounted cfg req before (err e) after
stage-IsAccounted cfg req amount before after e (untouched same) = inl (ap total same)
stage-IsAccounted cfg req amount before after e (debited a d approved same) =
    inr (amount, approved.valid, rw same (total-debit cfg req amount before a approved d))
stage-IsAccounted cfg req amount before after e (moved a d d' approved same) =
    inl (rw same (total-credit cfg req amount before a approved d d'))

stage-IsSolvent :
    (cfg : Config) (req : TransferRequest) (amount : ℤ) (before after : List Account)
    → ((x : ℤ) → validate_amount cfg req.amount ≡ ok x → pos 0 ≤ℤ x)
    → IsStage cfg req amount before after
    → IsSolvent before
    → IsSolvent after
stage-IsSolvent cfg req amount before after positive (untouched same) h = rw same h
stage-IsSolvent cfg req amount before after positive (debited a d approved same) h =
    rw same (debit-IsSolvent cfg req amount before a approved d h)
stage-IsSolvent cfg req amount before after positive (moved a d d' approved same) h =
    rw same
      (credit-IsSolvent cfg req amount before a approved d d' (positive amount approved.valid) h)

pub performed-stage :
    (cfg : Config) (req : TransferRequest) (r : TransferResponse) (s s' : Documents)
    (p : IsPerformed cfg req r s s')
    → s'.accounts ≡ credit req p.amount p.credit_date (debit req p.amount p.debit_date s.accounts)
performed-stage cfg req r s s' p =
    ap (λ (t : Documents). t.accounts) p.stored
    ∙ accounts-remembered (truthy_text req.idempotency_key) r _
  where
    accounts-remembered :
        (key : Option String) (r : TransferResponse) (t : Documents)
        → (remembered key r t).accounts ≡ t.accounts
    accounts-remembered none r t = refl
    accounts-remembered (some k) r t = refl

Outcome-IsAccounted :
    (cfg : Config) (req : TransferRequest) (s : Documents) (r : Result TransferResponse)
    (s' : Documents)
    → Outcome cfg req s r s'
    → IsAccounted cfg req s.accounts r s'.accounts
Outcome-IsAccounted cfg req s (ok r) s' (inl (key, e, hit, same)) =
    ap (λ (t : Documents). total t.accounts) same
Outcome-IsAccounted cfg req s (ok r) s' (inr p) =
    rw (performed-stage cfg req r s s' p)
      (total-credit cfg req p.amount s.accounts p.sender p.approved p.debit_date p.credit_date)
Outcome-IsAccounted cfg req s (err e) s' (inl left) =
    stage-IsAccounted cfg req left.amount s.accounts s'.accounts e left.stage
Outcome-IsAccounted cfg req s (err e) s' (inr (_, same)) = inl (ap total same.accounts)

Outcome-IsSolvent :
    (cfg : Config) (req : TransferRequest) (s : Documents) (r : Result TransferResponse)
    (s' : Documents)
    → ((x : ℤ) → validate_amount cfg req.amount ≡ ok x → pos 0 ≤ℤ x)
    → Outcome cfg req s r s'
    → IsSolvent s.accounts
    → IsSolvent s'.accounts
Outcome-IsSolvent cfg req s (ok r) s' positive (inl (key, e, hit, same)) h = rw same h
Outcome-IsSolvent cfg req s (ok r) s' positive (inr p) h =
    stage-IsSolvent cfg req p.amount s.accounts s'.accounts positive
      (moved p.sender p.debit_date p.credit_date p.approved (performed-stage cfg req r s s' p)) h
Outcome-IsSolvent cfg req s (err e) s' positive (inl left) h =
    stage-IsSolvent cfg req left.amount s.accounts s'.accounts positive left.stage h
Outcome-IsSolvent cfg req s (err e) s' positive (inr (_, same)) h = rw same.accounts h

module _ {W : Type 0} (view : W → Documents) (driver : Driver W)
    (follows : Follows Failure view driver) where
  -- Whatever calls fail, a transfer that returns a response leaves the sum of all balances as it
  -- was. One that throws leaves it as it was too, or less by exactly the amount of the request.
  pub transfer-IsAccounted :
      (cfg : Config) (req : TransferRequest) (w : W)
      → let (r, w') = run driver (transfer cfg req) w in
        IsAccounted cfg req (view w).accounts r (view w').accounts
  transfer-IsAccounted cfg req w =
      Outcome-IsAccounted cfg req (view w) _ _ (transfer-Outcome view driver follows cfg req w)

  -- If no accepted amount is negative and no balance is, then after a transfer, run on its own,
  -- no balance is negative, whatever calls fail.
  pub transfer-IsSolvent :
      (cfg : Config) (req : TransferRequest) (w : W)
      → ((x : ℤ) → validate_amount cfg req.amount ≡ ok x → pos 0 ≤ℤ x)
      → IsSolvent (view w).accounts
      → let (r, w') = run driver (transfer cfg req) w in IsSolvent (view w').accounts
  transfer-IsSolvent cfg req w positive h =
      Outcome-IsSolvent cfg req (view w) _ _ positive
        (transfer-Outcome view driver follows cfg req w) h
