-- ===== src/Transaction/Service/Guarantees/Ledger.antt =====
-- What `transfer` of src/transaction/service/transaction.service.ts does to the ledger that the
-- accounts stand for.
use transaction_service.Shared.{
  ℕ, String, ℤ, neg_ℤ, some, List, [], ◌∷◌, ◌≡◌, refl, ap, ◌∙◌, ◌⊎◌, inl, inr, map_option,
}
use transaction_service.Driver.Errors.{Result, ok, err}
use transaction_service.Driver.Prog.{Driver, run}
use transaction_service.Driver.Documents.{Documents, NoFailure, Follows, cached}
use transaction_service.Account.Types.{Account}
use transaction_service.Account.Ledger.{
  Ledger, put, credit as credited, add, specified, specified_all,
}
use transaction_service.Account.Refinement.Entries.{ledger}
use transaction_service.Account.Outline.{ledger-increment}
use transaction_service.Transaction.Dto.{TransferRequest, TransferResponse}
use transaction_service.Transaction.Service.{Config, validate_amount, transfer}
use transaction_service.Transaction.Service.Requests.{truthy_text}
use transaction_service.Transaction.Service.Rules.{debit, credit}
use transaction_service.Transaction.Service.Guarantees.Funds.{performed-stage}
use transaction_service.Transaction.Service.Guarantees.Availability.{Decided, transfer-Decided}

-- What the ledger says of a transfer: an increment on each side, or nothing.
abbrev pub IsMoved : Config → TransferRequest → Ledger → Ledger → Type 0
IsMoved cfg req l l' =
    (amount : ℤ) × (validate_amount cfg req.amount ≡ ok amount)
    × (l'
        ≡ (specified_all cfg.upper_case
            (add req.from_account (neg_ℤ amount) ∷ add req.to_account amount ∷ []) l).1)

-- The cache held the response under the key of the request.
abbrev pub WasCached : TransferRequest → TransferResponse → Documents → Type 0
WasCached req r s =
    (key : String) × (truthy_text req.idempotency_key ≡ some key) × (cached key s.cache ≡ some r)

-- The ledgers before and after a transfer, by its result and by what the cache held before.
abbrev pub Transferred :
    Config → TransferRequest → Documents → Result TransferResponse → Documents → Type 0
Transferred cfg req s (ok r) s' =
    (WasCached req r s × (ledger s'.accounts ≡ ledger s.accounts))
    ⊎ IsMoved cfg req (ledger s.accounts) (ledger s'.accounts)
Transferred cfg req s (err e) s' = ledger s'.accounts ≡ ledger s.accounts

ledger-transfer :
    (cfg : Config) (req : TransferRequest) (amount : ℤ) (d d' : ℕ) (xs : List Account)
    → ledger (credit req amount d' (debit req amount d xs))
      ≡ (specified_all cfg.upper_case
          (add req.from_account (neg_ℤ amount) ∷ add req.to_account amount ∷ [])
          (ledger xs)).1
unfolding specified_all specified
ledger-transfer cfg req amount d d' xs =
    ledger-increment req.to_account amount d' (debit req amount d xs)
    ∙ ap (λ l. put req.to_account (map_option (credited amount) (l req.to_account)) l)
        (ledger-increment req.from_account (neg_ℤ amount) d xs)

Decided-Transferred :
    (cfg : Config) (req : TransferRequest) (s : Documents) (r : Result TransferResponse)
    (s' : Documents)
    → Decided cfg req s r s'
    → Transferred cfg req s r s'
Decided-Transferred cfg req s (ok r) s' (inl (key, e, hit, same)) =
    inl ((key, e, hit), rw same refl)
Decided-Transferred cfg req s (ok r) s' (inr p) = inr (
  p.amount,
  p.approved.valid,
  ap ledger (performed-stage cfg req r s s' p)
      ∙ ledger-transfer cfg req p.amount p.debit_date p.credit_date s.accounts,
)
Decided-Transferred cfg req s (err e) s' (_, same) = ap ledger same.accounts

-- When no call fails, a transfer that returns is, on the ledger that the accounts stand for, the two
-- operations of the repository that take the accepted amount from the sender and give it to the
-- receiver; or the cache held the response under the request's key, and the ledger is as it was. One
-- that throws leaves the ledger as it was.
pub transfer-Transferred :
    {W : Type 0} (view : W → Documents) (driver : Driver W)
    → Follows NoFailure view driver
    → (cfg : Config) (req : TransferRequest) (w : W)
    → let (r, w') = run driver (transfer cfg req) w in Transferred cfg req (view w) r (view w')
transfer-Transferred view driver follows cfg req w =
    Decided-Transferred cfg req (view w) _ _ (transfer-Decided view driver follows cfg req w)
