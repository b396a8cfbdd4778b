-- ===== src/Transaction/Service/Guarantees/Records.antt =====
-- What `transfer` records of itself: src/transaction/service/transaction.service.ts.
use mathlib.Core.Path.{◌∙◌}
use transaction_service.Shared.{
  String, Option, none, some, [], ◌∷◌, ◌++◌, ◌≡◌, refl, ap, ◌⊎◌, inl, inr,
}
use transaction_service.Driver.Errors.{Result, ok, err}
use transaction_service.Driver.Prog.{Driver, run}
use transaction_service.Driver.Documents.{Documents, Failure, Follows}
use transaction_service.Transaction.Types.{Transaction, processing}
use transaction_service.Transaction.Dto.{TransferRequest, TransferResponse}
use transaction_service.Transaction.Schema.{new_transaction}
use transaction_service.Transaction.Service.{Config, transfer_data, transfer}
use transaction_service.Transaction.Service.Requests.{truthy_text}
use transaction_service.Transaction.Service.Rules.{
  IsPerformed, Outcome, processing_record, remembered,
}
use transaction_service.Transaction.Service.Guarantees.{transfer-Outcome}

-- The record of the transfer that `r` reports, as it is found afterwards.
pub record IsRecorded (req : TransferRequest) (r : TransferResponse) (t : Transaction)
    : Type 0 where
  pub transaction_id : t.transaction_id ≡ r.transaction_id
  pub amount : t.amount ≡ r.amount
  pub from_account : t.from_account ≡ some req.from_account
  pub to_account : t.to_account ≡ some req.to_account
  pub reported : r.status ≡ "SUCCESS"
  pub stored : t.status ≡ processing
  pub unprocessed : t.processed_at ≡ none

-- A transfer's effect on the records, by its result.
abbrev pub Records : TransferRequest → Documents → Result TransferResponse → Documents → Type 0
Records req s (ok r) s' =
    (s'.transactions ≡ s.transactions)
    ⊎ ((t : Transaction) × (s'.transactions ≡ s.transactions ++ t ∷ []) × IsRecorded req r t)
Records req s (err e) s' =
    (s'.transactions ≡ s.transactions)
    ⊎ ((t : Transaction) × (s'.transactions ≡ s.transactions ++ t ∷ []) × (t.status ≡ processing))

pub transactions-remembered :
    (key : Option String) (r : TransferResponse) (s : Documents)
    → (remembered key r s).transactions ≡ s.transactions
transactions-remembered none r s = refl
transactions-remembered (some k) r s = refl

performed-IsRecorded :
    (cfg : Config) (req : TransferRequest) (r : TransferResponse) (s s' : Documents)
    (p : IsPerformed cfg req r s s')
    → IsRecorded req r (processing_record cfg req p.id p.amount p.created_at)
unfolding new_transaction transfer_data
performed-IsRecorded cfg req r s s' p = rw p.response (record {
  transaction_id = refl;
  amount = refl;
  from_account = refl;
  to_account = refl;
  reported = refl;
  stored = refl;
  unprocessed = refl;
})

Outcome-Records :
    (cfg : Config) (req : TransferRequest) (s : Documents) (r : Result TransferResponse)
    (s' : Documents)
    → Outcome cfg req s r s'
    → Records req s r s'
unfolding new_transaction transfer_data
Outcome-Records cfg req s (ok r) s' (inl (key, e, hit, same)) =
    inl (ap (λ (t : Documents). t.transactions) same)
Outcome-Records cfg req s (ok r) s' (inr p) = inr (
  processing_record cfg req p.id p.amount p.created_at,
  ap (λ (t : Documents). t.transactions) p.stored
      ∙ transactions-remembered (truthy_text req.idempotency_key) r _,
  performed-IsRecorded cfg req r s s' p,
)
Outcome-Records cfg req s (err e) s' (inr (_, same)) = inl same.transactions
Outcome-Records cfg req s (err e) s' (inl left) = elim left.recorded [
  | inl same ↦ inl same
  | inr (date, added) ↦ inr (processing_record cfg req left.id left.amount date, added, refl)
]

module _ {W : Type 0} (view : W → Documents) (driver : Driver W)
    (follows : Follows Failure view driver) where
  -- Whatever calls fail, a transfer leaves the records as they were or adds one at the end. The
  -- added record has status PROCESSING. If a response is returned, it has that response's
  -- identifier and amount, the request's accounts, and no processing date, while the response
  -- says SUCCESS.
  pub transfer-Records :
      (cfg : Config) (req : TransferRequest) (w : W)
      → let (r, w') = run driver (transfer cfg req) w in Records req (view w) r (view w')
  transfer-Records cfg req w =
      Outcome-Records cfg req (view w) _ _ (transfer-Outcome view driver follows cfg req w)
