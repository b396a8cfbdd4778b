-- ===== src/Transaction/Service/Guarantees/Lookups.antt =====
-- What the repository's queries see of a transfer: the statistics of
-- src/transaction/repository/transaction.repository.ts and its lookup by idempotency key, after
-- `transfer` of src/transaction/service/transaction.service.ts.
use transaction_service.Shared.{
  ℕ, String, ℤ, Option, List, [], ◌∷◌, ◌++◌, Bool, true, false, ◌&&◌, ◌≡◌, refl, ap, ◌∙◌, ◌⊎◌, inl,
  inr, first, select,
}
use transaction_service.Driver.Errors.{Result, ok, err}
use transaction_service.Driver.Prog.{Driver, run}
use transaction_service.Driver.Documents.{Documents, Failure, Follows}
use transaction_service.Transaction.Types.{Transaction}
use transaction_service.Transaction.Dto.{TransferRequest, TransferResponse}
use transaction_service.Transaction.Schema.{new_transaction}
use transaction_service.Transaction.Repository.{match_stage, has_idempotency_key}
use transaction_service.Transaction.Service.{Config, transfer_data, transfer}
use transaction_service.Transaction.Service.Requests.{truthy_text}
use transaction_service.Transaction.Service.Rules.{Outcome, processing_record}
use transaction_service.Transaction.Service.Guarantees.{transfer-Outcome}
use transaction_service.Transaction.Service.Guarantees.Records.{transactions-remembered}

module _ {A : Type 0} (p : A → Bool) where
  select-append_one : (xs : List A) (y : A) → p y ≡ false → select p (xs ++ y ∷ []) ≡ select p xs
  select-append_one [] y h = rw h refl
  select-append_one (x ∷ xs) y h = rw (select-append_one xs y h) refl

  first-append_one : (xs : List A) (y : A) → p y ≡ false → first p (xs ++ y ∷ []) ≡ first p xs
  first-append_one [] y h = rw h refl
  first-append_one (x ∷ xs) y h = rw (first-append_one xs y h) refl

never_both : (x y : Bool) → ((x && false) && y) ≡ false
never_both true y = refl
never_both false y = refl

module _ (cfg : Config) (req : TransferRequest) (s : Documents) where
  abbrev Appended : List Transaction → Type 0
  Appended ts =
      (ts ≡ s.transactions)
      ⊎ ((id : String) × (amount : ℤ) × (date : ℕ) × (ts
            ≡ s.transactions ++ processing_record cfg req id amount date ∷ []))

  Outcome-Appended :
      (r : Result TransferResponse) (s' : Documents)
      → Outcome cfg req s r s'
      → Appended s'.transactions
  Outcome-Appended (ok r) s' (inl (key, e, hit, same)) =
      inl (ap (λ (t : Documents). t.transactions) same)
  Outcome-Appended (ok r) s' (inr p) = inr (
    p.id,
    p.amount,
    p.created_at,
    ap (λ (t : Documents). t.transactions) p.stored
        ∙ transactions-remembered (truthy_text req.idempotency_key) r _,
  )
  Outcome-Appended (err e) s' (inr (_, same)) = inl same.transactions
  Outcome-Appended (err e) s' (inl left) = elim left.recorded [
    | inl same ↦ inl same
    | inr (date, added) ↦ inr (left.id, left.amount, date, added)
  ]

  unmatched :
      (n : String) (a b : Option ℕ) (id : String) (amount : ℤ) (date : ℕ)
      → match_stage n a b (processing_record cfg req id amount date) ≡ false
  unfolding match_stage new_transaction transfer_data
  unmatched n a b id amount date = never_both _ _

  keyless :
      (k id : String) (amount : ℤ) (date : ℕ)
      → has_idempotency_key k (processing_record cfg req id amount date) ≡ false
  unfolding new_transaction transfer_data
  keyless k id amount date = refl

  Appended-select :
      (n : String) (a b : Option ℕ) (ts : List Transaction)
      → Appended ts
      → select (match_stage n a b) ts ≡ select (match_stage n a b) s.transactions
  Appended-select n a b ts (inl same) = rw same refl
  Appended-select n a b ts (inr (id, amount, date, added)) =
      rw added
        (select-append_one (match_stage n a b) s.transactions _ (unmatched n a b id amount date))

  Appended-first :
      (k : String) (ts : List Transaction)
      → Appended ts
      → first (has_idempotency_key k) ts ≡ first (has_idempotency_key k) s.transactions
  Appended-first k ts (inl same) = rw same refl
  Appended-first k ts (inr (id, amount, date, added)) =
      rw added
        (first-append_one (has_idempotency_key k) s.transactions _ (keyless k id amount date))

module _ {W : Type 0} (view : W → Documents) (driver : Driver W)
    (follows : Follows Failure view driver) where
  -- Whatever calls fail, a transfer never shows in anybody's statistics: the transactions that
  -- they group are the same before and after it, since its record does not have status SUCCESS.
  pub transfer_uncounted :
      (cfg : Config) (req : TransferRequest) (n : String) (a b : Option ℕ) (w : W)
      → let (_, w') = run driver (transfer cfg req) w in
        select (match_stage n a b) (view w').transactions
        ≡ select (match_stage n a b) (view w).transactions
  transfer_uncounted cfg req n a b w =
      Appended-select cfg req (view w) n a b _
        (Outcome-Appended cfg req (view w) _ _ (transfer-Outcome view driver follows cfg req w))

  -- Whatever calls fail, a lookup of transactions by any idempotency key finds the same before and
  -- after a transfer, with a key or without: its record does not hold the key.
  pub transfer_unkeyed :
      (cfg : Config) (req : TransferRequest) (k : String) (w : W)
      → let (_, w') = run driver (transfer cfg req) w in
        first (has_idempotency_key k) (view w').transactions
        ≡ first (has_idempotency_key k) (view w).transactions
  transfer_unkeyed cfg req k w =
      Appended-first cfg req (view w) k _
        (Outcome-Appended cfg req (view w) _ _ (transfer-Outcome view driver follows cfg req w))
