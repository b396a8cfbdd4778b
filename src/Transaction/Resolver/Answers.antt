-- ===== src/Transaction/Resolver/Answers.antt =====
-- What the queries answer, under every driver that keeps its contract:
-- src/transaction/resolver/transaction.resolver.ts.
use transaction_service.Shared.{
  nat_eq, ℕ, ◌+◌, String, Option, List, [], ◌∷◌, Bool, not, ◌≡◌, refl, inl, inr, arith, select,
  length, Bool-cases,
}
use transaction_service.Driver.Errors.{Result, ok, err}
use transaction_service.Driver.Prog.{Driver, run}
use transaction_service.Driver.Documents.{Documents, Failure, Follows}
use transaction_service.Driver.Triples.{Ensures-mono, Ensures-run}
use transaction_service.Middleware.Auth.{Context}
use transaction_service.Transaction.Types.{Transaction, type_index}
use transaction_service.Transaction.Dto.{TransactionHistoryRequest}
use transaction_service.Transaction.Resolver.{
  transaction_query, transaction_history_query, StatisticRow, transaction_statistics_query,
}
use transaction_service.Transaction.Resolver.Statistics.{counted_in, Rows}
use transaction_service.Transaction.Resolver.Queries.{
  IsComplete, Reads, Permitted, IsTransaction, transaction_history_query-Ensures,
  transaction_statistics_query-Ensures, transaction_query-Ensures,
}

abbrev pub row_count : List StatisticRow → ℕ
row_count [] = 0
row_count (row ∷ rows) = row.count + row_count rows

select-split :
    {A : Type 0} (p : A → Bool) (xs : List A)
    → length (select p xs) + length (select (λ x. not (p x)) xs) ≡ length xs
select-split p [] = refl
select-split p (x ∷ xs) = elim (Bool-cases (p x)) [
  | inl selected ↦ rw selected (omega (arith, select-split p xs))
  | inr passed ↦ rw passed (omega (arith, select-split p xs))
]

row_count-Rows :
    (ts : List Transaction) (rows : List StatisticRow) → Rows ts rows → row_count rows ≡ length ts
row_count-Rows ts [] none_left = rw none_left refl
row_count-Rows ts (row ∷ rows) (counted, _, _, _, rest) = omega (
  arith,
  counted,
  select-split (λ t. nat_eq (type_index t.type) (type_index row.type)) ts,
  row_count-Rows (select (λ t. not (nat_eq (type_index t.type) (type_index row.type))) ts) rows
      rest,
)

-- The statistics of an account in a period, their counts adding up.
abbrev pub IsCounted :
    String → Option ℕ → Option ℕ → Context → Documents → List StatisticRow → Type 0
IsCounted n a b context s rows =
    Rows (select (counted_in n a b) s.transactions) rows
    × Permitted Failure (λ c s s' f. f) context.user n s
    × (row_count rows ≡ length (select (counted_in n a b) s.transactions))

count :
    (n : String) (a b : Option ℕ) (context : Context) (s : Documents)
    (r : Result (List StatisticRow)) (s' : Documents)
    → Reads Failure
        (λ c s s' f. f)
        s
        (λ rows.
          Rows (select (counted_in n a b) s.transactions) rows
          × Permitted Failure (λ c s s' f. f) context.user n s)
        r
        s'
    → Reads Failure (λ c s s' f. f) s (IsCounted n a b context s) r s'
count n a b context s (ok rows) s' (same, (statistics, permitted)) =
    (same, (statistics, permitted, row_count-Rows _ rows statistics))
count n a b context s (err e) s' same = same

module _ {W : Type 0} (view : W → Documents) (driver : Driver W)
    (follows : Follows Failure view driver) where
  -- Whatever calls fail, the query for a transaction changes nothing that is stored. What it
  -- answers is the first stored transaction with the given identifier, and nobody is logged in or
  -- it belongs to the user who is.
  pub transaction_query-IsTransaction :
      (id : String) (context : Context) (w : W)
      → let (r, w') = run driver (transaction_query id context) w in
        Reads Failure
          (λ c s s' f. f)
          (view w)
          (IsTransaction Failure (λ c s s' f. f) context.user id (view w))
          r
          (view w')
  transaction_query-IsTransaction id context w =
      Ensures-run Failure view driver follows (transaction_query id context) _ w
        (transaction_query-Ensures Failure (λ c s s' f. f) id context (view w))

  -- Whatever calls fail, the history query changes nothing that is stored. What it answers holds
  -- all transactions of the account, the newest first, whatever limit and offset the request has;
  -- the account exists, and nobody is logged in or it belongs to the user who is.
  pub transaction_history_query-IsComplete :
      (req : TransactionHistoryRequest) (context : Context) (w : W)
      → let (r, w') = run driver (transaction_history_query req context) w in
        Reads Failure
          (λ c s s' f. f)
          (view w)
          (λ h.
            IsComplete req.account_no (view w) h
            × Permitted Failure (λ c s s' f. f) context.user req.account_no (view w))
          r
          (view w')
  transaction_history_query-IsComplete req context w =
      Ensures-run Failure view driver follows (transaction_history_query req context) _ w
        (transaction_history_query-Ensures Failure (λ c s s' f. f) req context (view w))

  -- Whatever calls fail, the statistics query changes nothing that is stored. It answers with one
  -- row for each type among the account's transactions with status SUCCESS from the start date on,
  -- if there is one, and up to the end date, if there is one: their number, which is not zero, their
  -- sum, and their mean as this sum over this number; the numbers of all rows add up to the number
  -- of these transactions. The account exists, and nobody is logged in or it belongs to the user who
  -- is.
  pub transaction_statistics_query-IsCounted :
      (n : String) (a b : Option ℕ) (context : Context) (w : W)
      → let (r, w') = run driver (transaction_statistics_query n a b context) w in
        Reads Failure (λ c s s' f. f) (view w) (IsCounted n a b context (view w)) r (view w')
  transaction_statistics_query-IsCounted n a b context w =
      Ensures-run Failure view driver follows (transaction_statistics_query n a b context) _ w (
        Ensures-mono Failure (transaction_statistics_query n a b context) (view w)
          (count n a b context (view w))
          (transaction_statistics_query-Ensures Failure (λ c s s' f. f) n a b context (view w)))
