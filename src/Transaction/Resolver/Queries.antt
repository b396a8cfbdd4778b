-- ===== src/Transaction/Resolver/Queries.antt =====
-- What the queries of src/transaction/resolver/transaction.resolver.ts answer, and that they
-- change nothing.
use mathlib.Core.List.{Perm}
use transaction_service.Shared.{
  sym, pos, ℕ, String, Option, none, some, List, map, ◌≡◌, refl, inl, inr, arith, first, select,
  length,
}
use transaction_service.Driver.Errors.{Result, plain_error, ok, err}
use transaction_service.Driver.Calls.{Call}
use transaction_service.Driver.Prog.{Prog, ret, throw, catch, ◌>>=◌, ◌>>◌}
use transaction_service.Driver.Documents.{Documents, Failure, Descending}
use transaction_service.Driver.Triples.{
  Post, Ensures, Then, Caught, Ensures->>=, Ensures-catch, Ensures-mono,
}
use transaction_service.Middleware.Auth.{User, Context}
use transaction_service.Account.Types.{Account}
use transaction_service.Account.Repository.{has_account_no}
use transaction_service.Transaction.Types.{Transaction}
use transaction_service.Transaction.Dto.{TransactionHistoryRequest, HistoryResponse}
use transaction_service.Transaction.Repository.{
  has_transaction_id, involves, history_query, find_by_id, find_by_account, get_statistics,
  filters_of, bare_number,
}
use transaction_service.Transaction.Service.{throw_if, history_item, get_transaction_history}
use transaction_service.Transaction.Service.Checks.{throw_if-Ensures}
use transaction_service.Transaction.Resolver.{
  present, unauthorized, authorize, transaction_query, transaction_history_query, account_query,
  statistic_row, transaction_statistics_query,
}
use transaction_service.Transaction.Resolver.Access.{
  Allowed, authorized-Allowed, Authorized, authorize-Authorized,
}
use transaction_service.Transaction.Resolver.Statistics.{
  select-ext, counted_in, Rows, Groups-counted_in,
}

-- All transactions of an account, the newest first.
pub record IsComplete (n : String) (s : Documents) (h : HistoryResponse) : Type 0 where
  pub sorted : List Transaction
  pub complete : Perm sorted (select (involves n) s.transactions)
  pub newest_first : Descending sorted
  pub transactions : h.transactions ≡ map (history_item n) sorted
  pub total_count : h.total_count ≡ length (select (involves n) s.transactions)
  pub account_no : h.account_no ≡ n

module _ (F : Call → Documents → Documents → Type 0)
    (sound : (c : Call) (s s' : Documents) → F c s s' → Failure c s s') where
  -- A query changes nothing, and answers as `Q` says.
  abbrev pub Reads : {A : Type 0} → Documents → (A → Type 0) → Post A
  Reads s Q (ok a) s' = (s' ≡ s) × Q a
  Reads s Q (err e) s' = s' ≡ s

  no_filter :
      (n : String) (t : Transaction)
      → history_query n (filters_of (bare_number (pos 0))) t ≡ involves n t
  unfolding history_query
  no_filter n t = ground arith

  get_transaction_history-Ensures :
      (req : TransactionHistoryRequest) (s : Documents)
      → Ensures F (get_transaction_history req) (Reads s (IsComplete req.account_no s)) s
  unfolding get_transaction_history find_by_account
  get_transaction_history-Ensures req s = (
    λ e s' f. elim (sound _ s s' f) [ inl same ↦ same | inr (ts, reply) ↦ reply.4 ],
    λ ts s' reply. rw reply.4 (
      λ e s'' f. elim (sound _ s s'' f) [ inl same ↦ same | inr (n, counted) ↦ counted.1 ],
      λ n s'' counted. (
        counted.1,
        record {
          sorted = reply.0;
          complete = rw (← unfiltered) reply.1;
          newest_first = reply.2;
          transactions = rw reply.3;
          total_count = rw (← unfiltered) counted.0;
          account_no = refl;
        },
      ),
    ),
  )
    where
      unfiltered :
          select (history_query req.account_no (filters_of (bare_number (pos 0)))) s.transactions
          ≡ select (involves req.account_no) s.transactions
      unfiltered = select-ext _ _ s.transactions (no_filter req.account_no)

  -- The account is stored, and its owner is the user if there is one.
  abbrev pub Permitted : Option User → String → Documents → Type 0
  Permitted user n s =
      (a : Account) × (first (has_account_no n) s.accounts ≡ some a) × Allowed user (some a.user_id)

  add_fact :
      {A P : Type 0} (Q : A → Type 0) (s : Documents)
      → P
      → (r : Result A) (t : Documents) → Reads s Q r t
      → Reads s (λ x. Q x × P) r t
  add_fact Q s p (ok x) t (same, q) = (same, (q, p))
  add_fact Q s p (err e) t same = same

  -- An answer comes after the tests on the account.
  after_authorize :
      {A : Type 0} (user : Option User) (n missing denied : String) (m : Prog A) (Q : A → Type 0)
      (s : Documents)
      → Ensures F m (Reads s Q) s
      → Ensures F (authorize user n missing denied >> m) (Reads s λ x. Q x × Permitted user n s) s
  after_authorize user n missing denied m Q s h =
      Ensures->>= F (authorize user n missing denied) _ _ s (
        Ensures-mono F (authorize user n missing denied) s passed
          (authorize-Authorized F sound user n missing denied s))
    where
      passed :
          (r : Result Account) (s' : Documents)
          → Authorized F sound user n missing denied s r s'
          → Then F (λ _. m) (Reads s λ x. Q x × Permitted user n s) r s'
      passed (ok a) s' (same, found, allowed) =
          rw same (Ensures-mono F m s (add_fact Q s (a, found, allowed)) h)
      passed (err e) s' (same, _) = same

  rethrown :
      {A : Type 0} (m : Prog A) (Q : A → Type 0) (s : Documents)
      → Ensures F m (Reads s Q) s
      → Ensures F (catch m throw) (Reads s Q) s
  rethrown {A} m Q s h = Ensures-catch F m throw _ s (Ensures-mono F m s kept h)
    where
      kept : (r : Result A) (s' : Documents) → Reads s Q r s' → Caught F throw (Reads s Q) r s'
      kept (ok a) s' h = h
      kept (err e) s' h = h

  pub transaction_history_query-Ensures :
      (req : TransactionHistoryRequest) (context : Context) (s : Documents)
      → Ensures F
          (transaction_history_query req context)
          (Reads s λ h. IsComplete req.account_no s h × Permitted context.user req.account_no s)
          s
  unfolding transaction_history_query
  transaction_history_query-Ensures req context s = rethrown _ _ s (
      after_authorize context.user req.account_no _ _ (get_transaction_history req) _ s
        (get_transaction_history-Ensures req s))

  get_statistics-Ensures :
      (n : String) (a b : Option ℕ) (s : Documents)
      → Ensures F
          (get_statistics n a b >>= λ stats. ret (map statistic_row stats))
          (Reads s (Rows (select (counted_in n a b) s.transactions)))
          s
  unfolding get_statistics
  get_statistics-Ensures n a b s = (
    λ e s' f. elim (sound _ s s' f) [ inl same ↦ same | inr (gs, reply) ↦ reply.1 ],
    λ gs s' reply. (reply.1, Groups-counted_in n a b s.transactions gs reply.0),
  )

  pub transaction_statistics_query-Ensures :
      (n : String) (a b : Option ℕ) (context : Context) (s : Documents)
      → Ensures F
          (transaction_statistics_query n a b context)
          (Reads s λ rows.
            Rows (select (counted_in n a b) s.transactions) rows × Permitted context.user n s)
          s
  unfolding transaction_statistics_query
  transaction_statistics_query-Ensures n a b context s =
      rethrown _ _ s (after_authorize context.user n _ _ _ _ s (get_statistics-Ensures n a b s))

  abbrev pub IsAccount : Option User → String → Documents → Account → Type 0
  IsAccount user n s a =
      (first (has_account_no n) s.accounts ≡ some a) × Allowed user (some a.user_id)

  pub account_query-Ensures :
      (n : String) (context : Context) (s : Documents)
      → Ensures F (account_query n context) (Reads s (IsAccount context.user n s)) s
  unfolding account_query
  account_query-Ensures n context s = rethrown (authorize context.user n _ _) _ s (
      Ensures-mono F (authorize context.user n _ _) s read
        (authorize-Authorized F sound context.user n _ _ s))
    where
      read :
          (r : Result Account) (s' : Documents)
          → Authorized F sound context.user n "Account not found" "Unauthorized access to account" s
              r s'
          → Reads s (IsAccount context.user n s) r s'
      read (ok a) s' (same, found, allowed) = (same, (found, allowed))
      read (err e) s' h = h.0

  abbrev pub IsTransaction : Option User → String → Documents → Transaction → Type 0
  IsTransaction user id s t =
      (first (has_transaction_id id) s.transactions ≡ some t) × Allowed user t.user_id

  found-Ensures :
      (user : Option User) (id : String) (s : Documents) (o : Option Transaction)
      → first (has_transaction_id id) s.transactions ≡ o
      → Ensures F
          (present o "Transaction not found" >>= λ t.
            throw_if (unauthorized user t.user_id) plain_error "Unauthorized access to transaction"
            >>= λ _. ret t)
          (Reads s (IsTransaction user id s))
          s
  found-Ensures user id s none found = refl
  found-Ensures user id s (some t) found =
      throw_if-Ensures F sound (unauthorized user t.user_id) _ _ _ _ s (λ h. refl)
        (λ h. (refl, (found, authorized-Allowed user t.user_id h)))

  pub transaction_query-Ensures :
      (id : String) (context : Context) (s : Documents)
      → Ensures F (transaction_query id context) (Reads s (IsTransaction context.user id s)) s
  unfolding transaction_query find_by_id
  transaction_query-Ensures id context s =
      rethrown
        (find_by_id id >>= λ found. present found "Transaction not found" >>= λ t.
          throw_if (unauthorized context.user t.user_id) plain_error
            "Unauthorized access to transaction"
          >> ret t)
        (IsTransaction context.user id s) s
        (
          λ e s' f. elim (sound _ s s' f) [ inl same ↦ same | inr (o, reply) ↦ reply.1 ],
          λ o s' reply. rw reply.1 (found-Ensures context.user id s o (sym reply.0)),
        )
