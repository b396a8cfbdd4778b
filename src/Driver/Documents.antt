-- ===== src/Driver/Documents.antt =====
-- What the program relies on when a call answers: the documented behaviour of MongoDB, of
-- mongoose and of the cache, as a relation on what is stored.
use mathlib.Core.List.{Perm}
use transaction_service.Shared.{
  ℕ, zero, suc, ◌≤◌, String, ℤ, pos, negsuc, ◌+ℤ◌, Option, none, some, List, [], ◌∷◌, ◌++◌, Bool,
  true, false, ◌==◌, ◌≡◌, ◌⊎◌, not, nat_eq, is_some, map_option, length, select, first,
  update_first, remove_first, take, drop, if◌then◌else◌,
}
use transaction_service.Account.Types.{Account}
use transaction_service.Transaction.Types.{Transaction, type_index}
use transaction_service.Transaction.Dto.{TransferResponse}
use transaction_service.Fraud.Types.{TransactionLog}
use transaction_service.Driver.Errors.{Result, ok, err}
use transaction_service.Driver.Prog.{Driver}
use transaction_service.Driver.Calls.{
  direct, in_session, Statistic, Call, Answer, account_save, account_find_one, account_find,
  account_find_one_and_update, account_delete_one, transaction_save, transaction_find_one,
  transaction_find, transaction_count_documents, transaction_find_one_and_update,
  transaction_aggregate, transaction_delete_one, log_insert_one, log_count_documents,
  log_find_latest, create_session, start_transaction, commit_transaction, abort_transaction,
  end_session, cache_get, cache_set, uuid, now,
}

-- A write of the open session, not yet committed.
pub data Write (D : Type 0) : Type 0 where
  insert : D → Write D
  update : (D → Bool) → (D → D) → Write D

pub record Documents : Type 0 where
  pub accounts : List Account
  pub account_writes : List (Write Account)
  pub transactions : List Transaction
  pub transaction_writes : List (Write Transaction)
  pub logs : List TransactionLog
  pub cache : List (String × TransferResponse)

abbrev pub apply_write : {D : Type 0} → Write D → List D → List D
apply_write (insert d) ds = ds ++ d ∷ []
apply_write (update p f) ds = update_first p f ds

abbrev pub apply_writes : {D : Type 0} → List (Write D) → List D → List D
apply_writes [] ds = ds
apply_writes (w ∷ ws) ds = apply_writes ws (apply_write w ds)

abbrev pub cached : String → List (String × TransferResponse) → Option TransferResponse
cached k [] = none
cached k ((j, r) ∷ c) = if j == k then some r else cached k c

-- The documents without the writes of the open session, and with them made.
abbrev pub discarded : Documents → Documents
discarded s = record s { account_writes = []; transaction_writes = [] }

abbrev pub committed : Documents → Documents
committed s = record s {
  accounts = apply_writes s.account_writes s.accounts;
  account_writes = [];
  transactions = apply_writes s.transaction_writes s.transactions;
  transaction_writes = [];
}

-- Newest first.
abbrev pub Descending : List Transaction → Type 0
Descending [] = Unit
Descending (t ∷ []) = Unit
Descending (t ∷ u ∷ ts) = (u.created_at ≤ t.created_at) × Descending (u ∷ ts)

-- `skip` and `limit`; a limit of zero is none, and a negative one counts by its absolute value.
abbrev pub skipped : Option ℤ → List Transaction → List Transaction
skipped (some (pos n)) ts = drop n ts
skipped _ ts = ts

abbrev pub limited : Option ℤ → List Transaction → List Transaction
limited none ts = ts
limited (some (pos zero)) ts = ts
limited (some (pos (suc n))) ts = take (suc n) ts
limited (some (negsuc n)) ts = take (suc n) ts

abbrev pub Among : TransactionLog → List TransactionLog → Type 0
Among l [] = ⊥
Among l (m ∷ ms) = (l ≡ m) ⊎ Among l ms

abbrev pub NoneLater : TransactionLog → List TransactionLog → Type 0
NoneLater l [] = Unit
NoneLater l (m ∷ ms) = (m.timestamp ≤ l.timestamp) × NoneLater l ms

-- The answer to `findOne` with a descending sort on the timestamp.
abbrev pub IsLatest : List TransactionLog → Option TransactionLog → Type 0
IsLatest ls none = ls ≡ []
IsLatest ls (some l) = Among l ls × NoneLater l ls

abbrev pub sum_amounts : List Transaction → ℤ
sum_amounts [] = pos 0
sum_amounts (t ∷ ts) = t.amount +ℤ sum_amounts ts

-- `$group` by `_id: '$type'`: one group for each type that occurs, none of them empty.
abbrev pub same_type : Transaction → Statistic → Bool
same_type t g = nat_eq (type_index t.type) (type_index g.type)

abbrev pub Groups : (Transaction → Statistic → Bool) → List Transaction → List Statistic → Type 0
Groups same ts [] = ts ≡ []
Groups same ts (g ∷ gs) =
    let inside = select (λ t. same t g) ts in
    (g.count ≡ length inside)
    × (g.total_amount ≡ sum_amounts inside)
    × (g.avg_amount ≡ (sum_amounts inside, length inside))
    × (1 ≤ length inside)
    × Groups same (select (λ t. not (same t g)) ts) gs

-- The unique index on `accountNo` lets a new number in, and no other.
abbrev pub Saved : Account → Documents → Bool → Documents → Type 0
Saved a s true s' =
    (first (λ (b : Account). b.account_no == a.account_no) s.accounts ≡ none)
    × (s' ≡ record s { accounts = s.accounts ++ a ∷ [] })
Saved a s false s' =
    ((b : Account) × (first (λ (b : Account). b.account_no == a.account_no) s.accounts ≡ some b))
    × (s' ≡ s)

-- What an answer may be, and what the call leaves behind.
abbrev pub Reply : (c : Call) → Documents → Answer c → Documents → Type 0
Reply (account_save a) s b s' = Saved a s b s'
Reply (account_find_one p direct) s a s' = (a ≡ first p s.accounts) × (s' ≡ s)
Reply (account_find_one p in_session) s a s' =
    (a ≡ first p (apply_writes s.account_writes s.accounts)) × (s' ≡ s)
Reply (account_find p) s a s' = (a ≡ select p s.accounts) × (s' ≡ s)
Reply (account_find_one_and_update p f direct) s a s' =
    (a ≡ map_option f (first p s.accounts))
    × (s' ≡ record s { accounts = update_first p f s.accounts })
Reply (account_find_one_and_update p f in_session) s a s' =
    (a ≡ map_option f (first p (apply_writes s.account_writes s.accounts)))
    × (s' ≡ record s { account_writes = s.account_writes ++ update p f ∷ [] })
Reply (account_delete_one p) s a s' =
    (a ≡ (if is_some (first p s.accounts) then 1 else 0))
    × (s' ≡ record s { accounts = remove_first p s.accounts })
Reply (transaction_save t direct) s a s' =
    (date : ℕ) × (a ≡ record t { created_at = date })
    × (s' ≡ record s { transactions = s.transactions ++ a ∷ [] })
Reply (transaction_save t in_session) s a s' =
    (date : ℕ) × (a ≡ record t { created_at = date })
    × (s' ≡ record s { transaction_writes = s.transaction_writes ++ insert a ∷ [] })
Reply (transaction_find_one p) s a s' = (a ≡ first p s.transactions) × (s' ≡ s)
Reply (transaction_find p skip limit) s a s' =
    (sorted : List Transaction) × Perm sorted (select p s.transactions)
    × Descending sorted
    × (a ≡ limited limit (skipped skip sorted))
    × (s' ≡ s)
Reply (transaction_count_documents p) s a s' = (a ≡ length (select p s.transactions)) × (s' ≡ s)
Reply (transaction_find_one_and_update p f direct) s a s' =
    (a ≡ map_option f (first p s.transactions))
    × (s' ≡ record s { transactions = update_first p f s.transactions })
Reply (transaction_find_one_and_update p f in_session) s a s' =
    (a ≡ map_option f (first p (apply_writes s.transaction_writes s.transactions)))
    × (s' ≡ record s { transaction_writes = s.transaction_writes ++ update p f ∷ [] })
Reply (transaction_aggregate p) s a s' = Groups same_type (select p s.transactions) a × (s' ≡ s)
Reply (transaction_delete_one p) s a s' =
    (a ≡ (if is_some (first p s.transactions) then 1 else 0))
    × (s' ≡ record s { transactions = remove_first p s.transactions })
Reply (log_insert_one l) s _ s' = s' ≡ record s { logs = s.logs ++ l ∷ [] }
Reply (log_count_documents p) s a s' = (a ≡ length (select p s.logs)) × (s' ≡ s)
Reply (log_find_latest p) s a s' = IsLatest (select p s.logs) a × (s' ≡ s)
Reply create_session s _ s' = s' ≡ s
Reply start_transaction s _ s' = s' ≡ discarded s
Reply commit_transaction s _ s' = s' ≡ committed s
Reply abort_transaction s _ s' = s' ≡ discarded s
Reply end_session s _ s' = s' ≡ discarded s
-- An entry may have expired.
Reply (cache_get k) s a s' = ((a ≡ none) ⊎ (a ≡ cached k s.cache)) × (s' ≡ s)
Reply (cache_set k r _) s _ s' = s' ≡ record s { cache = (k, r) ∷ s.cache }
-- Identifiers are texts that are not empty, and do not repeat.
Reply uuid s a s' =
    ((a == "") ≡ false) × (first (λ t. t.transaction_id == a) s.transactions ≡ none) × (s' ≡ s)
Reply now s a s' = s' ≡ s

-- What a failed call may leave behind: the documents as they were, or its effect, where only the
-- acknowledgement was lost. The clock and the uuid library do not fail.
abbrev pub Failure : Call → Documents → Documents → Type 0
Failure uuid s s' = ⊥
Failure now s s' = ⊥
Failure c s s' = (s' ≡ s) ⊎ ((a : Answer c) × Reply c s a s')

-- No call fails.
abbrev pub NoFailure : Call → Documents → Documents → Type 0
NoFailure c s s' = ⊥

-- A driver's reply as a result and the state that it leaves, seen through the documents.
abbrev pub Keeps :
    {W : Type 0} (F : Call → Documents → Documents → Type 0) (view : W → Documents)
    → (c : Call) → Documents
    → Result (Answer c) × W
    → Type 0
Keeps F view c s (ok a, w') = Reply c s a (view w')
Keeps F view c s (err _, w') = F c s (view w')

-- The driver behaves as documented, and its failed calls as `F` says.
pub record Follows {W : Type 0} (F : Call → Documents → Documents → Type 0) (view : W → Documents)
    (driver : Driver W) : Type 0 where
  pub replies : (c : Call) (w : W) → Keeps F view c (view w) (driver c w)
