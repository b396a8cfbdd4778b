-- ===== src/Driver/Memory.antt =====
-- A driver over memory, with a schedule of failures: it shows that the contract can be kept, and
-- runs the tests.
pub mod Order
unfoldable pub use Order.{new_id}
use transaction_service.Shared.{
  ℕ, zero, suc, ◌+◌, String, true, false, ◌==◌, arith, Option, none, some, List, [], ◌∷◌, ◌++◌,
  Bool, ◌≡◌, refl, ◌⊎◌, Bool-cases, inl, inr, is_some, map_option, length, select, first,
  update_first, remove_first, if◌then◌else◌,
}
use transaction_service.Account.Types.{Account}
use transaction_service.Transaction.Types.{Transaction}
use transaction_service.Driver.Errors.{Exception, Result, ok, err, exception, plain_error}
use transaction_service.Driver.Prog.{Driver}
use transaction_service.Driver.Calls.{
  Scope, direct, in_session, Statistic, Call, Answer, account_save, account_find_one, account_find,
  account_find_one_and_update, account_delete_one, transaction_save, transaction_find_one,
  transaction_find, transaction_count_documents, transaction_find_one_and_update,
  transaction_aggregate, transaction_delete_one, log_insert_one, log_count_documents,
  log_find_latest, create_session, start_transaction, commit_transaction, abort_transaction,
  end_session, cache_get, cache_set, uuid, now,
}
use transaction_service.Driver.Documents.{
  Documents, Write, insert, update, apply_writes, cached, discarded, committed, skipped, limited,
  Reply, Failure, NoFailure, Keeps, Follows,
}
use Order.{
  newest_first, newest_first-perm, newest_first-Descending, latest, latest-IsLatest, groups,
  groups-Groups, new_id_fresh, new_id_nonempty,
}

-- What becomes of a call: it is answered, it is lost, or it is made and its answer is lost.
pub data Fault : Type 0 where
  answered lost unacknowledged : Fault

pub record World : Type 0 where
  pub documents : Documents
  pub clock : ℕ
  pub faults : List Fault

abbrev dated : Transaction → ℕ → Transaction
dated t date = record t { created_at = date }

-- The unique index on `accountNo`: `found` is the account that has the number already.
abbrev inserted : Account → Documents → Option Account → Bool × Documents
inserted a s none = (true, record s { accounts = s.accounts ++ a ∷ [] })
inserted a s (some b) = (false, s)

inserted-Reply :
    (a : Account) (s : Documents) (o : Option Account)
    → first (λ (b : Account). b.account_no == a.account_no) s.accounts ≡ o
    → Reply (account_save a) s (inserted a s o).0 (inserted a s o).1
inserted-Reply a s none e = (e, refl)
inserted-Reply a s (some b) e = ((b, e), refl)

-- The answer to each call, and the documents after it.
unfoldable pub effect : (c : Call) → ℕ → Documents → Answer c × Documents
effect (account_save a) n s =
    inserted a s (first (λ (b : Account). b.account_no == a.account_no) s.accounts)
effect (account_find_one p direct) n s = (first p s.accounts, s)
effect (account_find_one p in_session) n s = (first p (apply_writes s.account_writes s.accounts), s)
effect (account_find p) n s = (select p s.accounts, s)
effect (account_find_one_and_update p f direct) n s =
    (map_option f (first p s.accounts), record s { accounts = update_first p f s.accounts })
effect (account_find_one_and_update p f in_session) n s = (
  map_option f (first p (apply_writes s.account_writes s.accounts)),
  record s { account_writes = s.account_writes ++ update p f ∷ [] },
)
effect (account_delete_one p) n s = (
  if is_some (first p s.accounts) then 1 else 0,
  record s { accounts = remove_first p s.accounts },
)
effect (transaction_save t direct) n s =
    (dated t n, record s { transactions = s.transactions ++ dated t n ∷ [] })
effect (transaction_save t in_session) n s =
    (dated t n, record s { transaction_writes = s.transaction_writes ++ insert (dated t n) ∷ [] })
effect (transaction_find_one p) n s = (first p s.transactions, s)
effect (transaction_find p skip limit) n s =
    (limited limit (skipped skip (newest_first (select p s.transactions))), s)
effect (transaction_count_documents p) n s = (length (select p s.transactions), s)
effect (transaction_find_one_and_update p f direct) n s = (
  map_option f (first p s.transactions),
  record s { transactions = update_first p f s.transactions },
)
effect (transaction_find_one_and_update p f in_session) n s = (
  map_option f (first p (apply_writes s.transaction_writes s.transactions)),
  record s { transaction_writes = s.transaction_writes ++ update p f ∷ [] },
)
effect (transaction_aggregate p) n s =
    (groups (length (select p s.transactions)) (select p s.transactions), s)
effect (transaction_delete_one p) n s = (
  if is_some (first p s.transactions) then 1 else 0,
  record s { transactions = remove_first p s.transactions },
)
effect (log_insert_one l) n s = (tt, record s { logs = s.logs ++ l ∷ [] })
effect (log_count_documents p) n s = (length (select p s.logs), s)
effect (log_find_latest p) n s = (latest (select p s.logs), s)
effect create_session n s = (tt, s)
effect start_transaction n s = (tt, discarded s)
effect commit_transaction n s = (tt, committed s)
effect abort_transaction n s = (tt, discarded s)
effect end_session n s = (tt, discarded s)
effect (cache_get k) n s = (cached k s.cache, s)
effect (cache_set k r ttl) n s = (tt, record s { cache = (k, r) ∷ s.cache })
effect uuid n s = (new_id s.transactions, s)
effect now n s = (n, s)

-- The answers keep the contract.
pub effect-Reply : (c : Call) (n : ℕ) (s : Documents) → Reply c s (effect c n s).0 (effect c n s).1
unfolding effect
effect-Reply (account_save a) n s = inserted-Reply a s _ refl
effect-Reply (account_find_one p direct) n s = (refl, refl)
effect-Reply (account_find_one p in_session) n s = (refl, refl)
effect-Reply (account_find p) n s = (refl, refl)
effect-Reply (account_find_one_and_update p f direct) n s = (refl, refl)
effect-Reply (account_find_one_and_update p f in_session) n s = (refl, refl)
effect-Reply (account_delete_one p) n s = (refl, refl)
effect-Reply (transaction_save t direct) n s = (n, refl, refl)
effect-Reply (transaction_save t in_session) n s = (n, refl, refl)
effect-Reply (transaction_find_one p) n s = (refl, refl)
effect-Reply (transaction_find p skip limit) n s = (
  newest_first (select p s.transactions),
  newest_first-perm (select p s.transactions),
  newest_first-Descending (select p s.transactions),
  refl,
  refl,
)
effect-Reply (transaction_count_documents p) n s = (refl, refl)
effect-Reply (transaction_find_one_and_update p f direct) n s = (refl, refl)
effect-Reply (transaction_find_one_and_update p f in_session) n s = (refl, refl)
effect-Reply (transaction_aggregate p) n s =
    (groups-Groups (length (select p s.transactions)) (select p s.transactions) (omega arith), refl)
effect-Reply (transaction_delete_one p) n s = (refl, refl)
effect-Reply (log_insert_one l) n s = refl
effect-Reply (log_count_documents p) n s = (refl, refl)
effect-Reply (log_find_latest p) n s = (latest-IsLatest (select p s.logs), refl)
effect-Reply (cache_get k) n s = (inr refl, refl)
effect-Reply (cache_set k r ttl) n s = refl
effect-Reply uuid n s = (new_id_nonempty s.transactions, new_id_fresh s.transactions, refl)
effect-Reply create_session n s = refl
effect-Reply start_transaction n s = refl
effect-Reply commit_transaction n s = refl
effect-Reply abort_transaction n s = refl
effect-Reply end_session n s = refl
effect-Reply now n s = refl

-- The clock and the identifiers do not fail; any other call takes the next entry of the schedule.
abbrev is_local : Call → Bool
is_local uuid = true
is_local now = true
is_local _ = false

abbrev next_fault : List Fault → Fault
next_fault [] = answered
next_fault (f ∷ fs) = f

abbrev later_faults : List Fault → List Fault
later_faults [] = []
later_faults (f ∷ fs) = fs

abbrev pub connection_lost : Exception
connection_lost = exception plain_error "connection lost"

abbrev after : World → List Fault → Documents → World
after w fs s = record { documents = s; clock = w.clock + 1; faults = fs }

-- How a call ends under its entry.
unfoldable pub deliver : (c : Call) → World → List Fault → Fault → Result (Answer c) × World
deliver c w fs answered = let (a, s) = effect c w.clock w.documents in (ok a, after w fs s)
deliver c w fs lost = (err connection_lost, after w fs w.documents)
deliver c w fs unacknowledged =
    let (_, s) = effect c w.clock w.documents in (err connection_lost, after w fs s)

unfoldable pub memory : Driver World
unfolding deliver effect
memory c w =
    if is_local c
    then deliver c w w.faults answered
    else deliver c w (later_faults w.faults) (next_fault w.faults)

-- The driver whose schedule is empty.
unfoldable pub steady : Driver World
unfolding deliver effect
steady c w = deliver c w w.faults answered

Failure-intro :
    (c : Call) (s s' : Documents)
    → is_local c ≡ false
    → (s' ≡ s) ⊎ ((a : Answer c) × Reply c s a s')
    → Failure c s s'
Failure-intro uuid s s' h x = cc
Failure-intro now s s' h x = cc
Failure-intro c s s' h x = x

deliver-Keeps :
    (c : Call) (w : World) (fs : List Fault) (f : Fault)
    → is_local c ≡ false
    → Keeps Failure (λ v. v.documents) c w.documents (deliver c w fs f)
unfolding deliver
deliver-Keeps c w fs answered h = effect-Reply c w.clock w.documents
deliver-Keeps c w fs lost h = Failure-intro c _ _ h (inl refl)
deliver-Keeps c w fs unacknowledged h =
    Failure-intro c _ _ h (inr (_, effect-Reply c w.clock w.documents))

-- With any schedule of failures.
pub memory-Follows : Follows Failure (λ w. w.documents) memory
unfolding memory
memory-Follows = record { replies = kept }
  where
    kept : (c : Call) (w : World) → Keeps Failure (λ v. v.documents) c w.documents (memory c w)
    kept c w = elim (Bool-cases (is_local c)) [
      | inl local ↦ rw local (effect-Reply c w.clock w.documents)
      | inr remote ↦ rw remote (deliver-Keeps c w _ _ remote)
    ]

-- With none.
pub steady-Follows : Follows NoFailure (λ w. w.documents) steady
unfolding steady
steady-Follows = record { replies = λ c w. effect-Reply c w.clock w.documents }
