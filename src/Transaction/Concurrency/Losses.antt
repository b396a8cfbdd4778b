-- ===== src/Transaction/Concurrency/Losses.antt =====
-- What each step of `transfer` of src/transaction/service/transaction.service.ts owes to the sum of
-- the balances, where its calls may fail.
pub mod Moves
pub mod Transfers
use transaction_service.Shared.{
  ℕ, String, ℤ, pos, ◌+ℤ◌, neg_ℤ, int_laws, Option, none, some, List, [], Bool, true, false, ◌==◌,
  ◌≡◌, refl, sym, ap, ◌∙◌, ◌⊎◌, inl, inr, first,
}
use transaction_service.Driver.Errors.{Exception, Result, ok, err, bad_request}
use transaction_service.Driver.Calls.{
  Call, Answer, direct, in_session, account_find_one, account_find_one_and_update, transaction_save,
  transaction_find_one_and_update, commit_transaction, abort_transaction, create_session,
  start_transaction, end_session, cache_get, cache_set, uuid, now,
}
use transaction_service.Driver.Prog.{Prog, ret, throw, ◌>>=◌, ◌>>◌, settle, await, catch}
use transaction_service.Driver.Documents.{Documents, Reply, Failure}
use transaction_service.Driver.Budget.{Within}
use transaction_service.Driver.Interleaving.{IsSettled}
use transaction_service.Driver.Interleaving.Settling.{
  Ends, by_result, LeavesAccounts, Step, Settles, SettlesThen, SettlesCaught, SettlesFinally,
  Settles->>=, Settles-catch, Settles-finally, Settles-mono, leaving, Settles-LeavesAccounts,
}
use transaction_service.Account.Types.{Account}
use transaction_service.Account.Balances.{total, total-increment}
use transaction_service.Account.Repository.{
  has_account_no, increment, find_by_account_no, update_balance,
}
use transaction_service.Transaction.Types.{success}
use transaction_service.Transaction.Repository.{create, update_status, session_object}
use transaction_service.Transaction.Dto.{TransferRequest, TransferResponse}
use transaction_service.Transaction.Service.{
  Config, validate_amount, throw_if, transfer_data, accept, check_accounts, move_funds, finish,
  transfer_body, end_quietly, in_transaction,
}
use transaction_service.Transaction.Service.Calls.{Quiet, create-Within, finish-Within}
use transaction_service.Transaction.Concurrency.Neutral.{
  IsNeutral, now-IsNeutral, uuid-IsNeutral, create_session-IsNeutral, start_transaction-IsNeutral,
  abort_transaction-IsNeutral, end_session-IsNeutral, commit_transaction-IsNeutral,
  transaction_save-IsNeutral, transaction_update-IsNeutral, cache_get-IsNeutral,
  cache_set-IsNeutral,
}
use transaction_service.Transaction.Concurrency.Presence.{
  increment-numbers, Present, found-Present, Present-found, none_is_not-some,
}

ok-injective : {A : Type 0} {a b : A} → Path (Result A) (ok a) (ok b) → a ≡ b
ok-injective h = cc

err_is_not-ok : {A : Type 0} {e : Exception} {a : A} → ¬ (Path (Result A) (err e) (ok a))
err_is_not-ok h = cc

failed_cases :
    (c : Call) (s s' : Documents) → Failure c s s' → (s' ≡ s) ⊎ ((a : Answer c) × Reply c s a s')
failed_cases uuid s s' h = absurd h
failed_cases now s s' h = absurd h
failed_cases c s s' h = h

pub neutral-LeavesAccounts : (c : Call) → IsNeutral c → LeavesAccounts c
neutral-LeavesAccounts c n (ok a) s s' idle reply = n.keeps s a s' idle reply
neutral-LeavesAccounts c n (err e) s s' idle failed = elim (failed_cases c s s' failed) [
  | inl same ↦ rw same (refl, idle)
  | inr (a, reply) ↦ n.keeps s a s' idle reply
]

find-IsNeutral : (p : Account → Bool) → IsNeutral (account_find_one p direct)
find-IsNeutral p = record { keeps = λ s a s' idle reply. (rw reply.1 refl, rw reply.1 idle) }

Quiet-IsNeutral : (c : Call) → Quiet c → IsNeutral c
Quiet-IsNeutral (transaction_save t in_session) h = transaction_save-IsNeutral t
Quiet-IsNeutral (transaction_find_one_and_update p f direct) h = transaction_update-IsNeutral p f
Quiet-IsNeutral commit_transaction h = commit_transaction-IsNeutral
Quiet-IsNeutral abort_transaction h = abort_transaction-IsNeutral
Quiet-IsNeutral uuid h = uuid-IsNeutral
Quiet-IsNeutral now h = now-IsNeutral
Quiet-IsNeutral (cache_get k) h = cache_get-IsNeutral k
Quiet-IsNeutral (cache_set k r ttl) h = cache_set-IsNeutral k r ttl
Quiet-IsNeutral c h = absurd h

Quiet-LeavesAccounts : (c : Call) → Quiet c → LeavesAccounts c
Quiet-LeavesAccounts c h = neutral-LeavesAccounts c (Quiet-IsNeutral c h)

module _ (numbers : List String) where
  pub quiet :
      {A : Type 0} (n : ℕ) (m : Prog A) (Q : Result A → ℤ → Type 0) (d : ℤ)
      → Within Quiet n m
      → ((r : Result A) → Q r d)
      → Settles numbers m Q d
  quiet n m Q d h q = Settles-LeavesAccounts numbers Quiet Quiet-LeavesAccounts n m Q d h q

  -- A call that leaves the accounts alone, and what follows it.
  pub past :
      (c : Call)
      → IsNeutral c
      → {A : Type 0} (k : Result (Answer c) → Prog A) (Q : Result A → ℤ → Type 0) (d : ℤ)
      → ((r : Result (Answer c)) → Settles numbers (k r) Q d)
      → (r : Result (Answer c)) (s s' : Documents) → IsSettled numbers s
      → Ends c s r s'
      → Step numbers s s' d (Settles numbers (k r) Q)
  past c n k Q d h r s s' settled ends =
      leaving numbers c (neutral-LeavesAccounts c n) r s s' d settled ends (h r)

  -- A lookup fails, finds nothing, or finds an account that exists.
  pub find-Settles :
      (n : String) (Q : Result (Option Account) → ℤ → Type 0) (d : ℤ)
      → ((r : Result (Option Account))
          → ((a : Account) → r ≡ ok (some a) → Present numbers n)
          → Q r d)
      → Settles numbers (find_by_account_no n) Q d
  unfolding find_by_account_no
  find-Settles n Q d h = λ r s s' settled ends.
      leaving numbers (account_find_one (has_account_no n) direct)
        (neutral-LeavesAccounts _ (find-IsNeutral (has_account_no n))) r s s' d settled ends
        (answered r s s' settled ends)
    where
      answered :
          (r : Result (Option Account)) (s s' : Documents)
          → IsSettled numbers s
          → Ends (account_find_one (has_account_no n) direct) s r s'
          → Settles numbers (catch (settle r) throw) Q d
      answered (ok none) s s' settled ends =
          h (ok none) (λ a e. absurd (none_is_not-some (ok-injective e)))
      answered (ok (some a)) s s' settled ends =
          h (ok (some a)) (λ _ _. found-Present numbers n s a settled (sym ends.0))
      answered (err e) s s' settled ends = h (err e) (λ a same. absurd (err_is_not-ok same))

  -- The update of a balance of an account that exists.
  incremented :
      (n : String) (amount : ℤ) (date : ℕ) (t t' : Documents) (d : ℤ) (X : ℤ → Type 0)
      (o : Option Account)
      → Present numbers n
      → IsSettled numbers t
      → Reply (account_find_one_and_update (has_account_no n) (increment amount date) direct) t o t'
      → X (d +ℤ neg_ℤ amount)
      → Step numbers t t' d X
  incremented n amount date t t' d X o present settled reply x =
      let (a, found) = Present-found numbers n t settled present in
      (
        (
          rw reply.1 (increment-numbers (has_account_no n) amount date t.accounts ∙ settled.0),
          rw reply.1 settled.1,
        ),
        (
          d +ℤ neg_ℤ amount,
          rw (reply.1, total-increment (has_account_no n) amount date t.accounts a found)
              (omega int_laws),
          x,
        ),
      )

  pub update_balance-Settles :
      (n : String) (amount d : ℤ) (Q : Result (Option Account) → ℤ → Type 0)
      → Present numbers n
      → ((r : Result (Option Account)) → Q r (d +ℤ neg_ℤ amount))
      → ((e : Exception) → Q (err e) d)
      → Settles numbers (update_balance n amount) Q d
  unfolding update_balance
  update_balance-Settles n amount d Q present made lost =
      past now now-IsNeutral _ Q d (by_result _ updated lost)
    where
      updated :
          (date : ℕ)
          → Settles numbers
              (catch
                (await
                  (account_find_one_and_update (has_account_no n) (increment amount date) direct))
                throw)
              Q
              d
      updated date (ok o) s s' settled ends =
          incremented n amount date s s' d _ o present settled ends (made (ok o))
      updated date (err e) s s' settled ends =
          elim (failed_cases
            (account_find_one_and_update (has_account_no n) (increment amount date) direct) s s'
            ends) [
              | inl same ↦ rw same (settled, (d, refl, lost e))
              | inr (o, reply) ↦
                  incremented n amount date s s' d _ o present settled reply (made (err e))
            ]
