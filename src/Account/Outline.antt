-- ===== src/Account/Outline.antt =====
-- What of the accounts stays when only balances change, and the calls of
-- src/account/account.repository.ts and of the other parts that change no more.
use transaction_service.Shared.{
  ℕ, String, ℤ, pos, Option, none, some, List, [], ◌==◌, ◌≡◌, refl, sym, ap, ◌∙◌, inl, inr,
  map_option, Bool-cases, eq_iff, update_first,
}
use transaction_service.Driver.Calls.{
  direct, in_session, Call, Answer, account_save, account_find_one, account_find,
  account_find_one_and_update, account_delete_one, transaction_save, transaction_find_one,
  transaction_find, transaction_count_documents, transaction_find_one_and_update,
  transaction_aggregate, transaction_delete_one, log_insert_one, log_count_documents,
  log_find_latest, create_session, start_transaction, commit_transaction, abort_transaction,
  end_session, cache_get, cache_set, uuid, now,
}
use transaction_service.Driver.Documents.{Documents, Reply, Failure, Keeps, apply_writes}
use transaction_service.Driver.Errors.{Result, ok, err}
use transaction_service.Account.Types.{Account}
use transaction_service.Account.Repository.{has_account_no, increment}
use transaction_service.Account.Numbers.{IsUnique, update-IsUnique}
use transaction_service.Account.Ledger.{Entry, Ledger, put, credit as credited}
use transaction_service.Account.Refinement.Entries.{ledger, ledger-update}

-- An account apart from its balance.
abbrev pub without_balance : Entry → Entry
without_balance e = record e { balance = pos 0 }

abbrev pub outline : List Account → Ledger
outline accounts n = map_option without_balance (ledger accounts n)

-- The accounts have the same outline, and their numbers stay unique.
abbrev pub Outlined : List Account → List Account → Type 0
Outlined xs ys = (IsUnique xs → IsUnique ys) × (outline ys ≡ outline xs)

pub ledger-increment :
    (n : String) (amount : ℤ) (date : ℕ) (xs : List Account)
    → ledger (update_first (has_account_no n) (increment amount date) xs)
      ≡ put n (map_option (credited amount) (ledger xs n)) (ledger xs)
unfolding increment
ledger-increment n amount date xs = ledger-update n _ (credited amount) xs (λ a. refl) (λ a. refl)

-- A change of a balance does not show.
outline-put :
    (n m : String) (amount : ℤ) (l : Ledger)
    → map_option without_balance (put n (map_option (credited amount) (l n)) l m)
      ≡ map_option without_balance (l m)
outline-put n m amount l = elim (Bool-cases (n == m)) [
  | inl same ↦ rw (same, sym ((eq_iff n m).0 same)) (hidden (l n))
  | inr other ↦ rw other refl
]
  where
    hidden :
        (o : Option Entry)
        → map_option without_balance (map_option (credited amount) o) ≡ map_option without_balance o
    hidden none = refl
    hidden (some e) = refl

pub increment-Outlined :
    (n : String) (amount : ℤ) (date : ℕ) (xs : List Account)
    → Outlined xs (update_first (has_account_no n) (increment amount date) xs)
unfolding increment
increment-Outlined n amount date xs = (
  update-IsUnique n _ xs (λ a. refl),
  λ i m.
      (ap (λ (l : Ledger). map_option without_balance (l m)) (ledger-increment n amount date xs)
          ∙ outline-put n m amount (ledger xs))
        i,
)

pub Outlined-refl : (xs ys : List Account) → ys ≡ xs → Outlined xs ys
Outlined-refl xs ys h = rw h (λ u. u, refl)

pub Outlined-trans : (xs ys zs : List Account) → Outlined xs ys → Outlined ys zs → Outlined xs zs
Outlined-trans xs ys zs (u, p) (v, q) = (λ x. v (u x), q ∙ p)

-- The calls that change no account but for its balance, and that outside a session.
abbrev pub OnlyBalances : Call → Type 0
OnlyBalances (account_find_one_and_update p f direct) =
    (n : String) × (amount : ℤ) × (date : ℕ) × (p ≡ has_account_no n) × (f ≡ increment amount date)
OnlyBalances (account_find_one_and_update p f in_session) = ⊥
OnlyBalances (account_save a) = ⊥
OnlyBalances (account_delete_one p) = ⊥
OnlyBalances _ = Unit

-- No session holds writes to accounts, and the outline is that of `xs`.
abbrev pub HasOutline : List Account → Documents → Type 0
HasOutline xs s = (s.account_writes ≡ []) × Outlined xs s.accounts

same_accounts :
    (xs : List Account) (s t s' : Documents)
    → t.accounts ≡ s.accounts
    → t.account_writes ≡ s.account_writes
    → HasOutline xs s
    → s' ≡ t
    → HasOutline xs s'
same_accounts xs s t s' accounts writes h same = rw (same, accounts, writes) h

-- Whatever was open is gone.
settled_accounts :
    (xs : List Account) (s t s' : Documents)
    → t.accounts ≡ s.accounts
    → t.account_writes ≡ []
    → HasOutline xs s
    → s' ≡ t
    → HasOutline xs s'
settled_accounts xs s t s' accounts writes h same = rw (same, accounts, writes) (refl, h.1)

Reply-HasOutline :
    (xs : List Account) (c : Call) (s : Documents) (a : Answer c) (s' : Documents)
    → OnlyBalances c
    → HasOutline xs s
    → Reply c s a s'
    → HasOutline xs s'
Reply-HasOutline xs (account_find_one_and_update p f direct) s a s' (n, k, d, p_is, f_is) h reply =
    rw (reply.1, p_is, f_is)
      (h.0, Outlined-trans xs s.accounts _ h.1 (increment-Outlined n k d s.accounts))
Reply-HasOutline xs (account_find_one_and_update p f in_session) s a s' allowed h reply =
    absurd allowed
Reply-HasOutline xs (account_save b) s a s' allowed h reply = absurd allowed
Reply-HasOutline xs (account_delete_one p) s a s' allowed h reply = absurd allowed
Reply-HasOutline xs (account_find_one p direct) s a s' allowed h reply =
    same_accounts xs s s s' refl refl h reply.1
Reply-HasOutline xs (account_find_one p in_session) s a s' allowed h reply =
    same_accounts xs s s s' refl refl h reply.1
Reply-HasOutline xs (account_find p) s a s' allowed h reply =
    same_accounts xs s s s' refl refl h reply.1
Reply-HasOutline xs (transaction_save t direct) s a s' allowed h reply =
    same_accounts xs s _ s' refl refl h reply.2
Reply-HasOutline xs (transaction_save t in_session) s a s' allowed h reply =
    same_accounts xs s _ s' refl refl h reply.2
Reply-HasOutline xs (transaction_find_one p) s a s' allowed h reply =
    same_accounts xs s s s' refl refl h reply.1
Reply-HasOutline xs (transaction_find p skip limit) s a s' allowed h reply =
    same_accounts xs s s s' refl refl h reply.4
Reply-HasOutline xs (transaction_count_documents p) s a s' allowed h reply =
    same_accounts xs s s s' refl refl h reply.1
Reply-HasOutline xs (transaction_find_one_and_update p f direct) s a s' allowed h reply =
    same_accounts xs s _ s' refl refl h reply.1
Reply-HasOutline xs (transaction_find_one_and_update p f in_session) s a s' allowed h reply =
    same_accounts xs s _ s' refl refl h reply.1
Reply-HasOutline xs (transaction_aggregate p) s a s' allowed h reply =
    same_accounts xs s s s' refl refl h reply.1
Reply-HasOutline xs (transaction_delete_one p) s a s' allowed h reply =
    same_accounts xs s _ s' refl refl h reply.1
Reply-HasOutline xs (log_insert_one l) s a s' allowed h reply =
    same_accounts xs s _ s' refl refl h reply
Reply-HasOutline xs (log_count_documents p) s a s' allowed h reply =
    same_accounts xs s s s' refl refl h reply.1
Reply-HasOutline xs (log_find_latest p) s a s' allowed h reply =
    same_accounts xs s s s' refl refl h reply.1
Reply-HasOutline xs create_session s a s' allowed h reply =
    same_accounts xs s s s' refl refl h reply
Reply-HasOutline xs start_transaction s a s' allowed h reply =
    settled_accounts xs s _ s' refl refl h reply
Reply-HasOutline xs commit_transaction s a s' allowed h reply =
    settled_accounts xs s _ s' (ap (λ ws. apply_writes ws s.accounts) h.0) refl h reply
Reply-HasOutline xs abort_transaction s a s' allowed h reply =
    settled_accounts xs s _ s' refl refl h reply
Reply-HasOutline xs end_session s a s' allowed h reply =
    settled_accounts xs s _ s' refl refl h reply
Reply-HasOutline xs (cache_get k) s a s' allowed h reply =
    same_accounts xs s s s' refl refl h reply.1
Reply-HasOutline xs (cache_set k r ttl) s a s' allowed h reply =
    same_accounts xs s _ s' refl refl h reply
Reply-HasOutline xs uuid s a s' allowed h reply = same_accounts xs s s s' refl refl h reply.2
Reply-HasOutline xs now s a s' allowed h reply = same_accounts xs s s s' refl refl h reply

Failure-HasOutline :
    (xs : List Account) (c : Call) (s s' : Documents)
    → OnlyBalances c
    → HasOutline xs s
    → Failure c s s'
    → HasOutline xs s'
Failure-HasOutline xs uuid s s' allowed h failed = absurd failed
Failure-HasOutline xs now s s' allowed h failed = absurd failed
Failure-HasOutline xs c s s' allowed h (inl same) = same_accounts xs s s s' refl refl h same
Failure-HasOutline xs c s s' allowed h (inr (a, reply)) =
    Reply-HasOutline xs c s a s' allowed h reply

-- A call that changes balances at most keeps the outline, answered or failed.
pub kept_outline :
    {W : Type 0} (view : W → Documents) (xs : List Account) (c : Call) (s : Documents)
    (x : Result (Answer c) × W)
    → OnlyBalances c
    → HasOutline xs s
    → Keeps Failure view c s x
    → HasOutline xs (view x.1)
kept_outline view xs c s (ok a, w) allowed h kept =
    Reply-HasOutline xs c s a (view w) allowed h kept
kept_outline view xs c s (err e, w) allowed h kept =
    Failure-HasOutline xs c s (view w) allowed h kept
