-- ===== src/Account/Refinement/Steps.antt =====
-- Each method of src/account/account.repository.ts against the operation of the ledger.
use mathlib.Core.Path.{fun_ext}
use transaction_service.Shared.{
  List, select, length, ◌≤◌, Bool-cases, arith, String, ℤ, leb_ℤ, Option, none, some, [], ◌∷◌, ◌++◌,
  Bool, ◌==◌, ◌≡◌, refl, ap, ◌∙◌, is_some, map_option, first, update_first, inl, inr,
}
use transaction_service.Driver.Errors.{Result, ok, err}
use transaction_service.Driver.Prog.{Prog, ret, ◌>>=◌, catch}
use transaction_service.Driver.Documents.{Documents, NoFailure}
use transaction_service.Driver.Triples.{
  Post, Ensures, Then, Caught, Ensures-mono, Ensures->>=, Ensures-catch,
}
use transaction_service.Account.Types.{Account, AccountData}
use transaction_service.Account.Schema.{new_account}
use transaction_service.Account.Repository.{
  has_user_id, find_by_user_id, has_account_no, increment, set_frozen, set_active, is_active,
  covers, status_is_active, create, find_by_account_no, update_balance, freeze, unfreeze,
  check_sufficient_balance, is_account_active, delete,
}
use transaction_service.Account.Lookups.{Created, create-Created, Deleted, delete-Deleted}
use transaction_service.Account.Numbers.{
  none_selected, IsUnique, Renumbers, first-insert, first-remove, update-IsUnique, insert-IsUnique,
  remove-IsUnique,
}
use transaction_service.Account.Ledger.{
  Entry, entry, Ledger, Operation, open_account, look_up, owned_by, accounts_are, kept_if, add,
  block, unblock, covers_amount, in_use, close_account, Outcome, account_is, says, refused, put,
  credit, blocked, unblocked, change, opened, holds, specified,
}
use transaction_service.Account.Refinement.Entries.{
  ledger, answer, map_entry, map-if, ledger-update,
}

-- The method that carries out an operation.
unfoldable pub perform : (String → String) → Operation → Prog Outcome
perform upper_case (open_account d) =
    catch (create upper_case d >>= λ a. ret (answer (some a))) (λ e. ret (refused e))
perform upper_case (look_up n) = find_by_account_no n >>= λ o. ret (answer o)
perform upper_case (owned_by user_id) =
    find_by_user_id user_id >>= λ accounts. ret (accounts_are (ledger accounts))
perform upper_case (add n amount) = update_balance n amount >>= λ o. ret (answer o)
perform upper_case (block n reason) = freeze n reason >>= λ o. ret (answer o)
perform upper_case (unblock n) = unfreeze n >>= λ o. ret (answer o)
perform upper_case (covers_amount n amount) =
    check_sufficient_balance n amount >>= λ b. ret (says b)
perform upper_case (in_use n) = is_account_active n >>= λ b. ret (says b)
perform upper_case (close_account n) = delete n >>= λ b. ret (says b)

-- An operation has ended as the ledger says, and the numbers are still unique.
abbrev pub Agrees : {A : Type 0} → A × Ledger → Post A
Agrees (out, l) (ok x) s' = (x ≡ out) × (ledger s'.accounts ≡ l) × IsUnique s'.accounts
Agrees _ (err e) s' = ⊥

kept :
    {A : Type 0} (x out : A) (s s' : Documents)
    → IsUnique s.accounts
    → x ≡ out
    → s' ≡ s
    → Agrees (out, ledger s.accounts) (ok x) s'
kept x out s s' unique h k = rw k (h, refl, unique)

changed :
    (n : String) (f : Account → Account) (g : Entry → Entry) (s s' : Documents) (o : Option Account)
    → Renumbers f
    → ((a : Account) → entry (f a) ≡ g (entry a))
    → IsUnique s.accounts
    → o ≡ map_option f (first (has_account_no n) s.accounts)
    → s' ≡ record s { accounts = update_first (has_account_no n) f s.accounts }
    → Agrees (change n g (ledger s.accounts)) (ok (answer o)) s'
changed n f g s s' o keeps same unique h k = rw k (
  rw h (ap account_is (map_entry f g (first (has_account_no n) s.accounts) same)),
  ledger-update n f g s.accounts keeps same,
  update-IsUnique n f s.accounts keeps unique,
)

created :
    (upper_case : String → String) (d : AccountData) (s s' : Documents) (r : Result Account)
    → IsUnique s.accounts
    → Created upper_case d s r s'
    → Then NoFailure
        (λ a. ret (answer (some a)))
        (Caught NoFailure
          (λ e. ret (refused e))
          (Agrees (opened (ledger s.accounts) (new_account upper_case d))))
        r
        s'
created upper_case d s s' (ok a) unique (h, new, k) =
    rw (h, new, k) (refl, λ i m. under m i, insert-IsUnique a s.accounts new unique)
  where
    under :
        (m : String)
        → ledger (s.accounts ++ a ∷ []) m ≡ put a.account_no (some (entry a)) (ledger s.accounts) m
    under m =
        ap (map_option entry) (first-insert a m s.accounts new) ∙ map-if (a.account_no == m) _ _
created upper_case d s s' (err e) unique (inl h, k) = rw (h, k) (refl, refl, unique)
created upper_case d s s' (err e) unique (inr (a, b, h, taken, same), k) =
    rw (h, k, taken, same) (refl, refl, unique)

first-select-none :
    {A : Type 0} (p q : A → Bool) (xs : List A) → first q xs ≡ none → first q (select p xs) ≡ none
first-select-none p q [] h = refl
first-select-none p q (x ∷ xs) h = ground (arith, first-select-none p q xs)

-- Under a number that occurs at most once, a selection has the account or none.
ledger-select :
    (user_id n : String) (xs : List Account)
    → length (select (has_account_no n) xs) ≤ 1
    → ledger (select (has_user_id user_id) xs) n ≡ kept_if (λ e. e.user_id == user_id) (ledger xs n)
ledger-select user_id n [] h = refl
ledger-select user_id n (x ∷ xs) h = elim (Bool-cases (has_account_no n x)) [
  | inl here ↦
      let alone : first (has_account_no n) xs ≡ none =
        none_selected (has_account_no n) xs (ground arith) in
      let gone = first-select-none (has_user_id user_id) (has_account_no n) xs alone in
      elim (Bool-cases (has_user_id user_id x)) [
        | inl his ↦ rw (his, here) (rw his)
        | inr other ↦ rw (other, here, gone) (rw other)
      ]
  | inr there ↦
      let rest = ledger-select user_id n xs (ground arith) in
      elim (Bool-cases (has_user_id user_id x)) [
        | inl his ↦ rw (his, there) rest
        | inr other ↦ rw (other, there) rest
      ]
]

covers-holds :
    (amount : ℤ) (o : Option Account)
    → covers amount o ≡ holds (λ e. leb_ℤ amount e.balance) (map_option entry o)
covers-holds amount none = refl
covers-holds amount (some a) = refl

status-holds :
    (o : Option Account) → status_is_active o ≡ holds (λ e. is_active e.status) (map_option entry o)
status-holds none = refl
status-holds (some a) = refl

is_some-entry : (o : Option Account) → is_some o ≡ is_some (map_option entry o)
is_some-entry none = refl
is_some-entry (some a) = refl

removed :
    (n : String) (s s' : Documents) (r : Result Bool)
    → IsUnique s.accounts
    → Deleted n s r s'
    → Then NoFailure
        (λ b. ret (says b))
        (Agrees (says (is_some (ledger s.accounts n)), put n none (ledger s.accounts)))
        r
        s'
removed n s s' (ok b) unique (h, k) = rw k (
  ap says (h ∙ is_some-entry (first (has_account_no n) s.accounts)),
  λ i m. (ap (map_option entry) (first-remove n m s.accounts unique) ∙ map-if (n == m) _ _) i,
  remove-IsUnique n s.accounts unique,
)
removed n s s' (err e) unique h = absurd h

pub perform-Agrees :
    (upper_case : String → String) (o : Operation) (s : Documents)
    → IsUnique s.accounts
    → Ensures NoFailure
        (perform upper_case o)
        (Agrees (specified upper_case o (ledger s.accounts)))
        s
unfolding perform specified find_by_user_id find_by_account_no update_balance freeze unfreeze
    check_sufficient_balance is_account_active increment set_frozen set_active
perform-Agrees upper_case (open_account d) s unique =
    Ensures-catch NoFailure (create upper_case d >>= λ a. ret (answer (some a)))
      (λ e. ret (refused e)) _ s
      (Ensures->>= NoFailure (create upper_case d) (λ a. ret (answer (some a))) _ s
        (Ensures-mono NoFailure (create upper_case d) s
          (λ r s' h. created upper_case d s s' r unique h) (create-Created upper_case d s)))
perform-Agrees upper_case (look_up n) s unique =
    (λ e s' f. absurd f, λ o s' reply. kept (answer o) _ s s' unique (ap answer reply.0) reply.1)
perform-Agrees upper_case (owned_by user_id) s unique = (
  λ e s' f. absurd f,
  λ accounts s' reply.
      kept (accounts_are (ledger accounts)) _ s s' unique
        (rw reply.0
          (ap accounts_are (fun_ext (λ n. ledger-select user_id n s.accounts (unique n)))))
        reply.1,
)
perform-Agrees upper_case (add n amount) s unique = (
  λ e s' f. absurd f,
  λ date s' here. rw here (
    λ e s'' f. absurd f,
    λ o s'' reply.
        changed n (increment amount date) (credit amount) s s'' o (λ a. refl) (λ a. refl) unique
          reply.0 reply.1,
  ),
)
perform-Agrees upper_case (block n reason) s unique = (
  λ e s' f. absurd f,
  λ date s' here. rw here (
    λ e s'' f. absurd f,
    λ o s'' reply.
        changed n (set_frozen reason date) (blocked reason) s s'' o (λ a. refl) (λ a. refl) unique
          reply.0 reply.1,
  ),
)
perform-Agrees upper_case (unblock n) s unique = (
  λ e s' f. absurd f,
  λ o s' reply.
      changed n set_active unblocked s s' o (λ a. refl) (λ a. refl) unique reply.0 reply.1,
)
perform-Agrees upper_case (covers_amount n amount) s unique = (
  λ e s' f. absurd f,
  λ o s' reply.
      kept (says (covers amount o)) _ s s' unique
        (ap says (covers-holds amount o ∙ rw (reply.0) refl)) reply.1,
)
perform-Agrees upper_case (in_use n) s unique = (
  λ e s' f. absurd f,
  λ o s' reply.
      kept (says (status_is_active o)) _ s s' unique (ap says (status-holds o ∙ rw (reply.0) refl))
        reply.1,
)
perform-Agrees upper_case (close_account n) s unique =
    Ensures->>= NoFailure (delete n) (λ b. ret (says b)) _ s
      (Ensures-mono NoFailure (delete n) s (λ r s' h. removed n s s' r unique h)
        (delete-Deleted n s))
