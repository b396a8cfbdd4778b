-- ===== src/Account/Refinement.antt =====
-- The repository of src/account/account.repository.ts implements the ledger of Account/Ledger.antt.
pub mod Entries
pub mod Steps
use transaction_service.Shared.{
  String, ℤ, leb_ℤ, Option, none, some, List, [], ◌∷◌, ◌++◌, Bool, true, false, ◌==◌, ◌≡◌, refl,
  sym, ap, ◌∙◌, is_some, map_option, if◌then◌else◌, first, update_first, inl, inr,
}
use transaction_service.Driver.Errors.{Result, ok, err}
use transaction_service.Driver.Prog.{Prog, Driver, run, ret, ◌>>=◌, catch}
use transaction_service.Driver.Documents.{Documents, NoFailure, Follows}
use transaction_service.Driver.Triples.{
  Post, Ensures, Then, Caught, Ensures-mono, Ensures->>=, Ensures-catch, Ensures-run,
}
use transaction_service.Account.Types.{Account, AccountData}
use transaction_service.Account.Schema.{new_account}
use transaction_service.Account.Repository.{
  has_account_no, increment, set_frozen, set_active, is_active, covers, status_is_active, create,
  find_by_account_no, update_balance, freeze, unfreeze, check_sufficient_balance, is_account_active,
  delete,
}
use transaction_service.Account.Lookups.{Created, create-Created, Deleted, delete-Deleted}
use transaction_service.Account.Numbers.{
  IsUnique, Renumbers, first-update, first-insert, first-remove, update-IsUnique, insert-IsUnique,
  remove-IsUnique,
}
use transaction_service.Account.Ledger.{
  Entry, entry, Ledger, Operation, open_account, look_up, add, block, unblock, covers_amount,
  in_use, close_account, Outcome, account_is, says, refused, put, credit, blocked, unblocked,
  change, opened, holds, specified, specified_all,
}
use Entries.{ledger}
use Steps.{perform, Agrees, perform-Agrees}

unfoldable pub perform_all : (String → String) → List Operation → Prog (List Outcome)
perform_all upper_case [] = ret []
perform_all upper_case (o ∷ os) =
    perform upper_case o >>= λ out. perform_all upper_case os >>= λ outs. ret (out ∷ outs)

consed :
    (x out : Outcome) (end_ : List Outcome × Ledger) (r : Result (List Outcome)) (s' : Documents)
    → x ≡ out
    → Agrees end_ r s'
    → Then NoFailure (λ outs. ret (x ∷ outs)) (Agrees (out ∷ end_.0, end_.1)) r s'
consed x out end_ (ok outs) s' h (e, k, unique) = (rw (h, e) refl, k, unique)
consed x out end_ (err e) s' h failed = absurd failed

-- What follows an operation.
continued :
    (upper_case : String → String) (os : List Operation) (s' : Documents) (out : Outcome)
    (l : Ledger) (r : Result Outcome)
    → ((s : Documents)
        → IsUnique s.accounts
        → Ensures NoFailure
            (perform_all upper_case os)
            (Agrees (specified_all upper_case os (ledger s.accounts)))
            s)
    → Agrees (out, l) r s'
    → Then NoFailure
        (λ x. perform_all upper_case os >>= λ outs. ret (x ∷ outs))
        (Agrees (let (outs, l') = specified_all upper_case os l in (out ∷ outs, l')))
        r
        s'
continued upper_case os s' out l (err e) rest h = absurd h
continued upper_case os s' out l (ok x) rest (h, k, unique) =
    Ensures->>= NoFailure (perform_all upper_case os) (λ outs. ret (x ∷ outs)) _ s'
      (Ensures-mono NoFailure (perform_all upper_case os) s'
        (λ r s'' e. consed x out _ r s'' h (rw (sym k) e)) (rest s' unique))

perform_all-Agrees :
    (upper_case : String → String) (os : List Operation) (s : Documents)
    → IsUnique s.accounts
    → Ensures NoFailure
        (perform_all upper_case os)
        (Agrees (specified_all upper_case os (ledger s.accounts)))
        s
unfolding perform_all specified_all
perform_all-Agrees upper_case [] s unique = (refl, refl, unique)
perform_all-Agrees upper_case (o ∷ os) s unique =
    Ensures->>= NoFailure (perform upper_case o) _ _ s (
      Ensures-mono NoFailure (perform upper_case o) s
        (λ r s' h. continued upper_case os s' _ _ r (perform_all-Agrees upper_case os) h)
        (perform-Agrees upper_case o s unique))

-- A run has ended in these outcomes, over these documents.
abbrev pub Implements : Result (List Outcome) → Documents → List Outcome × Ledger → Type 0
Implements r s' (outs, l) = (r ≡ ok outs) × (ledger s'.accounts ≡ l) × IsUnique s'.accounts

agreed :
    (end_ : List Outcome × Ledger) (r : Result (List Outcome)) (s' : Documents)
    → Agrees end_ r s'
    → Implements r s' end_
agreed end_ (ok outs) s' (h, k, unique) = (ap ok h, k, unique)
agreed end_ (err e) s' h = absurd h

-- When no call fails and every account number occurs at most once, the nine methods of the
-- repository that use no session, called in any sequence, implement a ledger of at most one account
-- per number: each call answers what the ledger answers, the accounts of a user without their order,
-- the documents at the end stand for the ledger at the end, and every number still occurs at most
-- once.
pub perform_all-Implements :
    {W : Type 0} (view : W → Documents) (driver : Driver W)
    → Follows NoFailure view driver
    → (upper_case : String → String) (operations : List Operation) (w : W)
    → IsUnique (view w).accounts
    → let (r, w') = run driver (perform_all upper_case operations) w in
      Implements r (view w') (specified_all upper_case operations (ledger (view w).accounts))
perform_all-Implements view driver follows upper_case operations w unique = agreed _ _ _ (
    Ensures-run NoFailure view driver follows (perform_all upper_case operations) _ w
      (perform_all-Agrees upper_case operations (view w) unique))
