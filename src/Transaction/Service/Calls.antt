-- ===== src/Transaction/Service/Calls.antt =====
-- How many calls `transfer` of src/transaction/service/transaction.service.ts makes.
use transaction_service.Shared.{
  neg_ℤ, refl, ℕ, String, ℤ, Option, none, some, Bool, ltb_ℤ, ◌==◌, true, false, not, ◌&&◌, is_some,
  Bool-cases, inl, inr, ◌+◌, arith,
}
use transaction_service.Driver.Errors.{ErrorClass, Result, ok, err}
use transaction_service.Driver.Calls.{
  direct, transaction_save, transaction_find_one_and_update, commit_transaction, uuid, now,
  cache_get, cache_set, Call, create_session, start_transaction, end_session, in_session,
  abort_transaction,
}
use transaction_service.Driver.Prog.{Prog, ◌>>◌, catch, throw, ret, await, settle}
use transaction_service.Driver.Budget.{
  Within-mono, Within, Within->>=, Within-catch, Within-finally,
}
use transaction_service.Account.Types.{Account}
use transaction_service.Account.Outline.{OnlyBalances}
use transaction_service.Account.Repository.{find_by_account_no, update_balance}
use transaction_service.Transaction.Types.{Transaction, TransactionData}
use transaction_service.Transaction.Schema.{validated, pre_save, is_success}
use transaction_service.Transaction.Repository.{save, create, update_status}
use transaction_service.Transaction.Dto.{TransferRequest, TransferResponse}
use transaction_service.Transaction.Service.{
  Config, validate_amount, throw_if, is_frozen, accept, check_accounts, move_funds, remember,
  finish, transfer_body, in_transaction, transfer_uncached, cached_response, or_perform, transfer,
}

-- The calls of the block between the start of the transaction and the end of the session.
abbrev pub InBody : Call → Type 0
InBody create_session = ⊥
InBody start_transaction = ⊥
InBody end_session = ⊥
InBody c = OnlyBalances c

-- Those that make no change to an account.
abbrev pub Quiet : Call → Type 0
Quiet (transaction_save t in_session) = Unit
Quiet (transaction_find_one_and_update p f direct) = Unit
Quiet commit_transaction = Unit
Quiet abort_transaction = Unit
Quiet uuid = Unit
Quiet now = Unit
Quiet (cache_get k) = Unit
Quiet (cache_set k r ttl) = Unit
Quiet _ = ⊥

Quiet-InBody : (c : Call) → Quiet c → InBody c
Quiet-InBody (transaction_save t in_session) h = tt
Quiet-InBody (transaction_find_one_and_update p f direct) h = tt
Quiet-InBody commit_transaction h = tt
Quiet-InBody abort_transaction h = tt
Quiet-InBody uuid h = tt
Quiet-InBody now h = tt
Quiet-InBody (cache_get k) h = tt
Quiet-InBody (cache_set k r ttl) h = tt
Quiet-InBody c h = absurd h

InBody-OnlyBalances : (c : Call) → InBody c → OnlyBalances c
InBody-OnlyBalances create_session h = tt
InBody-OnlyBalances start_transaction h = tt
InBody-OnlyBalances end_session h = tt
InBody-OnlyBalances c h = h

guarded-Within :
    (P : Call → Type 0) {A : Type 0} (failing : Bool) (c : ErrorClass) (message : String) (n : ℕ)
    (m : Prog A)
    → Within P n m
    → Within P n (throw_if failing c message >> m)
guarded-Within P true c message n m h = tt
guarded-Within P false c message n m h = h

settle-Within : (P : Call → Type 0) {A : Type 0} (r : Result A) → Within P 0 (settle r)
settle-Within P (ok a) = tt
settle-Within P (err e) = tt

accept-Within : (amount : ℤ) (o p : Option Account) → Within InBody 0 (accept amount o p)
unfolding accept
accept-Within amount none p = tt
accept-Within amount (some a) none = tt
accept-Within amount (some a) (some b) =
    guarded-Within InBody (is_frozen a.status) _ _ 0 _
      (guarded-Within InBody (ltb_ℤ a.balance amount) _ _ 0 (ret a) tt)

check_accounts-Within :
    (req : TransferRequest) (amount : ℤ) → Within InBody 2 (check_accounts req amount)
unfolding check_accounts find_by_account_no
check_accounts-Within req amount =
    (tt, omega arith, λ e. tt, λ o. (tt, omega arith, λ e. tt, λ p. accept-Within amount o p))

save-Within : (r : Result Transaction) → Within Quiet 2 (save r in_session)
unfolding save pre_save
save-Within (err e) = tt
save-Within (ok t) = elim (Bool-cases (is_success t.status && not (is_some t.processed_at))) [
  | inl set ↦ rw set (tt, omega arith, λ e. tt, λ date. (tt, omega arith, λ e. tt, λ a. tt))
  | inr kept ↦ rw kept (tt, omega arith, λ e. tt, λ a. tt)
]

pub create-Within :
    (upper_case : String → String) (d : TransactionData)
    → Within Quiet 2 (create upper_case d in_session)
unfolding create
create-Within upper_case d =
    Within-catch Quiet 2 0 (save (validated upper_case d) in_session) _ (save-Within _) (λ e. tt)

-- The two updates of a balance, the update of the status, and the commit.
move_funds-Within :
    (cfg : Config) (req : TransferRequest) (id : String) (amount : ℤ)
    → Within InBody 9 (move_funds cfg req id amount)
unfolding move_funds update_balance update_status
move_funds-Within cfg req id amount =
    Within->>= InBody 2 7 (create _ _ in_session) _
      (Within-mono Quiet InBody Quiet-InBody 2 (create _ _ in_session) (create-Within _ _))
      (λ t. (
        tt,
        omega arith,
        λ e. tt,
        λ date. (
          (req.from_account, neg_ℤ amount, date, refl, refl),
          omega arith,
          λ e. tt,
          λ from. (
            tt,
            omega arith,
            λ e. tt,
            λ date. (
              (req.to_account, amount, date, refl, refl),
              omega arith,
              λ e. tt,
              λ to. (
                tt,
                omega arith,
                λ e. tt,
                λ date. (tt, omega arith, λ e. tt, λ t. (tt, omega arith, λ e. tt, λ u. tt)),
              ),
            ),
          ),
        ),
      ))

remember-Within : (o : Option String) (r : TransferResponse) → Within Quiet 1 (remember o r)
unfolding remember
remember-Within none r = tt
remember-Within (some key) r = (tt, omega arith, λ e. tt, λ u. tt)

pub finish-Within :
    (req : TransferRequest) (id : String) (amount : ℤ) (a : Account)
    → Within Quiet 3 (finish req id amount a)
unfolding finish
finish-Within req id amount a = (
  tt,
  omega arith,
  λ e. tt,
  λ date.
      Within->>= Quiet 1 1 (remember _ _) _ (remember-Within _ _)
        (λ u. (tt, omega arith, λ e. tt, λ d. tt)),
)

pub transfer_body-Within :
    (cfg : Config) (req : TransferRequest) (id : String) (amount : ℤ)
    → Within InBody 14 (transfer_body cfg req id amount)
unfolding transfer_body
transfer_body-Within cfg req id amount =
    Within->>= InBody 2 12 (check_accounts req amount) _ (check_accounts-Within req amount) (λ a.
      Within->>= InBody 9 3 (move_funds cfg req id amount) _ (move_funds-Within cfg req id amount)
        (λ u.
          Within-mono Quiet InBody Quiet-InBody 3 (finish req id amount a)
            (finish-Within req id amount a)))

in_transaction-Within :
    {A : Type 0} (n : ℕ) (body : Prog A)
    → Within OnlyBalances n body
    → Within OnlyBalances (n + 1 + 1) (in_transaction body)
unfolding in_transaction
in_transaction-Within n body h =
    Within-finally OnlyBalances (n + 1) 1 (catch body (λ e. await abort_transaction >> throw e)) _
      (Within-catch OnlyBalances n 1 body _ h (λ e. (tt, omega arith, λ e'. tt, λ u. tt)))
      (tt, omega arith, λ e. tt, λ u. tt)

transfer_uncached-Within :
    (cfg : Config) (req : TransferRequest) → Within OnlyBalances 19 (transfer_uncached cfg req)
unfolding transfer_uncached
transfer_uncached-Within cfg req =
    Within->>= OnlyBalances 0 19 (settle (validate_amount cfg req.amount)) _
      (settle-Within OnlyBalances _)
      (λ amount. guarded-Within OnlyBalances (req.from_account == req.to_account) _ _ 19 _ (
        tt,
        omega arith,
        λ e. tt,
        λ id. (
          tt,
          omega arith,
          λ e. tt,
          λ u. (
            tt,
            omega arith,
            λ e. tt,
            λ u. in_transaction-Within 14 (transfer_body cfg req id amount) (
                Within-mono InBody OnlyBalances InBody-OnlyBalances 14
                  (transfer_body cfg req id amount) (transfer_body-Within cfg req id amount)),
          ),
        ),
      ))

pub cached_response-Within : (o : Option String) → Within OnlyBalances 1 (cached_response o)
unfolding cached_response
cached_response-Within none = tt
cached_response-Within (some key) = (tt, omega arith, λ e. tt, λ r. tt)

or_perform-Within :
    (n : ℕ) (o : Option TransferResponse) (m : Prog TransferResponse)
    → Within OnlyBalances n m
    → Within OnlyBalances n (or_perform o m)
or_perform-Within n none m h = h
or_perform-Within n (some r) m h = tt

pub transfer-Within :
    (cfg : Config) (req : TransferRequest) → Within OnlyBalances 21 (transfer cfg req)
unfolding transfer
transfer-Within cfg req = (
  tt,
  omega arith,
  λ e. tt,
  λ start_time.
      Within->>= OnlyBalances 1 19 (cached_response _) _ (cached_response-Within _)
        (λ o. or_perform-Within 19 o _ (transfer_uncached-Within cfg req)),
)
