-- ===== src/Transaction/Concurrency/Losses/Moves.antt =====
-- What the steps of `transfer` of src/transaction/service/transaction.service.ts lose where their
-- calls may fail.
use transaction_service.Shared.{
  String, ℤ, pos, ◌+ℤ◌, neg_ℤ, ltb_ℤ, int_laws, arith, Option, none, some, List, Bool, true, false,
  ◌≡◌, refl, sym, ap, ◌∙◌, ◌⊎◌, inl, inr,
}
use transaction_service.Driver.Errors.{ErrorClass, Exception, Result, ok, err, bad_request}
use transaction_service.Driver.Calls.{direct, in_session, commit_transaction}
use transaction_service.Driver.Prog.{Prog, ret, ◌>>=◌, ◌>>◌, await}
use transaction_service.Driver.Budget.{Within}
use transaction_service.Driver.Interleaving.Settling.{by_result, Settles, Settles->>=}
use transaction_service.Account.Types.{Account}
use transaction_service.Account.Repository.{find_by_account_no, update_balance}
use transaction_service.Transaction.Types.{success}
use transaction_service.Transaction.Repository.{create, update_status, session_object}
use transaction_service.Transaction.Dto.{TransferRequest}
use transaction_service.Transaction.Service.{
  Config, validate_amount, throw_if, is_frozen, transfer_data, accept, check_accounts, move_funds,
}
use transaction_service.Transaction.Service.Calls.{Quiet, create-Within}
use transaction_service.Transaction.Concurrency.Presence.{Present}
use transaction_service.Transaction.Concurrency.Steps.{Checked}
use transaction_service.Transaction.Concurrency.Losses.{quiet, find-Settles, update_balance-Settles}

-- Nothing is lost by a request that is answered, nothing or its amount by one that fails.
abbrev pub Lost : Config → TransferRequest → {A : Type 0} → Result A → ℤ → Type 0
Lost cfg req (ok a) d = d ≡ pos 0
Lost cfg req (err e) d = (d ≡ pos 0) ⊎ (validate_amount cfg req.amount ≡ ok d)

balanced : (amount : ℤ) → (pos 0 +ℤ neg_ℤ (neg_ℤ amount)) +ℤ neg_ℤ amount ≡ pos 0
balanced amount = omega int_laws

taken : (amount : ℤ) → pos 0 +ℤ neg_ℤ (neg_ℤ amount) ≡ amount
taken amount = omega int_laws

module _ (numbers : List String) where
  last-Within :
      (cfg : Config) (id : String)
      → Within Quiet 3 (
          update_status id success (session_object cfg.session_text) direct
          >> await commit_transaction)
  unfolding update_status
  last-Within cfg id = (
    tt,
    omega arith,
    λ e. tt,
    λ d. (tt, omega arith, λ e. tt, λ t. (tt, omega arith, λ e. tt, λ u. tt)),
  )

  pub move_funds-Settles :
      (cfg : Config) (req : TransferRequest) (id : String) (amount : ℤ)
      → validate_amount cfg req.amount ≡ ok amount
      → Present numbers req.from_account
      → Present numbers req.to_account
      → Settles numbers (move_funds cfg req id amount) (Lost cfg req) (pos 0)
  unfolding move_funds
  move_funds-Settles cfg req id amount valid from to =
      Settles->>= numbers (create cfg.upper_case (transfer_data id req amount) in_session) _ _
        (pos 0)
        (quiet numbers 2 (create cfg.upper_case (transfer_data id req amount) in_session) _ (pos 0)
          (create-Within _ _) (by_result _ (λ t. debited) (λ e. inl refl)))
    where
      one_side : (d : ℤ) → d ≡ amount → validate_amount cfg req.amount ≡ ok d
      one_side d same = valid ∙ ap ok (sym same)

      credited :
          Settles numbers
            (update_balance req.to_account amount
              >> (update_status id success (session_object cfg.session_text) direct
                  >> await commit_transaction))
            (Lost cfg req)
            (pos 0 +ℤ neg_ℤ (neg_ℤ amount))
      credited = Settles->>= numbers (update_balance req.to_account amount) _ _ _ (
          update_balance-Settles numbers req.to_account amount _ _ to
            (by_result _
              (λ o.
                quiet numbers 3 _ (Lost cfg req) _ (last-Within cfg id)
                  (by_result _ (λ u. balanced amount) (λ e. inl (balanced amount))))
              (λ e. inl (balanced amount)))
            (λ e. inr (one_side _ (taken amount))))

      debited :
          Settles numbers
            (update_balance req.from_account (neg_ℤ amount)
              >> (update_balance req.to_account amount
                  >> (update_status id success (session_object cfg.session_text) direct
                      >> await commit_transaction)))
            (Lost cfg req)
            (pos 0)
      debited = Settles->>= numbers (update_balance req.from_account (neg_ℤ amount)) _ _ (pos 0) (
          update_balance-Settles numbers req.from_account (neg_ℤ amount) (pos 0) _ from
            (by_result _ (λ o. credited) (λ e. inr (one_side _ (taken amount)))) (λ e. inl refl))

  pub throw_if-Settles :
      {B : Type 0} (b : Bool) (c : ErrorClass) (m : String) (k : Unit → Prog B)
      (Q : Result B → ℤ → Type 0) (d : ℤ)
      → ((e : Exception) → Q (err e) d)
      → Settles numbers (k tt) Q d
      → Settles numbers (throw_if b c m >>= k) Q d
  throw_if-Settles true c m k Q d thrown passed = thrown _
  throw_if-Settles false c m k Q d thrown passed = passed

  accept-Settles :
      (req : TransferRequest) (amount : ℤ) (x y : Option Account)
      → ((a : Account) → x ≡ some a → Present numbers req.from_account)
      → ((a : Account) → y ≡ some a → Present numbers req.to_account)
      → Settles numbers (accept amount x y) (Checked numbers req) (pos 0)
  unfolding accept
  accept-Settles req amount none y hx hy = refl
  accept-Settles req amount (some a) none hx hy = refl
  accept-Settles req amount (some a) (some b) hx hy =
      throw_if-Settles (is_frozen a.status) _ _ _ _ (pos 0) (λ e. refl)
        (throw_if-Settles (ltb_ℤ a.balance amount) bad_request "Insufficient funds" (λ _. ret a)
          (Checked numbers req) (pos 0) (λ e. refl) (refl, hx a refl, hy b refl))

  pub check_accounts-Settles :
      (req : TransferRequest) (amount : ℤ)
      → Settles numbers (check_accounts req amount) (Checked numbers req) (pos 0)
  unfolding check_accounts
  check_accounts-Settles req amount =
      Settles->>= numbers (find_by_account_no req.from_account) _ _ (pos 0)
        (find-Settles numbers req.from_account _ (pos 0) (by_result _ second (λ e _. refl)))
    where
      second :
          (x : Option Account)
          → ((a : Account)
              → Path (Result (Option Account)) (ok x) (ok (some a))
              → Present numbers req.from_account)
          → Settles numbers
              (find_by_account_no req.to_account >>= λ y. accept amount x y)
              (Checked numbers req)
              (pos 0)
      second x hx = Settles->>= numbers (find_by_account_no req.to_account) _ _ (pos 0) (
          find-Settles numbers req.to_account _ (pos 0) (
            by_result _
              (λ y hy.
                accept-Settles req amount x y (λ a same. hx a (ap ok same))
                  (λ a same. hy a (ap ok same)))
              (λ e _. refl)))
