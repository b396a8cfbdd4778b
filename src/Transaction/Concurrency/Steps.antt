-- ===== src/Transaction/Concurrency/Steps.antt =====
-- What each step of src/transaction/service/transaction.service.ts still owes to the sum of the
-- balances.
use transaction_service.Shared.{
  String, ℤ, pos, ◌+ℤ◌, neg_ℤ, ltb_ℤ, int_laws, Option, none, some, List, Bool, true, false, ◌≡◌,
  refl, sym, ◌∙◌, inl, inr, first,
}
use transaction_service.Driver.Errors.{ErrorClass, bad_request, Exception, Result, ok, err}
use transaction_service.Driver.Calls.{direct, in_session, commit_transaction}
use transaction_service.Driver.Prog.{Prog, ret, ◌>>=◌, await}
use transaction_service.Driver.Documents.{Documents}
use transaction_service.Driver.Interleaving.{IsSettled, Owes, Nothing, Owes->>=, Owes-catch}
use transaction_service.Account.Types.{Account}
use transaction_service.Account.Balances.{total-increment}
use transaction_service.Account.Repository.{has_account_no, find_by_account_no, update_balance}
use transaction_service.Transaction.Dto.{TransferRequest}
use transaction_service.Transaction.Types.{Transaction, success}
use transaction_service.Transaction.Schema.{validated, validated-cases, pre_save, new_transaction}
use transaction_service.Transaction.Repository.{save, create, update_status, session_object}
use transaction_service.Transaction.Service.{
  Config, throw_if, is_frozen, transfer_data, accept, check_accounts, move_funds,
}
use transaction_service.Transaction.Concurrency.Neutral.{
  passing, now-IsNeutral, commit_transaction-IsNeutral, transaction_save-IsNeutral,
  transaction_update-IsNeutral,
}
use transaction_service.Transaction.Concurrency.Presence.{
  Present, found-Present, Present-found, increment-numbers, none_is_not-some,
}

module _ (numbers : List String) where
  find-Owes :
      (n : String) (Q : Result (Option Account) → ℤ → Type 0)
      → Q (ok none) (pos 0)
      → ((a : Account) → Present numbers n → Q (ok (some a)) (pos 0))
      → Owes numbers (find_by_account_no n) Q (pos 0)
  unfolding find_by_account_no
  find-Owes n Q absent present = λ s o s' settled reply.
      (rw reply.1 settled, (pos 0, rw reply.1 refl, answered s settled o reply.0))
    where
      answered :
          (s : Documents)
          → IsSettled numbers s
          → (o : Option Account) → o ≡ first (has_account_no n) s.accounts
          → Q (ok o) (pos 0)
      answered s settled none e = absent
      answered s settled (some a) e = present a (found-Present numbers n s a settled (sym e))

  update_balance-Owes :
      (n : String) (amount d : ℤ) (Q : Result (Option Account) → ℤ → Type 0)
      → Present numbers n
      → ((o : Option Account) → Q (ok o) (d +ℤ neg_ℤ amount))
      → Owes numbers (update_balance n amount) Q d
  unfolding update_balance
  update_balance-Owes n amount d Q present rest = λ s date s' settled reply. (
    rw reply settled,
    (
      d,
      rw reply refl,
      λ t o t' settled' reply'.
          let (a, found) = Present-found numbers n t settled' present in
          (
            (
              rw reply'.1
                  (increment-numbers (has_account_no n) amount date t.accounts ∙ settled'.0),
              rw reply'.1 settled'.1,
            ),
            (
              d +ℤ neg_ℤ amount,
              rw (reply'.1, total-increment (has_account_no n) amount date t.accounts a found)
                  (omega int_laws),
              rest o,
            ),
          ),
    ),
  )

  pub throw_if-Owes :
      {B : Type 0} (b : Bool) (c : ErrorClass) (m : String) (k : Unit → Prog B)
      (Q : Result B → ℤ → Type 0) (d : ℤ)
      → ((e : Exception) → Q (err e) d)
      → Owes numbers (k tt) Q d
      → Owes numbers (throw_if b c m >>= k) Q d
  throw_if-Owes true c m k Q d thrown passed = thrown _
  throw_if-Owes false c m k Q d thrown passed = passed

  -- The checks owe nothing, and let accounts through that exist.
  abbrev pub Checked : TransferRequest → Result Account → ℤ → Type 0
  Checked req (ok a) d =
      (d ≡ pos 0) × Present numbers req.from_account × Present numbers req.to_account
  Checked req (err e) d = d ≡ pos 0

  accept-Owes :
      (req : TransferRequest) (amount : ℤ) (x y : Option Account)
      → ((a : Account) → x ≡ some a → Present numbers req.from_account)
      → ((a : Account) → y ≡ some a → Present numbers req.to_account)
      → Owes numbers (accept amount x y) (Checked req) (pos 0)
  unfolding accept
  accept-Owes req amount none y hx hy = refl
  accept-Owes req amount (some a) none hx hy = refl
  accept-Owes req amount (some a) (some b) hx hy =
      throw_if-Owes (is_frozen a.status) _ _ _ _ (pos 0) (λ e. refl)
        (throw_if-Owes (ltb_ℤ a.balance amount) bad_request "Insufficient funds" (λ _. ret a)
          (Checked req) (pos 0) (λ e. refl) (refl, hx a refl, hy b refl))

  pub check_accounts-Owes :
      (req : TransferRequest) (amount : ℤ)
      → Owes numbers (check_accounts req amount) (Checked req) (pos 0)
  unfolding check_accounts
  check_accounts-Owes req amount =
      Owes->>= numbers (find_by_account_no req.from_account) _ _ (pos 0) (
        find-Owes req.from_account _ (second none (λ a e. absurd (none_is_not-some e)))
          (λ a present. second (some a) (λ _ _. present)))
    where
      second :
          (x : Option Account)
          → ((a : Account) → x ≡ some a → Present numbers req.from_account)
          → Owes numbers
              (find_by_account_no req.to_account >>= λ y. accept amount x y)
              (Checked req)
              (pos 0)
      second x hx = Owes->>= numbers (find_by_account_no req.to_account) _ _ (pos 0) (
          find-Owes req.to_account _
            (accept-Owes req amount x none hx (λ a e. absurd (none_is_not-some e)))
            (λ b present. accept-Owes req amount x (some b) hx (λ _ _. present)))

  create-Owes :
      (cfg : Config) (req : TransferRequest) (id : String) (amount d : ℤ)
      (Q : Result Transaction → ℤ → Type 0)
      → ((t : Transaction) → Q (ok t) d)
      → ((e : Exception) → Q (err e) d)
      → Owes numbers (create cfg.upper_case (transfer_data id req amount) in_session) Q d
  unfolding create save pre_save new_transaction transfer_data
  create-Owes cfg req id amount d Q done failed =
      Owes-catch numbers (save (validated cfg.upper_case (transfer_data id req amount)) in_session)
        _ Q d
        (elim (validated-cases cfg.upper_case (transfer_data id req amount)) [
          | inl (_, e, thrown) ↦ rw thrown (failed _)
          | inr valid ↦ rw valid (λ s a s' settled reply.
              passing numbers
                (transaction_save-IsNeutral
                  (new_transaction cfg.upper_case (transfer_data id req amount)))
                s a s' settled reply d (done a))
        ])

  update_status-Owes :
      (id m : String) (d : ℤ) (Q : Result (Option Transaction) → ℤ → Type 0)
      → ((o : Option Transaction) → Q (ok o) d)
      → Owes numbers (update_status id success (session_object m) direct) Q d
  unfolding update_status
  update_status-Owes id m d Q done = λ s date s' settled reply.
      passing numbers now-IsNeutral s date s' settled reply d (λ t o t' settled' reply'.
        passing numbers (transaction_update-IsNeutral _ _) t o t' settled' reply' d (done o))

  commit-Owes :
      (d : ℤ) (Q : Result Unit → ℤ → Type 0)
      → ((x : Unit) → Q (ok x) d)
      → Owes numbers (await commit_transaction) Q d
  commit-Owes d Q done = λ s x s' settled reply.
      passing numbers commit_transaction-IsNeutral s x s' settled reply d (done x)

  balanced : (amount : ℤ) → (pos 0 +ℤ neg_ℤ (neg_ℤ amount)) +ℤ neg_ℤ amount ≡ pos 0
  balanced amount = omega int_laws

  pub move_funds-Owes :
      (cfg : Config) (req : TransferRequest) (id : String) (amount : ℤ)
      → Present numbers req.from_account
      → Present numbers req.to_account
      → Owes numbers (move_funds cfg req id amount) (Nothing numbers) (pos 0)
  unfolding move_funds
  move_funds-Owes cfg req id amount from to =
      Owes->>= numbers (create cfg.upper_case (transfer_data id req amount) in_session) _ _ (pos 0)
        (create-Owes cfg req id amount (pos 0) _
          (λ t. Owes->>= numbers (update_balance req.from_account (neg_ℤ amount)) _ _ (pos 0) (
            update_balance-Owes req.from_account (neg_ℤ amount) (pos 0) _ from (λ o.
              Owes->>= numbers (update_balance req.to_account amount) _ _ _ (
                update_balance-Owes req.to_account amount _ _ to (λ o'.
                  Owes->>= numbers
                    (update_status id success (session_object cfg.session_text) direct) _
                    (Nothing numbers) _
                    (update_status-Owes id cfg.session_text _ _
                      (λ o''. commit-Owes _ (Nothing numbers) (λ x. balanced amount))))))))
          (λ e. refl))
