-- ===== src/Transaction/Service/Checks.antt =====
-- `check_accounts` keeps the rules, and changes nothing.
use transaction_service.Shared.{
  String, ℤ, ltb_ℤ, Option, none, some, Bool, true, false, ◌≡◌, refl, ◌≢◌, ◌⊎◌, inl, inr, arith,
  first,
}
use transaction_service.Driver.Errors.{Exception, ErrorClass, exception, ok, err}
use transaction_service.Driver.Calls.{Call}
use transaction_service.Driver.Prog.{Prog, ◌>>=◌}
use transaction_service.Driver.Documents.{Documents, Failure}
use transaction_service.Driver.Triples.{Post, Ensures, Ensures->>=}
use transaction_service.Account.Types.{Account}
use transaction_service.Account.Repository.{has_account_no, find_by_account_no}
use transaction_service.Transaction.Dto.{TransferRequest}
use transaction_service.Transaction.Service.{accept, check_accounts, is_frozen, throw_if}
use transaction_service.Transaction.Service.Rules.{
  IsCovered, Refused, no_sender, no_receiver, sender_frozen, short_of_funds, sender_of, receiver_of,
}

module _ (F : Call → Documents → Documents → Type 0)
    (sound : (c : Call) (s s' : Documents) → F c s s' → Failure c s s') where
  -- Some call has failed.
  abbrev pub Faulty : Type 0
  Faulty = (c : Call) × (s : Documents) × (s' : Documents) × F c s s'

  -- A lookup answers with the first account of that number, or fails; nothing changes.
  pub find_by_account_no-Ensures :
      (n : String) (Q : Post (Option Account)) (s : Documents)
      → Q (ok (first (has_account_no n) s.accounts)) s
      → ((e : Exception) → Faulty → Q (err e) s)
      → Ensures F (find_by_account_no n) Q s
  unfolding find_by_account_no
  find_by_account_no-Ensures n Q s done failed = (
    λ e s' f. elim (sound _ s s' f) [
      | inl same ↦ rw same (failed e (_, s, s', f))
      | inr (a, reply) ↦ rw reply.1 (failed e (_, s, s', f))
    ],
    λ a s' reply. rw (reply.0, reply.1) done,
  )

  abbrev pub Checked : TransferRequest → ℤ → Documents → Post Account
  Checked req amount s (ok a) s' = (s' ≡ s) × IsCovered req amount s.accounts a
  Checked req amount s (err e) s' = (s' ≡ s) × (Faulty ⊎ Refused req amount s.accounts e)

  -- A guard: what it throws if its test holds, and what follows if not.
  pub throw_if-Ensures :
      {B : Type 0} (b : Bool) (c : ErrorClass) (m : String) (k : Unit → Prog B) (Q : Post B)
      (s : Documents)
      → (b ≡ true → Q (err (exception c m)) s)
      → (b ≡ false → Ensures F (k tt) Q s)
      → Ensures F (throw_if b c m >>= k) Q s
  throw_if-Ensures true c m k Q s thrown passed = thrown refl
  throw_if-Ensures false c m k Q s thrown passed = passed refl

  -- The tests on the two accounts that the lookups give.
  accept-Ensures :
      (req : TransferRequest) (amount : ℤ) (s : Documents) (x y : Option Account)
      → sender_of req s.accounts ≡ x
      → receiver_of req s.accounts ≡ y
      → Ensures F (accept amount x y) (Checked req amount s) s
  unfolding accept
  accept-Ensures req amount s none y ex ey = (refl, inr (no_sender ex refl))
  accept-Ensures req amount s (some a) none ex ey = (refl, inr (no_receiver (λ absent. cc) ey refl))
  accept-Ensures req amount s (some a) (some b) ex ey =
      throw_if-Ensures (is_frozen a.status) _ _ _ _ s
        (λ h. (refl, inr (sender_frozen a ex known (ground arith) refl)))
        (λ unfrozen.
          throw_if-Ensures (ltb_ℤ a.balance amount) _ _ _ _ s
            (λ h. (refl, inr (short_of_funds a ex known (ground arith) (ground arith) refl)))
            (λ h. (
              refl,
              record {
                sender = ex;
                receiver = known;
                unfrozen = ground arith;
                funds = ground arith;
              },
            )))
    where
      known : receiver_of req s.accounts ≢ none
      known = λ absent. cc

  pub check_accounts-Ensures :
      (req : TransferRequest) (amount : ℤ) (s : Documents)
      → Ensures F (check_accounts req amount) (Checked req amount s) s
  unfolding check_accounts
  check_accounts-Ensures req amount s = Ensures->>= F (find_by_account_no req.from_account) _ _ s (
      find_by_account_no-Ensures req.from_account _ s
        (Ensures->>= F (find_by_account_no req.to_account) _ _ s (
          find_by_account_no-Ensures req.to_account _ s (accept-Ensures req amount s _ _ refl refl)
            (λ e faulty. (refl, inl faulty))))
        (λ e faulty. (refl, inl faulty)))
