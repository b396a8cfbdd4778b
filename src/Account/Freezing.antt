-- ===== src/Account/Freezing.antt =====
-- `freeze` and `unfreeze` of src/account/account.repository.ts, one after the other.
use transaction_service.Shared.{
  ℕ, String, Option, List, [], ◌∷◌, Bool, ◌≡◌, refl, ◌∙◌, inl, inr, map_option, first, update_first,
  Bool-cases,
}
use transaction_service.Driver.Errors.{Result, ok, err}
use transaction_service.Driver.Prog.{Driver, run}
use transaction_service.Driver.Documents.{Documents, NoFailure, Follows}
use transaction_service.Driver.Triples.{Post, Ensures, Ensures-run}
use transaction_service.Account.Types.{Account}
use transaction_service.Account.Repository.{
  has_account_no, set_frozen, set_active, freeze, unfreeze,
}

-- An update and another one on what passes the same test are one update.
update_first_twice :
    {A : Type 0} (p : A → Bool) (f g : A → A) (xs : List A)
    → ((x : A) → p (f x) ≡ p x)
    → update_first p g (update_first p f xs) ≡ update_first p (λ x. g (f x)) xs
update_first_twice p f g [] keeps = refl
update_first_twice p f g (x ∷ xs) keeps = elim (Bool-cases (p x)) [
  | inl here ↦ rw (here, keeps x, here) refl
  | inr there ↦ rw (there, there, update_first_twice p f g xs keeps) refl
]

-- What a call of `freeze` that does not fail does.
abbrev pub Frozen : String → String → Documents → Post (Option Account)
Frozen n reason s (ok o) s' =
    (date : ℕ) × (o ≡ map_option (set_frozen reason date) (first (has_account_no n) s.accounts))
    × (s' ≡ record s {
      accounts = update_first (has_account_no n) (set_frozen reason date) s.accounts;
    })
Frozen n reason s (err e) s' = ⊥

abbrev pub Unfrozen : String → Documents → Post (Option Account)
Unfrozen n s (ok o) s' =
    (o ≡ map_option set_active (first (has_account_no n) s.accounts))
    × (s' ≡ record s { accounts = update_first (has_account_no n) set_active s.accounts })
Unfrozen n s (err e) s' = ⊥

freeze-Frozen :
    (n reason : String) (s : Documents) → Ensures NoFailure (freeze n reason) (Frozen n reason s) s
unfolding freeze
freeze-Frozen n reason s = (
  λ e s' f. absurd f,
  λ date s' reply. rw reply (λ e s'' f. absurd f, λ o s'' reply'. (date, reply'.0, reply'.1)),
)

unfreeze-Unfrozen : (n : String) (s : Documents) → Ensures NoFailure (unfreeze n) (Unfrozen n s) s
unfolding unfreeze
unfreeze-Unfrozen n s = (λ e s' f. absurd f, λ o s' reply. reply)

set_active-set_frozen :
    (n : String) (reason : String) (date : ℕ) (xs : List Account)
    → update_first
        (has_account_no n)
        set_active
        (update_first (has_account_no n) (set_frozen reason date) xs)
      ≡ update_first (has_account_no n) set_active xs
unfolding set_active set_frozen
set_active-set_frozen n reason date xs =
    update_first_twice (has_account_no n) (set_frozen reason date) set_active xs (λ x. refl)

module _ {W : Type 0} (view : W → Documents) (driver : Driver W)
    (follows : Follows NoFailure view driver) where
  pub run-freeze :
      (n reason : String) (w : W)
      → let (r, w') = run driver (freeze n reason) w in Frozen n reason (view w) r (view w')
  run-freeze n reason w =
      Ensures-run NoFailure view driver follows (freeze n reason) (Frozen n reason (view w)) w
        (freeze-Frozen n reason (view w))

  undone :
      (n reason : String) (s s' s'' : Documents) (r r' : Result (Option Account))
      → Frozen n reason s r s'
      → Unfrozen n s' r' s''
      → s'' ≡ record s { accounts = update_first (has_account_no n) set_active s.accounts }
  undone n reason s s' s'' (ok o) (ok o') (date, _, h) (_, h') =
      h' ∙ rw (h, set_active-set_frozen n reason date s.accounts) refl
  undone n reason s s' s'' (err e) r' h h' = absurd h
  undone n reason s s' s'' (ok o) (err e) h h' = absurd h'

  -- When no call fails, freezing an account and unfreezing it again is as good as unfreezing it
  -- alone: the first account of that number is active and without the marks of a freeze, whatever
  -- its status was before, and nothing else has changed.
  pub unfreeze-freeze :
      (n reason : String) (w : W)
      → let w' = (run driver (freeze n reason) w).1 in
        let w'' = (run driver (unfreeze n) w').1 in
        view w'' ≡ record (view w) {
          accounts = update_first (has_account_no n) set_active (view w).accounts;
        }
  unfreeze-freeze n reason w =
      undone n reason (view w) (view (run driver (freeze n reason) w).1) _
        (run driver (freeze n reason) w).0 _ (run-freeze n reason w)
        (Ensures-run NoFailure view driver follows (unfreeze n) (Unfrozen n _) _
          (unfreeze-Unfrozen n _))
