-- ===== src/Transaction/Resolver/Access.antt =====
-- Whom the resolvers serve: src/transaction/resolver/transaction.resolver.ts.
use mathlib.Core.Option.{some-injective}
use transaction_service.Shared.{
  sym, ap, ◌∙◌, String, Option, none, some, true, false, ◌≡◌, refl, ◌⊎◌, inl, inr, arith, first,
  eq_iff,
}
use transaction_service.Driver.Errors.{exception, plain_error, ok, err}
use transaction_service.Driver.Calls.{Call}
use transaction_service.Driver.Prog.{ret, ◌>>=◌}
use transaction_service.Driver.Documents.{Documents, Failure}
use transaction_service.Driver.Triples.{Post, Ensures, Ensures->>=}
use transaction_service.Middleware.Auth.{User}
use transaction_service.Account.Types.{Account}
use transaction_service.Account.Repository.{has_account_no, find_by_account_no}
use transaction_service.Transaction.Service.{throw_if}
use transaction_service.Transaction.Service.Checks.{
  Faulty, find_by_account_no-Ensures, throw_if-Ensures,
}
use transaction_service.Transaction.Resolver.{same_id, unauthorized, present, authorize}

-- Nobody is logged in, or it is the owner who is.
abbrev pub Allowed : Option User → Option String → Type 0
Allowed user owner = (user ≡ none) ⊎ ((u : User) × (user ≡ some u) × (owner ≡ u.id))

same_id_sound : (a b : Option String) → same_id a b ≡ true → a ≡ b
same_id_sound none none h = refl
same_id_sound none (some b) h = cc
same_id_sound (some a) none h = cc
same_id_sound (some a) (some b) h = rw ((eq_iff a b).0 h)

pub authorized-Allowed :
    (user : Option User) (owner : Option String)
    → unauthorized user owner ≡ false
    → Allowed user owner
authorized-Allowed none owner h = inl refl
authorized-Allowed (some u) owner h = inr (u, refl, same_id_sound owner u.id (ground arith))

same_id_complete : (a b : Option String) → a ≡ b → same_id a b ≡ true
same_id_complete none b h = rw (← h) refl
same_id_complete (some a) b h = rw (← h) ((eq_iff a a).1 refl)

unauthorized-not-Allowed :
    (user : Option User) (owner : Option String)
    → unauthorized user owner ≡ true
    → ¬ Allowed user owner
unauthorized-not-Allowed none owner h = λ _. cc
unauthorized-not-Allowed (some u) owner h = λ allowed. elim allowed [
  | inl nobody ↦ cc
  | inr (v, same, owns) ↦ cc (
    h,
    same_id_complete owner u.id (owns ∙ ap (λ (x : User). x.id) (sym (some-injective u v same))),
  )
]

module _ (F : Call → Documents → Documents → Type 0)
    (sound : (c : Call) (s s' : Documents) → F c s s' → Failure c s s') where
  -- What the tests on an account let through, and what they throw.
  abbrev pub Authorized : Option User → String → String → String → Documents → Post Account
  Authorized user n missing denied s (ok a) s' =
      (s' ≡ s) × (first (has_account_no n) s.accounts ≡ some a) × Allowed user (some a.user_id)
  Authorized user n missing denied s (err e) s' =
      (s' ≡ s)
      × (Faulty F sound
          ⊎ (((first (has_account_no n) s.accounts ≡ none) × (e ≡ exception plain_error missing))
              ⊎ ((a : Account) × (first (has_account_no n) s.accounts ≡ some a)
                  × (¬ Allowed user (some a.user_id))
                  × (e ≡ exception plain_error denied))))

  present-Authorized :
      (user : Option User) (n missing denied : String) (s : Documents) (o : Option Account)
      → first (has_account_no n) s.accounts ≡ o
      → Ensures F
          (present o missing >>= λ account.
            throw_if (unauthorized user (some account.user_id)) plain_error denied >>= λ _.
            ret account)
          (Authorized user n missing denied s)
          s
  present-Authorized user n missing denied s none found = (refl, inr (inl (found, refl)))
  present-Authorized user n missing denied s (some a) found =
      throw_if-Ensures F sound (unauthorized user (some a.user_id)) _ _ _ _ s
        (λ h. (refl, inr (inr (a, found, unauthorized-not-Allowed user (some a.user_id) h, refl))))
        (λ h. (refl, found, authorized-Allowed user (some a.user_id) h))

  pub authorize-Authorized :
      (user : Option User) (n missing denied : String) (s : Documents)
      → Ensures F (authorize user n missing denied) (Authorized user n missing denied s) s
  unfolding authorize
  authorize-Authorized user n missing denied s = Ensures->>= F (find_by_account_no n) _ _ s (
      find_by_account_no-Ensures F sound n _ s (present-Authorized user n missing denied s _ refl)
        (λ e faulty. (refl, inl faulty)))
