-- ===== src/Transaction/Concurrency/Presence.antt =====
-- Which numbers have an account, while balances change:
-- src/account/account.repository.ts.
use transaction_service.Shared.{
  ℕ, String, ℤ, arith, Option, none, some, List, [], ◌∷◌, map, Bool, true, false, ◌||◌, ◌==◌, ◌≡◌,
  refl, sym, ap, ◌∙◌, inl, inr, is_some, first, update_first, Bool-cases, Option-cases,
}
use transaction_service.Driver.Documents.{Documents}
use transaction_service.Driver.Interleaving.{IsSettled}
use transaction_service.Account.Types.{Account}
use transaction_service.Account.Repository.{has_account_no, increment}

-- A number occurs among the numbers of the accounts.
abbrev pub occurs : String → List String → Bool
occurs n [] = false
occurs n (m ∷ ms) = (m == n) || occurs n ms

first-occurs :
    (n : String) (accounts : List Account)
    → is_some (first (has_account_no n) accounts)
      ≡ occurs n (map (λ (a : Account). a.account_no) accounts)
first-occurs n [] = refl
first-occurs n (a ∷ accounts) = ground (arith, first-occurs n accounts)

pub increment-numbers :
    (p : Account → Bool) (k : ℤ) (d : ℕ) (accounts : List Account)
    → map (λ (a : Account). a.account_no) (update_first p (increment k d) accounts)
      ≡ map (λ (a : Account). a.account_no) accounts
unfolding increment
increment-numbers p k d [] = refl
increment-numbers p k d (a ∷ accounts) = elim (Bool-cases (p a)) [
  | inl here ↦ rw here refl
  | inr there ↦ rw (there, increment-numbers p k d accounts) refl
]

false_is_not-true : ¬ (Path Bool false true)
false_is_not-true h = cc

pub none_is_not-some : {a : Account} → ¬ (Path (Option Account) none (some a))
none_is_not-some h = ground arith

module _ (numbers : List String) where
  abbrev pub Present : String → Type 0
  Present n = occurs n numbers ≡ true

  pub found-Present :
      (n : String) (s : Documents) (a : Account)
      → IsSettled numbers s
      → first (has_account_no n) s.accounts ≡ some a
      → Present n
  found-Present n s a settled found =
      sym (first-occurs n s.accounts ∙ ap (occurs n) settled.0) ∙ rw found refl

  pub Present-found :
      (n : String) (s : Documents)
      → IsSettled numbers s
      → Present n
      → (a : Account) × (first (has_account_no n) s.accounts ≡ some a)
  Present-found n s settled present = elim (Option-cases (first (has_account_no n) s.accounts)) [
    | inl absent ↦ absurd (
        false_is_not-true (
          ap is_some (sym absent)
          ∙ (first-occurs n s.accounts ∙ (ap (occurs n) settled.0 ∙ present))))
    | inr found ↦ found
  ]
