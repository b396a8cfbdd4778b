-- ===== src/Account/Balances.antt =====
-- The sum of the balances, and that none is negative, under `$inc` on one account.
use transaction_service.Shared.{
  ℕ, String, ℤ, pos, ◌+ℤ◌, ◌≤ℤ◌, int_laws, Bool, List, [], ◌∷◌, some, ◌≡◌, ◌≢◌, refl, first,
  update_first, first-update_first_ne, eq_iff, Bool-cases, inl, inr, arith,
}
use transaction_service.Account.Types.{Account}
use transaction_service.Account.Repository.{has_account_no, increment}

abbrev pub total : List Account → ℤ
total [] = pos 0
total (a ∷ accounts) = a.balance +ℤ total accounts

abbrev pub IsSolvent : List Account → Type 0
IsSolvent [] = Unit
IsSolvent (a ∷ accounts) = (pos 0 ≤ℤ a.balance) × IsSolvent accounts

-- An increment of an account that exists changes the sum by its amount.
pub total-increment :
    (p : Account → Bool) (k : ℤ) (d : ℕ) (xs : List Account) (a : Account)
    → first p xs ≡ some a
    → total (update_first p (increment k d) xs) ≡ total xs +ℤ k
unfolding increment
total-increment p k d [] a h = cc
total-increment p k d (x ∷ xs) a h = elim (Bool-cases (p x)) [
  | inl here ↦ rw here (omega int_laws)
  | inr there ↦ rw (there, total-increment p k d xs a (rw there at h)) (omega int_laws)
]

-- No balance turns negative if that of the account stays above zero.
pub increment-IsSolvent :
    (p : Account → Bool) (k : ℤ) (d : ℕ) (xs : List Account)
    → ((a : Account) → first p xs ≡ some a → pos 0 ≤ℤ a.balance → pos 0 ≤ℤ a.balance +ℤ k)
    → IsSolvent xs
    → IsSolvent (update_first p (increment k d) xs)
unfolding increment
increment-IsSolvent p k d [] keep h = tt
increment-IsSolvent p k d (x ∷ xs) keep h = elim (Bool-cases (p x)) [
  | inl here ↦ rw here (keep x (rw here) h.0, h.1)
  | inr there ↦ rw there (h.0, increment-IsSolvent p k d xs (λ a e. keep a (rw there e)) h.1)
]

-- An increment of another account leaves what is found under a number.
pub first-increment_ne :
    (n m : String) (k : ℤ) (d : ℕ) (xs : List Account)
    → n ≢ m
    → first (has_account_no m) (update_first (has_account_no n) (increment k d) xs)
      ≡ first (has_account_no m) xs
unfolding increment
first-increment_ne n m k d xs ne =
    first-update_first_ne (has_account_no n) (has_account_no m) _ xs (λ x. refl)
      (λ x h. ground (arith, eq_iff x.account_no n, eq_iff x.account_no m))
