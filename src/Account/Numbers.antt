-- ===== src/Account/Numbers.antt =====
-- Account numbers stay unique under the changes that src/account/account.repository.ts makes, and
-- what is found under each number afterwards.
use transaction_service.Shared.{
  ◌≤◌, String, none, some, List, [], ◌∷◌, ◌++◌, Bool, true, false, ◌==◌, ◌≡◌, refl, eq_iff, arith,
  first, select, length, update_first, remove_first, map_option, sym, ◌+◌, first-update_first,
  first-update_first_ne, if◌then◌else◌, Bool-cases, inl, inr,
}
use transaction_service.Account.Types.{Account}
use transaction_service.Account.Repository.{has_account_no}

abbrev pub IsUnique : List Account → Type 0
IsUnique accounts = (n : String) → length (select (has_account_no n) accounts) ≤ 1

-- A change that leaves the numbers alone.
abbrev pub Renumbers : (Account → Account) → Type 0
Renumbers f = (a : Account) → (f a).account_no ≡ a.account_no

module _ {A : Type 0} (p : A → Bool) where
  length-select-update_first :
      (q : A → Bool) (f : A → A) (xs : List A)
      → ((x : A) → p (f x) ≡ p x)
      → length (select p (update_first q f xs)) ≡ length (select p xs)
  length-select-update_first q f [] keeps = refl
  length-select-update_first q f (x ∷ xs) keeps =
      ground (arith, keeps x, length-select-update_first q f xs keeps)

  length-select-remove_first :
      (q : A → Bool) (xs : List A) → length (select p (remove_first q xs)) ≤ length (select p xs)
  length-select-remove_first q [] = omega arith
  length-select-remove_first q (x ∷ xs) = ground (arith, length-select-remove_first q xs)

  length-select-none : (xs : List A) → first p xs ≡ none → length (select p xs) ≡ 0
  length-select-none [] h = refl
  length-select-none (x ∷ xs) h = ground (arith, length-select-none xs)

  length-select-snoc :
      (xs : List A) (y : A)
      → length (select p (xs ++ y ∷ [])) ≡ length (select p xs) + (if p y then 1 else 0)
  length-select-snoc [] y = ground arith
  length-select-snoc (x ∷ xs) y = ground (arith, length-select-snoc xs y)

  pub none_selected : (xs : List A) → length (select p xs) ≤ 0 → first p xs ≡ none
  none_selected [] h = refl
  none_selected (x ∷ xs) h = ground (arith, none_selected xs)

  pub first-remove_first :
      (xs : List A) → length (select p xs) ≤ 1 → first p (remove_first p xs) ≡ none
  first-remove_first [] h = refl
  first-remove_first (x ∷ xs) h = ground (arith, first-remove_first xs, none_selected xs)

  pub first-append_new :
      (xs : List A) (y : A) → first p xs ≡ none → p y ≡ true → first p (xs ++ y ∷ []) ≡ some y
  first-append_new [] y h k = rw k refl
  first-append_new (x ∷ xs) y h k = ground (arith, first-append_new xs y)

  first-append_other : (xs : List A) (y : A) → p y ≡ false → first p (xs ++ y ∷ []) ≡ first p xs
  first-append_other [] y k = rw k refl
  first-append_other (x ∷ xs) y k = ground (arith, first-append_other xs y)

  first-remove_first_other :
      (q : A → Bool) (xs : List A)
      → ((x : A) → q x ≡ true → p x ≡ false)
      → first p (remove_first q xs) ≡ first p xs
  first-remove_first_other q [] apart = refl
  first-remove_first_other q (x ∷ xs) apart =
      ground (arith, apart x, first-remove_first_other q xs apart)

-- Two numbers that differ are never both an account's.
apart :
    (n m : String) (a : Account)
    → (n == m) ≡ false
    → has_account_no n a ≡ true
    → has_account_no m a ≡ false
apart n m a h k = ground (arith, eq_iff a.account_no n, eq_iff a.account_no m, eq_iff n m)

pub first-update :
    (n m : String) (f : Account → Account) (xs : List Account)
    → Renumbers f
    → first (has_account_no m) (update_first (has_account_no n) f xs)
      ≡ (if n == m then map_option f (first (has_account_no n) xs) else first (has_account_no m) xs)
first-update n m f xs keeps = elim (Bool-cases (n == m)) [
  | inl same ↦
      rw (same, sym ((eq_iff n m).0 same))
        (first-update_first (has_account_no n) f xs (λ a. rw (keeps a) refl))
  | inr other ↦ rw other (
      first-update_first_ne (has_account_no n) (has_account_no m) f xs (λ a. rw (keeps a) refl)
        (λ a h. apart n m a other h))
]

pub first-insert :
    (a : Account) (m : String) (xs : List Account)
    → first (has_account_no a.account_no) xs ≡ none
    → first (has_account_no m) (xs ++ a ∷ [])
      ≡ (if a.account_no == m then some a else first (has_account_no m) xs)
first-insert a m xs new = elim (Bool-cases (a.account_no == m)) [
  | inl same ↦
      rw (same, sym ((eq_iff a.account_no m).0 same))
        (first-append_new (has_account_no a.account_no) xs a new
          ((eq_iff a.account_no a.account_no).1 refl))
  | inr other ↦ rw other (first-append_other (has_account_no m) xs a other)
]

pub first-remove :
    (n m : String) (xs : List Account)
    → IsUnique xs
    → first (has_account_no m) (remove_first (has_account_no n) xs)
      ≡ (if n == m then none else first (has_account_no m) xs)
first-remove n m xs unique = elim (Bool-cases (n == m)) [
  | inl same ↦
      rw (same, sym ((eq_iff n m).0 same)) (first-remove_first (has_account_no n) xs (unique n))
  | inr other ↦ rw other (
      first-remove_first_other (has_account_no m) (has_account_no n) xs
        (λ a h. apart n m a other h))
]

pub update-IsUnique :
    (n : String) (f : Account → Account) (xs : List Account)
    → Renumbers f
    → IsUnique xs
    → IsUnique (update_first (has_account_no n) f xs)
update-IsUnique n f xs keeps h m =
    rw
      (length-select-update_first (has_account_no m) (has_account_no n) f xs
        (λ a. rw (keeps a) refl))
      (h m)

pub remove-IsUnique :
    (n : String) (xs : List Account) → IsUnique xs → IsUnique (remove_first (has_account_no n) xs)
remove-IsUnique n xs h m =
    omega (arith, h m, length-select-remove_first (has_account_no m) (has_account_no n) xs)

pub insert-IsUnique :
    (a : Account) (xs : List Account)
    → first (has_account_no a.account_no) xs ≡ none
    → IsUnique xs
    → IsUnique (xs ++ a ∷ [])
insert-IsUnique a xs new h m = elim (Bool-cases (a.account_no == m)) [
  | inl same ↦
      rw
        (
          length-select-snoc (has_account_no m) xs a,
          same,
          sym ((eq_iff a.account_no m).0 same),
          length-select-none (has_account_no a.account_no) xs new,
        )
        (omega arith)
  | inr other ↦ rw (length-select-snoc (has_account_no m) xs a, other) (omega (arith, h m))
]
