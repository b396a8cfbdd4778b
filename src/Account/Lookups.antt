-- ===== src/Account/Lookups.antt =====
-- `create`, `delete` and the lookups of src/account/account.repository.ts, one after the other.
use transaction_service.Shared.{
  ℕ, ◌≤◌, String, Option, none, some, [], ◌∷◌, ◌++◌, Bool, true, false, ltb, is_some, ◌≡◌, sym, ◌⊎◌,
  inl, inr, refl, ap, ◌∙◌, eq_iff, first, select, length, remove_first, if◌then◌else◌,
}
use transaction_service.Driver.Errors.{Result, ok, err, ok-injective}
use transaction_service.Driver.Prog.{Driver, run, ret, throw, ◌>>=◌, ◌>>◌, settle, catch}
use transaction_service.Driver.Documents.{Documents, Saved, NoFailure, Follows}
use transaction_service.Driver.Triples.{Post, Ensures, Ensures-run}
use transaction_service.Account.Types.{Account, AccountData}
use transaction_service.Account.Schema.{new_account}
use transaction_service.Account.Repository.{
  has_account_no, duplicate_key, admit, save_account, create, find_by_account_no, delete,
}
use transaction_service.Account.Numbers.{first-append_new, first-remove_first}

-- How `create`, the lookup and `delete` end when no call fails. A valid account whose number is
-- taken is refused.
abbrev pub Created : (String → String) → AccountData → Documents → Post Account
Created upper_case data_ s (ok a) s' =
    (new_account upper_case data_ ≡ ok a)
    × (first (has_account_no a.account_no) s.accounts ≡ none)
    × (s' ≡ record s { accounts = s.accounts ++ a ∷ [] })
Created upper_case data_ s (err e) s' =
    ((new_account upper_case data_ ≡ err e)
      ⊎ ((a : Account) × (b : Account) × (new_account upper_case data_ ≡ ok a)
          × (first (has_account_no a.account_no) s.accounts ≡ some b)
          × (e ≡ duplicate_key)))
    × (s' ≡ s)

abbrev pub Found : String → Documents → Post (Option Account)
Found n s (ok o) s' = (o ≡ first (has_account_no n) s.accounts) × (s' ≡ s)
Found n s (err e) s' = ⊥

abbrev pub Deleted : String → Documents → Post Bool
Deleted n s (ok b) s' =
    (b ≡ is_some (first (has_account_no n) s.accounts))
    × (s' ≡ record s { accounts = remove_first (has_account_no n) s.accounts })
Deleted n s (err e) s' = ⊥

accepted :
    (upper_case : String → String) (data_ : AccountData) (s s' : Documents) (a : Account) (b : Bool)
    → new_account upper_case data_ ≡ ok a
    → Saved a s b s'
    → Ensures NoFailure (catch (admit b >> ret a) throw) (Created upper_case data_ s) s'
accepted upper_case data_ s s' a true h (new, same) = (h, new, same)
accepted upper_case data_ s s' a false h ((b, taken), same) = (inr (a, b, h, taken, refl), same)

saved :
    (upper_case : String → String) (data_ : AccountData) (s : Documents) (r : Result Account)
    → new_account upper_case data_ ≡ r
    → Ensures NoFailure
        (catch (settle r >>= λ account. save_account account >> ret account) throw)
        (Created upper_case data_ s)
        s
saved upper_case data_ s (ok a) h =
    (λ e s' f. absurd f, λ b s' reply. accepted upper_case data_ s s' a b h reply)
saved upper_case data_ s (err e) h = (inl h, refl)

one_or_none : (b : Bool) (k : ℕ) → k ≡ (if b then 1 else 0) → ltb 0 k ≡ b
one_or_none true k h = rw h refl
one_or_none false k h = rw h refl

pub create-Created :
    (upper_case : String → String) (data_ : AccountData) (s : Documents)
    → Ensures NoFailure (create upper_case data_) (Created upper_case data_ s) s
unfolding create
create-Created upper_case data_ s = saved upper_case data_ s (new_account upper_case data_) refl

find_by_account_no-Found :
    (n : String) (s : Documents) → Ensures NoFailure (find_by_account_no n) (Found n s) s
unfolding find_by_account_no
find_by_account_no-Found n s = (λ e s' f. absurd f, λ o s' reply. reply)

pub delete-Deleted : (n : String) (s : Documents) → Ensures NoFailure (delete n) (Deleted n s) s
unfolding delete
delete-Deleted n s = (λ e s' f. absurd f, λ k s' reply. (one_or_none _ k reply.0, reply.1))

module _ {W : Type 0} (view : W → Documents) (driver : Driver W)
    (follows : Follows NoFailure view driver) where
  run-find_by_account_no :
      (n : String) (w : W)
      → let (r, w') = run driver (find_by_account_no n) w in Found n (view w) r (view w')
  run-find_by_account_no n w =
      Ensures-run NoFailure view driver follows (find_by_account_no n) (Found n (view w)) w
        (find_by_account_no-Found n (view w))

  found_is :
      (n : String) (s s' : Documents) (o : Option Account) (r : Result (Option Account))
      → Found n s r s'
      → first (has_account_no n) s.accounts ≡ o
      → r ≡ ok o
  found_is n s s' o (ok o') (same, _) h = ap ok (same ∙ h)
  found_is n s s' o (err e) failed h = absurd failed

  stored :
      (upper_case : String → String) (data_ : AccountData) (a : Account) (s s' : Documents)
      (r : Result Account)
      → Created upper_case data_ s r s'
      → r ≡ ok a
      → (first (has_account_no a.account_no) s.accounts ≡ none)
        × (s' ≡ record s { accounts = s.accounts ++ a ∷ [] })
  stored upper_case data_ a s s' (ok b) (_, new, h) same = rw (sym (ok-injective same)) (new, h)
  stored upper_case data_ a s s' (err e) h same = absurd (cc same)

  -- When no call fails: an account that has been created is what the lookup of its number finds,
  -- and no account had that number before.
  pub find-create :
      (upper_case : String → String) (data_ : AccountData) (a : Account) (w : W)
      → (run driver (create upper_case data_) w).0 ≡ ok a
      → let w' = (run driver (create upper_case data_) w).1 in
        (first (has_account_no a.account_no) (view w).accounts ≡ none)
        × ((run driver (find_by_account_no a.account_no) w').0 ≡ ok (some a))
  find-create upper_case data_ a w created = (
    end_.0,
    found_is a.account_no (view (run driver (create upper_case data_) w).1) _ (some a) _
        (run-find_by_account_no a.account_no (run driver (create upper_case data_) w).1)
        (rw (end_.1) (
          first-append_new (has_account_no a.account_no) (view w).accounts a end_.0
            ((eq_iff a.account_no a.account_no).1 refl))),
  )
    where
      end_ :
          (first (has_account_no a.account_no) (view w).accounts ≡ none)
          × (view (run driver (create upper_case data_) w).1
              ≡ record (view w) { accounts = (view w).accounts ++ a ∷ [] })
      end_ =
          stored upper_case data_ a (view w) _ _
            (Ensures-run NoFailure view driver follows (create upper_case data_)
              (Created upper_case data_ (view w)) w (create-Created upper_case data_ (view w)))
            created

  -- When no call fails: if at most one account has a number, then deleting by it says whether there
  -- was one, and the lookup of that number finds nothing afterwards.
  pub find-delete :
      (n : String) (w : W)
      → length (select (has_account_no n) (view w).accounts) ≤ 1
      → let (r, w') = run driver (delete n) w in
        (r ≡ ok (is_some (first (has_account_no n) (view w).accounts)))
        × ((run driver (find_by_account_no n) w').0 ≡ ok none)
  find-delete n w unique = deleted (run driver (delete n) w).0 (run driver (delete n) w).1 (
      Ensures-run NoFailure view driver follows (delete n) (Deleted n (view w)) w
        (delete-Deleted n (view w)))
    where
      deleted :
          (r : Result Bool) (w' : W)
          → Deleted n (view w) r (view w')
          → (r ≡ ok (is_some (first (has_account_no n) (view w).accounts)))
            × ((run driver (find_by_account_no n) w').0 ≡ ok none)
      deleted (ok b) w' (same, h) = (
        ap ok same,
        found_is n (view w') _ none _ (run-find_by_account_no n w')
            (rw h (first-remove_first (has_account_no n) (view w).accounts unique)),
      )
      deleted (err e) w' h = absurd h
