-- ===== src/Account/Refinement/Entries.antt =====
-- The ledger that the accounts of src/account/account.repository.ts stand for, and its changes.
use transaction_service.Shared.{
  String, Option, none, some, List, Bool, true, false, ◌==◌, ◌≡◌, refl, ap, ◌∙◌, map_option,
  if◌then◌else◌, first, update_first,
}
use transaction_service.Account.Types.{Account}
use transaction_service.Account.Repository.{has_account_no}
use transaction_service.Account.Numbers.{Renumbers, first-update}
use transaction_service.Account.Ledger.{Entry, entry, Ledger, Outcome, account_is, put}

-- The ledger that the stored accounts stand for.
abbrev pub ledger : List Account → Ledger
ledger accounts n = map_option entry (first (has_account_no n) accounts)

abbrev pub answer : Option Account → Outcome
answer o = account_is (map_option entry o)

pub map_entry :
    (f : Account → Account) (g : Entry → Entry) (o : Option Account)
    → ((a : Account) → entry (f a) ≡ g (entry a))
    → map_option entry (map_option f o) ≡ map_option g (map_option entry o)
map_entry f g none same = refl
map_entry f g (some a) same = ap some (same a)

-- `map_option` goes under a conditional.
pub map-if :
    (b : Bool) (o p : Option Account)
    → map_option entry (if b then o else p) ≡ (if b then map_option entry o else map_option entry p)
map-if true o p = refl
map-if false o p = refl

-- A change of an account is the change of its entry.
pub ledger-update :
    (n : String) (f : Account → Account) (g : Entry → Entry) (xs : List Account)
    → Renumbers f
    → ((a : Account) → entry (f a) ≡ g (entry a))
    → ledger (update_first (has_account_no n) f xs) ≡ put n (map_option g (ledger xs n)) (ledger xs)
ledger-update n f g xs keeps same i m = under m i
  where
    under :
        (m : String)
        → ledger (update_first (has_account_no n) f xs) m
          ≡ put n (map_option g (ledger xs n)) (ledger xs) m
    under m =
        ap (map_option entry) (first-update n m f xs keeps)
        ∙ map-if (n == m) _ _
        ∙ rw (map_entry f g (first (has_account_no n) xs) same) refl
