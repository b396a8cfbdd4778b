-- ===== src/Transaction/Resolver/Statistics.antt =====
-- What the rows of the statistics say: src/transaction/resolver/transaction.resolver.ts.
use transaction_service.Shared.{
  nat_eq, not, leb, ◌≤◌, ◌&&◌, ◌||◌, true, ℕ, String, Option, none, some, List, [], ◌∷◌, map, Bool,
  ◌≡◌, refl, arith, select, length,
}
use transaction_service.Driver.Calls.{Statistic}
use transaction_service.Driver.Documents.{Groups, same_type, sum_amounts}
use transaction_service.Transaction.Types.{Transaction, success, status_index, type_index}
use transaction_service.Transaction.Repository.{is_text, match_stage}
use transaction_service.Transaction.Resolver.{StatisticRow, statistic_row}

pub select-ext :
    {A : Type 0} (p q : A → Bool) (xs : List A) → ((x : A) → p x ≡ q x) → select p xs ≡ select q xs
select-ext p q [] h = refl
select-ext p q (x ∷ xs) h = rw (h x, select-ext p q xs h) refl

abbrev pub since : Option ℕ → Transaction → Bool
since none t = true
since (some date) t = leb date t.created_at

abbrev pub until : Option ℕ → Transaction → Bool
until none t = true
until (some date) t = leb t.created_at date

-- A transaction of the account in the period that has succeeded.
abbrev pub counted_in : String → Option ℕ → Option ℕ → Transaction → Bool
counted_in n start_date end_date t =
    (is_text t.from_account n || is_text t.to_account n)
    && nat_eq (status_index t.status) (status_index success)
    && (since start_date t && until end_date t)

-- One row for each type that occurs: the number of its transactions, their sum, and their mean as
-- a sum and a number.
abbrev pub Rows : List Transaction → List StatisticRow → Type 0
Rows ts [] = ts ≡ []
Rows ts (row ∷ rows) =
    let inside = select (λ t. nat_eq (type_index t.type) (type_index row.type)) ts in
    (row.count ≡ length inside)
    × (row.total_amount ≡ sum_amounts inside)
    × (row.avg_amount ≡ (sum_amounts inside, length inside))
    × (1 ≤ length inside)
    × Rows (select (λ t. not (nat_eq (type_index t.type) (type_index row.type))) ts) rows

Groups-Rows :
    (ts : List Transaction) (groups : List Statistic)
    → Groups same_type ts groups
    → Rows ts (map statistic_row groups)
unfolding statistic_row
Groups-Rows ts [] h = h
Groups-Rows ts (g ∷ groups) (number, sum, mean, some_inside, rest) =
    (number, sum, mean, some_inside, Groups-Rows (select (λ t. not (same_type t g)) ts) groups rest)

match_stage-counted_in :
    (n : String) (a b : Option ℕ) (t : Transaction) → match_stage n a b t ≡ counted_in n a b t
unfolding match_stage
match_stage-counted_in n none none t = refl
match_stage-counted_in n (some a) none t = ground arith
match_stage-counted_in n none (some b) t = refl
match_stage-counted_in n (some a) (some b) t = refl

pub Groups-counted_in :
    (n : String) (a b : Option ℕ) (ts : List Transaction) (groups : List Statistic)
    → Groups same_type (select (match_stage n a b) ts) groups
    → Rows (select (counted_in n a b) ts) (map statistic_row groups)
Groups-counted_in n a b ts groups h =
    Groups-Rows (select (counted_in n a b) ts) groups
      (rw (← select-ext _ _ ts (match_stage-counted_in n a b)) h)
