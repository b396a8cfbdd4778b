-- ===== src/Driver/Memory/Order.antt =====
-- What the driver over memory computes: sorted histories, latest entries, groups, new identifiers.
use Prim.Native.String.{◌++◌ as ◌<>◌, count}
use mathlib.Core.List.{Perm}
use mathlib.Core.List.Perm
use mathlib.Core.Path.{subst}
use text.Mathlib.TextLemmas
use transaction_service.Shared.{
  ℕ, zero, suc, ◌+◌, ◌≤◌, ◌<◌, String, Option, none, some, List, [], ◌∷◌, Bool, true, false, not,
  ◌==◌, ◌≡◌, refl, sym, ap, ◌⊎◌, inl, inr, leb, nat_eq, length, select, first, Bool-cases, eq_iff,
  if◌then◌else◌, arith,
}
use transaction_service.Transaction.Types.{Transaction, type_index}
use transaction_service.Fraud.Types.{TransactionLog}
use transaction_service.Driver.Calls.{Statistic}
use transaction_service.Driver.Documents.{
  Descending, NoneLater, IsLatest, Groups, same_type, sum_amounts,
}

insert_newest : Transaction → List Transaction → List Transaction
insert_newest t [] = t ∷ []
insert_newest t (u ∷ us) =
    if leb u.created_at t.created_at then t ∷ u ∷ us else u ∷ insert_newest t us

unfoldable pub newest_first : List Transaction → List Transaction
unfolding insert_newest
newest_first [] = []
newest_first (t ∷ ts) = insert_newest t (newest_first ts)

insert_newest-perm : (t : Transaction) (us : List Transaction) → Perm (insert_newest t us) (t ∷ us)
unfolding insert_newest
insert_newest-perm t [] = Perm.refl _
insert_newest-perm t (u ∷ us) = elim (Bool-cases (leb u.created_at t.created_at)) [
  | inl older ↦ rw older (Perm.refl _)
  | inr newer ↦ rw newer (Perm.trans (Perm.cons u (insert_newest-perm t us)) (Perm.swap t u us))
]

pub newest_first-perm : (ts : List Transaction) → Perm (newest_first ts) ts
unfolding newest_first
newest_first-perm [] = Perm.refl _
newest_first-perm (t ∷ ts) =
    Perm.trans (insert_newest-perm t (newest_first ts)) (Perm.cons t (newest_first-perm ts))

insert_newest-Descending :
    (t : Transaction) (us : List Transaction) → Descending us → Descending (insert_newest t us)
unfolding insert_newest
insert_newest-Descending t [] h = tt
insert_newest-Descending t (u ∷ []) h = ground arith
insert_newest-Descending t (u ∷ v ∷ us) h = ground (arith, insert_newest-Descending t (v ∷ us) h.1)

pub newest_first-Descending : (ts : List Transaction) → Descending (newest_first ts)
unfolding newest_first
newest_first-Descending [] = tt
newest_first-Descending (t ∷ ts) =
    insert_newest-Descending t (newest_first ts) (newest_first-Descending ts)

later_of : TransactionLog → Option TransactionLog → TransactionLog
later_of l none = l
later_of l (some m) = if leb m.timestamp l.timestamp then l else m

unfoldable pub latest : List TransactionLog → Option TransactionLog
unfolding later_of
latest [] = none
latest (l ∷ ls) = some (later_of l (latest ls))

NoneLater-trans :
    (l m : TransactionLog) (ls : List TransactionLog)
    → m.timestamp ≤ l.timestamp
    → NoneLater m ls
    → NoneLater l ls
NoneLater-trans l m [] h k = tt
NoneLater-trans l m (x ∷ ls) h k = (omega arith, NoneLater-trans l m ls h k.1)

later_of-cases :
    (l m : TransactionLog)
    → ((later_of l (some m) ≡ l) × (m.timestamp ≤ l.timestamp))
      ⊎ ((later_of l (some m) ≡ m) × (l.timestamp ≤ m.timestamp))
unfolding later_of
later_of-cases l m = elim (Bool-cases (leb m.timestamp l.timestamp)) [
  | inl older ↦ inl (rw older, ground arith)
  | inr newer ↦ inr (rw newer, ground arith)
]

IsLatest-cons :
    (l : TransactionLog) (ls : List TransactionLog) (o : Option TransactionLog)
    → IsLatest ls o
    → IsLatest (l ∷ ls) (some (later_of l o))
IsLatest-cons l ls none h = unfold later_of in (inl refl, (omega arith, rw h tt))
IsLatest-cons l ls (some m) h = elim (later_of-cases l m) [
  | inl (first_one, older) ↦
      subst (λ x. IsLatest (l ∷ ls) (some x)) (sym first_one)
        (inl refl, (omega arith, NoneLater-trans l m ls older h.1))
  | inr (second_one, newer) ↦
      subst (λ x. IsLatest (l ∷ ls) (some x)) (sym second_one) (inr h.0, (newer, h.1))
]

pub latest-IsLatest : (ls : List TransactionLog) → IsLatest ls (latest ls)
unfolding latest
latest-IsLatest [] = refl
latest-IsLatest (l ∷ ls) = IsLatest-cons l ls (latest ls) (latest-IsLatest ls)

abbrev statistic : Transaction → List Transaction → Statistic
statistic t inside = record {
  type = t.type;
  count = length inside;
  total_amount = sum_amounts inside;
  avg_amount = (sum_amounts inside, length inside);
}

abbrev group_of : Transaction → List Transaction → Statistic
group_of t ts = statistic t (t ∷ select (λ u. same_type u (statistic t [])) ts)

unfoldable pub groups : ℕ → List Transaction → List Statistic
groups zero ts = []
groups (suc n) [] = []
groups (suc n) (t ∷ ts) =
    group_of t ts ∷ groups n (select (λ u. not (same_type u (statistic t []))) ts)

length-select-le :
    (p : Transaction → Bool) (ts : List Transaction) → length (select p ts) ≤ length ts
length-select-le p [] = omega arith
length-select-le p (t ∷ ts) = ground (arith, length-select-le p ts)

nat_eq_self : (n : ℕ) → nat_eq n n ≡ true
nat_eq_self n = ground arith

pub groups-Groups :
    (n : ℕ) (ts : List Transaction) → length ts ≤ n → Groups same_type ts (groups n ts)
unfolding groups
groups-Groups zero [] h = refl
groups-Groups zero (t ∷ ts) h = absurd (omega arith)
groups-Groups (suc n) [] h = refl
groups-Groups (suc n) (t ∷ ts) h = rw (nat_eq_self (type_index t.type)) (
  refl,
  refl,
  refl,
  omega arith,
  groups-Groups n _ (omega (arith, length-select-le (λ u. not (same_type u (statistic t []))) ts)),
)

-- Longer than each identifier in use.
unfoldable pub new_id : List Transaction → String
new_id [] = "t"
new_id (t ∷ ts) = "t" <> (t.transaction_id <> new_id ts)

abbrev Shorter : List Transaction → ℕ → Type 0
Shorter [] n = Unit
Shorter (t ∷ ts) n = (count t.transaction_id < n) × Shorter ts n

Shorter-mono : (ts : List Transaction) (m n : ℕ) → m ≤ n → Shorter ts m → Shorter ts n
Shorter-mono [] m n h k = tt
Shorter-mono (t ∷ ts) m n h k = (omega arith, Shorter-mono ts m n h k.1)

count-new_id :
    (t : Transaction) (ts : List Transaction)
    → count (new_id (t ∷ ts)) ≡ 1 + (count t.transaction_id + count (new_id ts))
unfolding new_id
count-new_id t ts = rw (TextLemmas.length-append, TextLemmas.length-append) refl

new_id-Shorter : (ts : List Transaction) → Shorter ts (count (new_id ts))
new_id-Shorter [] = tt
new_id-Shorter (t ∷ ts) = (
  omega (arith, count-new_id t ts),
  Shorter-mono ts (count (new_id ts)) _ (omega (arith, count-new_id t ts)) (new_id-Shorter ts),
)

first-Shorter :
    (ts : List Transaction) (id : String)
    → Shorter ts (count id)
    → first (λ t. t.transaction_id == id) ts ≡ none
first-Shorter [] id h = refl
first-Shorter (t ∷ ts) id h = elim (Bool-cases (t.transaction_id == id)) [
  | inl same ↦
      let e : count t.transaction_id ≡ count id = ap count ((eq_iff t.transaction_id id).0 same) in
      absurd (omega arith)
  | inr other ↦ rw other (first-Shorter ts id h.1)
]

-- It is used nowhere.
pub new_id_fresh : (ts : List Transaction) → first (λ t. t.transaction_id == new_id ts) ts ≡ none
new_id_fresh ts = first-Shorter ts (new_id ts) (new_id-Shorter ts)

pub new_id_nonempty : (ts : List Transaction) → (new_id ts == "") ≡ false
unfolding new_id
new_id_nonempty [] = refl
new_id_nonempty (t ∷ ts) = elim (Bool-cases (new_id (t ∷ ts) == "")) [
  | inl empty ↦
      let e : count (new_id (t ∷ ts)) ≡ 0 = ap count ((eq_iff (new_id (t ∷ ts)) "").0 empty) in
      absurd (omega (arith, count-new_id t ts))
  | inr other ↦ other
]
