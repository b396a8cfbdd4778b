-- ===== src/Account/Ledger.antt =====
-- What `AccountRepository` promises: accounts under their numbers, at most one under each. The
-- order of the documents and the dates of an update are forgotten.
use transaction_service.Shared.{
  String, ℤ, ◌+ℤ◌, leb_ℤ, Option, none, some, List, [], ◌∷◌, Bool, false, ◌==◌, is_some, map_option,
  if◌then◌else◌,
}
use transaction_service.Driver.Errors.{Exception, Result, ok, err}
use transaction_service.Account.Types.{Account, AccountData, AccountStatus, active, frozen}
use transaction_service.Account.Schema.{new_account}
use transaction_service.Account.Repository.{is_active, duplicate_key}

-- An account without its number and its dates.
pub record Entry : Type 0 where
  pub user_id : String
  pub balance : ℤ
  pub currency : String
  pub status : AccountStatus
  pub account_type : String
  pub frozen_reason : Option String

abbrev pub entry : Account → Entry
entry a = record {
  user_id = a.user_id;
  balance = a.balance;
  currency = a.currency;
  status = a.status;
  account_type = a.account_type;
  frozen_reason = a.frozen_reason;
}

abbrev pub Ledger : Type 0
Ledger = String → Option Entry

-- The operations of the repository outside a session.
pub data Operation : Type 0 where
  open_account : AccountData → Operation
  look_up : String → Operation
  owned_by : String → Operation
  add : String → ℤ → Operation
  block : String → String → Operation
  unblock : String → Operation
  covers_amount : String → ℤ → Operation
  in_use : String → Operation
  close_account : String → Operation

pub data Outcome : Type 0 where
  account_is : Option Entry → Outcome
  accounts_are : Ledger → Outcome
  says : Bool → Outcome
  refused : Exception → Outcome

abbrev pub put : String → Option Entry → Ledger → Ledger
put n o l m = if n == m then o else l m

abbrev pub credit : ℤ → Entry → Entry
credit amount e = record e { balance = e.balance +ℤ amount }

abbrev pub blocked : String → Entry → Entry
blocked reason e = record e { status = frozen; frozen_reason = some reason }

abbrev pub unblocked : Entry → Entry
unblocked e = record e { status = active; frozen_reason = none }

abbrev pub change : String → (Entry → Entry) → Ledger → Outcome × Ledger
change n f l = let o = map_option f (l n) in (account_is o, put n o l)

abbrev pub opened : Ledger → Result Account → Outcome × Ledger
opened l (err e) = (refused e, l)
opened l (ok a) =
    if is_some (l a.account_no)
    then (refused duplicate_key, l)
    else (account_is (some (entry a)), put a.account_no (some (entry a)) l)

abbrev pub holds : (Entry → Bool) → Option Entry → Bool
holds p none = false
holds p (some e) = p e

-- The entries that pass a test.
abbrev pub kept_if : (Entry → Bool) → Option Entry → Option Entry
kept_if p none = none
kept_if p (some e) = if p e then some e else none

-- What each operation answers, and the ledger that it leaves.
unfoldable pub specified : (String → String) → Operation → Ledger → Outcome × Ledger
specified upper_case (open_account d) l = opened l (new_account upper_case d)
specified upper_case (look_up n) l = (account_is (l n), l)
specified upper_case (owned_by user_id) l =
    (accounts_are (λ n. kept_if (λ e. e.user_id == user_id) (l n)), l)
specified upper_case (add n amount) l = change n (credit amount) l
specified upper_case (block n reason) l = change n (blocked reason) l
specified upper_case (unblock n) l = change n unblocked l
specified upper_case (covers_amount n amount) l =
    (says (holds (λ e. leb_ℤ amount e.balance) (l n)), l)
specified upper_case (in_use n) l = (says (holds (λ e. is_active e.status) (l n)), l)
specified upper_case (close_account n) l = (says (is_some (l n)), put n none l)

unfoldable pub specified_all : (String → String) → List Operation → Ledger → List Outcome × Ledger
specified_all upper_case [] l = ([], l)
specified_all upper_case (o ∷ os) l =
    let (out, l') = specified upper_case o l in
    let (outs, l'') = specified_all upper_case os l' in (out ∷ outs, l'')
