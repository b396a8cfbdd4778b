-- ===== src/Transaction/Service/Rules.antt =====
-- The rules of a transfer, stated on the stored accounts: when one is refused, and with what.
-- src/transaction/service/transaction.service.ts.
use transaction_service.Shared.{
  ℕ, String, ℤ, ◌≤ℤ◌, ◌<ℤ◌, neg_ℤ, Option, List, [], ◌∷◌, ◌++◌, none, some, true, false, ◌==◌, ◌≡◌,
  ◌≢◌, ◌⊎◌, first, update_first,
}
use transaction_service.Driver.Errors.{
  Exception, Result, ok, err, exception, bad_request, not_found, internal_server_error,
}
use transaction_service.Driver.Documents.{Documents, cached}
use transaction_service.Account.Types.{Account, frozen}
use transaction_service.Account.Repository.{has_account_no, increment}
use transaction_service.Transaction.Types.{Transaction}
use transaction_service.Transaction.Dto.{TransferRequest, TransferResponse}
use transaction_service.Transaction.Schema.{new_transaction, is_invalid}
use transaction_service.Transaction.Service.{
  Config, transfer_data, transfer_response, validate_amount,
}
use transaction_service.Transaction.Service.Requests.{truthy_text}

abbrev pub sender_of : TransferRequest → List Account → Option Account
sender_of req accounts = first (has_account_no req.from_account) accounts

abbrev pub receiver_of : TransferRequest → List Account → Option Account
receiver_of req accounts = first (has_account_no req.to_account) accounts

module _ (req : TransferRequest) (amount : ℤ) (accounts : List Account) where
  -- The accounts' part of the rules, for the sender `a`.
  pub record IsCovered (a : Account) : Type 0 where
    pub sender : sender_of req accounts ≡ some a
    pub receiver : receiver_of req accounts ≢ none
    pub unfrozen : a.status ≢ frozen
    pub funds : amount ≤ℤ a.balance

  -- The refusals that the accounts give rise to, in the order in which they are made.
  pub data Refused (e : Exception) : Type 0 where
    no_sender :
        sender_of req accounts ≡ none → e ≡ exception not_found "From account not found" → Refused e
    no_receiver :
        sender_of req accounts ≢ none
        → receiver_of req accounts ≡ none
        → e ≡ exception not_found "To account not found"
        → Refused e
    sender_frozen :
        (a : Account)
        → sender_of req accounts ≡ some a
        → receiver_of req accounts ≢ none
        → a.status ≡ frozen
        → e ≡ exception bad_request "Account frozen due to fraud detection"
        → Refused e
    short_of_funds :
        (a : Account)
        → sender_of req accounts ≡ some a
        → receiver_of req accounts ≢ none
        → a.status ≢ frozen
        → a.balance <ℤ amount
        → e ≡ exception bad_request "Insufficient funds"
        → Refused e

-- Every test that comes before the first write has passed, with `a` for the sender.
pub record IsApproved (cfg : Config) (req : TransferRequest) (amount : ℤ) (accounts : List Account)
    (a : Account) : Type 0 where
  pub valid : validate_amount cfg req.amount ≡ ok amount
  pub apart : req.from_account ≢ req.to_account
  pub covered : IsCovered req amount accounts a

-- The two updates of the balances, at the dates at which they are made.
abbrev pub debit : TransferRequest → ℤ → ℕ → List Account → List Account
debit req amount date =
    update_first (has_account_no req.from_account) (increment (neg_ℤ amount) date)

abbrev pub credit : TransferRequest → ℤ → ℕ → List Account → List Account
credit req amount date = update_first (has_account_no req.to_account) (increment amount date)

-- The record of a transfer as it is saved, its status PROCESSING.
abbrev pub processing_record : Config → TransferRequest → String → ℤ → ℕ → Transaction
processing_record cfg req id amount date =
    record (new_transaction cfg.upper_case (transfer_data id req amount)) { created_at = date }

-- The accounts before, between and after the two updates. Once they differ, the transfer was
-- approved.
pub data IsStage (cfg : Config) (req : TransferRequest) (amount : ℤ) (before after : List Account)
    : Type 0 where
  untouched : after ≡ before → IsStage cfg req amount before after
  debited :
      (a : Account) (d : ℕ)
      → IsApproved cfg req amount before a
      → after ≡ debit req amount d before
      → IsStage cfg req amount before after
  moved :
      (a : Account) (d d' : ℕ)
      → IsApproved cfg req amount before a
      → after ≡ credit req amount d' (debit req amount d before)
      → IsStage cfg req amount before after

-- The stored documents after a completed transfer.
abbrev pub completed :
    Config → TransferRequest → String → ℤ → (d d' date : ℕ) → Documents → Documents
completed cfg req id amount d d' date s = record s {
  accounts = credit req amount d' (debit req amount d s.accounts);
  account_writes = [];
  transactions = s.transactions ++ processing_record cfg req id amount date ∷ [];
  transaction_writes = [];
}

-- What a transfer may leave behind that a failed call has cut short.
pub record IsPartial (cfg : Config) (req : TransferRequest) (id : String) (amount : ℤ)
    (s s' : Documents) : Type 0 where
  pub stage : IsStage cfg req amount s.accounts s'.accounts
  pub recorded :
      (s'.transactions ≡ s.transactions)
      ⊎ ((date : ℕ) × (s'.transactions
            ≡ s.transactions ++ processing_record cfg req id amount date ∷ []))
  pub no_account_writes : s'.account_writes ≡ []
  pub cache : s'.cache ≡ s.cache
  pub logs : s'.logs ≡ s.logs

-- The documents with the response stored under the key of the request, if it has one.
abbrev pub remembered : Option String → TransferResponse → Documents → Documents
remembered none r s = s
remembered (some key) r s = record s { cache = (key, r) ∷ s.cache }

-- Nothing that is stored has changed.
pub record IsSame (s s' : Documents) : Type 0 where
  pub accounts : s'.accounts ≡ s.accounts
  pub transactions : s'.transactions ≡ s.transactions
  pub cache : s'.cache ≡ s.cache
  pub logs : s'.logs ≡ s.logs

-- What is stored when a transfer has been cut short by a failed call: the accounts at some stage,
-- the record or not, the response or not, and nothing else.
pub record IsInterrupted (cfg : Config) (req : TransferRequest) (s s' : Documents) : Type 0 where
  pub amount : ℤ
  pub id : String
  pub stage : IsStage cfg req amount s.accounts s'.accounts
  pub recorded :
      (s'.transactions ≡ s.transactions)
      ⊎ ((date : ℕ) × (s'.transactions
            ≡ s.transactions ++ processing_record cfg req id amount date ∷ []))
  pub cache :
      (s'.cache ≡ s.cache)
      ⊎ ((key : String) × (r : TransferResponse) × (truthy_text req.idempotency_key ≡ some key)
          × (s'.cache ≡ (key, r) ∷ s.cache))
  pub logs : s'.logs ≡ s.logs

-- Why a transfer is refused, by the code's own tests or by the schema.
pub data IsRefusal (cfg : Config) (req : TransferRequest) (accounts : List Account) (e : Exception)
    : Type 0 where
  invalid_amount : validate_amount cfg req.amount ≡ err e → IsRefusal cfg req accounts e
  same_account :
      req.from_account ≡ req.to_account
      → e ≡ exception bad_request "Cannot transfer to the same account"
      → IsRefusal cfg req accounts e
  by_accounts :
      (amount : ℤ)
      → validate_amount cfg req.amount ≡ ok amount
      → Refused req amount accounts e
      → IsRefusal cfg req accounts e
  by_schema :
      (amount : ℤ) (id : String) (a : Account)
      → IsApproved cfg req amount accounts a
      → (id == "") ≡ false
      → is_invalid cfg.upper_case (transfer_data id req amount) ≡ true
      → e ≡ exception internal_server_error "Database error during transaction creation"
      → IsRefusal cfg req accounts e

-- A transfer that has been made: every rule held, the response tells of it, and exactly the two
-- balances, one record in status PROCESSING and the response in the cache are new.
pub record IsPerformed (cfg : Config) (req : TransferRequest) (r : TransferResponse)
    (s s' : Documents) : Type 0 where
  pub amount : ℤ
  pub id : String
  pub sender : Account
  pub debit_date : ℕ
  pub credit_date : ℕ
  pub created_at : ℕ
  pub timestamp : ℕ
  pub approved : IsApproved cfg req amount s.accounts sender
  pub response : r ≡ transfer_response req id amount sender timestamp
  pub stored :
      s'
      ≡ remembered
          (truthy_text req.idempotency_key)
          r
          (completed cfg req id amount debit_date credit_date created_at s)

-- A response that was in the cache has come back, and nothing else has happened.
abbrev pub IsReplayed : TransferRequest → TransferResponse → Documents → Documents → Type 0
IsReplayed req r s s' =
    (key : String) × (truthy_text req.idempotency_key ≡ some key)
    × (cached key s.cache ≡ some r)
    × (s' ≡ s)

-- How any call of `transfer` ends.
abbrev pub Outcome :
    Config → TransferRequest → Documents → Result TransferResponse → Documents → Type 0
Outcome cfg req s (ok r) s' = IsReplayed req r s s' ⊎ IsPerformed cfg req r s s'
Outcome cfg req s (err e) s' =
    IsInterrupted cfg req s s' ⊎ (IsRefusal cfg req s.accounts e × IsSame s s')
