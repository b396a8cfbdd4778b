-- ===== src/Tests/Data.antt =====
-- Sample data: the accounts of init.mongo.js, and requests between them.
use transaction_service.Shared.{String, ℤ, pos, Number, finite, Option, none, some, List, [], ◌∷◌}
use transaction_service.Account.Types.{Account, active, frozen}
use transaction_service.Driver.Documents.{Documents}
use transaction_service.Driver.Memory.{World, Fault}
use transaction_service.Transaction.Dto.{TransferRequest}
use transaction_service.Transaction.Service.{Config}

abbrev pub account : String → String → ℤ → Account
account n u b = record {
  account_no = n;
  user_id = u;
  balance = b;
  currency = "USD";
  status = active;
  account_type = "SAVINGS";
  frozen_reason = none;
  frozen_at = none;
  last_transaction_at = none;
}

abbrev pub first_account : Account
first_account = account "ACC-1001" "user-001" (pos 500000)

abbrev pub second_account : Account
second_account = account "ACC-2002" "user-002" (pos 300000)

abbrev pub third_account : Account
third_account = record (account "ACC-3003" "user-001" (pos 1000000)) {
  status = frozen;
  frozen_at = some 7;
}

abbrev pub documents : Documents
documents = record {
  accounts = first_account ∷ second_account ∷ third_account ∷ [];
  account_writes = [];
  transactions = [];
  transaction_writes = [];
  logs = [];
  cache = [];
}

abbrev pub world : List Fault → World
world faults = record { documents = documents; clock = 1000; faults = faults }

-- The limits of the .env file: 0.01 and 1000000.
abbrev pub cfg : Config
cfg = record {
  max_setting = finite (pos 100000000);
  min_setting = finite (pos 1);
  upper_case = λ s. s;
  session_text = "[object Object]";
}

abbrev pub request : String → String → Number → Option String → TransferRequest
request from to amount key = record {
  from_account = from;
  to_account = to;
  amount = amount;
  currency = "USD";
  description = none;
  reference_no = none;
  user_id = some "user-001";
  idempotency_key = key;
}

abbrev pub payment : TransferRequest
payment = request "ACC-1001" "ACC-2002" (finite (pos 20000)) (some "key-1")

abbrev pub from_frozen : TransferRequest
from_frozen = request "ACC-3003" "ACC-2002" (finite (pos 20000)) none
