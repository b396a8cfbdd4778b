-- ===== src/Account/Types.antt =====
-- The account document: src/account/type/accounts.ts. Balances are in hundredths, dates in
-- milliseconds. The timestamps `createdAt` and `updatedAt` are kept by mongoose and read nowhere.
use transaction_service.Shared.{ℕ, String, ℤ, Option}

pub data AccountStatus : Type 0 where
  active frozen suspended closed : AccountStatus

pub record Account : Type 0 where
  pub account_no : String
  pub user_id : String
  pub balance : ℤ
  pub currency : String
  pub status : AccountStatus
  pub account_type : String
  pub frozen_reason : Option String
  pub frozen_at : Option ℕ
  pub last_transaction_at : Option ℕ

-- `Partial<IAccount>`, what `new Account` is given.
pub record AccountData : Type 0 where
  pub account_no : Option String
  pub user_id : Option String
  pub balance : Option ℤ
  pub currency : Option String
  pub status : Option AccountStatus
  pub account_type : Option String
  pub frozen_reason : Option String
  pub frozen_at : Option ℕ
  pub last_transaction_at : Option ℕ
