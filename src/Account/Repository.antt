-- ===== src/Account/Repository.antt =====
-- `AccountRepository` of src/account/account.repository.ts. Its log lines are left out.
use transaction_service.Shared.{
  ℕ, String, ℤ, ◌+ℤ◌, leb_ℤ, Option, none, some, List, Bool, true, false, ltb, ◌==◌,
}
use transaction_service.Driver.Errors.{Exception, exception, mongo_error}
use transaction_service.Driver.Calls.{
  direct, in_session, account_save, account_find_one, account_find, account_find_one_and_update,
  account_delete_one, now,
}
use transaction_service.Driver.Prog.{Prog, ret, throw, ◌>>=◌, ◌>>◌, settle, await, catch}
use transaction_service.Account.Types.{Account, AccountData, AccountStatus, active, frozen}
use transaction_service.Account.Schema.{new_account}

-- The filter `{ accountNo }`.
abbrev pub has_account_no : String → Account → Bool
has_account_no n a = a.account_no == n

-- The filter `{ userId }`.
abbrev pub has_user_id : String → Account → Bool
has_user_id u a = a.user_id == u

-- `$inc: { balance: amount }, $set: { lastTransactionAt: date }`
unfoldable pub increment : ℤ → ℕ → Account → Account
increment amount date a = record a {
  balance = a.balance +ℤ amount;
  last_transaction_at = some date;
}

-- The update of `freeze`.
unfoldable pub set_frozen : String → ℕ → Account → Account
set_frozen reason date a = record a {
  status = frozen;
  frozen_reason = some reason;
  frozen_at = some date;
}

-- The update of `unfreeze`, with its `$unset`.
unfoldable pub set_active : Account → Account
set_active a = record a { status = active; frozen_reason = none; frozen_at = none }

-- `account?.status === AccountStatus.ACTIVE`
abbrev pub is_active : AccountStatus → Bool
is_active active = true
is_active _ = false

-- What the server reports of a violated unique index, its message cut to its beginning.
abbrev pub duplicate_key : Exception
duplicate_key = exception (mongo_error 11000) "E11000 duplicate key error"

abbrev pub admit : Bool → Prog Unit
admit true = ret tt
admit false = throw duplicate_key

-- `account.save()`, with the answer of the unique index.
abbrev pub save_account : Account → Prog Unit
save_account account = do unique ← await (account_save account); admit unique

unfoldable pub create : (String → String) → AccountData → Prog Account
create upper_case data_ =
    catch (do account ← settle (new_account upper_case data_); save_account account; ret account)
      throw

unfoldable pub find_by_account_no : String → Prog (Option Account)
find_by_account_no n = catch (await (account_find_one (has_account_no n) direct)) throw

unfoldable pub find_by_user_id : String → Prog (List Account)
find_by_user_id u = catch (await (account_find (has_user_id u))) throw

unfoldable pub update_balance : String → ℤ → Prog (Option Account)
update_balance n amount =
    catch
      (do
        date ← await now
        await (account_find_one_and_update (has_account_no n) (increment amount date) direct))
      throw

unfoldable pub update_balance_with_session : String → ℤ → Prog (Option Account)
update_balance_with_session n amount =
    catch
      (do
        date ← await now
        await (account_find_one_and_update (has_account_no n) (increment amount date) in_session))
      throw

unfoldable pub freeze : String → String → Prog (Option Account)
freeze n reason =
    catch
      (do
        date ← await now
        await (account_find_one_and_update (has_account_no n) (set_frozen reason date) direct))
      throw

unfoldable pub unfreeze : String → Prog (Option Account)
unfreeze n = catch (await (account_find_one_and_update (has_account_no n) set_active direct)) throw

abbrev pub covers : ℤ → Option Account → Bool
covers amount none = false
covers amount (some a) = leb_ℤ amount a.balance

unfoldable pub check_sufficient_balance : String → ℤ → Prog Bool
unfolding find_by_account_no
check_sufficient_balance n amount =
    catch (do account ← find_by_account_no n; ret (covers amount account)) throw

abbrev pub status_is_active : Option Account → Bool
status_is_active none = false
status_is_active (some a) = is_active a.status

unfoldable pub is_account_active : String → Prog Bool
unfolding find_by_account_no
is_account_active n =
    catch (do account ← find_by_account_no n; ret (status_is_active account)) throw

unfoldable pub get_account_with_lock : String → Prog (Option Account)
get_account_with_lock n = catch (await (account_find_one (has_account_no n) in_session)) throw

unfoldable pub delete : String → Prog Bool
delete n =
    catch
      (do deleted_count ← await (account_delete_one (has_account_no n)); ret (ltb 0 deleted_count))
      throw
