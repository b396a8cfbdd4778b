-- ===== src/Transaction/Concurrency/Many.antt =====
-- Any number of transfers of src/transaction/service/transaction.service.ts at a time.
use transaction_service.Shared.{
  ℕ, String, ℤ, pos, ◌+ℤ◌, int_laws, List, [], ◌∷◌, map, ◌≡◌, refl, sym, ◌∙◌,
}
use transaction_service.Driver.Prog.{Driver}
use transaction_service.Driver.Documents.{Documents, NoFailure, Follows}
use transaction_service.Driver.Interleaving.{Parked, with_writes}
use transaction_service.Driver.Interleaving.Pool.{Active, run_pool, Debts, run_pool-total}
use transaction_service.Account.Types.{Account}
use transaction_service.Account.Balances.{total}
use transaction_service.Transaction.Dto.{TransferRequest, TransferResponse}
use transaction_service.Transaction.Service.{Config, transfer}
use transaction_service.Transaction.Concurrency.{no_writes}
use transaction_service.Transaction.Concurrency.Owing.{transfer-Owes}

-- Transfers that have not begun, each with a session of its own.
abbrev pub waiting : Config → List TransferRequest → List (Active TransferResponse)
waiting cfg [] = []
waiting cfg (req ∷ reqs) =
    record { program = transfer cfg req; writes = no_writes } ∷ waiting cfg reqs

nothing_added : (a : ℤ) → a +ℤ pos 0 ≡ a
nothing_added a = omega int_laws

waiting-Debts :
    (numbers : List String) (cfg : Config) (reqs : List TransferRequest)
    → Debts numbers (waiting cfg reqs) (pos 0)
waiting-Debts numbers cfg [] = refl
waiting-Debts numbers cfg (req ∷ reqs) = (
  pos 0,
  pos 0,
  sym (nothing_added (pos 0)),
  transfer-Owes numbers cfg req,
  refl,
  waiting-Debts numbers cfg reqs,
)

-- When no call fails, any number of transfers whose calls interleave in any order leave the sum of
-- all balances as it was, each with a session of its own: `enter` brings a session's writes back,
-- and the turns say which transfer makes its next call.
pub many_transfers_conserve :
    {W : Type 0} (view : W → Documents) (driver : Driver W)
    → Follows NoFailure view driver
    → (enter : Parked → W → W) → ((u : Parked) (w : W) → view (enter u w) ≡ with_writes u (view w))
    → (cfg : Config) (reqs : List TransferRequest) (turns : List ℕ) (w : W)
    → total (view (run_pool view driver enter turns (waiting cfg reqs) w).1).accounts
      ≡ total (view w).accounts
many_transfers_conserve view driver follows enter enters cfg reqs turns w =
    run_pool-total (map (λ (a : Account). a.account_no) (view w).accounts) view driver follows enter
      enters turns (waiting cfg reqs) w (pos 0) refl (waiting-Debts _ cfg reqs)
    ∙ nothing_added (total (view w).accounts)
