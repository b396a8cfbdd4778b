-- ===== src/Transaction/Concurrency/Accounted.antt =====
-- What any number of transfers of src/transaction/service/transaction.service.ts at a time lose in
-- all.
use transaction_service.Shared.{
  ℕ, String, ℤ, pos, ◌+ℤ◌, int_laws, List, [], ◌∷◌, map, ◌≡◌, refl, sym, ◌∙◌,
}
use transaction_service.Driver.Errors.{Result}
use transaction_service.Driver.Prog.{Driver}
use transaction_service.Driver.Documents.{Documents, Failure, Follows}
use transaction_service.Driver.Interleaving.{Parked, with_writes}
use transaction_service.Driver.Interleaving.Pool.{run_pool}
use transaction_service.Driver.Interleaving.Losing.{Split, Pending, run_pool-Split}
use transaction_service.Account.Types.{Account}
use transaction_service.Account.Balances.{total}
use transaction_service.Transaction.Dto.{TransferRequest, TransferResponse}
use transaction_service.Transaction.Service.{Config}
use transaction_service.Transaction.Concurrency.Many.{waiting}
use transaction_service.Transaction.Concurrency.Losses.Moves.{Lost}
use transaction_service.Transaction.Concurrency.Losses.Transfers.{transfer-Settles}

plus_nothing : (a : ℤ) → a +ℤ pos 0 ≡ a
plus_nothing a = omega int_laws

-- The losses of the requests, from their results: their sum is `d`.
abbrev pub Losses : Config → List TransferRequest → List (Result TransferResponse) → ℤ → Type 0
Losses cfg reqs results d = Split (λ req r e. Lost cfg req r e) reqs results d

pub waiting-Pending :
    (numbers : List String) (cfg : Config) (reqs : List TransferRequest)
    → Split (Pending numbers (λ req r e. Lost cfg req r e)) reqs (waiting cfg reqs) (pos 0)
waiting-Pending numbers cfg [] = refl
waiting-Pending numbers cfg (req ∷ reqs) = (
  pos 0,
  pos 0,
  sym (plus_nothing (pos 0)),
  (transfer-Settles numbers cfg req, refl),
  waiting-Pending numbers cfg reqs,
)

-- Whatever calls fail, and in whatever order the calls of any number of transfers interleave, what
-- is missing from the sum of all balances afterwards is a sum of losses, one for each request:
-- nothing for a request that is answered, and nothing or exactly its validated amount for one that
-- fails. Each transfer has a session of its own: `enter` brings a session's writes back.
pub many_transfers_accounted :
    {W : Type 0} (view : W → Documents) (driver : Driver W)
    → Follows Failure view driver
    → (enter : Parked → W → W) → ((u : Parked) (w : W) → view (enter u w) ≡ with_writes u (view w))
    → (cfg : Config) (reqs : List TransferRequest) (turns : List ℕ) (w : W)
    → let (results, w') = run_pool view driver enter turns (waiting cfg reqs) w in
      (d : ℤ) × (total (view w').accounts +ℤ d ≡ total (view w).accounts)
      × Losses cfg reqs results d
many_transfers_accounted view driver follows enter enters cfg reqs turns w =
    let numbers = map (λ (a : Account). a.account_no) (view w).accounts in
    let (_, (d, sum, losses)) =
      run_pool-Split numbers (λ req r e. Lost cfg req r e) view driver follows enter enters turns
        reqs (waiting cfg reqs) w (pos 0) refl (waiting-Pending numbers cfg reqs) in
    (d, sum ∙ plus_nothing (total (view w).accounts), losses)
