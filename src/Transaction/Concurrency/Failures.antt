-- ===== src/Transaction/Concurrency/Failures.antt =====
-- Any number of transfers of src/transaction/service/transaction.service.ts at a time, of which any
-- call may fail.
use transaction_service.Shared.{ℕ, zero, suc, ◌-◌, List, [], ◌∷◌, map, pos, ◌≡◌, refl}
use transaction_service.Driver.Errors.{Result, ok, err}
use transaction_service.Driver.Calls.{Call, Answer}
use transaction_service.Driver.Prog.{Prog, ret, throw, call, Driver, run}
use transaction_service.Driver.Documents.{Documents, Failure, Follows}
use transaction_service.Driver.Budget.{Within}
use transaction_service.Driver.Interleaving.{Parked, with_writes}
use transaction_service.Driver.Interleaving.Pool.{Active, advance, turn, finish_all, run_pool}
use transaction_service.Account.Types.{Account}
use transaction_service.Account.Outline.{
  outline, Outlined, Outlined-refl, OnlyBalances, HasOutline, kept_outline,
}
use transaction_service.Transaction.Dto.{TransferRequest}
use transaction_service.Transaction.Service.{Config}
use transaction_service.Transaction.Service.Calls.{transfer-Within}
use transaction_service.Driver.Interleaving.Losing.{run_pool-Split}
use transaction_service.Transaction.Concurrency.Losses.Moves.{Lost}
use transaction_service.Transaction.Concurrency.Accounted.{waiting-Pending}
use transaction_service.Transaction.Concurrency.Many.{waiting}

-- The requests change balances at most, and their sessions hold no writes to accounts.
abbrev AreBounded : {A : Type 0} → List (Active A) → Type 0
AreBounded [] = Unit
AreBounded (x ∷ xs) =
    (n : ℕ) × Within OnlyBalances n x.program × (x.writes.account_writes ≡ []) × AreBounded xs

entered_outline :
    {W : Type 0} (view : W → Documents) (enter : Parked → W → W)
    → ((u : Parked) (w : W) → view (enter u w) ≡ with_writes u (view w))
    → (accounts : List Account) (u : Parked) (w : W) → u.account_writes ≡ []
    → Outlined accounts (view w).accounts
    → HasOutline accounts (view (enter u w))
entered_outline view enter enters accounts u w idle h = rw (enters u w) (idle, h)

module _ {W : Type 0} (view : W → Documents) (driver : Driver W)
    (follows : Follows Failure view driver) (enter : Parked → W → W)
    (enters : (u : Parked) (w : W) → view (enter u w) ≡ with_writes u (view w))
    (accounts : List Account) {A : Type 0} where
  called :
      (n : ℕ) (c : Call) (k : Result (Answer c) → Prog A) (r : Result (Answer c))
      → Within OnlyBalances n (call c k)
      → Within OnlyBalances (n - 1) (k r)
  called n c k (ok a) (_, _, _, answered) = answered a
  called n c k (err e) (_, _, failed, _) = failed e

  run_outline :
      (n : ℕ) (m : Prog A) (w : W)
      → Within OnlyBalances n m
      → HasOutline accounts (view w)
      → HasOutline accounts (view (run driver m w).1)
  unfolding run
  run_outline n (ret a) w bounded h = h
  run_outline n (throw e) w bounded h = h
  run_outline n (call c k) w bounded h =
      let (r, w') = driver c w in
      run_outline (n - 1) (k r) w' (called n c k r bounded)
        (kept_outline view accounts c (view w) (driver c w) bounded.0 h (follows.replies c w))

  advanced :
      (n : ℕ) (m : Prog A) (u : Parked) (w : W)
      → Within OnlyBalances n m
      → u.account_writes ≡ []
      → Outlined accounts (view w).accounts
      → let (x, w') = advance view driver enter m u w in
        ((k : ℕ) × Within OnlyBalances k x.program)
        × (x.writes.account_writes ≡ [])
        × Outlined accounts (view w').accounts
  advanced n (ret a) u w bounded idle h = ((0, tt), idle, h)
  advanced n (throw e) u w bounded idle h = ((0, tt), idle, h)
  advanced n (call c k) u w bounded idle h =
      let (r, w') = driver c (enter u w) in
      let (idle', h') =
        kept_outline view accounts c (view (enter u w)) (driver c (enter u w)) bounded.0
          (entered_outline view enter enters accounts u w idle h) (follows.replies c (enter u w)) in
      ((n - 1, called n c k r bounded), idle', h')

  turn_outline :
      (i : ℕ) (xs : List (Active A)) (w : W)
      → AreBounded xs
      → Outlined accounts (view w).accounts
      → let (xs', w') = turn view driver enter i xs w in
        AreBounded xs' × Outlined accounts (view w').accounts
  turn_outline i [] w bounded h = (bounded, h)
  turn_outline zero (x ∷ xs) w (n, bounded, idle, others) h =
      let ((k, bounded'), idle', h') = advanced n x.program x.writes w bounded idle h in
      ((k, bounded', idle', others), h')
  turn_outline (suc i) (x ∷ xs) w (n, bounded, idle, others) h =
      let (others', h') = turn_outline i xs w others h in ((n, bounded, idle, others'), h')

  finish_all_outline :
      (xs : List (Active A)) (w : W)
      → AreBounded xs
      → Outlined accounts (view w).accounts
      → Outlined accounts (view (finish_all view driver enter xs w).1).accounts
  finish_all_outline [] w bounded h = h
  finish_all_outline (x ∷ xs) w (n, bounded, idle, others) h =
      let w' = (run driver x.program (enter x.writes w)).1 in
      finish_all_outline xs w' others
        (run_outline n x.program (enter x.writes w) bounded
          (entered_outline view enter enters accounts x.writes w idle h)).1

  run_pool_outline :
      (turns : List ℕ) (xs : List (Active A)) (w : W)
      → AreBounded xs
      → Outlined accounts (view w).accounts
      → Outlined accounts (view (run_pool view driver enter turns xs w).1).accounts
  unfolding run_pool
  run_pool_outline [] xs w bounded h = finish_all_outline xs w bounded h
  run_pool_outline (i ∷ turns) xs w bounded h =
      let (xs', w') = turn view driver enter i xs w in
      let (bounded', h') = turn_outline i xs w bounded h in
      run_pool_outline turns xs' w' bounded' h'

waiting-AreBounded : (cfg : Config) (reqs : List TransferRequest) → AreBounded (waiting cfg reqs)
waiting-AreBounded cfg [] = tt
waiting-AreBounded cfg (req ∷ reqs) =
    (21, transfer-Within cfg req, refl, waiting-AreBounded cfg reqs)

-- Whatever calls fail, and in whatever order the calls of any number of transfers interleave, no
-- account comes, goes or changes its place: the account numbers are the same in the same order, and
-- under each number the account that is found first has its owner, currency, status, type and
-- reason of a freeze as before. Each transfer has a session of its own.
pub outline-many_transfers :
    {W : Type 0} (view : W → Documents) (driver : Driver W)
    → Follows Failure view driver
    → (enter : Parked → W → W) → ((u : Parked) (w : W) → view (enter u w) ≡ with_writes u (view w))
    → (cfg : Config) (reqs : List TransferRequest) (turns : List ℕ) (w : W)
    → let w' = (run_pool view driver enter turns (waiting cfg reqs) w).1 in
      (map (λ (a : Account). a.account_no) (view w').accounts
        ≡ map (λ (a : Account). a.account_no) (view w).accounts)
      × (outline (view w').accounts ≡ outline (view w).accounts)
outline-many_transfers view driver follows enter enters cfg reqs turns w =
    let numbers = map (λ (a : Account). a.account_no) (view w).accounts in
    let (same, _) =
      run_pool-Split numbers (λ req r e. Lost cfg req r e) view driver follows enter enters turns
        reqs (waiting cfg reqs) w (pos 0) refl (waiting-Pending numbers cfg reqs) in
    let (_, outlined) =
      run_pool_outline view driver follows enter enters (view w).accounts turns (waiting cfg reqs) w
        (waiting-AreBounded cfg reqs) (Outlined-refl (view w).accounts (view w).accounts refl) in
    (same, outlined)
