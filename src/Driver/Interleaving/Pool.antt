-- ===== src/Driver/Interleaving/Pool.antt =====
-- Any number of requests at a time: a turn is the number of the request whose next call is made.
use transaction_service.Shared.{
  ℕ, zero, suc, String, ℤ, pos, ◌+ℤ◌, int_laws, List, [], ◌∷◌, map, ◌≡◌, refl, sym, ap, ◌∙◌,
}
use transaction_service.Driver.Errors.{Result}
use transaction_service.Driver.Prog.{Prog, ret, throw, call, Driver, run}
use transaction_service.Driver.Documents.{Documents, NoFailure, Follows}
use transaction_service.Account.Types.{Account}
use transaction_service.Account.Balances.{total}
use transaction_service.Driver.Interleaving.{Parked, parked, with_writes, Owes, Nothing}
use transaction_service.Driver.Interleaving.Runs.{
  step, run-Adds, entered, accounts_entered, added, first_part, second_part,
}

-- A request at work: what is left of it, and the open writes of its session.
pub record Active (A : Type 0) : Type 0 where
  pub program : Prog A
  pub writes : Parked

module _ {W : Type 0} (view : W → Documents) (driver : Driver W) (enter : Parked → W → W)
    {A : Type 0} where
  abbrev pub advance : Prog A → Parked → W → Active A × W
  advance (ret a) u w = (record { program = ret a; writes = u }, w)
  advance (throw e) u w = (record { program = throw e; writes = u }, w)
  advance (call c k) u w =
      let (r, w') = driver c (enter u w) in
      (record { program = k r; writes = parked (view w') }, w')

  -- The next call of the request with the number, if there is one that has not ended.
  abbrev pub turn : ℕ → List (Active A) → W → List (Active A) × W
  turn n [] w = ([], w)
  turn zero (x ∷ xs) w = let (x', w') = advance x.program x.writes w in (x' ∷ xs, w')
  turn (suc n) (x ∷ xs) w = let (xs', w') = turn n xs w in (x ∷ xs', w')

  abbrev pub finish_all : List (Active A) → W → List (Result A) × W
  finish_all [] w = ([], w)
  finish_all (x ∷ xs) w =
      let (r, w') = run driver x.program (enter x.writes w) in
      let (rs, w'') = finish_all xs w' in (r ∷ rs, w'')

  -- The turns in their order, and when they are used up each request to its end.
  unfoldable pub run_pool : List ℕ → List (Active A) → W → List (Result A) × W
  run_pool [] xs w = finish_all xs w
  run_pool (n ∷ ns) xs w = let (xs', w') = turn n xs w in run_pool ns xs' w'

module _ (numbers : List String) where
  abbrev pub Numbered : List Account → Type 0
  Numbered accounts = map (λ (a : Account). a.account_no) accounts ≡ numbers

  -- What the requests owe to the sum of the balances, all together.
  abbrev pub Debts : {A : Type 0} → List (Active A) → ℤ → Type 0
  Debts [] d = d ≡ pos 0
  Debts (x ∷ xs) d =
      (e : ℤ) × (f : ℤ) × (d ≡ e +ℤ f)
      × Owes numbers x.program (Nothing numbers) e
      × (x.writes.account_writes ≡ [])
      × Debts xs f

  -- The sum and what is owed have changed by the same, one up and the other down.
  abbrev pub Balanced : (after before : List Account) → ℤ → (ℤ → Type 0) → Type 0
  Balanced after before d P =
      Numbered after × ((d' : ℤ) × (total after +ℤ d' ≡ total before +ℤ d) × P d')

module _ (numbers : List String) {W : Type 0} (view : W → Documents) (driver : Driver W)
    (follows : Follows NoFailure view driver) (enter : Parked → W → W)
    (enters : (u : Parked) (w : W) → view (enter u w) ≡ with_writes u (view w)) {A : Type 0} where
  advance-Balanced :
      (p : Prog A) (u : Parked) (w : W) (e : ℤ)
      → Numbered numbers (view w).accounts
      → u.account_writes ≡ []
      → Owes numbers p (Nothing numbers) e
      → let (x, w') = advance view driver enter p u w in
        Balanced numbers
          (view w').accounts
          (view w).accounts
          e
          (λ e'. Owes numbers x.program (Nothing numbers) e' × (x.writes.account_writes ≡ []))
  advance-Balanced (ret a) u w e same idle h = (same, (e, refl, (h, idle)))
  advance-Balanced (throw x) u w e same idle h = (same, (e, refl, (h, idle)))
  advance-Balanced (call c k) u w e same idle h =
      let (settled, (e', sum, rest)) =
        step numbers view driver follows c k e (view (enter u w)) (driver c (enter u w))
          (follows.replies c (enter u w))
          (entered numbers view driver follows enter enters u w same idle) h in
      (
        settled.0,
        (
          e',
          sum ∙ ap (λ x. x +ℤ e) (accounts_entered numbers view driver follows enter enters u w),
          (rest, settled.1),
        ),
      )

  turn-Balanced :
      (n : ℕ) (xs : List (Active A)) (w : W) (d : ℤ)
      → Numbered numbers (view w).accounts
      → Debts numbers xs d
      → let (xs', w') = turn view driver enter n xs w in
        Balanced numbers (view w').accounts (view w).accounts d (Debts numbers xs')
  turn-Balanced n [] w d same owed = (same, (d, refl, owed))
  turn-Balanced zero (x ∷ xs) w d same (e, f, parts, owes, idle, others) =
      let (same', (e', sum, (owes', idle'))) =
        advance-Balanced x.program x.writes w e same idle owes in
      (
        same',
        (
          e' +ℤ f,
          first_part (total (view w).accounts) _ e' e f sum
              ∙ ap (λ z. total (view w).accounts +ℤ z) (sym parts),
          (e', f, refl, owes', idle', others),
        ),
      )
  turn-Balanced (suc n) (x ∷ xs) w d same (e, f, parts, owes, idle, others) =
      let (same', (f', sum, others')) = turn-Balanced n xs w f same others in
      (
        same',
        (
          e +ℤ f',
          second_part (total (view w).accounts) _ f' e f sum
              ∙ ap (λ z. total (view w).accounts +ℤ z) (sym parts),
          (e, f', refl, owes, idle, others'),
        ),
      )

  finish_all-total :
      (xs : List (Active A)) (w : W) (d : ℤ)
      → Numbered numbers (view w).accounts
      → Debts numbers xs d
      → total (view (finish_all view driver enter xs w).1).accounts ≡ total (view w).accounts +ℤ d
  finish_all-total [] w d same owed = rw owed (omega int_laws)
  finish_all-total (x ∷ xs) w d same (e, f, parts, owes, idle, others) =
      let w' = (run driver x.program (enter x.writes w)).1 in
      let (settled, sum) =
        run-Adds numbers view driver follows x.program e (enter x.writes w)
          (entered numbers view driver follows enter enters x.writes w same idle) owes in
      added (total (view w).accounts) (total (view w').accounts) _ e f
        (sum
          ∙ ap (λ z. z +ℤ e) (accounts_entered numbers view driver follows enter enters x.writes w))
        (finish_all-total xs w' f settled.0 others)
      ∙ ap (λ z. total (view w).accounts +ℤ z) (sym parts)

  -- In every order of their calls, the requests add to the sum of the balances what they owe.
  pub run_pool-total :
      (ns : List ℕ) (xs : List (Active A)) (w : W) (d : ℤ)
      → Numbered numbers (view w).accounts
      → Debts numbers xs d
      → total (view (run_pool view driver enter ns xs w).1).accounts ≡ total (view w).accounts +ℤ d
  unfolding run_pool
  run_pool-total [] xs w d same owed = finish_all-total xs w d same owed
  run_pool-total (n ∷ ns) xs w d same owed =
      let (xs', w') = turn view driver enter n xs w in
      let (same', (d', sum, owed')) = turn-Balanced n xs w d same owed in
      run_pool-total ns xs' w' d' same' owed' ∙ sum
