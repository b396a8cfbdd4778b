-- ===== src/Driver/Interleaving/Settling.antt =====
-- What a program still owes to the sum of the balances, where its calls may fail.
use transaction_service.Shared.{ℕ, ◌-◌, String, ℤ, ◌+ℤ◌, List, [], ◌≡◌, refl}
use transaction_service.Driver.Errors.{Exception, Result, ok, err}
use transaction_service.Driver.Calls.{Call, Answer}
use transaction_service.Driver.Prog.{Prog, ret, throw, call, ◌>>=◌, ◌>>◌, catch, finally}
use transaction_service.Driver.Documents.{Documents, Reply, Failure}
use transaction_service.Driver.Budget.{Within}
use transaction_service.Driver.Interleaving.{IsSettled}
use transaction_service.Account.Balances.{total}

-- How a call may end, answered or failed.
abbrev pub Ends : (c : Call) → Documents → Result (Answer c) → Documents → Type 0
Ends c s (ok a) s' = Reply c s a s'
Ends c s (err e) s' = Failure c s s'

module _ (numbers : List String) where
  -- After a call the accounts are settled, and the sum and what is owed have changed by the same.
  abbrev pub Step : Documents → Documents → ℤ → (ℤ → Type 0) → Type 0
  Step s s' d X =
      IsSettled numbers s' × ((d' : ℤ) × (total s'.accounts +ℤ d' ≡ total s.accounts +ℤ d) × X d')

  abbrev pub Settles : {A : Type 0} → Prog A → (Result A → ℤ → Type 0) → ℤ → Type 0
  Settles (ret a) Q d = Q (ok a) d
  Settles (throw e) Q d = Q (err e) d
  Settles (call c k) Q d =
      (r : Result (Answer c)) (s s' : Documents)
      → IsSettled numbers s
      → Ends c s r s'
      → Step s s' d (Settles (k r) Q)

  abbrev pub SettlesThen :
      {A B : Type 0} → (A → Prog B) → (Result B → ℤ → Type 0) → Result A → ℤ → Type 0
  SettlesThen f Q (ok a) d = Settles (f a) Q d
  SettlesThen f Q (err e) d = Q (err e) d

  pub Settles->>= :
      {A B : Type 0} (m : Prog A) (f : A → Prog B) (Q : Result B → ℤ → Type 0) (d : ℤ)
      → Settles m (SettlesThen f Q) d
      → Settles (m >>= f) Q d
  Settles->>= (ret a) f Q d h = h
  Settles->>= (throw e) f Q d h = h
  Settles->>= (call c k) f Q d h = λ r s s' settled ends.
      let (settled', (d', sum, rest)) = h r s s' settled ends in
      (settled', (d', sum, Settles->>= (k r) f Q d' rest))

  abbrev pub SettlesCaught :
      {A : Type 0} → (Exception → Prog A) → (Result A → ℤ → Type 0) → Result A → ℤ → Type 0
  SettlesCaught h Q (ok a) d = Q (ok a) d
  SettlesCaught h Q (err e) d = Settles (h e) Q d

  pub Settles-catch :
      {A : Type 0} (m : Prog A) (f : Exception → Prog A) (Q : Result A → ℤ → Type 0) (d : ℤ)
      → Settles m (SettlesCaught f Q) d
      → Settles (catch m f) Q d
  Settles-catch (ret a) f Q d h = h
  Settles-catch (throw e) f Q d h = h
  Settles-catch (call c k) f Q d h = λ r s s' settled ends.
      let (settled', (d', sum, rest)) = h r s s' settled ends in
      (settled', (d', sum, Settles-catch (k r) f Q d' rest))

  abbrev pub SettlesFinally :
      {A : Type 0} → Prog Unit → (Result A → ℤ → Type 0) → Result A → ℤ → Type 0
  SettlesFinally f Q (ok a) d = Settles (f >> ret a) Q d
  SettlesFinally f Q (err e) d = Settles (f >> throw e) Q d

  pub Settles-finally :
      {A : Type 0} (m : Prog A) (f : Prog Unit) (Q : Result A → ℤ → Type 0) (d : ℤ)
      → Settles m (SettlesFinally f Q) d
      → Settles (finally m f) Q d
  Settles-finally (ret a) f Q d h = h
  Settles-finally (throw e) f Q d h = h
  Settles-finally (call c k) f Q d h = λ r s s' settled ends.
      let (settled', (d', sum, rest)) = h r s s' settled ends in
      (settled', (d', sum, Settles-finally (k r) f Q d' rest))

  pub Settles-mono :
      {A : Type 0} (m : Prog A) {Q R : Result A → ℤ → Type 0} (d : ℤ)
      → ((r : Result A) (d' : ℤ) → Q r d' → R r d')
      → Settles m Q d
      → Settles m R d
  Settles-mono (ret a) d imp h = imp (ok a) d h
  Settles-mono (throw e) d imp h = imp (err e) d h
  Settles-mono (call c k) d imp h = λ r s s' settled ends.
      let (settled', (d', sum, rest)) = h r s s' settled ends in
      (settled', (d', sum, Settles-mono (k r) d' imp rest))

pub by_result :
    {A : Type 0} (X : Result A → Type 0)
    → ((a : A) → X (ok a))
    → ((e : Exception) → X (err e))
    → (r : Result A) → X r
by_result X answered failed (ok a) = answered a
by_result X answered failed (err e) = failed e

-- A call that leaves the accounts alone, answered or failed.
abbrev pub LeavesAccounts : Call → Type 0
LeavesAccounts c =
    (r : Result (Answer c)) (s s' : Documents)
    → s.account_writes ≡ []
    → Ends c s r s'
    → (s'.accounts ≡ s.accounts) × (s'.account_writes ≡ [])

module _ (numbers : List String) where
  pub leaving :
      (c : Call)
      → LeavesAccounts c
      → {X : ℤ → Type 0} (r : Result (Answer c)) (s s' : Documents) (d : ℤ) → IsSettled numbers s
      → Ends c s r s'
      → X d
      → Step numbers s s' d X
  leaving c leaves r s s' d settled ends x =
      let (accounts, writes) = leaves r s s' settled.1 ends in
      ((rw accounts settled.0, writes), (d, rw accounts refl, x))

  -- A program of such calls owes at its end what it owed before.
  pub Settles-LeavesAccounts :
      (P : Call → Type 0)
      → ((c : Call) → P c → LeavesAccounts c)
      → {A : Type 0} (n : ℕ) (m : Prog A) (Q : Result A → ℤ → Type 0) (d : ℤ) → Within P n m
      → ((r : Result A) → Q r d)
      → Settles numbers m Q d
  Settles-LeavesAccounts P leaves n (ret a) Q d h q = q (ok a)
  Settles-LeavesAccounts P leaves n (throw e) Q d h q = q (err e)
  Settles-LeavesAccounts P leaves n (call c k) Q d (allowed, _, failed, answered) q =
      λ r s s' settled ends. leaving c (leaves c allowed) r s s' d settled ends (
        by_result (λ x. Settles numbers (k x) Q d)
          (λ a. Settles-LeavesAccounts P leaves (n - 1) (k (ok a)) Q d (answered a) q)
          (λ e. Settles-LeavesAccounts P leaves (n - 1) (k (err e)) Q d (failed e) q) r)
