-- ===== src/Driver/Budget.antt =====
-- How many calls a program makes at most, whatever the answers are.
use transaction_service.Shared.{ℕ, ◌+◌, ◌≤◌, ◌-◌, ◌≡◌, arith}
use transaction_service.Driver.Errors.{Exception, ok, err}
use transaction_service.Driver.Calls.{Call, Answer}
use transaction_service.Driver.Prog.{Prog, ret, throw, call, ◌>>=◌, ◌>>◌, catch, finally}

-- A call taken off the first of two budgets.
shift : (n k : ℕ) → 1 ≤ n → n + k - 1 ≡ n - 1 + k
shift n k h = omega (arith, h)

module _ (P : Call → Type 0) where
  -- The program ends, in a value or an exception, after at most `n` calls, all of which `P` allows.
  abbrev pub Within : {A : Type 0} → ℕ → Prog A → Type 0
  Within n (ret a) = Unit
  Within n (throw e) = Unit
  Within n (call c k) =
      P c
      × (1 ≤ n)
      × ((e : Exception) → Within (n - 1) (k (err e)))
      × ((a : Answer c) → Within (n - 1) (k (ok a)))

  pub Within-weaken : {A : Type 0} (n k : ℕ) (m : Prog A) → n ≤ k → Within n m → Within k m
  Within-weaken n k (ret a) le h = tt
  Within-weaken n k (throw e) le h = tt
  Within-weaken n k (call c f) le (allowed, lt, failed, answered) = (
    allowed,
    omega (arith, lt, le),
    λ e. Within-weaken (n - 1) (k - 1) (f (err e)) (omega (arith, le)) (failed e),
    λ a. Within-weaken (n - 1) (k - 1) (f (ok a)) (omega (arith, le)) (answered a),
  )

  pub Within->>= :
      {A B : Type 0} (n k : ℕ) (m : Prog A) (f : A → Prog B)
      → Within n m
      → ((a : A) → Within k (f a))
      → Within (n + k) (m >>= f)
  Within->>= n k (ret a) f g h = Within-weaken k (n + k) (f a) (omega arith) (h a)
  Within->>= n k (throw e) f g h = tt
  Within->>= n k (call c r) f (allowed, lt, failed, answered) h = (
    allowed,
    omega (arith, lt),
    λ e. rw (shift n k lt) (Within->>= (n - 1) k (r (err e)) f (failed e) h),
    λ a. rw (shift n k lt) (Within->>= (n - 1) k (r (ok a)) f (answered a) h),
  )

  pub Within-catch :
      {A : Type 0} (n k : ℕ) (m : Prog A) (handler : Exception → Prog A)
      → Within n m
      → ((e : Exception) → Within k (handler e))
      → Within (n + k) (catch m handler)
  Within-catch n k (ret a) f g h = tt
  Within-catch n k (throw e) f g h = Within-weaken k (n + k) (f e) (omega arith) (h e)
  Within-catch n k (call c r) f (allowed, lt, failed, answered) h = (
    allowed,
    omega (arith, lt),
    λ e. rw (shift n k lt) (Within-catch (n - 1) k (r (err e)) f (failed e) h),
    λ a. rw (shift n k lt) (Within-catch (n - 1) k (r (ok a)) f (answered a) h),
  )

  Within-last :
      {A : Type 0} (n k : ℕ) (f : Prog Unit) (m : Prog A)
      → Within 0 m
      → Within k f
      → Within (n + k) (f >> m)
  Within-last n k f m last h =
      Within-weaken (k + 0) (n + k) (f >> m) (omega arith) (Within->>= k 0 f (λ _. m) h (λ _. last))

  pub Within-finally :
      {A : Type 0} (n k : ℕ) (m : Prog A) (f : Prog Unit)
      → Within n m
      → Within k f
      → Within (n + k) (finally m f)
  Within-finally n k (ret a) f g h = Within-last n k f (ret a) tt h
  Within-finally n k (throw e) f g h = Within-last n k f (throw e) tt h
  Within-finally n k (call c r) f (allowed, lt, failed, answered) h = (
    allowed,
    omega (arith, lt),
    λ e. rw (shift n k lt) (Within-finally (n - 1) k (r (err e)) f (failed e) h),
    λ a. rw (shift n k lt) (Within-finally (n - 1) k (r (ok a)) f (answered a) h),
  )

pub Within-mono :
    (P Q : Call → Type 0)
    → ((c : Call) → P c → Q c)
    → {A : Type 0} (n : ℕ) (m : Prog A) → Within P n m
    → Within Q n m
Within-mono P Q imp n (ret a) h = tt
Within-mono P Q imp n (throw e) h = tt
Within-mono P Q imp n (call c k) (allowed, lt, failed, answered) = (
  imp c allowed,
  lt,
  λ e. Within-mono P Q imp (n - 1) (k (err e)) (failed e),
  λ a. Within-mono P Q imp (n - 1) (k (ok a)) (answered a),
)
