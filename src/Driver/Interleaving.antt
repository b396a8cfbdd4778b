-- ===== src/Driver/Interleaving.antt =====
-- Two requests at a time: their calls interleave, each request with a session of its own.
pub mod Runs
pub mod Pool
pub mod Settling
pub mod Losing
use transaction_service.Shared.{
  String, ℤ, pos, ◌+ℤ◌, int_laws, arith, List, [], ◌∷◌, map, ◌≡◌, refl, sym, ap, ◌∙◌,
}
use transaction_service.Driver.Errors.{Exception, Result, ok, err}
use transaction_service.Driver.Calls.{Call, Answer}
use transaction_service.Driver.Prog.{
  Prog, ret, throw, call, ◌>>=◌, ◌>>◌, catch, finally, Driver, run,
}
use transaction_service.Driver.Documents.{Documents, Write, Reply, NoFailure, Keeps, Follows}
use transaction_service.Account.Types.{Account}
use transaction_service.Account.Balances.{total}
use transaction_service.Transaction.Types.{Transaction}

pub data Turn : Type 0 where
  first_request second_request : Turn

-- The writes of a session that is not the one at work.
pub record Parked : Type 0 where
  pub account_writes : List (Write Account)
  pub transaction_writes : List (Write Transaction)

abbrev pub parked : Documents → Parked
parked s = record { account_writes = s.account_writes; transaction_writes = s.transaction_writes }

abbrev pub with_writes : Parked → Documents → Documents
with_writes u s = record s {
  account_writes = u.account_writes;
  transaction_writes = u.transaction_writes;
}

module _ {W : Type 0} (view : W → Documents) (driver : Driver W) (enter : Parked → W → W) where
  -- The calls of two requests, in the order of the turns: `u` and `v` are the open writes of their
  -- sessions. When the turns are used up, the first request ends, then the second.
  unfoldable pub run_two :
      {A B : Type 0} → List Turn → Prog A → Prog B → (u v : Parked) → W → Result A × Result B × W
  unfolding run
  run_two [] p q u v w =
      let (r, w') = run driver p (enter u w) in
      let (r', w'') = run driver q (enter v w') in (r, r', w'')
  run_two (first_request ∷ ts) (call c k) q u v w =
      let (r, w') = driver c (enter u w) in run_two ts (k r) q (parked (view w')) v w'
  run_two (first_request ∷ ts) (ret a) q u v w = run_two ts (ret a) q u v w
  run_two (first_request ∷ ts) (throw e) q u v w = run_two ts (throw e) q u v w
  run_two (second_request ∷ ts) p (call c k) u v w =
      let (r, w') = driver c (enter v w) in run_two ts p (k r) u (parked (view w')) w'
  run_two (second_request ∷ ts) p (ret a) u v w = run_two ts p (ret a) u v w
  run_two (second_request ∷ ts) p (throw e) u v w = run_two ts p (throw e) u v w

module _ (numbers : List String) where
  -- The accounts are those of the given numbers, and no session holds writes to accounts.
  abbrev pub IsSettled : Documents → Type 0
  IsSettled s = (map (λ (a : Account). a.account_no) s.accounts ≡ numbers) × (s.account_writes ≡ [])

  -- The program still has to add `d` to the sum of the balances, whatever others do meanwhile.
  abbrev pub Owes : {A : Type 0} → Prog A → (Result A → ℤ → Type 0) → ℤ → Type 0
  Owes (ret a) Q d = Q (ok a) d
  Owes (throw e) Q d = Q (err e) d
  Owes (call c k) Q d =
      (s : Documents) (a : Answer c) (s' : Documents)
      → IsSettled s
      → Reply c s a s'
      → IsSettled s'
        × ((d' : ℤ) × (total s'.accounts +ℤ d' ≡ total s.accounts +ℤ d) × Owes (k (ok a)) Q d')

  abbrev pub Nothing : {A : Type 0} → Result A → ℤ → Type 0
  Nothing r d = d ≡ pos 0

  abbrev pub OwesThen :
      {A B : Type 0} → (A → Prog B) → (Result B → ℤ → Type 0) → Result A → ℤ → Type 0
  OwesThen f Q (ok a) d = Owes (f a) Q d
  OwesThen f Q (err e) d = Q (err e) d

  pub Owes->>= :
      {A B : Type 0} (m : Prog A) (f : A → Prog B) (Q : Result B → ℤ → Type 0) (d : ℤ)
      → Owes m (OwesThen f Q) d
      → Owes (m >>= f) Q d
  Owes->>= (ret a) f Q d h = h
  Owes->>= (throw e) f Q d h = h
  Owes->>= (call c k) f Q d h = λ s a s' settled reply.
      let (settled', (d', sum, rest)) = h s a s' settled reply in
      (settled', (d', sum, Owes->>= (k (ok a)) f Q d' rest))

  abbrev pub OwesCaught :
      {A : Type 0} → (Exception → Prog A) → (Result A → ℤ → Type 0) → Result A → ℤ → Type 0
  OwesCaught h Q (ok a) d = Q (ok a) d
  OwesCaught h Q (err e) d = Owes (h e) Q d

  pub Owes-catch :
      {A : Type 0} (m : Prog A) (f : Exception → Prog A) (Q : Result A → ℤ → Type 0) (d : ℤ)
      → Owes m (OwesCaught f Q) d
      → Owes (catch m f) Q d
  Owes-catch (ret a) f Q d h = h
  Owes-catch (throw e) f Q d h = h
  Owes-catch (call c k) f Q d h = λ s a s' settled reply.
      let (settled', (d', sum, rest)) = h s a s' settled reply in
      (settled', (d', sum, Owes-catch (k (ok a)) f Q d' rest))

  abbrev pub OwesFinally :
      {A : Type 0} → Prog Unit → (Result A → ℤ → Type 0) → Result A → ℤ → Type 0
  OwesFinally f Q (ok a) d = Owes (f >> ret a) Q d
  OwesFinally f Q (err e) d = Owes (f >> throw e) Q d

  pub Owes-finally :
      {A : Type 0} (m : Prog A) (f : Prog Unit) (Q : Result A → ℤ → Type 0) (d : ℤ)
      → Owes m (OwesFinally f Q) d
      → Owes (finally m f) Q d
  Owes-finally (ret a) f Q d h = h
  Owes-finally (throw e) f Q d h = h
  Owes-finally (call c k) f Q d h = λ s a s' settled reply.
      let (settled', (d', sum, rest)) = h s a s' settled reply in
      (settled', (d', sum, Owes-finally (k (ok a)) f Q d' rest))

  pub Owes-mono :
      {A : Type 0} (m : Prog A) {Q R : Result A → ℤ → Type 0} (d : ℤ)
      → ((r : Result A) (d' : ℤ) → Q r d' → R r d')
      → Owes m Q d
      → Owes m R d
  Owes-mono (ret a) d imp h = imp (ok a) d h
  Owes-mono (throw e) d imp h = imp (err e) d h
  Owes-mono (call c k) d imp h = λ s a s' settled reply.
      let (settled', (d', sum, rest)) = h s a s' settled reply in
      (settled', (d', sum, Owes-mono (k (ok a)) d' imp rest))
