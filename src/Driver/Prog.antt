-- ===== src/Driver/Prog.antt =====
-- Async programs: a tree of awaited calls, with `throw`, `try … catch` and `try … finally`.
use transaction_service.Driver.Errors.{Exception, Result, ok, err}
use transaction_service.Driver.Calls.{Call, Answer}

pub data Prog (A : Type 0) : Type 0 where
  ret : A → Prog A
  throw : Exception → Prog A
  call : (c : Call) → (Result (Answer c) → Prog A) → Prog A

infixl 5 ◌>>=◌ ◌>>◌
abbrev pub ◌>>=◌ : {A B : Type 0} → Prog A → (A → Prog B) → Prog B
ret a >>= f = f a
throw e >>= f = throw e
call c k >>= f = call c (λ r. k r >>= f)

abbrev pub ◌>>◌ : {A B : Type 0} → Prog A → Prog B → Prog B
m >> k = m >>= λ _. k

-- `await` of one call
abbrev pub settle : {A : Type 0} → Result A → Prog A
settle (ok a) = ret a
settle (err e) = throw e

abbrev pub await : (c : Call) → Prog (Answer c)
await c = call c settle

-- `try { m } catch (error) { h(error) }`
abbrev pub catch : {A : Type 0} → Prog A → (Exception → Prog A) → Prog A
catch (ret a) h = ret a
catch (throw e) h = h e
catch (call c k) h = call c (λ r. catch (k r) h)

-- `try { m } finally { f }`: what `f` throws takes the place of the outcome.
abbrev pub finally : {A : Type 0} → Prog A → Prog Unit → Prog A
finally (ret a) f = f >> ret a
finally (throw e) f = f >> throw e
finally (call c k) f = call c (λ r. finally (k r) f)

-- A driver answers each call, or fails, from the state of the world outside.
abbrev pub Driver : Type 0 → Type 0
Driver W = (c : Call) → W → Result (Answer c) × W

module _ {W : Type 0} (driver : Driver W) where
  -- One request on its own: each call is awaited before the next is made.
  unfoldable pub run : {A : Type 0} → Prog A → W → Result A × W
  run (ret a) w = (ok a, w)
  run (throw e) w = (err e, w)
  run (call c k) w = let (r, w') = driver c w in run (k r) w'
