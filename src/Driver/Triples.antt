-- ===== src/Driver/Triples.antt =====
-- Reasoning about programs of calls: what holds of every run, whatever the driver answers within
-- its contract.
use transaction_service.Driver.Errors.{Exception, Result, ok, err}
use transaction_service.Driver.Calls.{Call, Answer}
use transaction_service.Driver.Prog.{
  Prog, ret, throw, call, ◌>>=◌, ◌>>◌, catch, finally, Driver, run,
}
use transaction_service.Driver.Documents.{Documents, Reply, Keeps, Follows}

abbrev pub Post : Type 0 → Type 1
Post A = Result A → Documents → Type 0

module _ (F : Call → Documents → Documents → Type 0) where
  -- From the documents `s`, every run ends in a result and documents that satisfy `Q`.
  abbrev pub Ensures : {A : Type 0} → Prog A → Post A → Documents → Type 0
  Ensures (ret a) Q s = Q (ok a) s
  Ensures (throw e) Q s = Q (err e) s
  Ensures (call c k) Q s =
      ((e : Exception) (s' : Documents) → F c s s' → Ensures (k (err e)) Q s')
      × ((a : Answer c) (s' : Documents) → Reply c s a s' → Ensures (k (ok a)) Q s')

  -- The contracts of a sequence, of `catch` and of `finally`, in terms of what follows.
  abbrev pub Then : {A B : Type 0} → (A → Prog B) → Post B → Post A
  Then f Q (ok a) s = Ensures (f a) Q s
  Then f Q (err e) s = Q (err e) s

  abbrev pub Caught : {A : Type 0} → (Exception → Prog A) → Post A → Post A
  Caught h Q (ok a) s = Q (ok a) s
  Caught h Q (err e) s = Ensures (h e) Q s

  abbrev pub Finally : {A : Type 0} → Prog Unit → Post A → Post A
  Finally f Q (ok a) s = Ensures (f >> ret a) Q s
  Finally f Q (err e) s = Ensures (f >> throw e) Q s

  pub Ensures-mono :
      {A : Type 0} (m : Prog A) {Q R : Post A} (s : Documents)
      → ((r : Result A) (s' : Documents) → Q r s' → R r s')
      → Ensures m Q s
      → Ensures m R s
  Ensures-mono (ret a) s imp h = imp (ok a) s h
  Ensures-mono (throw e) s imp h = imp (err e) s h
  Ensures-mono (call c k) s imp h = (
    λ e s' failed. Ensures-mono (k (err e)) s' imp (h.0 e s' failed),
    λ a s' reply. Ensures-mono (k (ok a)) s' imp (h.1 a s' reply),
  )

  pub Ensures->>= :
      {A B : Type 0} (m : Prog A) (f : A → Prog B) (Q : Post B) (s : Documents)
      → Ensures m (Then f Q) s
      → Ensures (m >>= f) Q s
  Ensures->>= (ret a) f Q s h = h
  Ensures->>= (throw e) f Q s h = h
  Ensures->>= (call c k) f Q s h = (
    λ e s' failed. Ensures->>= (k (err e)) f Q s' (h.0 e s' failed),
    λ a s' reply. Ensures->>= (k (ok a)) f Q s' (h.1 a s' reply),
  )

  pub Ensures-catch :
      {A : Type 0} (m : Prog A) (h : Exception → Prog A) (Q : Post A) (s : Documents)
      → Ensures m (Caught h Q) s
      → Ensures (catch m h) Q s
  Ensures-catch (ret a) h Q s p = p
  Ensures-catch (throw e) h Q s p = p
  Ensures-catch (call c k) h Q s p = (
    λ e s' failed. Ensures-catch (k (err e)) h Q s' (p.0 e s' failed),
    λ a s' reply. Ensures-catch (k (ok a)) h Q s' (p.1 a s' reply),
  )

  pub Ensures-finally :
      {A : Type 0} (m : Prog A) (f : Prog Unit) (Q : Post A) (s : Documents)
      → Ensures m (Finally f Q) s
      → Ensures (finally m f) Q s
  Ensures-finally (ret a) f Q s p = p
  Ensures-finally (throw e) f Q s p = p
  Ensures-finally (call c k) f Q s p = (
    λ e s' failed. Ensures-finally (k (err e)) f Q s' (p.0 e s' failed),
    λ a s' reply. Ensures-finally (k (ok a)) f Q s' (p.1 a s' reply),
  )

  module _ {W : Type 0} (view : W → Documents) (driver : Driver W)
      (follows : Follows F view driver) where
    Ensures-continue :
        {A : Type 0} (c : Call) (k : Result (Answer c) → Prog A) (Q : Post A) (s : Documents)
        (x : Result (Answer c) × W)
        → Keeps F view c s x
        → Ensures (call c k) Q s
        → Ensures (k x.0) Q (view x.1)
    Ensures-continue c k Q s (ok a, w') kept h = h.1 a (view w') kept
    Ensures-continue c k Q s (err e, w') kept h = h.0 e (view w') kept

    -- A contract holds of a run under every driver that follows its own.
    pub Ensures-run :
        {A : Type 0} (m : Prog A) (Q : Post A) (w : W)
        → Ensures m Q (view w)
        → let (r, w') = run driver m w in Q r (view w')
    unfolding run
    Ensures-run (ret a) Q w h = h
    Ensures-run (throw e) Q w h = h
    Ensures-run (call c k) Q w h =
        let (r, w') = driver c w in
        Ensures-run (k r) Q w'
          (Ensures-continue c k Q (view w) (driver c w) (follows.replies c w) h)
