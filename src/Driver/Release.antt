-- ===== src/Driver/Release.antt =====
-- The life of a session's transaction, as the calls of a run show it.
use mathlib.Core.Path.{subst}
use transaction_service.Shared.{ℕ, ◌-◌, Bool, true, false, List, [], ◌∷◌, ◌≡◌, refl}
use transaction_service.Driver.Errors.{Exception, Result, ok, err}
use transaction_service.Driver.Calls.{Call, Answer, start_transaction, end_session}
use transaction_service.Driver.Prog.{Prog, ret, throw, call, ◌>>◌, finally, Driver}
use transaction_service.Driver.Budget.{Within}

pub data CallKind : Type 0 where
  opening closing plain : CallKind

abbrev pub kind_of : Call → CallKind
kind_of start_transaction = opening
kind_of end_session = closing
kind_of _ = plain

abbrev pub is_answer : {A : Type 0} → Result A → Bool
is_answer (ok _) = true
is_answer (err _) = false

-- A trace is accepted if it starts no second transaction, if the session of a transaction that has
-- started is ended, by the last call, and if no other session is. `b` is whether one has started.
abbrev pub StepAccepted : CallKind → Bool → Bool → (Bool → Type 0) → Type 0 → Type 0
StepAccepted plain b answered rest none_left = rest b
StepAccepted opening b answered rest none_left = (b ≡ false) × rest answered
StepAccepted closing b answered rest none_left = (b ≡ true) × none_left

abbrev pub IsReleased : Bool → List (CallKind × Bool) → Type 0
IsReleased b [] = b ≡ false
IsReleased b ((c, answered) ∷ tr) = StepAccepted c b answered (λ b'. IsReleased b' tr) (tr ≡ [])

module _ {W : Type 0} (driver : Driver W) where
  -- The kinds of the calls of a run, each with whether it was answered.
  unfoldable pub trace : {A : Type 0} → Prog A → W → List (CallKind × Bool)
  trace (ret a) w = []
  trace (throw e) w = []
  trace (call c k) w = let (r, w') = driver c w in (kind_of c, is_answer r) ∷ trace (k r) w'

-- The program makes no call.
abbrev pub IsOver : {A : Type 0} → Prog A → Type 0
IsOver (ret a) = Unit
IsOver (throw e) = Unit
IsOver (call c k) = ⊥

-- Every run of the program from here on is accepted.
abbrev pub ByKind : CallKind → Bool → (failed answered started over : Type 0) → Type 0
ByKind plain b failed answered started over = failed × answered
ByKind opening b failed answered started over = (b ≡ false) × failed × started
ByKind closing b failed answered started over = (b ≡ true) × over

abbrev pub Releases : {A : Type 0} → Bool → Prog A → Type 0
Releases b (ret a) = b ≡ false
Releases b (throw e) = b ≡ false
Releases b (call c k) =
    ByKind (kind_of c) b ((e : Exception) → Releases b (k (err e)))
      ((a : Answer c) → Releases b (k (ok a))) ((a : Answer c) → Releases true (k (ok a)))
      ((r : Result (Answer c)) → IsOver (k r))

module _ {W : Type 0} (driver : Driver W) where
  over : {A : Type 0} (m : Prog A) (w : W) → IsOver m → trace driver m w ≡ []
  unfolding trace
  over (ret a) w h = refl
  over (throw e) w h = refl
  over (call c k) w h = absurd h

  accepted :
      {A : Type 0} (kind : CallKind) (b : Bool) (c : Call) (k : Result (Answer c) → Prog A)
      (x : Result (Answer c) × W)
      → ((b' : Bool) → Releases b' (k x.0) → IsReleased b' (trace driver (k x.0) x.1))
      → ByKind kind b
          ((e : Exception) → Releases b (k (err e)))
          ((a : Answer c) → Releases b (k (ok a)))
          ((a : Answer c) → Releases true (k (ok a)))
          ((r : Result (Answer c)) → IsOver (k r))
      → StepAccepted kind b
          (is_answer x.0)
          (λ b'. IsReleased b' (trace driver (k x.0) x.1))
          (trace driver (k x.0) x.1 ≡ [])
  accepted plain b c k (ok a, w) rest h = rest b (h.1 a)
  accepted plain b c k (err e, w) rest h = rest b (h.0 e)
  accepted opening b c k (ok a, w) rest h = (h.0, rest true (h.2 a))
  accepted opening b c k (err e, w) rest h =
      (h.0, rest false (subst (λ z. Releases z (k (err e))) h.0 (h.1 e)))
  accepted closing b c k x rest h = (h.0, over (k x.0) x.1 (h.1 x.0))

  pub trace-Releases :
      {A : Type 0} (b : Bool) (m : Prog A) (w : W) → Releases b m → IsReleased b (trace driver m w)
  unfolding trace
  trace-Releases b (ret a) w h = h
  trace-Releases b (throw e) w h = h
  trace-Releases b (call c k) w h =
      let (r, w') = driver c w in
      accepted (kind_of c) b c k (driver c w) (λ b'. trace-Releases b' (k r) w') h

module _ (P : Call → Type 0) (plain_only : (c : Call) → P c → kind_of c ≡ plain) where
  -- Calls that neither open nor close.
  plain_step :
      (b : Bool) (c : Call) (failed answered started last : Type 0)
      → P c
      → failed
      → answered
      → ByKind (kind_of c) b failed answered started last
  plain_step b c failed answered started last allowed f a = rw (plain_only c allowed) (f, a)

  -- A block that neither starts a transaction nor ends a session, and then the end of the session.
  pub finally-Releases :
      {A : Type 0} (n : ℕ) (m : Prog A) (f : Prog Unit)
      → Within P n m
      → ((k : Prog A) → IsOver k → Releases true (f >> k))
      → Releases true (finally m f)
  finally-Releases n (ret a) f bounded ends = ends (ret a) tt
  finally-Releases n (throw e) f bounded ends = ends (throw e) tt
  finally-Releases n (call c k) f (allowed, _, failed, answered) ends =
      plain_step true c _ _ _ _ allowed
        (λ e. finally-Releases (n - 1) (k (err e)) f (failed e) ends)
        (λ a. finally-Releases (n - 1) (k (ok a)) f (answered a) ends)
