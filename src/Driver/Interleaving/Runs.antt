-- ===== src/Driver/Interleaving/Runs.antt =====
-- What two interleaved requests add to the sum of the balances.
use transaction_service.Shared.{String, ℤ, ◌+ℤ◌, int_laws, List, [], ◌∷◌, map, ◌≡◌, refl, ap, ◌∙◌}
use transaction_service.Driver.Errors.{Result, ok, err}
use transaction_service.Driver.Calls.{Call, Answer}
use transaction_service.Driver.Prog.{Prog, ret, throw, call, Driver, run}
use transaction_service.Driver.Documents.{Documents, NoFailure, Keeps, Follows}
use transaction_service.Account.Types.{Account}
use transaction_service.Account.Balances.{total}
use transaction_service.Driver.Interleaving.{
  Turn, first_request, second_request, Parked, with_writes, run_two, IsSettled, Owes, Nothing,
}

-- The sum after, from the sum before and the amount owed.
abbrev pub Adds : List String → Documents → ℤ → Documents → Type 0
Adds numbers s d s' = IsSettled numbers s' × (total s'.accounts ≡ total s.accounts +ℤ d)

pub added : (a x z d d' : ℤ) → x ≡ a +ℤ d → z ≡ x +ℤ d' → z ≡ a +ℤ (d +ℤ d')
added a x z d d' first_sum second_sum = rw (second_sum, first_sum) (omega int_laws)

left_first : (x e d : ℤ) → x +ℤ (e +ℤ d) ≡ (x +ℤ e) +ℤ d
left_first x e d = omega int_laws

pub right_first : (x d e : ℤ) → x +ℤ (d +ℤ e) ≡ (x +ℤ e) +ℤ d
right_first x d e = omega int_laws

pub first_part : (a x e d d' : ℤ) → x +ℤ e ≡ a +ℤ d → x +ℤ (e +ℤ d') ≡ a +ℤ (d +ℤ d')
first_part a x e d d' sum = rw (left_first x e d', sum, left_first a d d') refl

pub second_part : (a x e d d' : ℤ) → x +ℤ e ≡ a +ℤ d' → x +ℤ (d +ℤ e) ≡ a +ℤ (d +ℤ d')
second_part a x e d d' sum = rw (right_first x d e, sum, right_first a d d') refl

module _ (numbers : List String) {W : Type 0} (view : W → Documents) (driver : Driver W)
    (follows : Follows NoFailure view driver) where
  -- One answered call, and what is still owed after it.
  pub step :
      {A : Type 0} (c : Call) (k : Result (Answer c) → Prog A) (d : ℤ) (s : Documents)
      (x : Result (Answer c) × W)
      → Keeps NoFailure view c s x
      → IsSettled numbers s
      → Owes numbers (call c k) (Nothing numbers) d
      → IsSettled numbers (view x.1)
        × ((d' : ℤ) × (total (view x.1).accounts +ℤ d' ≡ total s.accounts +ℤ d)
            × Owes numbers (k x.0) (Nothing numbers) d')
  step c k d s (ok a, w') kept settled h = h s a (view w') settled kept
  step c k d s (err e, w') kept settled h = absurd kept

  pub run-Adds :
      {A : Type 0} (m : Prog A) (d : ℤ) (w : W)
      → IsSettled numbers (view w)
      → Owes numbers m (Nothing numbers) d
      → Adds numbers (view w) d (view (run driver m w).1)
  unfolding run
  run-Adds (ret a) d w settled h = (settled, rw h (omega int_laws))
  run-Adds (throw e) d w settled h = (settled, rw h (omega int_laws))
  run-Adds (call c k) d w settled h =
      let (settled', (d', sum, rest)) =
        step c k d (view w) (driver c w) (follows.replies c w) settled h in
      let (settled'', sum') = run-Adds (k (driver c w).0) d' (driver c w).1 settled' rest in
      (settled'', sum' ∙ sum)

  module _ (enter : Parked → W → W)
      (enters : (u : Parked) (w : W) → view (enter u w) ≡ with_writes u (view w)) where
    abbrev pub IsIdle : Parked → Type 0
    IsIdle u = u.account_writes ≡ []

    pub entered :
        (u : Parked) (w : W)
        → map (λ (a : Account). a.account_no) (view w).accounts ≡ numbers
        → IsIdle u
        → IsSettled numbers (view (enter u w))
    entered u w same idle = rw (enters u w) (same, idle)

    pub accounts_entered :
        (u : Parked) (w : W) → total (view (enter u w)).accounts ≡ total (view w).accounts
    accounts_entered u w = ap (λ (s : Documents). total s.accounts) (enters u w)

    -- Two requests that owe `d` and `d'` add both to the sum of the balances, in every order of
    -- their calls.
    pub run_two-Adds :
        {A B : Type 0} (ts : List Turn) (p : Prog A) (q : Prog B) (d d' : ℤ) (u v : Parked) (w : W)
        → map (λ (a : Account). a.account_no) (view w).accounts ≡ numbers
        → IsIdle u
        → IsIdle v
        → Owes numbers p (Nothing numbers) d
        → Owes numbers q (Nothing numbers) d'
        → total (view (run_two view driver enter ts p q u v w).2).accounts
          ≡ total (view w).accounts +ℤ (d +ℤ d')
    unfolding run_two
    run_two-Adds [] p q d d' u v w same idle idle' h h' =
        let (settled, sum) = run-Adds p d (enter u w) (entered u w same idle) h in
        let (_, sum') =
          run-Adds q d' (enter v (run driver p (enter u w)).1)
            (entered v (run driver p (enter u w)).1 settled.0 idle') h' in
        added (total (view w).accounts) (total (view (run driver p (enter u w)).1).accounts) _ d d'
          (sum ∙ ap (λ x. x +ℤ d) (accounts_entered u w))
          (sum' ∙ ap (λ x. x +ℤ d') (accounts_entered v (run driver p (enter u w)).1))
    run_two-Adds (first_request ∷ ts) (call c k) q d d' u v w same idle idle' h h' =
        let (settled, (e, sum, rest)) =
          step c k d (view (enter u w)) (driver c (enter u w)) (follows.replies c (enter u w))
            (entered u w same idle) h in
        run_two-Adds ts (k (driver c (enter u w)).0) q e d' _ v (driver c (enter u w)).1 settled.0
          settled.1 idle' rest h'
        ∙ first_part (total (view w).accounts) _ e d d'
            (sum ∙ ap (λ x. x +ℤ d) (accounts_entered u w))
    run_two-Adds (first_request ∷ ts) (ret a) q d d' u v w same idle idle' h h' =
        run_two-Adds ts (ret a) q d d' u v w same idle idle' h h'
    run_two-Adds (first_request ∷ ts) (throw e) q d d' u v w same idle idle' h h' =
        run_two-Adds ts (throw e) q d d' u v w same idle idle' h h'
    run_two-Adds (second_request ∷ ts) p (call c k) d d' u v w same idle idle' h h' =
        let (settled, (e, sum, rest)) =
          step c k d' (view (enter v w)) (driver c (enter v w)) (follows.replies c (enter v w))
            (entered v w same idle') h' in
        run_two-Adds ts p (k (driver c (enter v w)).0) d e u _ (driver c (enter v w)).1 settled.0
          idle settled.1 h rest
        ∙ second_part (total (view w).accounts) _ e d d'
            (sum ∙ ap (λ x. x +ℤ d') (accounts_entered v w))
    run_two-Adds (second_request ∷ ts) p (ret a) d d' u v w same idle idle' h h' =
        run_two-Adds ts p (ret a) d d' u v w same idle idle' h h'
    run_two-Adds (second_request ∷ ts) p (throw e) d d' u v w same idle idle' h h' =
        run_two-Adds ts p (throw e) d d' u v w same idle idle' h h'
