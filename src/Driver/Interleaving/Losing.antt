-- ===== src/Driver/Interleaving/Losing.antt =====
-- Any number of requests at a time, of which any call may fail.
use transaction_service.Shared.{
  ℕ, zero, suc, String, ℤ, pos, ◌+ℤ◌, int_laws, List, [], ◌∷◌, ◌≡◌, refl, sym, ap, ◌∙◌,
}
use transaction_service.Driver.Errors.{Result, ok, err}
use transaction_service.Driver.Calls.{Call, Answer}
use transaction_service.Driver.Prog.{Prog, ret, throw, call, Driver, run}
use transaction_service.Driver.Documents.{Documents, Failure, Keeps, Follows}
use transaction_service.Driver.Interleaving.{Parked, with_writes, IsSettled}
use transaction_service.Driver.Interleaving.Settling.{Step, Settles}
use transaction_service.Driver.Interleaving.Runs.{first_part, second_part, right_first}
use transaction_service.Driver.Interleaving.Pool.{
  Active, advance, turn, finish_all, run_pool, Numbered, Balanced,
}
use transaction_service.Account.Balances.{total}

-- An amount is a sum of parts, one for each pair of two lists of the same length.
abbrev pub Split : {R X : Type 0} → (R → X → ℤ → Type 0) → List R → List X → ℤ → Type 0
Split P [] [] d = d ≡ pos 0
Split P (r ∷ rs) (x ∷ xs) d = (e : ℤ) × (f : ℤ) × (d ≡ e +ℤ f) × P r x e × Split P rs xs f
Split P [] (x ∷ xs) d = ⊥
Split P (r ∷ rs) [] d = ⊥

swapped : (x f e : ℤ) → (x +ℤ f) +ℤ e ≡ (x +ℤ e) +ℤ f
swapped x f e = omega int_laws

associated : (a e f : ℤ) → (a +ℤ e) +ℤ f ≡ a +ℤ (e +ℤ f)
associated a e f = omega int_laws

both_parts :
    (a x z e e' f f' : ℤ) → x +ℤ e' ≡ a +ℤ e → z +ℤ f' ≡ x +ℤ f → z +ℤ (e' +ℤ f') ≡ a +ℤ (e +ℤ f)
both_parts a x z e e' f f' first_sum second_sum =
    rw (right_first z e' f', second_sum, swapped x f e', first_sum, associated a e f) refl

module _ (numbers : List String) {R A : Type 0} (Q : R → Result A → ℤ → Type 0) where
  -- What is left of a request ends as `Q` says, and its session holds no writes to accounts.
  abbrev pub Pending : R → Active A → ℤ → Type 0
  Pending r x e = Settles numbers x.program (Q r) e × (x.writes.account_writes ≡ [])

  module _ {W : Type 0} (view : W → Documents) (driver : Driver W)
      (follows : Follows Failure view driver) (enter : Parked → W → W)
      (enters : (u : Parked) (w : W) → view (enter u w) ≡ with_writes u (view w)) where
    ended :
        (c : Call) (k : Result (Answer c) → Prog A) (r : R) (d : ℤ) (s : Documents)
        (x : Result (Answer c) × W)
        → Keeps Failure view c s x
        → IsSettled numbers s
        → Settles numbers (call c k) (Q r) d
        → Step numbers s (view x.1) d (Settles numbers (k x.0) (Q r))
    ended c k r d s (ok a, w') kept settled h = h (ok a) s (view w') settled kept
    ended c k r d s (err e, w') kept settled h = h (err e) s (view w') settled kept

    begun :
        (u : Parked) (w : W)
        → Numbered numbers (view w).accounts
        → u.account_writes ≡ []
        → IsSettled numbers (view (enter u w))
    begun u w same idle = rw (enters u w) (same, idle)

    begun_total : (u : Parked) (w : W) → total (view (enter u w)).accounts ≡ total (view w).accounts
    begun_total u w = ap (λ (s : Documents). total s.accounts) (enters u w)

    run-Settles :
        (m : Prog A) (r : R) (d : ℤ) (w : W)
        → IsSettled numbers (view w)
        → Settles numbers m (Q r) d
        → let (x, w') = run driver m w in Step numbers (view w) (view w') d (Q r x)
    unfolding run
    run-Settles (ret a) r d w settled h = (settled, (d, refl, h))
    run-Settles (throw e) r d w settled h = (settled, (d, refl, h))
    run-Settles (call c k) r d w settled h =
        let (settled', (d', sum, rest)) =
          ended c k r d (view w) (driver c w) (follows.replies c w) settled h in
        let (settled'', (d'', sum', last)) =
          run-Settles (k (driver c w).0) r d' (driver c w).1 settled' rest in
        (settled'', (d'', sum' ∙ sum, last))

    advance-Pending :
        (p : Prog A) (r : R) (u : Parked) (w : W) (e : ℤ)
        → Numbered numbers (view w).accounts
        → u.account_writes ≡ []
        → Settles numbers p (Q r) e
        → let (x, w') = advance view driver enter p u w in
          Balanced numbers (view w').accounts (view w).accounts e (Pending r x)
    advance-Pending (ret a) r u w e same idle h = (same, (e, refl, (h, idle)))
    advance-Pending (throw x) r u w e same idle h = (same, (e, refl, (h, idle)))
    advance-Pending (call c k) r u w e same idle h =
        let (settled, (e', sum, rest)) =
          ended c k r e (view (enter u w)) (driver c (enter u w)) (follows.replies c (enter u w))
            (begun u w same idle) h in
        (settled.0, (e', sum ∙ ap (λ x. x +ℤ e) (begun_total u w), (rest, settled.1)))

    turn-Pending :
        (n : ℕ) (rs : List R) (xs : List (Active A)) (w : W) (d : ℤ)
        → Numbered numbers (view w).accounts
        → Split Pending rs xs d
        → let (xs', w') = turn view driver enter n xs w in
          Balanced numbers (view w').accounts (view w).accounts d (Split Pending rs xs')
    turn-Pending n [] [] w d same h = (same, (d, refl, h))
    turn-Pending n [] (x ∷ xs) w d same h = absurd h
    turn-Pending n (r ∷ rs) [] w d same h = absurd h
    turn-Pending zero (r ∷ rs) (x ∷ xs) w d same (e, f, parts, (settles, idle), others) =
        let (same', (e', sum, pending)) =
          advance-Pending x.program r x.writes w e same idle settles in
        (
          same',
          (
            e' +ℤ f,
            first_part (total (view w).accounts) _ e' e f sum
                ∙ ap (λ z. total (view w).accounts +ℤ z) (sym parts),
            (e', f, refl, pending, others),
          ),
        )
    turn-Pending (suc n) (r ∷ rs) (x ∷ xs) w d same (e, f, parts, pending, others) =
        let (same', (f', sum, others')) = turn-Pending n rs xs w f same others in
        (
          same',
          (
            e +ℤ f',
            second_part (total (view w).accounts) _ f' e f sum
                ∙ ap (λ z. total (view w).accounts +ℤ z) (sym parts),
            (e, f', refl, pending, others'),
          ),
        )

    finish_all-Split :
        (rs : List R) (xs : List (Active A)) (w : W) (d : ℤ)
        → Numbered numbers (view w).accounts
        → Split Pending rs xs d
        → let (results, w') = finish_all view driver enter xs w in
          Balanced numbers (view w').accounts (view w).accounts d (Split Q rs results)
    finish_all-Split [] [] w d same h = (same, (d, refl, h))
    finish_all-Split [] (x ∷ xs) w d same h = absurd h
    finish_all-Split (r ∷ rs) [] w d same h = absurd h
    finish_all-Split (r ∷ rs) (x ∷ xs) w d same (e, f, parts, (settles, idle), others) =
        let (settled, (e', sum, ending)) =
          run-Settles x.program r e (enter x.writes w) (begun x.writes w same idle) settles in
        let w' = (run driver x.program (enter x.writes w)).1 in
        let (same', (f', sum', endings)) = finish_all-Split rs xs w' f settled.0 others in
        (
          same',
          (
            e' +ℤ f',
            both_parts (total (view w).accounts) (total (view w').accounts) _ e e' f f'
                  (sum ∙ ap (λ z. z +ℤ e) (begun_total x.writes w)) sum'
                ∙ ap (λ z. total (view w).accounts +ℤ z) (sym parts),
            (e', f', refl, ending, endings),
          ),
        )

    -- In every order of their calls, what the requests lose in all is a sum of what each loses.
    pub run_pool-Split :
        (ns : List ℕ) (rs : List R) (xs : List (Active A)) (w : W) (d : ℤ)
        → Numbered numbers (view w).accounts
        → Split Pending rs xs d
        → let (results, w') = run_pool view driver enter ns xs w in
          Balanced numbers (view w').accounts (view w).accounts d (Split Q rs results)
    unfolding run_pool
    run_pool-Split [] rs xs w d same h = finish_all-Split rs xs w d same h
    run_pool-Split (n ∷ ns) rs xs w d same h =
        let (xs', w') = turn view driver enter n xs w in
        let (same', (d', sum, h')) = turn-Pending n rs xs w d same h in
        let (same'', (d'', sum', endings)) = run_pool-Split ns rs xs' w' d' same' h' in
        (same'', (d'', sum' ∙ sum, endings))
