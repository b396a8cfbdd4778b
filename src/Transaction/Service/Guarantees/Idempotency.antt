-- ===== src/Transaction/Service/Guarantees/Idempotency.antt =====
-- The idempotency key of `transfer`: src/transaction/service/transaction.service.ts.
use mathlib.Core.Path.{◌∙◌, subst}
use mathlib.Core.Option.{some-injective}
use transaction_service.Shared.{
  List, [], ◌∷◌, ◌==◌, ◌⊎◌, Bool-cases, ℕ, String, Option, none, some, ◌≡◌, refl, sym, ap, inl, inr,
  eq_iff,
}
use transaction_service.Driver.Errors.{Result, ok, err}
use transaction_service.Driver.Calls.{cache_get, now}
use transaction_service.Driver.Prog.{Driver, run, ◌>>=◌, settle}
use transaction_service.Driver.Documents.{Documents, NoFailure, Keeps, Follows, cached}
use transaction_service.Transaction.Dto.{TransferRequest, TransferResponse}
use transaction_service.Transaction.Service.{
  Config, cached_response, or_perform, transfer_uncached, transfer,
}
use transaction_service.Transaction.Service.Requests.{truthy_text}
use transaction_service.Transaction.Service.Rules.{IsPerformed, completed, remembered}
use transaction_service.Transaction.Service.Guarantees.Availability.{Decided, transfer-Decided}

-- The cache gives back what it was given: no entry has expired.
abbrev pub Retains : {W : Type 0} → (W → Documents) → Driver W → Type 0
Retains view driver =
    (k : String) (w : _) → (driver (cache_get k) w).0 ≡ ok (cached k (view w).cache)

cached-remembered :
    (key : String) (r : TransferResponse) (s : Documents)
    → cached key (remembered (some key) r s).cache ≡ some r
cached-remembered key r s = rw ((eq_iff key key).1 refl)

performed-cached :
    (cfg : Config) (req : TransferRequest) (key : String) (r : TransferResponse) (s s' : Documents)
    → truthy_text req.idempotency_key ≡ some key
    → IsPerformed cfg req r s s'
    → cached key s'.cache ≡ some r
performed-cached cfg req key r s s' e p =
    let t = completed cfg req p.id p.amount p.debit_date p.credit_date p.created_at s in
    ap (λ (u : Documents). cached key u.cache) (p.stored ∙ ap (λ k. remembered k r t) e)
    ∙ cached-remembered key r t

-- Transfers one after the other.
abbrev pub transfers : {W : Type 0} → Driver W → Config → List TransferRequest → W → W
transfers driver cfg [] w = w
transfers driver cfg (req ∷ reqs) w = transfers driver cfg reqs (run driver (transfer cfg req) w).1

module _ {W : Type 0} (view : W → Documents) (driver : Driver W)
    (follows : Follows NoFailure view driver) (retains : Retains view driver) where
  -- Once the cache has a response under the key.
  replay :
      (cfg : Config) (req : TransferRequest) (key : String) (r : TransferResponse) (w : W)
      → truthy_text req.idempotency_key ≡ some key
      → cached key (view w).cache ≡ some r
      → let (result, w') = run driver (transfer cfg req) w in (result ≡ ok r) × (view w' ≡ view w)
  unfolding run transfer cached_response
  replay cfg req key r w e hit = started (driver now w) (follows.replies now w)
    where
      looked_up :
          (w1 : W)
          → view w1 ≡ view w
          → (x : Result (Option TransferResponse) × W) → x.0 ≡ ok (cached key (view w1).cache)
          → Keeps NoFailure view (cache_get key) (view w1) x
          → let (result, w') =
              run driver
                (settle x.0 >>= λ found. or_perform found (transfer_uncached cfg req))
                x.1 in
            (result ≡ ok r) × (view w' ≡ view w)
      looked_up w1 same (ok none, w2) answer kept =
          let hit' : cached key (view w1).cache ≡ some r =
            ap (λ (t : Documents). cached key t.cache) same ∙ hit in
          absurd (cc hit')
      looked_up w1 same (ok (some r'), w2) answer kept =
          let hit' : cached key (view w1).cache ≡ some r =
            ap (λ (t : Documents). cached key t.cache) same ∙ hit in
          (cc hit', kept.1 ∙ same)
      looked_up w1 same (err e', w2) answer kept = absurd kept

      started :
          (x : Result ℕ × W)
          → Keeps NoFailure view now (view w) x
          → let (result, w') =
              run driver
                (settle x.0 >>= λ _. cached_response (truthy_text req.idempotency_key) >>= λ found.
                  or_perform found (transfer_uncached cfg req))
                x.1 in
            (result ≡ ok r) × (view w' ≡ view w)
      started (ok t, w1) kept = rw e (
          looked_up w1 kept (driver (cache_get key) w1) (retains key w1)
            (follows.replies (cache_get key) w1))
      started (err e', w1) kept = absurd kept

  answered-cached :
      (cfg : Config) (req : TransferRequest) (key : String) (r : TransferResponse)
      (s s' : Documents)
      → truthy_text req.idempotency_key ≡ some key
      → Decided cfg req s (ok r) s'
      → cached key s'.cache ≡ some r
  answered-cached cfg req key r s s' e (inl (key', e', hit, same)) =
      let k : key' ≡ key = some-injective key' key (sym e' ∙ e) in rw (same, ← k) hit
  answered-cached cfg req key r s s' e (inr p) = performed-cached cfg req key r s s' e p

  other_key :
      (cfg : Config) (o : Option String) (key : String) (r r' : TransferResponse) (s : Documents)
      → cached key s.cache ≡ some r
      → (o ≡ some key → ⊥)
      → cached key (remembered o r' s).cache ≡ some r
  other_key cfg none key r r' s hit other = hit
  other_key cfg (some k) key r r' s hit other = elim (Bool-cases (k == key)) [
    | inl same ↦ absurd (other (ap some ((eq_iff k key).0 same)))
    | inr apart ↦ rw apart hit
  ]

  -- A transfer under another key, or under none, leaves the entry alone.
  Decided-cached :
      (cfg : Config) (req : TransferRequest) (key : String) (r : TransferResponse) (s : Documents)
      (x : Result TransferResponse) (s' : Documents)
      → cached key s.cache ≡ some r
      → (truthy_text req.idempotency_key ≡ some key → ⊥)
      → Decided cfg req s x s'
      → cached key s'.cache ≡ some r
  Decided-cached cfg req key r s (ok r') s' hit other (inl (_, _, _, same)) = rw same hit
  Decided-cached cfg req key r s (ok r') s' hit other (inr p) =
      ap (λ (u : Documents). cached key u.cache) p.stored
      ∙ other_key cfg (truthy_text req.idempotency_key) key r r'
          (completed cfg req p.id p.amount p.debit_date p.credit_date p.created_at s) hit other
  Decided-cached cfg req key r s (err e) s' hit other (_, same) = ap (cached key) same.cache ∙ hit

  is_key : (o : Option String) (key : String) → (o ≡ some key) ⊎ (o ≡ some key → ⊥)
  is_key none key = inr (λ h. cc)
  is_key (some k) key = elim (Bool-cases (k == key)) [
    | inl same ↦ inl (ap some ((eq_iff k key).0 same))
    | inr apart ↦ inr (λ h. cc (apart, (eq_iff k key).1 (some-injective k key h)))
  ]

  stays_cached :
      (cfg : Config) (req : TransferRequest) (key : String) (r : TransferResponse) (w : W)
      → cached key (view w).cache ≡ some r
      → cached key (view (run driver (transfer cfg req) w).1).cache ≡ some r
  stays_cached cfg req key r w hit = elim (is_key (truthy_text req.idempotency_key) key) [
    | inl e ↦
        let (_, same) = replay cfg req key r w e hit in
        ap (λ (s : Documents). cached key s.cache) same ∙ hit
    | inr other ↦
        Decided-cached cfg req key r (view w) _ _ hit other
          (transfer-Decided view driver follows cfg req w)
  ]

  stay_cached :
      (cfg : Config) (reqs : List TransferRequest) (key : String) (r : TransferResponse) (w : W)
      → cached key (view w).cache ≡ some r
      → cached key (view (transfers driver cfg reqs w)).cache ≡ some r
  stay_cached cfg [] key r w hit = hit
  stay_cached cfg (req ∷ reqs) key r w hit =
      stay_cached cfg reqs key r (run driver (transfer cfg req) w).1
        (stays_cached cfg req key r w hit)

  -- When no call fails and no cache entry has expired: once a transfer with a key has returned a
  -- response, and after any other transfers, one after the other, with whatever keys and results, a
  -- transfer with that key, whatever else it asks for, returns the same response, and nothing
  -- changes.
  pub transfer_twice :
      (cfg : Config) (req req' : TransferRequest) (between : List TransferRequest) (key : String)
      (r : TransferResponse) (w : W)
      → truthy_text req.idempotency_key ≡ some key
      → truthy_text req'.idempotency_key ≡ some key
      → (run driver (transfer cfg req) w).0 ≡ ok r
      → let w' = transfers driver cfg between (run driver (transfer cfg req) w).1 in
        let (result, w'') = run driver (transfer cfg req') w' in
        (result ≡ ok r) × (view w'' ≡ view w')
  transfer_twice cfg req req' between key r w e e' first_answer =
      let w1 = (run driver (transfer cfg req) w).1 in
      replay cfg req' key r (transfers driver cfg between w1) e' (
        stay_cached cfg between key r w1 (
          answered-cached cfg req key r (view w) _ e (
            subst (λ x. Decided cfg req (view w) x (view w1)) first_answer
              (transfer-Decided view driver follows cfg req w))))
