-- ===== src/Transaction/Service/Session.antt =====
-- The `try … catch … finally` around a transfer, and the storing of its response.
use transaction_service.Shared.{String, Option, none, some, ◌∷◌, ◌≡◌, refl, ◌⊎◌, inl, inr}
use transaction_service.Driver.Errors.{Exception, Result, ok, err}
use transaction_service.Driver.Calls.{Call, abort_transaction}
use transaction_service.Driver.Prog.{Prog, ret, throw, ◌>>◌, await, catch}
use transaction_service.Driver.Documents.{Documents, Failure, discarded}
use transaction_service.Driver.Triples.{
  Post, Ensures, Caught, Finally, Ensures-catch, Ensures-finally, Ensures-mono,
}
use transaction_service.Transaction.Dto.{TransferResponse}
use transaction_service.Transaction.Service.{remember, end_quietly, in_transaction}
use transaction_service.Transaction.Service.Rules.{remembered}
use transaction_service.Transaction.Service.Checks.{Faulty}

module _ (F : Call → Documents → Documents → Type 0)
    (sound : (c : Call) (s s' : Documents) → F c s s' → Failure c s s') where
  -- The end of the session drops what it has not committed, and stops nobody.
  pub end_quietly-Ensures :
      {A : Type 0} (m : Prog A) (Q : Post A) (s : Documents)
      → Ensures F m Q s
      → Ensures F m Q (discarded s)
      → Ensures F (end_quietly >> m) Q s
  end_quietly-Ensures m Q s kept dropped = (
    λ e s' f. elim (sound _ s s' f) [ inl same ↦ rw same kept | inr (a, reply) ↦ rw reply dropped ],
    λ a s' reply. rw reply dropped,
  )

  -- The `try` block: its result stands, unless the abort fails.
  pub in_transaction-Ensures :
      {A : Type 0} (body : Prog A) (R Q : Post A) (s : Documents)
      → ((a : A) (s' : Documents) → R (ok a) s' → Q (ok a) s' × Q (ok a) (discarded s'))
      → ((e : Exception) (s' : Documents) → R (err e) s' → Q (err e) (discarded s'))
      → ((e e' : Exception) (s' : Documents)
          → Faulty F sound
          → R (err e) s'
          → Q (err e') s' × Q (err e') (discarded s'))
      → Ensures F body R s
      → Ensures F (in_transaction body) Q s
  unfolding in_transaction
  in_transaction-Ensures {A} body R Q s done aborted broken h =
      Ensures-finally F (catch body _) end_quietly Q s
        (Ensures-catch F body _ _ s (Ensures-mono F body s handled h))
    where
      handled :
          (r : Result A) (s' : Documents)
          → R r s'
          → Caught F (λ e. await abort_transaction >> throw e) (Finally F end_quietly Q) r s'
      handled (ok a) s' p = end_quietly-Ensures (ret a) Q s' (done a s' p).0 (done a s' p).1
      handled (err e) s' p = (
        λ e' s'' f. elim (sound _ s' s'' f) [
          | inl same ↦ rw same (
              end_quietly-Ensures (throw e') Q s' (broken e e' s' (_, s', s'', f) p).0
                (broken e e' s' (_, s', s'', f) p).1)
          | inr (a, reply) ↦ rw reply (
              end_quietly-Ensures (throw e') Q (discarded s') (broken e e' s' (_, s', s'', f) p).1
                (broken e e' s' (_, s', s'', f) p).1)
        ],
        λ a s'' reply.
            rw reply
              (end_quietly-Ensures (throw e) Q (discarded s') (aborted e s' p) (aborted e s' p)),
      )

  -- Storing the response adds it under the key, if there is one, or a call fails.
  pub remember-Ensures :
      (key : Option String) (r : TransferResponse) (Q : Post Unit) (s : Documents)
      → Q (ok tt) (remembered key r s)
      → ((e : Exception) (s' : Documents)
          → Faulty F sound
          → (s' ≡ s)
            ⊎ ((k : String) × (key ≡ some k) × (s' ≡ record s { cache = (k, r) ∷ s.cache }))
          → Q (err e) s')
      → Ensures F (remember key r) Q s
  unfolding remember
  remember-Ensures none r Q s done failed = done
  remember-Ensures (some k) r Q s done failed = (
    λ e s' f. elim (sound _ s s' f) [
      | inl same ↦ failed e s' (_, s, s', f) (inl same)
      | inr (a, reply) ↦ failed e s' (_, s, s', f) (inr (k, refl, reply))
    ],
    λ a s' reply. rw reply done,
  )
