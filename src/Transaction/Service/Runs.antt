-- ===== src/Transaction/Service/Runs.antt =====
-- Every run of `transfer`, from any stored documents and under any failures of the calls.
use transaction_service.Shared.{
  ap, ◌∙◌, String, Option, none, some, ◌∷◌, ◌==◌, ◌≡◌, refl, sym, ◌⊎◌, inl, inr, eq_iff,
}
use transaction_service.Driver.Errors.{Exception, Result, ok, err}
use transaction_service.Driver.Calls.{Call, cache_get, create_session, start_transaction}
use transaction_service.Driver.Prog.{Prog, ◌>>=◌, settle}
use transaction_service.Driver.Documents.{Documents, Failure, cached, discarded}
use transaction_service.Driver.Triples.{Post, Ensures, Ensures-mono}
use transaction_service.Transaction.Dto.{TransferRequest, TransferResponse}
use transaction_service.Transaction.Service.{
  Config, validate_amount, transfer_body, transfer_uncached, cached_response, or_perform, transfer,
}
use transaction_service.Transaction.Service.Requests.{truthy_text}
use transaction_service.Transaction.Service.Rules.{
  remembered, IsSame, invalid_amount, same_account, IsPerformed, IsReplayed,
}
use transaction_service.Transaction.Service.Checks.{Faulty, throw_if-Ensures}
use transaction_service.Transaction.Service.Session.{in_transaction-Ensures}
use transaction_service.Transaction.Service.Outcome.{Ended, unreached_by, transfer_body-Ended}

discarded-remembered :
    (key : Option String) (r : TransferResponse) (s : Documents)
    → discarded s ≡ s
    → discarded (remembered key r s) ≡ remembered key r s
discarded-remembered none r s same = same
discarded-remembered (some k) r s same =
    ap (λ (t : Documents). record t { cache = (k, r) ∷ s.cache }) same

module _ (F : Call → Documents → Documents → Type 0)
    (sound : (c : Call) (s s' : Documents) → F c s s' → Failure c s s') where
  -- A result on which the rest of a program waits.
  settle-Ensures :
      {A B : Type 0} (x : Result A) (k : A → Prog B) (Q : Post B) (s : Documents)
      → ((a : A) → x ≡ ok a → Ensures F (k a) Q s)
      → ((e : Exception) → x ≡ err e → Q (err e) s)
      → Ensures F (settle x >>= k) Q s
  settle-Ensures (ok a) k Q s passed thrown = passed a refl
  settle-Ensures (err e) k Q s passed thrown = thrown e refl

  module _ (cfg : Config) (req : TransferRequest) (s : Documents) where
    -- The end of the session changes nothing that is stored.
    IsPerformed-discarded :
        (r : TransferResponse) (s' : Documents)
        → IsPerformed cfg req r s s'
        → IsPerformed cfg req r s (discarded s')
    IsPerformed-discarded r s' p = record {
      amount = p.amount;
      id = p.id;
      sender = p.sender;
      debit_date = p.debit_date;
      credit_date = p.credit_date;
      created_at = p.created_at;
      timestamp = p.timestamp;
      approved = p.approved;
      response = p.response;
      stored =
          ap discarded p.stored ∙ discarded-remembered (truthy_text req.idempotency_key) r _ refl;
    }

    ended_discarded :
        (e : Exception) (s' : Documents)
        → Ended F sound cfg req s (err e) s'
        → Ended F sound cfg req s (err e) (discarded s')
    ended_discarded e s' (inl (faulty, left)) = inl (
      faulty,
      record {
        amount = left.amount;
        id = left.id;
        stage = left.stage;
        recorded = left.recorded;
        cache = left.cache;
        logs = left.logs;
      },
    )
    ended_discarded e s' (inr (refusal, same)) = inr (
      refusal,
      record {
        accounts = same.accounts;
        transactions = same.transactions;
        cache = same.cache;
        logs = same.logs;
      },
    )

    -- With a further failure it counts as cut short.
    ended_broken :
        (e e' : Exception) (s' : Documents)
        → Faulty F sound
        → Ended F sound cfg req s (err e) s'
        → Ended F sound cfg req s (err e') s'
    ended_broken e e' s' faulty (inl (_, left)) = inl (faulty, left)
    ended_broken e e' s' faulty (inr (_, same)) =
        inl (faulty, unreached_by F sound cfg req s s' same)

    transfer_uncached-Ended : Ensures F (transfer_uncached cfg req) (Ended F sound cfg req s) s
    unfolding transfer_uncached
    transfer_uncached-Ended =
        settle-Ensures (validate_amount cfg req.amount) _ _ s
          (λ amount valid.
            throw_if-Ensures F sound (req.from_account == req.to_account) _ _ _ _ s
              (λ h. inr (same_account ((eq_iff _ _).0 h) refl, kept))
              (λ h. (
                λ e s' f. absurd (sound _ _ s' f),
                λ id s' (nonempty, fresh, same). rw same (
                  λ e s'' f. inl (
                    (_, s, s'', f),
                    unreached_by F sound cfg req s s'' (opened s'' (sound _ s s'' f)),
                  ),
                  λ _ s'' reply. rw reply (
                    λ e s3 f. inl (
                      (_, s, s3, f),
                      unreached_by F sound cfg req s s3 (started s3 (sound _ s s3 f)),
                    ),
                    λ _ s3 reply'. rw reply' (
                        in_transaction-Ensures F sound (transfer_body cfg req id amount)
                          (Ended F sound cfg req s) (Ended F sound cfg req s) (discarded s)
                          (λ r s4 p. (p, IsPerformed-discarded r s4 p)) ended_discarded
                          (λ e e' s4 faulty p. (
                            ended_broken e e' s4 faulty p,
                            ended_discarded e' s4 (ended_broken e e' s4 faulty p),
                          ))
                          (transfer_body-Ended F sound cfg req s id amount valid
                            (λ equal. cc ((eq_iff req.from_account req.to_account).1 equal))
                            nonempty fresh)),
                  ),
                ),
              )))
          (λ e thrown. inr (invalid_amount thrown, kept))
      where
        kept : IsSame s s
        kept = record { accounts = refl; transactions = refl; cache = refl; logs = refl }

        opened : (t : Documents) → Failure create_session s t → IsSame s t
        opened t (inl same) = rw same kept
        opened t (inr (_, reply)) = rw reply kept

        started : (t : Documents) → Failure start_transaction s t → IsSame s t
        started t (inl same) = rw same kept
        started t (inr (_, reply)) =
            rw reply (record { accounts = refl; transactions = refl; cache = refl; logs = refl })

    abbrev pub Answered : Post TransferResponse
    Answered (ok r) s' = IsReplayed req r s s' ⊎ IsPerformed cfg req r s s'
    Answered (err e) s' = Ended F sound cfg req s (err e) s'

    uncached-Answered : Ensures F (transfer_uncached cfg req) Answered s
    uncached-Answered = Ensures-mono F (transfer_uncached cfg req) s implied transfer_uncached-Ended
      where
        implied :
            (r : Result TransferResponse) (s' : Documents)
            → Ended F sound cfg req s r s'
            → Answered r s'
        implied (ok r) s' p = inr p
        implied (err e) s' p = p

    cache-Answered :
        (key : Option String)
        → truthy_text req.idempotency_key ≡ key
        → Ensures F
            (cached_response key >>= λ found. or_perform found (transfer_uncached cfg req))
            Answered
            s
    unfolding cached_response
    cache-Answered none e = uncached-Answered
    cache-Answered (some key) e = (
      λ e' s' f.
          inl ((_, s, s', f), unreached_by F sound cfg req s s' (looked_up s' (sound _ s s' f))),
      λ found s' reply. rw reply.1 (answered found reply.0),
    )
      where
        kept : IsSame s s
        kept = record { accounts = refl; transactions = refl; cache = refl; logs = refl }

        looked_up : (t : Documents) → Failure (cache_get key) s t → IsSame s t
        looked_up t (inl same) = rw same kept
        looked_up t (inr (_, reply)) = rw reply.1 kept

        answered :
            (found : Option TransferResponse)
            → (found ≡ none) ⊎ (found ≡ cached key s.cache)
            → Ensures F (or_perform found (transfer_uncached cfg req)) Answered s
        answered none h = uncached-Answered
        answered (some r) (inl missed) = cc
        answered (some r) (inr hit) = inl (key, e, sym hit, refl)

    -- Every run of `transfer`.
    pub transfer-Answered : Ensures F (transfer cfg req) Answered s
    unfolding transfer
    transfer-Answered = (
      λ e s' f. absurd (sound _ s s' f),
      λ start s' reply. rw reply (cache-Answered (truthy_text req.idempotency_key) refl),
    )
