-- ===== src/Transaction/Service/Outcome.antt =====
-- How the `try` block of `transfer` ends, from the start of its session.
use transaction_service.Shared.{
  ℕ, ℤ, pos, String, none, some, ◌∷◌, false, ◌==◌, ◌≡◌, ◌≢◌, refl, ◌⊎◌, inl, inr, first,
}
use transaction_service.Driver.Errors.{Result, ok, err}
use transaction_service.Driver.Calls.{Call}
use transaction_service.Driver.Prog.{◌>>◌}
use transaction_service.Driver.Documents.{Documents, Failure, discarded}
use transaction_service.Driver.Triples.{Post, Ensures, Then, Ensures->>=, Ensures-mono}
use transaction_service.Account.Types.{Account}
use transaction_service.Transaction.Dto.{TransferRequest, TransferResponse}
use transaction_service.Transaction.Service.{
  Config, validate_amount, check_accounts, move_funds, remember, finish, transfer_body,
}
use transaction_service.Transaction.Service.Requests.{truthy_text}
use transaction_service.Transaction.Service.Rules.{
  IsCovered, IsApproved, untouched, moved, completed, IsSame, IsInterrupted, IsRefusal, by_accounts,
  by_schema, IsPerformed,
}
use transaction_service.Transaction.Service.Checks.{Faulty, Checked, check_accounts-Ensures}
use transaction_service.Transaction.Service.Moves.{Moved, move_funds-Moved}
use transaction_service.Transaction.Service.Session.{remember-Ensures}

module _ (F : Call → Documents → Documents → Type 0)
    (sound : (c : Call) (s s' : Documents) → F c s s' → Failure c s s') where
  module _ (cfg : Config) (req : TransferRequest) (s : Documents) where
    -- How a transfer ends: it has been made, or it has been refused with nothing changed, or a
    -- call has failed on the way.
    abbrev pub Ended : Post TransferResponse
    Ended (ok r) s' = IsPerformed cfg req r s s'
    Ended (err e) s' =
        (Faulty F sound × IsInterrupted cfg req s s')
        ⊎ (IsRefusal cfg req s.accounts e × IsSame s s')

    unchanged : IsSame s (discarded s)
    unchanged = record { accounts = refl; transactions = refl; cache = refl; logs = refl }

    -- A failure before anything is written.
    pub unreached_by : (s' : Documents) → IsSame s s' → IsInterrupted cfg req s s'
    unreached_by s' same = record {
      amount = pos 0;
      id = "";
      stage = untouched same.accounts;
      recorded = inl same.transactions;
      cache = inl same.cache;
      logs = same.logs;
    }

    unreached : IsInterrupted cfg req s (discarded s)
    unreached = unreached_by (discarded s) unchanged

    module _ (id : String) (amount : ℤ) (valid : validate_amount cfg req.amount ≡ ok amount)
        (apart : req.from_account ≢ req.to_account) (nonempty : (id == "") ≡ false)
        (fresh : first (λ t. t.transaction_id == id) s.transactions ≡ none) where
      approve :
          (a : Account) → IsCovered req amount s.accounts a → IsApproved cfg req amount s.accounts a
      approve a covered = record { valid = valid; apart = apart; covered = covered }

      -- From the commit on.
      finish-Ended :
          (a : Account) (d d' date : ℕ)
          → IsCovered req amount s.accounts a
          → Ensures F (finish req id amount a) Ended (completed cfg req id amount d d' date s)
      unfolding finish
      finish-Ended a d d' date covered = (
        λ e s' f. absurd (sound _ _ s' f),
        λ timestamp s' reply. rw reply (
            Ensures->>= F (remember (truthy_text req.idempotency_key) _) _ _ _ (
              remember-Ensures F sound (truthy_text req.idempotency_key) _ _ _
                (
                  λ e s' f. absurd (sound _ _ s' f),
                  λ later s' reply'. record {
                    amount = amount;
                    id = id;
                    sender = a;
                    debit_date = d;
                    credit_date = d';
                    created_at = date;
                    timestamp = timestamp;
                    approved = approve a covered;
                    response = refl;
                    stored = reply';
                  },
                )
                (λ e s' faulty left. inl (faulty, after_commit s' left)))),
      )
        where
          after_commit :
              {r : TransferResponse} (s' : Documents)
              → (s' ≡ completed cfg req id amount d d' date s)
                ⊎ ((k : String) × (truthy_text req.idempotency_key ≡ some k)
                    × (s' ≡ record (completed cfg req id amount d d' date s) {
                      cache = (k, r) ∷ s.cache;
                    }))
              → IsInterrupted cfg req s s'
          after_commit s' (inl same) = rw same (record {
            amount = amount;
            id = id;
            stage = moved a d d' (approve a covered) refl;
            recorded = inr (date, refl);
            cache = inl refl;
            logs = refl;
          })
          after_commit {r} s' (inr (k, key, same)) = rw same (record {
            amount = amount;
            id = id;
            stage = moved a d d' (approve a covered) refl;
            recorded = inr (date, refl);
            cache = inr (k, r, key, refl);
            logs = refl;
          })

      moved-Ended :
          (a : Account) (covered : IsCovered req amount s.accounts a) (r : Result Unit)
          (s' : Documents)
          → Moved F sound cfg req id amount s a (approve a covered) fresh r s'
          → Then F (λ _. finish req id amount a) Ended r s'
      moved-Ended a covered (ok _) s' (d, d', date, same) =
          rw same (finish-Ended a d d' date covered)
      moved-Ended a covered (err e) s' (inl (faulty, left)) = inl (
        faulty,
        record {
          amount = amount;
          id = id;
          stage = left.stage;
          recorded = left.recorded;
          cache = inl left.cache;
          logs = left.logs;
        },
      )
      moved-Ended a covered (err e) s' (inr ((invalid, thrown), same)) =
          inr (by_schema amount id a (approve a covered) nonempty invalid thrown, rw same unchanged)

      checked-Ended :
          (r : Result Account) (s' : Documents)
          → Checked F sound req amount (discarded s) r s'
          → Then F (λ a. move_funds cfg req id amount >> finish req id amount a) Ended r s'
      checked-Ended (ok a) s' (same, covered) = rw same (
          Ensures->>= F (move_funds cfg req id amount) _ _ _ (
            Ensures-mono F (move_funds cfg req id amount) _ (moved-Ended a covered)
              (move_funds-Moved F sound cfg req id amount s a (approve a covered) fresh)))
      checked-Ended (err e) s' (same, inl faulty) = inl (faulty, rw same unreached)
      checked-Ended (err e) s' (same, inr refused) =
          inr (by_accounts amount valid refused, rw same unchanged)

      pub transfer_body-Ended : Ensures F (transfer_body cfg req id amount) Ended (discarded s)
      unfolding transfer_body
      transfer_body-Ended = Ensures->>= F (check_accounts req amount) _ _ _ (
          Ensures-mono F (check_accounts req amount) _ checked-Ended
            (check_accounts-Ensures F sound req amount (discarded s)))
