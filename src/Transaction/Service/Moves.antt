-- ===== src/Transaction/Service/Moves.antt =====
-- `move_funds`, step by step: what it has stored when it ends, and where a failed call leaves it.
use transaction_service.Shared.{
  ℕ, String, ℤ, neg_ℤ, none, [], ◌∷◌, true, ◌==◌, ◌≡◌, refl, ◌⊎◌, inl, inr, first, update_first,
  update_first-none, ap, List,
}
use transaction_service.Driver.Errors.{Exception, exception, Result, ok, err, internal_server_error}
use transaction_service.Driver.Calls.{Call, commit_transaction, direct, in_session}
use transaction_service.Driver.Prog.{◌>>◌, await}
use transaction_service.Driver.Documents.{Documents, Failure, insert, discarded}
use transaction_service.Driver.Triples.{Post, Ensures, Ensures->>=, Ensures-catch, Ensures-mono}
use transaction_service.Account.Types.{Account}
use transaction_service.Account.Repository.{update_balance}
use transaction_service.Transaction.Types.{Transaction, success}
use transaction_service.Transaction.Dto.{TransferRequest}
use transaction_service.Transaction.Schema.{
  is_invalid, validated, validated-cases, pre_save, new_transaction,
}
use transaction_service.Transaction.Repository.{save, create, update_status, session_object}
use transaction_service.Transaction.Service.{Config, move_funds, transfer_data}
use transaction_service.Transaction.Service.Rules.{
  debit, credit, processing_record, IsApproved, IsStage, untouched, debited, moved, completed,
  IsPartial,
}
use transaction_service.Transaction.Service.Checks.{Faulty}

module _ (F : Call → Documents → Documents → Type 0)
    (sound : (c : Call) (s s' : Documents) → F c s s' → Failure c s s') (cfg : Config)
    (req : TransferRequest) (id : String) (amount : ℤ) (s : Documents) (a : Account)
    (approved : IsApproved cfg req amount s.accounts a)
    (fresh : first (λ t. t.transaction_id == id) s.transactions ≡ none) where
  abbrev IsInvalid : Exception → Type 0
  IsInvalid e =
      (is_invalid cfg.upper_case (transfer_data id req amount) ≡ true)
      × (e ≡ exception internal_server_error "Database error during transaction creation")

  -- A failed call leaves a part of the work; a record that the schema refuses leaves none of it.
  abbrev pub Moved : Post Unit
  Moved (ok _) s' = (d d' date : ℕ) × (s' ≡ completed cfg req id amount d d' date s)
  Moved (err e) s' =
      (Faulty F sound × IsPartial cfg req id amount s s') ⊎ (IsInvalid e × (s' ≡ discarded s))

  -- The documents after each step.
  abbrev recorded_at : ℕ → Documents
  recorded_at date = record (discarded s) {
    transaction_writes = insert (processing_record cfg req id amount date) ∷ [];
  }

  abbrev debited_at : ℕ → ℕ → Documents
  debited_at date d = record (recorded_at date) { accounts = debit req amount d s.accounts }

  abbrev credited_at : ℕ → ℕ → ℕ → Documents
  credited_at date d d' = record (recorded_at date) {
    accounts = credit req amount d' (debit req amount d s.accounts);
  }

  commit-Moved :
      (date d d' : ℕ) → Ensures F (await commit_transaction) Moved (credited_at date d d')
  commit-Moved date d d' = (
    λ e s' f. inl (
      (_, _, s', f),
      elim (sound _ _ s' f) [
        | inl same ↦ rw same (record {
          stage = moved a d d' approved refl;
          recorded = inl refl;
          no_account_writes = refl;
          cache = refl;
          logs = refl;
        })
        | inr (_, reply) ↦ rw reply (record {
          stage = moved a d d' approved refl;
          recorded = inr (date, refl);
          no_account_writes = refl;
          cache = refl;
          logs = refl;
        })
      ],
    ),
    λ _ s' reply. (d, d', date, reply),
  )

  -- Before the commit nothing is recorded outside the session.
  partial :
      (s' : Documents) {xs : List Account}
      → IsStage cfg req amount s.accounts xs
      → s' ≡ record (discarded s) { accounts = xs; transaction_writes = s'.transaction_writes }
      → IsPartial cfg req id amount s s'
  partial s' stage same = record {
    stage = rw (ap (λ (t : Documents). t.accounts) same) stage;
    recorded = inl (ap (λ (t : Documents). t.transactions) same);
    no_account_writes = ap (λ (t : Documents). t.account_writes) same;
    cache = ap (λ (t : Documents). t.cache) same;
    logs = ap (λ (t : Documents). t.logs) same;
  }

  -- No stored record has the new identifier, so that the status update finds none.
  status-Moved :
      (date d d' : ℕ)
      → Ensures F
          (update_status id success (session_object cfg.session_text) direct
            >> await commit_transaction)
          Moved
          (credited_at date d d')
  unfolding update_status
  status-Moved date d d' = (
    λ e s' f. absurd (sound _ _ s' f),
    λ now s' reply. rw reply (
      λ e s'' f. inl (
        (_, _, s'', f),
        elim (sound _ _ s'' f) [
          | inl same ↦ partial s'' (moved a d d' approved refl) (rw same)
          | inr (_, reply') ↦ partial s'' (moved a d d' approved refl) (rw (reply'.1, unchanged _))
        ],
      ),
      λ _ s'' reply'. rw (reply'.1, unchanged _) (commit-Moved date d d'),
    ),
  )
    where
      unchanged :
          (f : Transaction → Transaction)
          → update_first (λ t. t.transaction_id == id) f s.transactions ≡ s.transactions
      unchanged f = update_first-none _ f s.transactions fresh

  credit-Moved :
      (date d : ℕ)
      → Ensures F
          (update_balance req.to_account amount
            >> (update_status id success (session_object cfg.session_text) direct
                >> await commit_transaction))
          Moved
          (debited_at date d)
  unfolding update_balance
  credit-Moved date d = (
    λ e s' f. absurd (sound _ _ s' f),
    λ d' s' reply. rw reply (
      λ e s'' f. inl (
        (_, _, s'', f),
        elim (sound _ _ s'' f) [
          | inl same ↦ partial s'' (debited a d approved refl) (rw same)
          | inr (_, reply') ↦ partial s'' (moved a d d' approved refl) (rw reply'.1)
        ],
      ),
      λ _ s'' reply'. rw reply'.1 (status-Moved date d d'),
    ),
  )

  debit-Moved :
      (date : ℕ)
      → Ensures F
          (update_balance req.from_account (neg_ℤ amount)
            >> (update_balance req.to_account amount
                >> (update_status id success (session_object cfg.session_text) direct
                    >> await commit_transaction)))
          Moved
          (recorded_at date)
  unfolding update_balance
  debit-Moved date = (
    λ e s' f. absurd (sound _ _ s' f),
    λ d s' reply. rw reply (
      λ e s'' f. inl (
        (_, _, s'', f),
        elim (sound _ _ s'' f) [
          | inl same ↦ partial s'' (untouched refl) (rw same)
          | inr (_, reply') ↦ partial s'' (debited a d approved refl) (rw reply'.1)
        ],
      ),
      λ _ s'' reply'. rw reply'.1 (credit-Moved date d),
    ),
  )

  abbrev Created : Post Transaction
  Created (ok _) s' = (date : ℕ) × (s' ≡ recorded_at date)
  Created (err e) s' = Moved (err e) s'

  create-Created :
      Ensures F
        (create cfg.upper_case (transfer_data id req amount) in_session)
        Created
        (discarded s)
  unfolding create save pre_save new_transaction transfer_data
  create-Created =
      Ensures-catch F (save (validated cfg.upper_case (transfer_data id req amount)) in_session) _ _
        (discarded s)
        (elim (validated-cases cfg.upper_case (transfer_data id req amount)) [
          | inl (invalid, e, thrown) ↦ rw thrown (inr ((invalid, refl), refl))
          | inr valid ↦ rw valid (
            λ e s' f. inl (
              (_, _, s', f),
              elim (sound _ _ s' f) [
                | inl same ↦ partial s' (untouched refl) (rw same)
                | inr (t, (date, saved, reply)) ↦ partial s' (untouched refl) (rw reply)
              ],
            ),
            λ t s' (date, saved, reply). (date, rw (reply, saved)),
          )
        ])

  create-Ensures :
      (Q : Post Transaction)
      → ((t : Transaction) (date : ℕ) → Q (ok t) (recorded_at date))
      → ((e : Exception) (s' : Documents) → Moved (err e) s' → Q (err e) s')
      → Ensures F (create cfg.upper_case (transfer_data id req amount) in_session) Q (discarded s)
  create-Ensures Q done failed = Ensures-mono F _ (discarded s) implied create-Created
    where
      implied : (r : Result Transaction) (s' : Documents) → Created r s' → Q r s'
      implied (ok t) s' (date, same) = rw same (done t date)
      implied (err e) s' h = failed e s' h

  -- The whole of steps 3 to 5, from the start of the session.
  pub move_funds-Moved : Ensures F (move_funds cfg req id amount) Moved (discarded s)
  unfolding move_funds
  move_funds-Moved =
      Ensures->>= F (create cfg.upper_case (transfer_data id req amount) in_session) _ _ _
        (create-Ensures _ (λ t date. debit-Moved date) (λ e s' h. h))
