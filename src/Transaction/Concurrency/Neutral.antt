-- ===== src/Transaction/Concurrency/Neutral.antt =====
-- The calls that leave the accounts alone: most of those of
-- src/transaction/service/transaction.service.ts.
use transaction_service.Shared.{ℕ, String, ℤ, ◌+ℤ◌, List, [], Bool, ◌≡◌, refl, ap, ◌∙◌}
use transaction_service.Driver.Calls.{
  Call, Answer, direct, in_session, transaction_save, commit_transaction, abort_transaction,
  create_session, start_transaction, end_session, uuid, now, cache_get, cache_set,
  transaction_find_one_and_update,
}
use transaction_service.Driver.Documents.{Documents, Reply, apply_writes}
use transaction_service.Driver.Interleaving.{IsSettled}
use transaction_service.Account.Balances.{total}
use transaction_service.Transaction.Dto.{TransferResponse}
use transaction_service.Transaction.Types.{Transaction}

-- A call that leaves the accounts alone.
pub record IsNeutral (c : Call) : Type 0 where
  pub keeps :
      (s : Documents) (a : Answer c) (s' : Documents)
      → s.account_writes ≡ []
      → Reply c s a s'
      → (s'.accounts ≡ s.accounts) × (s'.account_writes ≡ [])

pub now-IsNeutral : IsNeutral now
now-IsNeutral = record { keeps = λ s a s' idle reply. (rw reply refl, rw reply idle) }

pub uuid-IsNeutral : IsNeutral uuid
uuid-IsNeutral = record { keeps = λ s a s' idle reply. (rw reply.2 refl, rw reply.2 idle) }

pub create_session-IsNeutral : IsNeutral create_session
create_session-IsNeutral = record { keeps = λ s a s' idle reply. (rw reply refl, rw reply idle) }

pub start_transaction-IsNeutral : IsNeutral start_transaction
start_transaction-IsNeutral = record { keeps = λ s a s' idle reply. (rw reply refl, rw reply refl) }

pub abort_transaction-IsNeutral : IsNeutral abort_transaction
abort_transaction-IsNeutral = record { keeps = λ s a s' idle reply. (rw reply refl, rw reply refl) }

pub end_session-IsNeutral : IsNeutral end_session
end_session-IsNeutral = record { keeps = λ s a s' idle reply. (rw reply refl, rw reply refl) }

pub commit_transaction-IsNeutral : IsNeutral commit_transaction
commit_transaction-IsNeutral = record {
  keeps = λ s a s' idle reply. (
    ap (λ (t : Documents). t.accounts) reply ∙ ap (λ ws. apply_writes ws s.accounts) idle,
    rw reply refl,
  );
}

pub transaction_save-IsNeutral : (t : Transaction) → IsNeutral (transaction_save t in_session)
transaction_save-IsNeutral t = record {
  keeps = λ s a s' idle reply. (rw reply.2 refl, rw reply.2 idle);
}

pub transaction_update-IsNeutral :
    (p : Transaction → Bool) (f : Transaction → Transaction)
    → IsNeutral (transaction_find_one_and_update p f direct)
transaction_update-IsNeutral p f = record {
  keeps = λ s a s' idle reply. (rw reply.1 refl, rw reply.1 idle);
}

pub cache_get-IsNeutral : (k : String) → IsNeutral (cache_get k)
cache_get-IsNeutral k = record { keeps = λ s a s' idle reply. (rw reply.1 refl, rw reply.1 idle) }

pub cache_set-IsNeutral :
    (k : String) (r : TransferResponse) (ttl : ℕ) → IsNeutral (cache_set k r ttl)
cache_set-IsNeutral k r ttl = record { keeps = λ s a s' idle reply. (rw reply refl, rw reply idle) }

module _ (numbers : List String) where
  -- After a neutral call the same is owed as before it.
  pub passing :
      {c : Call} {X : ℤ → Type 0}
      → IsNeutral c
      → (s : Documents) (a : Answer c) (s' : Documents) → IsSettled numbers s
      → Reply c s a s'
      → (d : ℤ) → X d
      → IsSettled numbers s' × ((d' : ℤ) × (total s'.accounts +ℤ d' ≡ total s.accounts +ℤ d) × X d')
  passing n s a s' settled reply d x =
      let (accounts, writes) = n.keeps s a s' settled.1 reply in
      ((rw accounts settled.0, writes), (d, rw accounts refl, x))
