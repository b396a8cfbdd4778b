-- ===== src/Transaction/Service/Guarantees/Availability.antt =====
-- `transfer` when no call fails: it does what the rules say, and all of it or nothing.
-- src/transaction/service/transaction.service.ts.
use mathlib.Core.Path.{◌∙◌, subst}
use mathlib.Core.Option.{some-injective}
use transaction_service.Shared.{
  String, ℤ, pos, ◌≤ℤ◌, none, some, List, false, ◌==◌, ◌≡◌, ◌≢◌, refl, sym, ap, ◌⊎◌, inl, inr,
  arith,
}
use transaction_service.Driver.Errors.{Exception, Result, ok, err}
use transaction_service.Driver.Calls.{Call}
use transaction_service.Driver.Prog.{Driver, run}
use transaction_service.Driver.Documents.{Documents, NoFailure, Failure, Follows, cached}
use transaction_service.Driver.Triples.{Ensures-mono, Ensures-run}
use transaction_service.Account.Types.{Account}
use transaction_service.Transaction.Dto.{TransferRequest, TransferResponse}
use transaction_service.Transaction.Schema.{is_invalid}
use transaction_service.Transaction.Service.{Config, validate_amount, transfer_data, transfer}
use transaction_service.Transaction.Service.Requests.{truthy_text}
use transaction_service.Transaction.Service.Rules.{
  IsCovered, Refused, no_sender, no_receiver, sender_frozen, short_of_funds, IsApproved, IsSame,
  IsRefusal, invalid_amount, same_account, by_accounts, by_schema, IsPerformed, IsReplayed,
}
use transaction_service.Transaction.Service.Runs.{Answered, transfer-Answered}

no_faults : (c : Call) (s s' : Documents) → NoFailure c s s' → Failure c s s'
no_faults c s s' f = absurd f

module _ (req : TransferRequest) (amount : ℤ) (accounts : List Account) where
  -- Covered and refused exclude each other.
  covered-not-Refused :
      (a : Account) (e : Exception)
      → IsCovered req amount accounts a
      → ¬ Refused req amount accounts e
  covered-not-Refused a e c (no_sender absent _) = cc (c.sender)
  covered-not-Refused a e c (no_receiver _ absent _) = c.receiver absent
  covered-not-Refused a e c (sender_frozen b found _ is_frozen _) =
      c.unfrozen
        (ap (λ (x : Account). x.status) (some-injective a b (sym c.sender ∙ found)) ∙ is_frozen)
  covered-not-Refused a e c (short_of_funds b found _ _ short _) =
      let same : a ≡ b = some-injective a b (sym c.sender ∙ found) in
      let funds : amount ≤ℤ b.balance = subst (λ (x : Account). amount ≤ℤ x.balance) same c.funds in
      omega arith

  -- Accounts that refuse a transfer refuse it in one way.
  Refused-unique :
      (e e' : Exception) → Refused req amount accounts e → Refused req amount accounts e' → e ≡ e'
  Refused-unique e e' (no_sender _ p) (no_sender _ q) = p ∙ sym q
  Refused-unique e e' (no_sender n p) (no_receiver s _ q) = absurd (s n)
  Refused-unique e e' (no_sender n p) (sender_frozen b f _ _ q) = cc
  Refused-unique e e' (no_sender n p) (short_of_funds b f _ _ _ q) = cc
  Refused-unique e e' (no_receiver s n p) (no_sender n' q) = absurd (s n')
  Refused-unique e e' (no_receiver s n p) (no_receiver _ _ q) = p ∙ sym q
  Refused-unique e e' (no_receiver s n p) (sender_frozen b f r _ q) = absurd (r n)
  Refused-unique e e' (no_receiver s n p) (short_of_funds b f r _ _ q) = absurd (r n)
  Refused-unique e e' (sender_frozen a f r z p) (no_sender n q) = cc
  Refused-unique e e' (sender_frozen a f r z p) (no_receiver _ n q) = absurd (r n)
  Refused-unique e e' (sender_frozen a f r z p) (sender_frozen _ _ _ _ q) = p ∙ sym q
  Refused-unique e e' (sender_frozen a f r z p) (short_of_funds b g _ u _ q) =
      absurd (u (ap (λ (x : Account). x.status) (some-injective b a (sym g ∙ f)) ∙ z))
  Refused-unique e e' (short_of_funds a f r u _ p) (no_sender n q) = cc
  Refused-unique e e' (short_of_funds a f r u _ p) (no_receiver _ n q) = absurd (r n)
  Refused-unique e e' (short_of_funds a f r u _ p) (sender_frozen b g _ z q) =
      absurd (u (ap (λ (x : Account). x.status) (some-injective a b (sym f ∙ g)) ∙ z))
  Refused-unique e e' (short_of_funds a f r u _ p) (short_of_funds _ _ _ _ _ q) = p ∙ sym q

-- How a transfer ends when no call fails.
abbrev pub Decided :
    Config → TransferRequest → Documents → Result TransferResponse → Documents → Type 0
Decided cfg req s (ok r) s' = IsReplayed req r s s' ⊎ IsPerformed cfg req r s s'
Decided cfg req s (err e) s' = IsRefusal cfg req s.accounts e × IsSame s s'

Answered-Decided :
    (cfg : Config) (req : TransferRequest) (s : Documents) (r : Result TransferResponse)
    (s' : Documents)
    → Answered NoFailure no_faults cfg req s r s'
    → Decided cfg req s r s'
Answered-Decided cfg req s (ok r) s' h = h
Answered-Decided cfg req s (err e) s' (inl (faulty, left)) = absurd faulty.3
Answered-Decided cfg req s (err e) s' (inr refused) = refused

-- The response to this request is not in the cache.
abbrev pub IsUncached : TransferRequest → Documents → Type 0
IsUncached req s =
    (key : String) → truthy_text req.idempotency_key ≡ some key → cached key s.cache ≡ none

schema_accepts :
    (cfg : Config) (req : TransferRequest) (amount : ℤ) (id : String)
    → pos 0 ≤ℤ amount
    → (cfg.upper_case "USD" == "") ≡ false
    → (id == "") ≡ false
    → is_invalid cfg.upper_case (transfer_data id req amount) ≡ false
unfolding is_invalid transfer_data
schema_accepts cfg req amount id h u n = ground arith

ok-injective : {x y : ℤ} → ok x ≡ ok y → x ≡ y
ok-injective h = cc

-- An approved request is not refused.
approved-not-IsRefusal :
    (cfg : Config) (req : TransferRequest) (amount : ℤ) (accounts : List Account) (a : Account)
    (e : Exception)
    → IsApproved cfg req amount accounts a
    → pos 0 ≤ℤ amount
    → (cfg.upper_case "USD" == "") ≡ false
    → ¬ IsRefusal cfg req accounts e
approved-not-IsRefusal cfg req amount accounts a e p h u (invalid_amount thrown) = cc (p.valid)
approved-not-IsRefusal cfg req amount accounts a e p h u (same_account same _) = p.apart same
approved-not-IsRefusal cfg req amount accounts a e p h u (by_accounts x valid refused) =
    covered-not-Refused req amount accounts a e p.covered
      (subst (λ z. Refused req z accounts e) (ok-injective (sym valid ∙ p.valid)) refused)
approved-not-IsRefusal cfg req amount accounts a e p h u (by_schema x id b q n invalid _) =
    let same : x ≡ amount = ok-injective (sym q.valid ∙ p.valid) in
    cc (schema_accepts cfg req x id (rw same h) u n)

module _ {W : Type 0} (view : W → Documents) (driver : Driver W)
    (follows : Follows NoFailure view driver) where
  -- When no call fails, a transfer is all or nothing: it returns the cached response and changes
  -- nothing, or it is performed with every rule kept, or it throws for a rule that is not kept and
  -- changes nothing.
  pub transfer-Decided :
      (cfg : Config) (req : TransferRequest) (w : W)
      → let (r, w') = run driver (transfer cfg req) w in Decided cfg req (view w) r (view w')
  transfer-Decided cfg req w =
      Ensures-run NoFailure view driver follows (transfer cfg req) (Decided cfg req (view w)) w (
        Ensures-mono NoFailure (transfer cfg req) (view w) (Answered-Decided cfg req (view w))
          (transfer-Answered NoFailure no_faults cfg req (view w)))

  -- When no call fails, an approved request whose response is not in the cache is performed: the
  -- accepted amount is not negative, and the schema's default currency is not empty.
  pub transfer_succeeds :
      (cfg : Config) (req : TransferRequest) (amount : ℤ) (a : Account) (w : W)
      → IsApproved cfg req amount (view w).accounts a
      → pos 0 ≤ℤ amount
      → (cfg.upper_case "USD" == "") ≡ false
      → IsUncached req (view w)
      → let (r, w') = run driver (transfer cfg req) w in
        (response : TransferResponse) × (r ≡ ok response)
        × IsPerformed cfg req response (view w) (view w')
  transfer_succeeds cfg req amount a w approved h u uncached =
      performed (run driver (transfer cfg req) w).0 (run driver (transfer cfg req) w).1
        (transfer-Decided cfg req w)
    where
      performed :
          (r : Result TransferResponse) (w' : W)
          → Decided cfg req (view w) r (view w')
          → (response : TransferResponse) × (r ≡ ok response)
            × IsPerformed cfg req response (view w) (view w')
      performed (ok r) w' (inl (key, e, hit, _)) = absurd (cc (uncached key e))
      performed (ok r) w' (inr p) = (r, refl, p)
      performed (err e) w' (refusal, _) =
          absurd (approved-not-IsRefusal cfg req amount (view w).accounts a e approved h u refusal)

  -- When no call fails, a request with an accepted amount between different accounts, whose
  -- response is not in the cache, and that the accounts refuse, throws that very refusal, and
  -- nothing changes.
  pub transfer_refuses :
      (cfg : Config) (req : TransferRequest) (amount : ℤ) (e : Exception) (w : W)
      → validate_amount cfg req.amount ≡ ok amount
      → req.from_account ≢ req.to_account
      → Refused req amount (view w).accounts e
      → IsUncached req (view w)
      → let (r, w') = run driver (transfer cfg req) w in (r ≡ err e) × IsSame (view w) (view w')
  transfer_refuses cfg req amount e w valid apart refused uncached =
      thrown (run driver (transfer cfg req) w).0 (run driver (transfer cfg req) w).1
        (transfer-Decided cfg req w)
    where
      by_rule :
          (e' : Exception)
          → IsRefusal cfg req (view w).accounts e'
          → ◌≡◌ {A = Result TransferResponse} (err e') (err e)
      by_rule e' (invalid_amount failed) = cc
      by_rule e' (same_account same _) = absurd (apart same)
      by_rule e' (by_accounts x valid' refused') = ap err (
          Refused-unique req amount (view w).accounts e' e
            (subst (λ z. Refused req z (view w).accounts e') (ok-injective (sym valid' ∙ valid))
              refused')
            refused)
      by_rule e' (by_schema x id b q _ _ _) = absurd (
          covered-not-Refused req amount (view w).accounts b e
            (subst (λ z. IsCovered req z (view w).accounts b) (ok-injective (sym q.valid ∙ valid))
              q.covered)
            refused)

      thrown :
          (r : Result TransferResponse) (w' : W)
          → Decided cfg req (view w) r (view w')
          → (r ≡ err e) × IsSame (view w) (view w')
      thrown (ok r) w' (inl (key, found, hit, _)) = absurd (cc (uncached key found))
      thrown (ok r) w' (inr p) = absurd (
          covered-not-Refused req amount (view w).accounts p.sender e
            (subst (λ z. IsCovered req z (view w).accounts p.sender)
              (ok-injective (sym p.approved.valid ∙ valid)) p.approved.covered)
            refused)
      thrown (err e') w' (refusal, same) = (by_rule e' refusal, same)
