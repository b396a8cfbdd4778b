-- ===== src/Fraud/Service/Rules.antt =====
-- What the three rules say of the stored logs:
-- src/fraud-detection/service/fraud-detection.service.ts.
use mathlib.Core.Path.{subst}
use transaction_service.Shared.{
  pos, ◌-◌, not, ◌&&◌, ◌==◌, leb, ℕ, ◌<◌, ◌<ℤ◌, ltb_ℤ, ltb, iff_trans, ltb_iff, ltb_ℤ_iff, Option,
  none, some, List, [], ◌∷◌, Bool, true, ◌≡◌, ◌≢◌, ◌⊎◌, ◌↔◌, select, length, eq_iff, arith,
}
use transaction_service.Driver.Documents.{Documents, Among, IsLatest}
use transaction_service.Fraud.Types.{TransactionLog}
use transaction_service.Fraud.Service.{
  Risk, excessive_amount, velocity_limit_exceeded, impossible_travel, high_value_threshold,
  velocity_threshold, push_if, calculate_travel_risk, travel_test, Analysis, cleared, fraud_alert,
  analysis_error,
}

-- The three rules, on the stored logs at a time.
module _ (s : Documents) (log : TransactionLog) (date : ℕ) where
  -- The logs of the account from the minute before the date on.
  abbrev pub recent_logs : List TransactionLog
  recent_logs =
      select (λ l. l.account_no == log.account_no && leb (date - 60000) l.timestamp) s.logs

  -- The logs of the account's other transactions.
  abbrev pub other_logs : List TransactionLog
  other_logs =
      select (λ l. l.account_no == log.account_no && not (l.transaction_id == log.transaction_id))
        s.logs

  -- An amount above 10000.
  abbrev pub IsExcessive : Type 0
  IsExcessive = pos 1000000 <ℤ log.amount

  abbrev pub IsFast : Type 0
  IsFast = 5 < length recent_logs

  abbrev pub Elsewhere : TransactionLog → Type 0
  Elsewhere last = last.security_context.ip_address ≢ log.security_context.ip_address

  -- Some latest log of the account's other transactions comes from another address.
  abbrev pub MayTravel : Type 0
  MayTravel = (last : TransactionLog) × IsLatest other_logs (some last) × Elsewhere last

  -- There is such a log, and every latest one comes from another address.
  abbrev pub MustTravel : Type 0
  MustTravel =
      (last : TransactionLog) × IsLatest other_logs (some last)
      × ((l : TransactionLog) → IsLatest other_logs (some l) → Elsewhere l)

  travel_sound :
      (o : Option TransactionLog) → IsLatest other_logs o → travel_test o log ≡ true → MayTravel
  unfolding calculate_travel_risk
  travel_sound none latest h = cc
  travel_sound (some last) latest h = (
    last,
    latest,
    λ same. ground (arith, eq_iff last.security_context.ip_address log.security_context.ip_address),
  )

  travel_complete :
      (o : Option TransactionLog) → IsLatest other_logs o → MustTravel → travel_test o log ≡ true
  unfolding calculate_travel_risk
  travel_complete none empty (last, latest, all) =
      absurd (subst (λ ls. Among last ls) empty latest.0)
  travel_complete (some l) latest (_, _, all) =
      let apart : Elsewhere l = all l latest in
      ground (arith, eq_iff l.security_context.ip_address log.security_context.ip_address)

abbrev pub Reports : Risk → List Risk → Type 0
Reports r [] = ⊥
Reports r (x ∷ xs) = (r ≡ x) ⊎ Reports r xs

abbrev pub pushed : Bool → Bool → Bool → List Risk
pushed a b c =
    push_if c impossible_travel (push_if b velocity_limit_exceeded (push_if a excessive_amount []))

pushed-Reports :
    (a b c : Bool)
    → (Reports excessive_amount (pushed a b c) ↔ (a ≡ true))
      × (Reports velocity_limit_exceeded (pushed a b c) ↔ (b ≡ true))
      × (Reports impossible_travel (pushed a b c) ↔ (c ≡ true))
pushed-Reports a b c = ground arith

abbrev pub risks_of : Analysis → List Risk
risks_of cleared = []
risks_of (fraud_alert risks) = risks
risks_of (analysis_error e) = []

-- The line for a list of risks: an alert exactly if there is one.
abbrev pub line_for : List Risk → Analysis
line_for [] = cleared
line_for (r ∷ rs) = fraud_alert (r ∷ rs)

-- What the reported risks say of the rules.
pub record IsJudged (s : Documents) (log : TransactionLog) (date : ℕ) (risks : List Risk)
    : Type 0 where
  pub excessive : Reports excessive_amount risks ↔ IsExcessive s log date
  pub fast : Reports velocity_limit_exceeded risks ↔ IsFast s log date
  pub travel : Reports impossible_travel risks → MayTravel s log date
  pub no_missed_travel : MustTravel s log date → Reports impossible_travel risks

pub judged :
    (s : Documents) (log : TransactionLog) (date count : ℕ) (o : Option TransactionLog)
    → count ≡ length (recent_logs s log date)
    → IsLatest (other_logs s log date) o
    → IsJudged s log date (
        pushed
          (ltb_ℤ high_value_threshold log.amount)
          (ltb velocity_threshold count)
          (travel_test o log))
judged s log date count o counted latest =
    let (excessive, fast, travel) =
      pushed-Reports (ltb_ℤ high_value_threshold log.amount) (ltb velocity_threshold count)
        (travel_test o log) in
    record {
      excessive = iff_trans excessive (ltb_ℤ_iff high_value_threshold log.amount);
      fast =
          iff_trans fast
            (iff_trans (ltb_iff velocity_threshold count) (λ h. omega arith, λ h. omega arith));
      travel = λ h. travel_sound s log date o latest (travel.0 h);
      no_missed_travel = λ h. travel.1 (travel_complete s log date o latest h);
    }
