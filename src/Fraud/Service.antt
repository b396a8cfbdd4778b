-- ===== src/Fraud/Service.antt =====
-- `FraudDetectionService` of src/fraud-detection/service/fraud-detection.service.ts. What it does
-- about a log is to write a line to its logger: the line is its result here.
pub mod Rules
pub mod Analyses
pub mod Risks
use transaction_service.Shared.{
  ℕ, ◌-◌, ℤ, pos, ltb_ℤ, ltb, Option, none, some, List, [], ◌∷◌, ◌++◌, Bool, false, not, ◌==◌,
  if◌then◌else◌,
}
use transaction_service.Driver.Errors.{Exception}
use transaction_service.Driver.Calls.{now}
use transaction_service.Driver.Prog.{Prog, ret, ◌>>=◌, await, catch}
use transaction_service.Fraud.Types.{TransactionLog}
use transaction_service.Fraud.Repository.{count_recent_by_account, get_last_transaction}

pub data Risk : Type 0 where
  excessive_amount velocity_limit_exceeded impossible_travel : Risk

abbrev pub velocity_threshold : ℕ
velocity_threshold = 5

-- 10000, in hundredths.
abbrev pub high_value_threshold : ℤ
high_value_threshold = pos 1000000

-- `subMinutes(date, 1)`, in milliseconds.
abbrev pub minute_before : ℕ → ℕ
minute_before date = date - 60000

-- `if (test) detectedRisks.push(risk);`
abbrev pub push_if : Bool → Risk → List Risk → List Risk
push_if b risk risks = if b then risks ++ risk ∷ [] else risks

unfoldable pub calculate_travel_risk : TransactionLog → TransactionLog → Bool
calculate_travel_risk prev current =
    not (prev.security_context.ip_address == current.security_context.ip_address)

-- `if (lastTx) { … }`
abbrev pub travel_test : Option TransactionLog → TransactionLog → Bool
travel_test none log = false
travel_test (some last_tx) log = calculate_travel_risk last_tx log

unfoldable pub run_risk_rules : TransactionLog → Prog (List Risk)
run_risk_rules log = do
  let detected = push_if (ltb_ℤ high_value_threshold log.amount) excessive_amount []
  date ← await now
  recent_count ← count_recent_by_account log.account_no (minute_before date)
  let detected' = push_if (ltb velocity_threshold recent_count) velocity_limit_exceeded detected
  last_tx ← get_last_transaction log.account_no log.transaction_id
  ret (push_if (travel_test last_tx log) impossible_travel detected')

-- The line that ends an analysis: 'Transaction cleared fraud check', 'FRAUD ALERT GENERATED' with
-- its risks, or 'Error during fraud analysis'.
pub data Analysis : Type 0 where
  cleared : Analysis
  fraud_alert : List Risk → Analysis
  analysis_error : Exception → Analysis

-- `handleFraudDetected` only logs.
abbrev pub handle_fraud_detected : List Risk → Analysis
handle_fraud_detected risks = fraud_alert risks

abbrev pub conclude : List Risk → Analysis
conclude [] = cleared
conclude (risk ∷ risks) = handle_fraud_detected (risk ∷ risks)

unfoldable pub process_new_transaction_log : TransactionLog → Prog Analysis
process_new_transaction_log log =
    catch (do risks ← run_risk_rules log; ret (conclude risks)) λ e. ret (analysis_error e)
