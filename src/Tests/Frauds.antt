-- ===== src/Tests/Frauds.antt =====
-- The analysis of transaction logs over memory.
use transaction_service.Shared.{ℕ, String, ℤ, pos, [], ◌∷◌, ◌≡◌, refl}
use transaction_service.Driver.Errors.{Result, ok}
use transaction_service.Driver.Calls.{now}
use transaction_service.Driver.Prog.{run}
use transaction_service.Driver.Documents.{Documents}
use transaction_service.Driver.Memory.{
  World, lost, answered, memory, steady, memory-Follows, steady-Follows, connection_lost,
}
use transaction_service.Driver.Memory.Order.{latest}
use transaction_service.Fraud.Types.{TransactionLog}
use transaction_service.Fraud.Repository.{count_recent_by_account, get_last_transaction}
use transaction_service.Fraud.Service.{
  Analysis, fraud_alert, analysis_error, excessive_amount, impossible_travel, calculate_travel_risk,
  run_risk_rules, process_new_transaction_log,
}
use transaction_service.Fraud.Service.Analyses.{AnalysedFrom}
use transaction_service.Fraud.Service.Risks.{Verdict, process-Verdict, process-Returns}
use transaction_service.Tests.Data.{documents}

abbrev log_from : String → ℤ → String → ℕ → TransactionLog
log_from id amount ip time = record {
  transaction_id = id;
  account_no = "ACC-1001";
  amount = amount;
  security_context = record {
    ip_address = ip;
    device_id = "phone";
    geo_location = record { longitude = pos 80; latitude = pos 7 };
  };
  timestamp = time;
}

abbrev logged : World
logged = record {
  documents = record documents {
    logs = log_from "t1" (pos 500) "10.0.0.1" 900 ∷ log_from "t2" (pos 500) "10.0.0.2" 20 ∷ [];
  };
  clock = 1000;
  faults = [];
}

abbrev view : World → Documents
view w = w.documents

analysed : TransactionLog → World → Result Analysis × World
unfolding run memory process_new_transaction_log run_risk_rules count_recent_by_account
    get_last_transaction calculate_travel_risk latest
analysed log w = run memory (process_new_transaction_log log) w

large_amount :
    (analysed (log_from "t3" (pos 1000001) "10.0.0.1" 1000) logged).0
    ≡ ok (fraud_alert (excessive_amount ∷ []))
unfolding analysed
large_amount = refl

other_address :
    (analysed (log_from "t3" (pos 500) "10.0.0.2" 1000) logged).0
    ≡ ok (fraud_alert (impossible_travel ∷ []))
unfolding analysed
other_address = refl

no_connection :
    (analysed
      (log_from "t3" (pos 500) "10.0.0.1" 1000)
      (record logged { faults = answered ∷ lost ∷ [] })).0
    ≡ ok (analysis_error connection_lost)
unfolding analysed
no_connection = refl

abbrev large_log : TransactionLog
large_log = log_from "t3" (pos 1000001) "10.0.0.2" 1000

process-Verdict_example :
    let (r, w') = run steady (process_new_transaction_log large_log) logged in
    Verdict (view logged) large_log (ok 1000) r (view w')
unfolding steady
process-Verdict_example = process-Verdict view steady steady-Follows large_log logged

abbrev unread : World
unread = record logged { faults = answered ∷ lost ∷ [] }

process-Returns_example :
    AnalysedFrom view memory large_log
      (view unread)
      (memory now unread)
      (run memory (process_new_transaction_log large_log) unread)
process-Returns_example = process-Returns view memory memory-Follows large_log unread
