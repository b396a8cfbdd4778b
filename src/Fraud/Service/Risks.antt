-- ===== src/Fraud/Service/Risks.antt =====
-- When a transaction log raises an alert, and for which risks:
-- src/fraud-detection/service/fraud-detection.service.ts.
use transaction_service.Shared.{ℕ, ◌≡◌, refl, inl, inr}
use transaction_service.Driver.Errors.{Exception, Result, ok, err}
use transaction_service.Driver.Calls.{Call, Answer, now}
use transaction_service.Driver.Prog.{Driver, run}
use transaction_service.Driver.Documents.{Documents, NoFailure, Failure, Follows, Keeps}
use transaction_service.Fraud.Types.{TransactionLog}
use transaction_service.Fraud.Service.{Analysis, process_new_transaction_log}
use transaction_service.Fraud.Service.Rules.{risks_of, line_for, IsJudged}
use transaction_service.Fraud.Service.Analyses.{counting, latest, AnalysedFrom, process-Analysed}

-- What an analysis comes to when no call fails, at the date that the clock has told.
abbrev pub Verdict : Documents → TransactionLog → Result ℕ → Result Analysis → Documents → Type 0
Verdict s log (ok date) (ok a) s' =
    (s' ≡ s) × (a ≡ line_for (risks_of a)) × IsJudged s log date (risks_of a)
Verdict s log (ok date) (err e) s' = ⊥
Verdict s log (err e) r s' = ⊥

never_fails :
    {W : Type 0} (view : W → Documents) (c : Call) (s : Documents) (x : Result (Answer c) × W)
    (e : Exception)
    → Keeps NoFailure view c s x
    → ¬ (x.0 ≡ err e)
never_fails view c s (ok a, w) e kept h = cc
never_fails view c s (err e', w) e kept h = absurd kept

Analysed-Verdict :
    {W : Type 0} (view : W → Documents) (driver : Driver W)
    → Follows NoFailure view driver
    → (log : TransactionLog) (s : Documents) (x : Result ℕ × W) (y : Result Analysis × W)
    → AnalysedFrom view driver log s x y
    → Verdict s log x.0 y.0 (view y.1)
Analysed-Verdict view driver follows log s (ok date, v) (ok a, w) (same, inl (e, _, inl failed)) =
    absurd (
      never_fails view (counting log date) (view v) (driver (counting log date) v) e
        (follows.replies (counting log date) v) failed)
Analysed-Verdict view driver follows log s (ok date, v) (ok a, w) (same, inl (e, _, inr failed)) =
    let u = (driver (counting log date) v).1 in
    absurd (
      never_fails view (latest log) (view u) (driver (latest log) u) e
        (follows.replies (latest log) u) failed)
Analysed-Verdict view driver follows log s (ok date, v) (ok a, w) (same, inr (line, j)) =
    (same, line, j)
Analysed-Verdict view driver follows log s (ok date, v) (err e, w) h = absurd h
Analysed-Verdict view driver follows log s (err e, v) y h = absurd h

-- When no call fails, the analysis of a log writes nothing to the collections and ends in the line
-- "cleared" exactly if it reports no risk. It reports an excessive amount exactly when the log's
-- amount is above 10000, and the velocity exactly when more than five logs of the account date
-- from the minute before the date that the clock tells at the start, or later. It reports
-- impossible travel only if some latest log among the account's other transactions has another
-- address, however old it is, and always if there is one and each latest one has.
pub process-Verdict :
    {W : Type 0} (view : W → Documents) (driver : Driver W)
    → Follows NoFailure view driver
    → (log : TransactionLog) (w : W)
    → let (r, w') = run driver (process_new_transaction_log log) w in
      Verdict (view w) log (driver now w).0 r (view w')
process-Verdict view driver follows log w =
    Analysed-Verdict view driver follows log (view w) (driver now w)
      (run driver (process_new_transaction_log log) w)
      (process-Analysed NoFailure (λ c s s' f. absurd f) view driver follows log (view w) w refl)

-- Whatever calls fail, the analysis of a log never throws and changes nothing that is stored. It
-- ends in the line of an error only if one of its two readings of the logs has failed with that
-- very error; otherwise in a verdict that is right about the three rules at the date that the clock
-- tells at the start.
pub process-Returns :
    {W : Type 0} (view : W → Documents) (driver : Driver W)
    → Follows Failure view driver
    → (log : TransactionLog) (w : W)
    → AnalysedFrom view driver log
        (view w)
        (driver now w)
        (run driver (process_new_transaction_log log) w)
process-Returns view driver follows log w =
    process-Analysed Failure (λ c s s' f. f) view driver follows log (view w) w refl
