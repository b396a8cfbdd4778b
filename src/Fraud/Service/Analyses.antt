-- ===== src/Fraud/Service/Analyses.antt =====
-- How the analysis of a transaction log runs:
-- src/fraud-detection/service/fraud-detection.service.ts.
use transaction_service.Shared.{
  ◌==◌, ◌&&◌, not, leb, ◌-◌, Option, ltb_ℤ, ltb, length, sym, ap, ◌∙◌, ℕ, List, [], ◌∷◌, Bool, ◌≡◌,
  refl, ◌⊎◌, inl, inr,
}
use transaction_service.Driver.Errors.{Exception, Result, ok, err}
use transaction_service.Driver.Calls.{Call, now, log_count_documents, log_find_latest}
use transaction_service.Driver.Prog.{Prog, Driver, ret, run, ◌>>=◌, settle, catch}
use transaction_service.Driver.Documents.{Documents, Failure, Follows, Keeps, IsLatest}
use transaction_service.Fraud.Types.{TransactionLog}
use transaction_service.Fraud.Repository.{count_recent_by_account, get_last_transaction}
use transaction_service.Fraud.Service.{
  Risk, high_value_threshold, velocity_threshold, minute_before, travel_test, run_risk_rules,
  Analysis, analysis_error, conclude, process_new_transaction_log,
}
use transaction_service.Fraud.Service.Rules.{
  recent_logs, other_logs, pushed, risks_of, line_for, IsJudged, judged,
}

module _ (log : TransactionLog) where
  -- The two readings of the logs, after the clock has told the date.
  abbrev pub counting : ℕ → Call
  counting date =
      log_count_documents (λ l. l.account_no == log.account_no && leb (date - 60000) l.timestamp)

  abbrev pub latest : Call
  latest =
      log_find_latest
        (λ l. l.account_no == log.account_no && not (l.transaction_id == log.transaction_id))

module _ {W : Type 0} (view : W → Documents) (driver : Driver W) (log : TransactionLog)
    (s : Documents) where
  -- One of the readings, made in the world `v` or in the one after the first, failed with `e`.
  abbrev pub FailedReading : ℕ → W → Exception → Type 0
  FailedReading date v e =
      ((driver (counting log date) v).0 ≡ err e)
      ⊎ ((driver (latest log) (driver (counting log date) v).1).0 ≡ err e)

  abbrev pub Line : ℕ → W → Analysis → Type 0
  Line date v a =
      ((e : Exception) × (a ≡ analysis_error e) × FailedReading date v e)
      ⊎ ((a ≡ line_for (risks_of a)) × IsJudged s log date (risks_of a))

  -- The analysis has returned and changed nothing, and its line is right at the date.
  abbrev pub Analysed : ℕ → W → Result Analysis × W → Type 0
  Analysed date v (ok a, w') = (view w' ≡ s) × Line date v a
  Analysed date v (err e, w') = ⊥

  -- The date is the one that the clock has told, and `v` the world after it.
  abbrev pub AnalysedFrom : Result ℕ × W → Result Analysis × W → Type 0
  AnalysedFrom (ok date, v) y = Analysed date v y
  AnalysedFrom (err e, v) y = ⊥

module _ (F : Call → Documents → Documents → Type 0)
    (sound : (c : Call) (s s' : Documents) → F c s s' → Failure c s s') {W : Type 0}
    (view : W → Documents) (driver : Driver W) (follows : Follows F view driver)
    (log : TransactionLog) (s : Documents) where
  unread :
      (p : TransactionLog → Bool) (t t' : Documents) → Failure (log_count_documents p) t t' → t' ≡ t
  unread p t t' (inl same) = same
  unread p t t' (inr (_, reply)) = reply.1

  unseen :
      (p : TransactionLog → Bool) (t t' : Documents) → Failure (log_find_latest p) t t' → t' ≡ t
  unseen p t t' (inl same) = same
  unseen p t t' (inr (_, reply)) = reply.1

  risks_of-conclude : (risks : List Risk) → risks_of (conclude risks) ≡ risks
  risks_of-conclude [] = refl
  risks_of-conclude (r ∷ rs) = refl

  conclude-line_for : (risks : List Risk) → conclude risks ≡ line_for (risks_of (conclude risks))
  conclude-line_for [] = refl
  conclude-line_for (r ∷ rs) = refl

  judged_line :
      (date : ℕ) (v : W) (risks : List Risk)
      → IsJudged s log date risks
      → Line view driver log s date v (conclude risks)
  judged_line date v risks j = inr (conclude-line_for risks, rw (risks_of-conclude risks) j)

  -- What is left after each reading.
  abbrev after_latest : ℕ → Result (Option TransactionLog) → Prog Analysis
  after_latest count r =
      catch
        ((settle r >>= λ last. ret (
            pushed (ltb_ℤ high_value_threshold log.amount) (ltb velocity_threshold count)
              (travel_test last log)))
          >>= λ risks. ret (conclude risks))
        (λ e. ret (analysis_error e))

  seen :
      (date : ℕ) (v : W) (count : ℕ)
      → count ≡ length (recent_logs s log date)
      → (t : Documents) → t ≡ s
      → (x : Result (Option TransactionLog) × W)
      → x ≡ driver (latest log) (driver (counting log date) v).1
      → Keeps F view (latest log) t x
      → Analysed view driver log s date v (run driver (after_latest count x.0) x.1)
  unfolding run
  seen date v count counted t here (ok o, w') from kept =
      let kept' : IsLatest (other_logs s log date) o × (view w' ≡ s) = rw (sym here) kept in
      (kept'.1, judged_line date v _ (judged s log date count o counted kept'.0))
  seen date v count counted t here (err e, w') from kept = (
    unseen _ t (view w') (sound (latest log) t (view w') kept) ∙ here,
    inl (e, refl, inr (ap (λ y. y.0) (sym from))),
  )

  abbrev after_count : Result ℕ → Prog Analysis
  after_count r =
      catch
        ((settle r >>= λ count. get_last_transaction log.account_no log.transaction_id >>= λ last.
            ret (
              pushed (ltb_ℤ high_value_threshold log.amount) (ltb velocity_threshold count)
                (travel_test last log)))
          >>= λ risks. ret (conclude risks))
        (λ e. ret (analysis_error e))

  counted :
      (date : ℕ) (v : W) (t : Documents)
      → t ≡ s
      → (x : Result ℕ × W) → x ≡ driver (counting log date) v
      → Keeps F view (counting log date) t x
      → Analysed view driver log s date v (run driver (after_count x.0) x.1)
  unfolding run get_last_transaction
  counted date v t here (ok count, v') from kept =
      let (count_is, same) : (count ≡ length (recent_logs s log date)) × (view v' ≡ s) =
        rw (sym here) kept in
      seen date v count count_is (view v') same (driver (latest log) v')
        (ap (λ y. driver (latest log) y.1) from) (follows.replies (latest log) v')
  counted date v t here (err e, v') from kept = (
    unread _ t (view v') (sound (counting log date) t (view v') kept) ∙ here,
    inl (e, refl, inl (ap (λ y. y.0) (sym from))),
  )

  started :
      (w : W)
      → view w ≡ s
      → (x : Result ℕ × W) → Keeps F view now (view w) x
      → AnalysedFrom view driver log s x (
          run driver
            (catch
              ((settle x.0 >>= λ date.
                  count_recent_by_account log.account_no (minute_before date) >>= λ count.
                  get_last_transaction log.account_no log.transaction_id >>= λ last. ret (
                    pushed
                      (ltb_ℤ high_value_threshold log.amount)
                      (ltb velocity_threshold count)
                      (travel_test last log)))
                >>= λ risks. ret (conclude risks))
              (λ e. ret (analysis_error e)))
            x.1)
  unfolding run count_recent_by_account get_last_transaction
  started w here (ok date, v) kept =
      counted date v (view v) (kept ∙ here) (driver (counting log date) v) refl
        (follows.replies (counting log date) v)
  started w here (err e, v) kept = absurd (sound now (view w) (view v) kept)

  pub process-Analysed :
      (w : W)
      → view w ≡ s
      → AnalysedFrom view driver log s
          (driver now w)
          (run driver (process_new_transaction_log log) w)
  unfolding run process_new_transaction_log run_risk_rules count_recent_by_account
      get_last_transaction
  process-Analysed w here = started w here (driver now w) (follows.replies now w)
