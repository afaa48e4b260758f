-- ===== src/Application/JobRunner/Recording.antt =====
-- How a run is recorded: in one transaction, or not at all.
use shema_business_platform.Prelude.{
  ℕ, ◌+◌, ◌*◌, ◌-◌, ◌^◌, min, ◌<◌, ◌≤◌, ◌≡◌, ◌⊎◌, inl, inr, Bool, true, false, Option, String,
  Datetime, Error, value_error, ok, err, is_blank, Result-cases, arith,
}
use shema_business_platform.Foundation.Recovery.{RetryPolicy}
use shema_business_platform.Platform.JobRows.{JobRecord}
use shema_business_platform.Platform.JobTable.{is_held}
use shema_business_platform.Platform.JobTable
use shema_business_platform.Platform.Transaction.{transaction, transaction-err}
use shema_business_platform.Application.JobEvents.{
  Db, Outcome, returned, retryable_job_error, permanent_job_error, other_exception, Runner,
}
use shema_business_platform.Application.JobRunner.{
  retry_plan, on_jobs, complete_body, failure_body, record_failure, record_success, settle,
}

-- `now` and the delay before the attempt after `attempt`.
abbrev pub after_delay : RetryPolicy → ℕ → Datetime → Datetime
after_delay p attempt now = record now {
  micros = now.micros + min (p.initial_delay * 2 ^ (attempt - 1)) p.max_delay;
}

-- A failed attempt is tried again exactly when the failure is retryable and the attempt is below
-- the policy's limit, counted from one: the plan then schedules it after the delay, the initial one
-- doubled with each attempt and capped, and otherwise gives up at once.
pub retry_plan_iff :
    (p : RetryPolicy) (attempt : ℕ) (retryable : Bool) (now : Datetime)
    → 1 ≤ attempt
    → now.tz_aware ≡ true
    → ((retryable ≡ true) × (attempt < p.max_attempts)
        → retry_plan p attempt retryable now ≡ ok (true, after_delay p attempt now))
      × ((retryable ≡ false) ⊎ (p.max_attempts ≤ attempt)
          → retry_plan p attempt retryable now ≡ ok (false, now))
unfolding retry_plan
retry_plan_iff p attempt retryable now pos aware = (λ h. ground arith, λ h. ground arith)

module _ {P O : Type 0} where
  record_success_atomic :
      (c : Runner P O) (j : JobRecord P) (output : Option O) (now : Datetime) (db db' : Db P O)
      (e : Error)
      → record_success c j output now db ≡ (err e, db')
      → db' ≡ db
  unfolding record_success
  record_success_atomic c j output now db db' e h =
      ground (
        arith,
        transaction-err (complete_body c j.execution.job_id c.worker_id now output) db db' e,
      )

  record_failure_atomic :
      (c : Runner P O) (j : JobRecord P) (error : String) (retryable : Bool) (now : Datetime)
      (db db' : Db P O) (e : Error)
      → record_failure c j error retryable now db ≡ (err e, db')
      → db' ≡ db
  unfolding record_failure
  record_failure_atomic c j error retryable now db db' e h =
      elim (Result-cases (retry_plan c.retry_policy j.execution.attempt retryable now)) [
        | inl ((again, at), planned) ↦
            ground (arith, planned, transaction-err (failure_body c j error again at now) db db' e)
        | inr (x, refused) ↦ ground arith
      ]

  -- When the outcome of a job cannot be recorded, whatever the handler did, the database is left
  -- exactly as it was before the recording: no job state, no event and no audit record.
  pub settle_atomic :
      (c : Runner P O) (j : JobRecord P) (ended : Datetime) (o : Outcome O) (db db' : Db P O)
      (e : Error)
      → settle c j ended o db ≡ (err e, db')
      → db' ≡ db
  unfolding settle
  settle_atomic c j ended (returned output) db db' e h =
      record_success_atomic c j output ended db db' e h
  settle_atomic c j ended (retryable_job_error m) db db' e h =
      record_failure_atomic c j (c.safe_error_detail m) true ended db db' e h
  settle_atomic c j ended (permanent_job_error m) db db' e h =
      record_failure_atomic c j m false ended db db' e h
  settle_atomic c j ended (other_exception m) db db' e h =
      record_failure_atomic c j (c.safe_error_detail m) true ended db db' e h

  blank_refused :
      (c : Runner P O) (j : JobRecord P) (error : String) (again : Bool) (at now : Datetime)
      (db : Db P O)
      → is_blank error ≡ true
      → failure_body c j error again at now db ≡ err (value_error "error is required")
  unfolding failure_body on_jobs JobTable.fail
  blank_refused c j error again at now db h = ground arith

  -- A failure whose text is blank, as that of an exception raised with no message, is never
  -- recorded: when the scheduling succeeds and `now` carries a time zone, recording it raises
  -- `ValueError`, and the database, with the job still running under its lease, stays as it was.
  pub blank_failure_unrecorded :
      (c : Runner P O) (j : JobRecord P) (error : String) (retryable again : Bool)
      (at now : Datetime) (db : Db P O)
      → is_blank error ≡ true
      → now.tz_aware ≡ true
      → retry_plan c.retry_policy j.execution.attempt retryable now ≡ ok (again, at)
      → record_failure c j error retryable now db ≡ (err (value_error "error is required"), db)
  unfolding record_failure transaction
  blank_failure_unrecorded c j error retryable again at now db blank aware planned =
      ground (arith, blank_refused c j error again at now db blank)
