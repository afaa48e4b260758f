-- ===== src/Application/JobRunner.antt =====
-- application/job_runner.py: the worker loop over the durable job table. One run is a claim, the
-- handler, and one transaction that records how it ended. What the handler and other workers do to
-- the database meanwhile is the handler's second result, an arbitrary database, so renewals through
-- the context's callback are among it. The clock's readings are
-- arguments.
pub mod Recording
pub mod Recorded
use mathlib.Core.Option
use shema_business_platform.Prelude.{
  ℕ, Bool, true, false, not, ◌&&◌, Option, none, some, List, [], ◌∷◌, String, Datetime, Eq,
  value_error, Error, Result, ok, err, is_blank, leb, format, str_of, if◌then◌else◌,
}
use shema_business_platform.Foundation.Jobs.{
  JobState, queued, running, succeeded, retryable_failure, failed, cancelled, JobLease,
}
use shema_business_platform.Foundation.Outbox.{OutboxEvent, pending}
use shema_business_platform.Foundation.Recovery.{RetryPolicy, is_retryable, next_available_at}
use shema_business_platform.Platform.AuditTable.{AuditRecord, new_audit}
use shema_business_platform.Platform.AuditTable
use shema_business_platform.Platform.OutboxTable.{OutboxRow}
use shema_business_platform.Platform.OutboxTable
use shema_business_platform.Platform.JobRows.{JobRecord, JobRow}
use shema_business_platform.Platform.JobTable
use shema_business_platform.Platform.Transaction.{
  Tx, pure, lift, transaction, ◌>>=◌, ◌>>◌, raise_if,
}
use shema_business_platform.Application.JobEvents.{
  state_value, JobPayload, JobNote, Db, Outcome, returned, retryable_job_error, permanent_job_error,
  other_exception, JobRunResult, Runner, failure_type, lease_holder, completion_event,
  completion_audit, failure_event, failure_audit,
}

-- When a failed attempt is tried again: whether it is, and from when on.
unfoldable pub retry_plan : RetryPolicy → ℕ → Bool → Datetime → Result (Bool × Datetime)
unfolding is_retryable next_available_at
retry_plan p attempt retryable now =
    if retryable && is_retryable p attempt
    then elim (next_available_at p attempt now) [ ok t ↦ ok (true, t) | err e ↦ err e ]
    else ok (false, now)

module _ {P O : Type 0} where
  -- The checks of `JobRunner.__init__`.
  unfoldable pub new_runner : Runner P O → Result (Runner P O)
  new_runner c =
      if leb c.lease_seconds 0
      then err (value_error "lease_seconds must be > 0")
      else if is_blank c.worker_id
      then err (value_error "worker_id is required")
      else ok c

  unfoldable pub on_jobs : {A : Type 0} → Tx (List (JobRow P)) A → Tx (Db P O) A
  on_jobs m db = elim (m db.jobs) [
    | ok (a, jobs') ↦ ok (a, record db { jobs = jobs' })
    | err e ↦ err e
  ]

  unfoldable pub append_event :
      Eq (JobPayload O) → OutboxEvent (JobPayload O) → Tx (Db P O) (Unit {0})
  append_event q e db = elim (OutboxTable.append q e db.outbox) [
    | ok (_, rows) ↦ ok (tt, record db { outbox = rows })
    | err x ↦ err x
  ]

  unfoldable pub append_audit : AuditRecord JobNote → Tx (Db P O) (Unit {0})
  append_audit a db = elim (new_audit a) [
    | err x ↦ err x
    | ok a' ↦ elim (AuditTable.append a' db.audits) [
      | ok (_, rows) ↦ ok (tt, record db { audits = rows })
      | err x ↦ err x
    ]
  ]

  -- The body of the `with` block of `_complete`.
  unfoldable pub complete_body :
      Runner P O → String → String → Datetime → Option O → Tx (Db P O) (JobRecord P)
  complete_body c id w now output = do
    j ← on_jobs (JobTable.complete id w now)
    append_event c.same_payload (completion_event c j id output now)
    append_audit (completion_audit c j id w now)
    pure j

  -- The body of the `with` block of `_record_failure`.
  unfoldable pub failure_body :
      Runner P O → JobRecord P → String → Bool → Datetime → Datetime → Tx (Db P O) (JobRecord P)
  failure_body c j error should_retry available_at now = do
    f ← on_jobs (JobTable.fail j.execution.job_id c.worker_id should_retry error available_at now)
    append_event c.same_payload (failure_event c j f.execution.state error available_at now)
    append_audit (failure_audit c j (state_value f.execution.state) error now)
    pure f

  abbrev pub run_result : JobRecord P → Option O → Option String → JobRunResult O
  run_result j output error = record {
    job_id = j.execution.job_id;
    state = j.execution.state;
    attempt = j.execution.attempt;
    output = output;
    error = error;
  }

  -- `_record_failure`
  unfoldable pub record_failure :
      Runner P O
      → JobRecord P
      → String
      → Bool
      → Datetime
      → Db P O
      → Result (JobRunResult O) × Db P O
  record_failure c j error retryable now db =
      if not now.tz_aware
      then (err (value_error "now must be timezone-aware"), db)
      else elim (retry_plan c.retry_policy j.execution.attempt retryable now) [
        | err e ↦ (err e, db)
        | ok (should_retry, available_at) ↦
            let (r, db') = transaction (failure_body c j error should_retry available_at now) db in
            elim r [ ok f ↦ (ok (run_result f none (some error)), db') | err e ↦ (err e, db') ]
      ]

  -- `_complete`, and the result that `run_next` makes of it.
  unfoldable pub record_success :
      Runner P O → JobRecord P → Option O → Datetime → Db P O → Result (JobRunResult O) × Db P O
  record_success c j output now db =
      if not now.tz_aware
      then (err (value_error "now must be timezone-aware"), db)
      else let (r, db') =
          transaction (complete_body c j.execution.job_id c.worker_id now output) db in
        elim r [ ok f ↦ (ok (run_result f output none), db') | err e ↦ (err e, db') ]

  -- The branches after the handler's call.
  unfoldable pub settle :
      Runner P O → JobRecord P → Datetime → Outcome O → Db P O → Result (JobRunResult O) × Db P O
  settle c j ended (returned output) db = record_success c j output ended db
  settle c j ended (retryable_job_error m) db =
      record_failure c j (c.safe_error_detail m) true ended db
  settle c j ended (permanent_job_error m) db = record_failure c j m false ended db
  settle c j ended (other_exception m) db = record_failure c j (c.safe_error_detail m) true ended db

  -- `handler(context)`; a missing handler raises `PermanentJobError` in `resolve`.
  unfoldable pub handle : Runner P O → JobRecord P → Db P O → Outcome O × Db P O
  handle c j db = elim (c.handlers j.execution.job_type) [
    | none ↦ (
      permanent_job_error
          (format ("no handler registered for job type: " ∷ j.execution.job_type ∷ [])),
      db,
    )
    | some h ↦ h j db
  ]

  -- `run_next`: `now` is the time of the claim, `ended` that after the handler.
  unfoldable pub run_next :
      Runner P O
      → (String → Bool)
      → Datetime
      → Datetime
      → Db P O
      → Result (Option (JobRunResult O)) × Db P O
  run_next c locked now ended db =
      if not now.tz_aware
      then (err (value_error "now must be timezone-aware"), db)
      else let (r, db') =
          transaction (on_jobs (JobTable.claim_next locked c.worker_id c.lease_seconds now)) db in
        elim r [
          | err e ↦ (err e, db')
          | ok none ↦ (ok none, db')
          | ok (some j) ↦
              let (outcome, db'') = handle c j db' in
              let (s, final) = settle c j ended outcome db'' in
              elim s [ ok x ↦ (ok (some x), final) | err e ↦ (err e, final) ]
        ]
