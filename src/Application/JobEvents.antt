-- ===== src/Application/JobEvents.antt =====
-- application/job_runner.py: the data of the worker loop, and the outbox events and audit records
-- that it writes. `uuid5`, with the fixed name space, and `safe_error_detail` are fields of the
-- runner.
use shema_business_platform.Prelude.{
  ℕ, Option, none, some, List, [], ◌∷◌, String, Datetime, Eq, format, str_of,
}
use shema_business_platform.Foundation.Jobs.{
  JobState, queued, running, succeeded, retryable_failure, failed, cancelled, JobLease,
}
use shema_business_platform.Foundation.Outbox.{OutboxEvent, pending}
use shema_business_platform.Foundation.Recovery.{RetryPolicy}
use shema_business_platform.Platform.AuditTable.{AuditRecord}
use shema_business_platform.Platform.OutboxTable.{OutboxRow}
use shema_business_platform.Platform.JobRows.{JobRecord, JobRow}

-- `state.value`
abbrev pub state_value : JobState → String
state_value queued = "queued"
state_value running = "running"
state_value succeeded = "succeeded"
state_value retryable_failure = "retryable_failure"
state_value failed = "failed"
state_value cancelled = "cancelled"

-- The payloads of the runner's events; `O` is the type of a handler's output.
pub data JobPayload (O : Type 0) : Type 0 where
  completion : String → String → ℕ → String → Option O → JobPayload O
  failure : String → String → ℕ → String → Datetime → JobPayload O

-- The metadata of the runner's audit records.
pub data JobNote : Type 0 where
  attempted : ℕ → JobNote
  attempt_failed : ℕ → String → JobNote

-- The tables that the runner's transactions use.
pub record Db (P O : Type 0) : Type 0 where
  pub jobs : List (JobRow P)
  pub outbox : List (OutboxRow (JobPayload O))
  pub audits : List (AuditRecord JobNote)

-- How a handler's call ends: its output, or the exception that it raises, with `str(exc)`.
pub data Outcome (O : Type 0) : Type 0 where
  returned : Option O → Outcome O
  retryable_job_error permanent_job_error other_exception : String → Outcome O

pub record JobRunResult (O : Type 0) : Type 0 where
  pub job_id : String
  pub state : JobState
  pub attempt : ℕ
  pub output : Option O
  pub error : Option String

-- A runner as its constructor has it, with what it calls outside the model.
pub record Runner (P O : Type 0) : Type 0 where
  pub retry_policy : RetryPolicy
  pub lease_seconds : ℕ
  pub worker_id : String
  pub handlers : String → Option (JobRecord P → Db P O → Outcome O × Db P O)
  pub uuid5 : String → String
  pub safe_error_detail : String → String
  pub same_payload : Eq (JobPayload O)

abbrev pub failure_type : JobState → String
failure_type retryable_failure = "job.retry_scheduled"
failure_type _ = "job.failed"

abbrev pub lease_holder : Option JobLease → String
lease_holder none = "worker"
lease_holder (some l) = l.worker_id

module _ {P O : Type 0} where
  unfoldable pub completion_event :
      Runner P O → JobRecord P → String → Option O → Datetime → OutboxEvent (JobPayload O)
  completion_event c j id output now = record {
    event_id = c.uuid5 (format ("job.completed:" ∷ id ∷ ":" ∷ str_of j.execution.attempt ∷ []));
    event_type = "job.completed";
    aggregate_type = "job";
    aggregate_id = id;
    payload =
        completion id j.execution.job_type j.execution.attempt (state_value j.execution.state)
          output;
    occurred_at = now;
    status = pending;
  }

  unfoldable pub completion_audit :
      Runner P O → JobRecord P → String → String → Datetime → AuditRecord JobNote
  completion_audit c j id w now = record {
    audit_id =
        c.uuid5 (format ("audit:job.completed:" ∷ id ∷ ":" ∷ str_of j.execution.attempt ∷ []));
    actor_id = w;
    action = "job.completed";
    resource_type = "job";
    resource_id = some id;
    outcome = "success";
    occurred_at = now;
    correlation_id = none;
    configuration_version = none;
    metadata = attempted j.execution.attempt;
  }

  -- `_event_for`
  unfoldable pub failure_event :
      Runner P O
      → JobRecord P
      → JobState
      → String
      → Datetime
      → Datetime
      → OutboxEvent (JobPayload O)
  failure_event c j state error available_at now =
      let id = j.execution.job_id in
      let attempt = j.execution.attempt in
      record {
        event_id = c.uuid5 (format (failure_type state ∷ ":" ∷ id ∷ ":" ∷ str_of attempt ∷ []));
        event_type = failure_type state;
        aggregate_type = "job";
        aggregate_id = id;
        payload = failure id j.execution.job_type attempt error available_at;
        occurred_at = now;
        status = pending;
      }

  -- `_audit_for`
  unfoldable pub failure_audit :
      Runner P O → JobRecord P → String → String → Datetime → AuditRecord JobNote
  failure_audit c j outcome error now =
      let id = j.execution.job_id in
      let attempt = j.execution.attempt in
      record {
        audit_id = c.uuid5 (format ("audit:job.failure:" ∷ id ∷ ":" ∷ str_of attempt ∷ []));
        actor_id = lease_holder j.execution.lease;
        action = "job.failure";
        resource_type = "job";
        resource_id = some id;
        outcome = outcome;
        occurred_at = now;
        correlation_id = none;
        configuration_version = none;
        metadata = attempt_failed attempt error;
      }
