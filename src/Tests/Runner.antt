-- ===== src/Tests/Runner.antt =====
-- Runs of the job runner of application/job_runner.py on one running job.
use shema_business_platform.Prelude.{
  ℕ, ◌≢◌, In, if◌then◌else◌, ◌≤◌, ◌<◌, ◌≡◌, ◌⊎◌, ◌↔◌, refl, Bool, true, false, not, ◌&&◌, ◌==◌,
  Option, none, some, [], ◌∷◌, String, Datetime, value_error, integrity_violation, Error, ok, err,
  str_eq, str_eq_iff, is_blank, arith, str_of,
}
use shema_business_platform.Foundation.Jobs.{running, succeeded, retryable_failure, failed}
use shema_business_platform.Foundation.Recovery.{RetryPolicy}
use shema_business_platform.Platform.JobRows.{JobRow, JobRecord, row_execution, get_row}
use shema_business_platform.Platform.JobTable
use shema_business_platform.Platform.JobTable.{is_held}
use shema_business_platform.Platform.JobTable.Update.{IsUnique}
use shema_business_platform.Platform.AuditTable.{new_audit, has_audit}
use shema_business_platform.Platform.AuditTable
use shema_business_platform.Platform.OutboxTable
use shema_business_platform.Platform.OutboxTable.Append.{IsStored}
use shema_business_platform.Platform.Transaction.{transaction}
use shema_business_platform.Application.JobEvents.{
  Db, JobPayload, completion, failure, returned, JobRunResult, Runner, state_value,
  completion_event, completion_audit, failure_event, failure_audit,
}
use shema_business_platform.Application.JobRunner.{
  retry_plan, on_jobs, append_event, append_audit, complete_body, failure_body, record_failure,
  record_success, settle,
}
use shema_business_platform.Application.JobRunner.Recording.{
  retry_plan_iff, after_delay, settle_atomic, blank_failure_unrecorded,
}
use shema_business_platform.Application.JobRunner.Recorded.{
  success_recorded, failure_recorded, IsPlan, finished_row, retried_row, given_up_row,
}

same_option : Option String → Option String → Bool
same_option none none = true
same_option (some a) (some b) = str_eq a b
same_option _ _ = false

same_zone : Bool → Bool → Bool
same_zone true b = b
same_zone false b = not b

unfoldable same : JobPayload String → JobPayload String → Bool
unfolding same_option same_zone
same (completion i t n s o) (completion i' t' n' s' o') =
    str_eq i i' && str_eq t t' && n == n' && str_eq s s' && same_option o o'
same (failure i t n e a) (failure i' t' n' e' a') =
    str_eq i i'
    && str_eq t t'
    && n == n'
    && str_eq e e'
    && same_zone a.tz_aware a'.tz_aware
    && a.micros == a'.micros
same _ _ = false

same_option_iff : (a b : Option String) → (same_option a b ≡ true) ↔ (a ≡ b)
unfolding same_option
same_option_iff none none = ground arith
same_option_iff none (some b) = ground arith
same_option_iff (some a) none = ground arith
same_option_iff (some a) (some b) = ground (arith, str_eq_iff a b)

same_zone_iff : (a b : Bool) → (same_zone a b ≡ true) ↔ (a ≡ b)
unfolding same_zone
same_zone_iff a b = ground arith

same_iff : (a b : JobPayload String) → (same a b ≡ true) ↔ (a ≡ b)
unfolding same
same_iff (completion i t n s o) (completion i' t' n' s' o') =
    ground (arith, str_eq_iff i i', str_eq_iff t t', str_eq_iff s s', same_option_iff o o')
same_iff (failure i t n e a) (failure i' t' n' e' a') =
    ground (
      arith,
      str_eq_iff i i',
      str_eq_iff t t',
      str_eq_iff e e',
      same_zone_iff a.tz_aware a'.tz_aware,
    )
same_iff (completion i t n s o) (failure i' t' n' e' a') = ground arith
same_iff (failure i t n e a) (completion i' t' n' s' o') = ground arith

abbrev at : ℕ → Datetime
at n = record { tz_aware = true; micros = n }

abbrev policy : RetryPolicy
policy = record { max_attempts = 3; initial_delay = 1000000; max_delay = 60000000 }

abbrev runner : Runner String String
runner = record {
  retry_policy = policy;
  lease_seconds = 60;
  worker_id = "worker-1";
  handlers = λ _. none;
  uuid5 = λ s. s;
  safe_error_detail = λ s. s;
  same_payload = record { beq = same; beq_iff = same_iff };
}

abbrev row : JobRow String
row = record {
  job_id = "a";
  job_type = "search";
  attempt = 1;
  state = running;
  idempotency_key = "k";
  payload = "query";
  available_at = at 0;
  worker_id = some "worker-1";
  lease_until = some (at 1000);
  last_error = none;
  completed_at = none;
  created_at = at 0;
  updated_at = at 0;
}

abbrev job : JobRecord String
job = record {
  execution =
      row_execution row
        (some (record { job_id = "a"; worker_id = "worker-1"; leased_until = at 1000 }));
  payload = "query";
  available_at = at 0;
  last_error = none;
}

abbrev db : Db String String
db = record { jobs = row ∷ []; outbox = []; audits = [] }

abbrev lost : Db String String
lost = record { jobs = []; outbox = []; audits = [] }

abbrev lost_error : Error
lost_error = integrity_violation "job completion rejected: missing or expired lease"

lost_run : settle runner job (at 20) (returned (some "out")) lost ≡ (err lost_error, lost)
unfolding settle record_success transaction complete_body on_jobs JobTable.complete
lost_run = refl

settle_atomic_example : lost ≡ lost
settle_atomic_example =
    settle_atomic runner job (at 20) (returned (some "out")) lost lost lost_error lost_run

retry_plan_iff_example :
    ((true ≡ true) × (1 < policy.max_attempts)
      → retry_plan policy 1 true (at 20) ≡ ok (true, after_delay policy 1 (at 20)))
    × ((true ≡ false) ⊎ (policy.max_attempts ≤ 1)
        → retry_plan policy 1 true (at 20) ≡ ok (false, at 20))
retry_plan_iff_example = retry_plan_iff policy 1 true (at 20) (omega arith) refl

plan_1 : retry_plan policy 1 true (at 20) ≡ ok (true, at 1000020)
unfolding retry_plan
plan_1 = refl

no_text : is_blank "" ≡ true
unfolding is_blank
no_text = refl

blank_failure_unrecorded_example :
    record_failure runner job "" true (at 20) db ≡ (err (value_error "error is required"), db)
blank_failure_unrecorded_example =
    blank_failure_unrecorded runner job "" true true (at 1000020) (at 20) db no_text refl plan_1

abbrev succeeded_db : Db String String
succeeded_db = (record_success runner job (some "out") (at 20) db).1

abbrev succeeded_run : JobRunResult String
succeeded_run = record {
  job_id = "a";
  state = succeeded;
  attempt = 1;
  output = some "out";
  error = none;
}

recorded : record_success runner job (some "out") (at 20) db ≡ (ok succeeded_run, succeeded_db)
unfolding record_success transaction complete_body on_jobs append_event append_audit
    JobTable.complete OutboxTable.append AuditTable.append new_audit completion_event
    completion_audit str_of is_blank
recorded = refl

db-IsUnique : IsUnique db.jobs
unfolding get_row
db-IsUnique = (refl, tt)

success_recorded_example :
    (f : JobRecord String) × (r : JobRow String) × (get_row "a" db.jobs ≡ some r)
    × (is_held "a" "worker-1" (at 20) r ≡ true)
    × (get_row "a" succeeded_db.jobs ≡ some (finished_row (at 20) r))
    × ((k : String) → k ≢ "a" → get_row k succeeded_db.jobs ≡ get_row k db.jobs)
    × IsStored (completion_event runner f "a" (some "out") (at 20)) succeeded_db.outbox
    × In (completion_audit runner f "a" "worker-1" (at 20)) succeeded_db.audits
    × (f.execution.state ≡ succeeded)
    × (succeeded ≡ succeeded)
    × ◌≡◌ {A = Option String} (some "out") (some "out")
success_recorded_example =
    success_recorded runner job (some "out") (at 20) db succeeded_db succeeded_run db-IsUnique
      recorded

abbrev failed_db : Db String String
failed_db = (record_failure runner job "boom" true (at 20) db).1

abbrev failed_run : JobRunResult String
failed_run = record {
  job_id = "a";
  state = retryable_failure;
  attempt = 1;
  output = none;
  error = some "boom";
}

failed_recorded : record_failure runner job "boom" true (at 20) db ≡ (ok failed_run, failed_db)
unfolding record_failure transaction failure_body on_jobs append_event append_audit JobTable.fail
    retry_plan OutboxTable.append AuditTable.append new_audit failure_event failure_audit str_of
    is_blank
failed_recorded = refl

failure_recorded_example :
    (f : JobRecord String) × (r : JobRow String) × (plan : Bool × Datetime) × (get_row "a" db.jobs
      ≡ some r)
    × (is_held "a" "worker-1" (at 20) r ≡ true)
    × IsPlan policy 1 true (at 20) plan
    × (get_row "a" failed_db.jobs
        ≡ some
            (if plan.0 then retried_row "boom" plan.1 (at 20) r else given_up_row "boom" (at 20) r))
    × ((k : String) → k ≢ "a" → get_row k failed_db.jobs ≡ get_row k db.jobs)
    × IsStored (failure_event runner job f.execution.state "boom" plan.1 (at 20)) failed_db.outbox
    × In (failure_audit runner job (state_value f.execution.state) "boom" (at 20)) failed_db.audits
    × (f.execution.state ≡ (if plan.0 then retryable_failure else failed))
    × (retryable_failure ≡ f.execution.state)
failure_recorded_example =
    failure_recorded runner job "boom" true (at 20) db failed_db failed_run db-IsUnique
      failed_recorded
