-- ===== src/Platform/JobRows.antt =====
-- The rows of the table `job_execution` and what `PostgresJobRepository` of
-- platform/postgres_repositories.py reads from them: `JobRecord` of foundation/jobs.py, `_to_record`
-- and `get`, and the parts of an SQL statement.
use mathlib.Core.Option
use shema_business_platform.Prelude.{
  ℕ, Bool, true, false, not, ◌&&◌, Option, none, some, List, [], ◌∷◌, map, String, Datetime,
  value_error, Result, ok, err, ltb, leb, ◌==◌, str_eq, is_blank, is_some, Eq, if◌then◌else◌,
}
use shema_business_platform.Foundation.Jobs.{
  JobState, queued, running, succeeded, retryable_failure, failed, cancelled, is_running, JobLease,
  new_lease, JobExecution, new_execution,
}
use shema_business_platform.Foundation.Outbox.{bool_eq}
use shema_business_platform.Platform.Transaction.{Tx, lift, ◌>>=◌}

-- foundation/jobs.py: `JobRecord`.
pub record JobRecord (P : Type 0) : Type 0 where
  pub execution : JobExecution
  pub payload : P
  pub available_at : Datetime
  pub last_error : Option String

abbrev pub blank_error : Option String → Bool
blank_error none = false
blank_error (some e) = is_blank e

-- The constructor: `JobRecord(...)` with its `__post_init__`.
unfoldable pub new_record : {P : Type 0} → JobRecord P → Result (JobRecord P)
new_record r =
    if not r.available_at.tz_aware
    then err (value_error "available_at must be timezone-aware")
    else if blank_error r.last_error
    then err (value_error "last_error cannot be blank")
    else ok r

-- A row of `job_execution`.
pub record JobRow (P : Type 0) : Type 0 where
  pub job_id : String
  pub job_type : String
  pub attempt : ℕ
  pub state : JobState
  pub idempotency_key : String
  pub payload : P
  pub available_at : Datetime
  pub worker_id : Option String
  pub lease_until : Option Datetime
  pub last_error : Option String
  pub completed_at : Option Datetime
  pub created_at : Datetime
  pub updated_at : Datetime

abbrev pub ends_by : Option Datetime → Datetime → Bool
ends_by none now = false
ends_by (some u) now = leb u.micros now.micros

abbrev pub worker_is : Option String → String → Bool
worker_is none w = false
worker_is (some v) w = str_eq v w

abbrev pub ends_after : Option Datetime → Datetime → Bool
ends_after none now = false
ends_after (some u) now = ltb now.micros u.micros

abbrev pub option_eq : {A : Type 0} → (A → A → Bool) → Option A → Option A → Bool
option_eq eq none none = true
option_eq eq (some a) (some b) = eq a b
option_eq eq _ _ = false

abbrev pub time_eq : Datetime → Datetime → Bool
time_eq a b = bool_eq a.tz_aware b.tz_aware && a.micros == b.micros

abbrev pub lease_eq : JobLease → JobLease → Bool
lease_eq a b =
    str_eq a.job_id b.job_id
    && str_eq a.worker_id b.worker_id
    && time_eq a.leased_until b.leased_until

abbrev pub state_eq : JobState → JobState → Bool
state_eq queued queued = true
state_eq running running = true
state_eq succeeded succeeded = true
state_eq retryable_failure retryable_failure = true
state_eq failed failed = true
state_eq cancelled cancelled = true
state_eq _ _ = false

abbrev pub lease_worker : Option JobLease → Option String
lease_worker l = Option.map (λ (x : JobLease). x.worker_id) l

abbrev pub lease_end : Option JobLease → Option Datetime
lease_end l = Option.map (λ (x : JobLease). x.leased_until) l

module _ {P : Type 0} where
  abbrev pub row_lease : JobRow P → Result (Option JobLease)
  row_lease r = elim r.worker_id [
    | none ↦ ok none
    | some w ↦ elim r.lease_until [
      | none ↦ ok none
      | some u ↦ elim (new_lease (record { job_id = r.job_id; worker_id = w; leased_until = u })) [
        | ok l ↦ ok (some l)
        | err e ↦ err e
      ]
    ]
  ]

  abbrev pub row_execution : JobRow P → Option JobLease → JobExecution
  row_execution r l = record {
    job_id = r.job_id;
    job_type = r.job_type;
    attempt = r.attempt;
    state = r.state;
    idempotency_key = r.idempotency_key;
    lease = l;
  }

  -- `_to_record`
  unfoldable pub to_record : JobRow P → Tx (List (JobRow P)) (JobRecord P)
  unfolding new_lease new_execution new_record
  to_record r = do
    l ← lift (row_lease r)
    e ← lift (new_execution (row_execution r l))
    lift (
        new_record (record {
          execution = e;
          payload = r.payload;
          available_at = r.available_at;
          last_error = r.last_error;
        }))

  unfoldable pub first_where : (JobRow P → Bool) → List (JobRow P) → Option (JobRow P)
  first_where p [] = none
  first_where p (r ∷ rs) = if p r then some r else first_where p rs

  -- `update job_execution set ... where p returning ...`, and the first row returned.
  unfoldable pub update :
      (JobRow P → Bool) → (JobRow P → JobRow P) → Tx (List (JobRow P)) (Option (JobRow P))
  unfolding first_where
  update p f rows = ok (Option.map f (first_where p rows), map (λ r. if p r then f r else r) rows)

  abbrev pub has_id : String → JobRow P → Bool
  has_id id r = str_eq r.job_id id

  -- `select ... where job_id = %s`
  unfoldable pub get_row : String → List (JobRow P) → Option (JobRow P)
  unfolding first_where
  get_row id = first_where (has_id id)

  unfoldable pub get : String → Tx (List (JobRow P)) (Option (JobRecord P))
  unfolding get_row to_record
  get id rows = elim (get_row id rows) [
    | none ↦ ok (none, rows)
    | some r ↦ elim (to_record r rows) [ ok (j, rows') ↦ ok (some j, rows') | err e ↦ err e ]
  ]

  -- `existing == record`, field by field.
  unfoldable pub record_eq : Eq P → JobRecord P → JobRecord P → Bool
  record_eq q a b =
      str_eq a.execution.job_id b.execution.job_id
      && str_eq a.execution.job_type b.execution.job_type
      && a.execution.attempt == b.execution.attempt
      && state_eq a.execution.state b.execution.state
      && str_eq a.execution.idempotency_key b.execution.idempotency_key
      && option_eq lease_eq a.execution.lease b.execution.lease
      && q.beq a.payload b.payload
      && time_eq a.available_at b.available_at
      && option_eq str_eq a.last_error b.last_error

  -- The row that `enqueue` inserts; `created` is the database's `now()`.
  abbrev pub row_of : Datetime → JobRecord P → JobRow P
  row_of created r = record {
    job_id = r.execution.job_id;
    job_type = r.execution.job_type;
    attempt = r.execution.attempt;
    state = r.execution.state;
    idempotency_key = r.execution.idempotency_key;
    payload = r.payload;
    available_at = r.available_at;
    worker_id = lease_worker r.execution.lease;
    lease_until = lease_end r.execution.lease;
    last_error = r.last_error;
    completed_at = none;
    created_at = created;
    updated_at = created;
  }

  -- The table's `check` constraints: db/migrations/0006_job_execution.sql and
  -- 0009_state_ownership_invariants.sql.
  unfoldable pub row_ok : JobRow P → Bool
  row_ok r =
      leb 1 r.attempt
      && (if is_running r.state
          then is_some r.worker_id && is_some r.lease_until
          else not (is_some r.worker_id) && not (is_some r.lease_until))
