-- ===== src/Foundation/Jobs.antt =====
-- foundation/jobs.py: the life of one job execution under a worker's lease. A call that reads the
-- clock by default takes the time as its argument `now`.
pub mod Lifecycle
use shema_business_platform.Prelude.{
  ℕ, Bool, true, false, not, ◌&&◌, ◌||◌, Option, none, some, String, Datetime, value_error, Result,
  ok, err, ◌>>=◌, ◌>>◌, raise_if, ltb, leb, str_eq, is_blank, is_some, if◌then◌else◌,
}

pub data JobState : Type 0 where
  queued running succeeded retryable_failure failed cancelled : JobState

abbrev pub is_running : JobState → Bool
is_running running = true
is_running _ = false

-- `state in {JobState.QUEUED, JobState.RETRYABLE_FAILURE}`
abbrev pub is_startable : JobState → Bool
is_startable queued = true
is_startable retryable_failure = true
is_startable _ = false

pub record JobLease : Type 0 where
  pub job_id : String
  pub worker_id : String
  pub leased_until : Datetime

-- The constructor: `JobLease(...)` with its `__post_init__`.
unfoldable pub new_lease : JobLease → Result JobLease
new_lease l = do
  raise_if (is_blank l.job_id || is_blank l.worker_id)
      (value_error "job_id and worker_id are required")
  raise_if (not l.leased_until.tz_aware) (value_error "leased_until must be timezone-aware")
  ok l

unfoldable pub is_expired : JobLease → Datetime → Result Bool
is_expired l now = do
  raise_if (not now.tz_aware) (value_error "now must be timezone-aware")
  ok (leb l.leased_until.micros now.micros)

pub record JobExecution : Type 0 where
  pub job_id : String
  pub job_type : String
  pub attempt : ℕ
  pub state : JobState
  pub idempotency_key : String
  pub lease : Option JobLease

abbrev pub lease_of_other : String → Option JobLease → Bool
lease_of_other id none = false
lease_of_other id (some l) = not (str_eq l.job_id id)

-- The constructor: `JobExecution(...)` with its `__post_init__`.
unfoldable pub new_execution : JobExecution → Result JobExecution
new_execution e = do
  raise_if (is_blank e.job_id || is_blank e.job_type)
      (value_error "job_id and job_type are required")
  raise_if (ltb e.attempt 1) (value_error "attempt must be >= 1")
  raise_if (is_blank e.idempotency_key) (value_error "idempotency_key is required")
  raise_if (is_running e.state && not (is_some e.lease))
      (value_error "running job requires a lease")
  raise_if (lease_of_other e.job_id e.lease) (value_error "lease belongs to a different job")
  ok e

unfoldable pub start : JobLease → Datetime → JobExecution → Result JobExecution
unfolding new_execution is_expired
start l now e = do
  raise_if (not (str_eq l.job_id e.job_id)) (value_error "lease belongs to a different job")
  expired ← is_expired l now
  raise_if expired (value_error "job lease is already expired")
  raise_if (not (is_startable e.state)) (value_error "job cannot be started from current state")
  new_execution (record e { state = running; lease = some l })

-- The lease of a running job; `message` is raised otherwise.
abbrev pub running_lease : JobExecution → String → Result JobLease
running_lease e message = elim e.lease [
  | none ↦ err (value_error message)
  | some l ↦ if is_running e.state then ok l else err (value_error message)
]

unfoldable pub renew : JobLease → Datetime → JobExecution → Result JobExecution
unfolding new_execution is_expired
renew l now e = do
  held ← running_lease e "only running job can renew"
  raise_if (not (str_eq l.job_id e.job_id)) (value_error "lease belongs to a different job")
  raise_if (not (str_eq held.worker_id l.worker_id))
      (value_error "lease belongs to a different worker")
  held_expired ← is_expired held now
  raise_if held_expired (value_error "job lease has expired")
  expired ← is_expired l now
  raise_if expired (value_error "new lease is already expired")
  new_execution (record e { state = running; lease = some l })

unfoldable pub require_active_lease : Datetime → JobExecution → Result (Unit {0})
unfolding is_expired
require_active_lease now e = do
  held ← running_lease e "only running job can complete"
  expired ← is_expired held now
  raise_if expired (value_error "job lease has expired")

unfoldable pub succeed : Datetime → JobExecution → Result JobExecution
unfolding new_execution require_active_lease
succeed now e = do require_active_lease now e; new_execution (record e { state = succeeded })

unfoldable pub fail : Bool → Datetime → JobExecution → Result JobExecution
unfolding new_execution require_active_lease
fail retryable now e = do
  require_active_lease now e
  new_execution (record e { state = if retryable then retryable_failure else failed })
