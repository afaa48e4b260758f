-- ===== src/Foundation/Jobs/Lifecycle.antt =====
-- The state machine of a job execution.
use shema_business_platform.Prelude.{
  ◌≤◌, ◌<◌, ◌≡◌, ◌≢◌, ◌↔◌, refl, sym, subst, Bool, true, false, Option, none, some, String,
  Datetime, Result, ok, str_eq, str_eq_iff, not, is_blank, arith, if◌then◌else◌,
}
use shema_business_platform.Foundation.Jobs.{
  JobState, is_running, queued, running, succeeded, retryable_failure, failed, JobLease,
  JobExecution, lease_of_other, new_execution, start, renew, succeed, fail,
}

-- A lease belongs to the job that holds it.
abbrev pub IsOwn : String → Option JobLease → Type 0
IsOwn id none = Unit
IsOwn id (some l) = l.job_id ≡ id

-- What the constructor of an execution has checked.
pub record IsValid (e : JobExecution) : Type 0 where
  pub has_id : is_blank e.job_id ≡ false
  pub has_type : is_blank e.job_type ≡ false
  pub has_attempt : 1 ≤ e.attempt
  pub has_key : is_blank e.idempotency_key ≡ false
  pub running_leased : e.state ≡ running → e.lease ≢ none
  pub lease_own : IsOwn e.job_id e.lease

lease_own_test : (id : String) (l : JobLease) → not (str_eq l.job_id id) ≡ false → l.job_id ≡ id
lease_own_test id l h = ground (arith, str_eq_iff l.job_id id)

lease_tested : (id : String) (l : Option JobLease) → lease_of_other id l ≡ false → IsOwn id l
lease_tested id none h = tt
lease_tested id (some l) h = lease_own_test id l h

pub new_execution-IsValid : (e e' : JobExecution) → new_execution e ≡ ok e' → (e' ≡ e) × IsValid e
unfolding new_execution
new_execution-IsValid e e' h = ground (arith, lease_tested e.job_id e.lease)

-- The methods of an execution.
pub data JobCall : Type 0 where
  starts renews : JobLease → JobCall
  succeeds : JobCall
  fails : Bool → JobCall

unfoldable pub call : JobCall → Datetime → JobExecution → Result JobExecution
call (starts l) now e = start l now e
call (renews l) now e = renew l now e
call succeeds now e = succeed now e
call (fails retryable) now e = fail retryable now e

-- The transitions of the state machine.
pub data Edge : JobState → JobState → Type 0 where
  start_queued : Edge queued running
  start_again : Edge retryable_failure running
  renew_running : Edge running running
  finish : Edge running succeeded
  give_back : Edge running retryable_failure
  give_up : Edge running failed

-- How a call that succeeds goes on from `e`: a valid execution at the end of an edge, with the
-- job's id, type, attempt and idempotency key kept.
abbrev Moved : JobExecution → JobExecution → Type 0
Moved e e' =
    IsValid e'
    × Edge e.state e'.state
    × (e'.job_id ≡ e.job_id)
    × (e'.job_type ≡ e.job_type)
    × (e'.attempt ≡ e.attempt)
    × (e'.idempotency_key ≡ e.idempotency_key)

constructed :
    (e e' : JobExecution) (st : JobState) (l : Option JobLease)
    → new_execution (record e { state = st; lease = l }) ≡ ok e'
    → Edge e.state st
    → Moved e e'
constructed e e' st l h edge =
    let t : JobExecution = record e { state = st; lease = l } in
    let (same, v) = new_execution-IsValid t e' h in
    subst (Moved e) (sym same) (v, edge, refl, refl, refl, refl)

start-Moved :
    (l : JobLease) (now : Datetime) (e e' : JobExecution) → start l now e ≡ ok e' → Moved e e'
unfolding start
start-Moved l now e e' h =
    ground (arith, start_queued, start_again, constructed e e' running (some l))

renew-Moved :
    (l : JobLease) (now : Datetime) (e e' : JobExecution) → renew l now e ≡ ok e' → Moved e e'
unfolding renew
renew-Moved l now e e' h = ground (arith, renew_running, constructed e e' running (some l))

succeed-Moved : (now : Datetime) (e e' : JobExecution) → succeed now e ≡ ok e' → Moved e e'
unfolding succeed
succeed-Moved now e e' h = ground (arith, finish, constructed e e' succeeded e.lease)

fail-Moved :
    (retryable : Bool) (now : Datetime) (e e' : JobExecution)
    → fail retryable now e ≡ ok e'
    → Moved e e'
unfolding fail
fail-Moved retryable now e e' h = ground (
  arith,
  give_back,
  give_up,
  constructed e e' retryable_failure e.lease,
  constructed e e' failed e.lease,
)

-- A call that succeeds follows an edge of the state machine, yields a valid execution, and leaves
-- the job's id, type, attempt and idempotency key as they were.
pub call_lifecycle :
    (c : JobCall) (now : Datetime) (e e' : JobExecution)
    → call c now e ≡ ok e'
    → IsValid e'
      × Edge e.state e'.state
      × (e'.job_id ≡ e.job_id)
      × (e'.job_type ≡ e.job_type)
      × (e'.attempt ≡ e.attempt)
      × (e'.idempotency_key ≡ e.idempotency_key)
unfolding call
call_lifecycle (starts l) now e e' h = start-Moved l now e e' h
call_lifecycle (renews l) now e e' h = renew-Moved l now e e' h
call_lifecycle succeeds now e e' h = succeed-Moved now e e' h
call_lifecycle (fails retryable) now e e' h = fail-Moved retryable now e e' h

lease_passes : (id : String) (l : Option JobLease) → IsOwn id l → lease_of_other id l ≡ false
lease_passes id none h = refl
lease_passes id (some l) h = ground (arith, str_eq_iff l.job_id id)

-- The constructor accepts a valid execution that is moved to a state other than running.
finished_ok :
    (e : JobExecution) (st : JobState)
    → IsValid e
    → is_running st ≡ false
    → new_execution (record e { state = st }) ≡ ok (record e { state = st })
unfolding new_execution
finished_ok e st v h = ground (arith, lease_passes e.job_id e.lease)

abbrev pub finished_state : Bool → JobState
finished_state retryable = if retryable then retryable_failure else failed

-- A valid execution that holds a lease can succeed exactly when it is running, `now` carries a
-- time zone and lies before the lease's end; it can fail, retryably or not, under the same
-- condition. Only its state changes.
pub finish_iff :
    (retryable : Bool) (now : Datetime) (e : JobExecution) (l : JobLease)
    → IsValid e
    → e.lease ≡ some l
    → ((succeed now e ≡ ok (record e { state = succeeded }))
        ↔ ((e.state ≡ running) × (now.tz_aware ≡ true) × (now.micros < l.leased_until.micros)))
      × ((fail retryable now e ≡ ok (record e { state = finished_state retryable }))
          ↔ ((e.state ≡ running) × (now.tz_aware ≡ true) × (now.micros < l.leased_until.micros)))
unfolding succeed fail
finish_iff retryable now e l v h = (
  (ground arith, ground (arith, finished_ok e succeeded v refl)),
  (
    ground arith,
    ground (arith, finished_ok e retryable_failure v refl, finished_ok e failed v refl),
  ),
)
