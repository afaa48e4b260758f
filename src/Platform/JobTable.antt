-- ===== src/Platform/JobTable.antt =====
-- `PostgresJobRepository` of platform/postgres_repositories.py over the table `job_execution`: its
-- rows in any order, `job_id` the primary key. `locked` says which rows other transactions hold.
pub mod Update
pub mod Claim
pub mod Fencing
pub mod Finish
pub mod Lifetime
pub mod Settled
use Prim.Native.Nat.{compare, Ordering}
use Prim.Native.String.{compare as compare_text}
use mathlib.Core.Option
use shema_business_platform.Prelude.{
  ℕ, ◌+◌, Bool, true, false, not, ◌&&◌, ◌||◌, Option, none, some, List, [], ◌∷◌, map, String,
  Datetime, add_seconds, value_error, integrity_violation, Result, ok, err, ltb, leb, ◌==◌, str_eq,
  is_blank, is_some, Eq, database_error, ◌++◌, keep, if◌then◌else◌,
}
use shema_business_platform.Foundation.Jobs.{
  JobState, queued, running, succeeded, retryable_failure, failed, cancelled, is_running,
  is_startable, JobLease, new_lease, JobExecution, new_execution,
}
use shema_business_platform.Foundation.Outbox.{bool_eq}
use shema_business_platform.Platform.Transaction.{Tx, pure, raise, lift, ◌>>=◌, ◌>>◌, raise_if}
use shema_business_platform.Platform.JobRows.{
  JobRecord, JobRow, blank_error, new_record, ends_by, worker_is, ends_after, option_eq, time_eq,
  lease_eq, state_eq, lease_worker, lease_end, row_lease, row_execution, to_record, first_where,
  update, has_id, get_row, get, record_eq, row_of, row_ok,
}

module _ {P : Type 0} where
  -- The candidates' `where` clause.
  unfoldable pub is_due : Datetime → JobRow P → Bool
  is_due now r =
      (is_startable r.state && leb r.available_at.micros now.micros)
      || (is_running r.state && ends_by r.lease_until now)

  -- `order by available_at, created_at, job_id`
  unfoldable pub row_le : JobRow P → JobRow P → Bool
  row_le a b =
      ltb a.available_at.micros b.available_at.micros
      || (a.available_at.micros == b.available_at.micros
          && (ltb a.created_at.micros b.created_at.micros
              || (a.created_at.micros == b.created_at.micros
                  && elim (compare_text a.job_id b.job_id) [ Ordering.gt ↦ false | _ ↦ true ])))

  abbrev pub earlier : JobRow P → Option (JobRow P) → JobRow P
  earlier r none = r
  earlier r (some x) = if row_le r x then r else x

  -- The first row in that order: `order by ... limit 1`.
  unfoldable pub first_row : List (JobRow P) → Option (JobRow P)
  unfolding row_le
  first_row [] = none
  first_row (r ∷ rs) = some (earlier r (first_row rs))

  abbrev is_first_try : JobRow P → Bool
  is_first_try r = elim r.state [ queued ↦ r.attempt == 1 | _ ↦ false ]

  -- The `set` clause of the claim.
  abbrev pub claim_row : String → ℕ → Datetime → JobRow P → JobRow P
  claim_row w secs now r = record r {
    state = running;
    attempt = if is_first_try r then r.attempt else r.attempt + 1;
    worker_id = some w;
    lease_until = some (add_seconds now secs);
    updated_at = now;
    last_error = none;
  }

  abbrev pub is_candidate : (String → Bool) → Datetime → JobRow P → Bool
  is_candidate locked now r = is_due now r && not (locked r.job_id)

  -- The three checks of `claim_next` and `renew` on their arguments.
  abbrev checked : String → ℕ → Datetime → Tx (List (JobRow P)) (Unit {0})
  checked w secs now = do
    raise_if (is_blank w) (value_error "worker_id is required")
    raise_if (leb secs 0) (value_error "lease_seconds must be > 0")
    raise_if (not now.tz_aware) (value_error "now must be timezone-aware")

  abbrev fetched : Option (JobRow P) → Tx (List (JobRow P)) (Option (JobRecord P))
  fetched none = pure none
  fetched (some r) = do j ← to_record r; pure (some j)

  unfoldable pub claim_next :
      (String → Bool) → String → ℕ → Datetime → Tx (List (JobRow P)) (Option (JobRecord P))
  unfolding is_due first_row update to_record
  claim_next locked w secs now = do
    checked w secs now
    λ rows. elim (first_row (keep (is_candidate locked now) rows)) [
      | none ↦ ok (none, rows)
      | some c ↦ (update (has_id c.job_id) (claim_row w secs now) >>= fetched) rows
    ]

  -- `where job_id = %s and state = 'running' and worker_id = %s and lease_until > %s`
  unfoldable pub is_held : String → String → Datetime → JobRow P → Bool
  is_held id w now r =
      str_eq r.job_id id
      && is_running r.state
      && worker_is r.worker_id w
      && ends_after r.lease_until now

  abbrev found_or : String → Option (JobRow P) → Tx (List (JobRow P)) (JobRecord P)
  found_or message none = raise (integrity_violation message)
  found_or message (some r) = to_record r

  abbrev pub renew_row : ℕ → Datetime → JobRow P → JobRow P
  renew_row secs now r = record r { lease_until = some (add_seconds now secs); updated_at = now }

  unfoldable pub renew : String → String → ℕ → Datetime → Tx (List (JobRow P)) (JobRecord P)
  unfolding is_held update to_record
  renew id w secs now = do
    checked w secs now
    r ← update (is_held id w now) (renew_row secs now)
    found_or "job lease renewal rejected: missing or expired lease" r

  abbrev pub complete_row : Datetime → JobRow P → JobRow P
  complete_row now r = record r {
    state = succeeded;
    worker_id = none;
    lease_until = none;
    completed_at = some now;
    updated_at = now;
  }

  unfoldable pub complete : String → String → Datetime → Tx (List (JobRow P)) (JobRecord P)
  unfolding is_held update to_record
  complete id w now = do
    r ← update (is_held id w now) (complete_row now)
    found_or "job completion rejected: missing or expired lease" r

  abbrev pub fail_row : Bool → String → Datetime → Datetime → JobRow P → JobRow P
  fail_row retryable error available_at now r = record r {
    state = if retryable then retryable_failure else failed;
    worker_id = none;
    lease_until = none;
    last_error = some error;
    available_at = available_at;
    completed_at = if retryable then none else some now;
    updated_at = now;
  }

  unfoldable pub fail :
      String → String → Bool → String → Datetime → Datetime → Tx (List (JobRow P)) (JobRecord P)
  unfolding is_held update to_record
  fail id w retryable error available_at now = do
    raise_if (is_blank error) (value_error "error is required")
    r ← update (is_held id w now) (fail_row retryable error available_at now)
    found_or "job failure rejected: missing or expired lease" r

  abbrev has_key : String → JobRow P → Bool
  has_key key r = str_eq r.idempotency_key key

  unfoldable pub enqueue : Eq P → Datetime → JobRecord P → Tx (List (JobRow P)) (JobRecord P)
  unfolding record_eq row_ok first_where get_row to_record
  enqueue q created r rows =
      let row = row_of created r in
      if not (row_ok row)
      then err (database_error "check constraint violated")
      else elim (get_row row.job_id rows) [
        | some old ↦
            (do
              existing ← to_record old
              raise_if (not (record_eq q existing r))
                  (integrity_violation "job_id collision with different execution")
              pure existing)
              rows
        | none ↦
            if is_some (first_where (has_key row.idempotency_key) rows)
            then err (database_error "unique constraint violated")
            else to_record row (rows ++ row ∷ [])
      ]
