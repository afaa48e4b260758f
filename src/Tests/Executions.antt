-- ===== src/Tests/Executions.antt =====
-- Runs of the job execution of foundation/jobs.py and of the retry policy of foundation/recovery.py.
use shema_business_platform.Prelude.{ℕ, ◌≡◌, refl, true, none, some, Datetime, ok, is_blank, String}
use shema_business_platform.Foundation.Jobs.{
  queued, running, JobLease, JobExecution, new_execution, start,
}
use shema_business_platform.Foundation.Jobs.Lifecycle.{IsValid, starts, call, Edge, call_lifecycle}
use shema_business_platform.Foundation.Recovery.{
  RetryPolicy, new_policy, delay_for, next_available_at,
}

abbrev at : ℕ → Datetime
at n = record { tz_aware = true; micros = n }

abbrev lease : JobLease
lease = record { job_id = "a"; worker_id = "worker-1"; leased_until = at 100 }

abbrev waiting : JobExecution
waiting = record {
  job_id = "a";
  job_type = "search";
  attempt = 1;
  state = queued;
  idempotency_key = "k";
  lease = none;
}

abbrev started : JobExecution
started = record waiting { state = running; lease = some lease }

start_a : call (starts lease) (at 10) waiting ≡ ok started
unfolding call start is_blank
start_a = refl

call_lifecycle_example :
    IsValid started
    × Edge queued running
    × ◌≡◌ {A = String} "a" "a"
    × ◌≡◌ {A = String} "search" "search"
    × ◌≡◌ {A = ℕ} 1 1
    × ◌≡◌ {A = String} "k" "k"
call_lifecycle_example = call_lifecycle (starts lease) (at 10) waiting started start_a

constructed_ok : new_execution started ≡ ok started
unfolding new_execution is_blank
constructed_ok = refl

abbrev policy : RetryPolicy
policy = record { max_attempts = 3; initial_delay = 1000000; max_delay = 60000000 }

policy_ok : new_policy policy ≡ ok policy
unfolding new_policy
policy_ok = refl

delay_1 : delay_for policy 1 ≡ ok 1000000
unfolding delay_for
delay_1 = refl

delay_2 : delay_for policy 2 ≡ ok 2000000
unfolding delay_for
delay_2 = refl

next_2 : next_available_at policy 2 (at 5) ≡ ok (at 2000005)
unfolding next_available_at
next_2 = refl
