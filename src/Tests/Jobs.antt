-- ===== src/Tests/Jobs.antt =====
-- Runs of the job table of platform/postgres_repositories.py with two jobs.
use shema_business_platform.Prelude.{
  ℕ, ◌≡◌, ◌≢◌, refl, Bool, true, false, none, some, List, [], ◌∷◌, String, Datetime, add_seconds,
  Eq, integrity_violation, ok, err, str_eq, str_eq_iff, is_blank, inl, inr, arith, map,
}
use shema_business_platform.Foundation.Jobs.{queued}
use shema_business_platform.Platform.JobRows.{JobRow, JobRecord, row_execution, get_row}
use shema_business_platform.Platform.JobTable.{
  is_candidate, claim_row, claim_next, is_held, renew, complete, complete_row, fail,
}
use shema_business_platform.Platform.JobTable.Update.{IsUnique, at_where}
use shema_business_platform.Platform.JobTable.Claim.{
  Takes, claim_next-Takes, claim_next-none, claims_exclusive,
}
use shema_business_platform.Platform.JobTable.Fencing.{stale_worker_rejected}
use shema_business_platform.Platform.JobTable.Finish.{IsSound}
use shema_business_platform.Platform.JobTable.Lifetime.{
  is_ended, JobOp, claims, completes, fails, run, run_ended,
}

different : (s t : String) → str_eq s t ≡ false → s ≢ t
different s t h e = ground (arith, str_eq_iff s t)

abbrev text_eq : Eq String
text_eq = record { beq = str_eq; beq_iff = str_eq_iff }

abbrev at : ℕ → Datetime
at n = record { tz_aware = true; micros = n }

abbrev job : String → ℕ → JobRow String
job id n = record {
  job_id = id;
  job_type = "search";
  attempt = 1;
  state = queued;
  idempotency_key = id;
  payload = "query";
  available_at = at n;
  worker_id = none;
  lease_until = none;
  last_error = none;
  completed_at = none;
  created_at = at n;
  updated_at = at n;
}

abbrev unlocked : String → Bool
unlocked id = false

abbrev two_jobs : List (JobRow String)
two_jobs = job "a" 0 ∷ job "b" 1 ∷ []

-- What a claim of the job returns.
abbrev taken : String → String → ℕ → ℕ → JobRecord String
taken id w n now = record {
  execution =
      row_execution (claim_row w 60 (at now) (job id n))
        (some (record { job_id = id; worker_id = w; leased_until = add_seconds (at now) 60 }));
  payload = "query";
  available_at = at n;
  last_error = none;
}

abbrev a_taken : List (JobRow String)
a_taken = claim_row "worker-1" 60 (at 10) (job "a" 0) ∷ job "b" 1 ∷ []

abbrev both_taken : List (JobRow String)
both_taken =
    claim_row "worker-1" 60 (at 10) (job "a" 0) ∷ claim_row "worker-2" 60 (at 20) (job "b" 1) ∷ []

two_jobs-IsUnique : IsUnique two_jobs
unfolding get_row
two_jobs-IsUnique = (refl, (refl, tt))

first_claim :
    claim_next unlocked "worker-1" 60 (at 10) two_jobs
    ≡ ok (some (taken "a" "worker-1" 0 10), a_taken)
unfolding claim_next is_blank
first_claim = refl

second_claim :
    claim_next unlocked "worker-2" 60 (at 20) a_taken
    ≡ ok (some (taken "b" "worker-2" 1 20), both_taken)
unfolding claim_next is_blank
second_claim = refl

claims_exclusive_example :
    (taken "a" "worker-1" 0 10).execution.job_id ≢ (taken "b" "worker-2" 1 20).execution.job_id
claims_exclusive_example =
    claims_exclusive unlocked unlocked "worker-1" "worker-2" 60 60 (at 10) (at 20) two_jobs a_taken
      both_taken (taken "a" "worker-1" 0 10) (taken "b" "worker-2" 1 20) two_jobs-IsUnique
      first_claim second_claim (omega arith)

claim_next-Takes_example :
    (c : JobRow String) × Takes unlocked "worker-1" 60
      (at 10)
      two_jobs
      a_taken
      (taken "a" "worker-1" 0 10)
      c
claim_next-Takes_example =
    claim_next-Takes unlocked "worker-1" 60 (at 10) two_jobs a_taken (taken "a" "worker-1" 0 10)
      two_jobs-IsUnique first_claim

a_taken-IsUnique : IsUnique a_taken
unfolding get_row
a_taken-IsUnique = (refl, (refl, tt))

both_taken-IsUnique : IsUnique both_taken
unfolding get_row
both_taken-IsUnique = (refl, (refl, tt))

third_claim : claim_next unlocked "worker-3" 60 (at 30) both_taken ≡ ok (none, both_taken)
unfolding claim_next is_blank
third_claim = refl

claim_next-none_example :
    (both_taken ≡ both_taken)
    × (is_candidate unlocked (at 30) (claim_row "worker-2" 60 (at 20) (job "b" 1)) ≡ false)
claim_next-none_example =
    claim_next-none unlocked "worker-3" 60 (at 30) both_taken both_taken
      (claim_row "worker-2" 60 (at 20) (job "b" 1)) both_taken-IsUnique third_claim (inr (inl refl))

worker_named : is_blank "worker-1" ≡ false
unfolding is_blank
worker_named = refl

error_named : is_blank "boom" ≡ false
unfolding is_blank
error_named = refl

workers_differ : ◌≢◌ {A = String} "worker-1" "worker-2"
workers_differ = different "worker-1" "worker-2" refl

unheld : is_held "b" "worker-1" (at 30) (claim_row "worker-2" 60 (at 20) (job "b" 1)) ≡ false
unfolding is_held
unheld = refl

b_stored : get_row "b" both_taken ≡ some (claim_row "worker-2" 60 (at 20) (job "b" 1))
unfolding get_row
b_stored = refl

stale_worker_rejected_example :
    (renew "b" "worker-1" 60 (at 30) both_taken
      ≡ err (integrity_violation "job lease renewal rejected: missing or expired lease"))
    × (complete "b" "worker-1" (at 30) both_taken
        ≡ err (integrity_violation "job completion rejected: missing or expired lease"))
    × (fail "b" "worker-1" true "boom" (at 40) (at 30) both_taken
        ≡ err (integrity_violation "job failure rejected: missing or expired lease"))
stale_worker_rejected_example =
    stale_worker_rejected unlocked "worker-1" "worker-2" 60 60 true "boom" (at 20) (at 40) (at 30)
      a_taken both_taken (taken "b" "worker-2" 1 20) a_taken-IsUnique second_claim workers_differ
      worker_named error_named (omega arith) refl

a_stored : get_row "a" a_taken ≡ some (claim_row "worker-1" 60 (at 10) (job "a" 0))
unfolding get_row
a_stored = refl

a_held : is_held "a" "worker-1" (at 30) (claim_row "worker-1" 60 (at 10) (job "a" 0)) ≡ true
unfolding is_held
a_held = refl

a-IsSound : IsSound (claim_row "worker-1" 60 (at 10) (job "a" 0))
unfolding is_blank
a-IsSound = record {
  has_job_id = refl;
  has_type = refl;
  has_key = refl;
  has_attempt = omega arith;
  zoned = refl;
}

abbrev a_done : JobRow String
a_done = complete_row (at 30) (claim_row "worker-1" 60 (at 10) (job "a" 0))

abbrev after_done : List (JobRow String)
after_done = map (at_where (is_held "a" "worker-1" (at 30)) (complete_row (at 30))) a_taken

abbrev one_done : List (JobRow String)
one_done = a_done ∷ job "b" 1 ∷ []

one_done-IsUnique : IsUnique one_done
unfolding get_row
one_done-IsUnique = (refl, (refl, tt))

abbrev attempts : List (JobOp String)
attempts =
    fails "a" "worker-1" true "boom" (at 40) (at 40)
    ∷ claims unlocked "worker-3" 60 (at 50)
    ∷ completes "a" "worker-1" (at 60)
    ∷ []

run_ended_example :
    IsUnique (run text_eq attempts one_done)
    × ((id : String) (r : JobRow String)
        → get_row id one_done ≡ some r
        → is_ended r.state ≡ true
        → get_row id (run text_eq attempts one_done) ≡ some r)
run_ended_example = run_ended text_eq attempts one_done one_done-IsUnique
