-- ===== src/Application/JobRunner/Recorded.antt =====
-- What a run that is recorded has stored: the row of the job, the event and the audit record.
use mathlib.Core.Path.{subst₂}
use shema_business_platform.Prelude.{
  ℕ, ◌<◌, ◌≤◌, ◌≡◌, ◌⊎◌, ◌∙◌, ap, sym, subst, inl, inr, Bool, true, false, Option, none, some, List,
  String, refl, ◌≢◌, In, if◌then◌else◌, Datetime, ok, Result-cases, arith,
}
use shema_business_platform.Foundation.Recovery.{RetryPolicy}
use shema_business_platform.Foundation.Jobs.{succeeded, retryable_failure, failed}
use shema_business_platform.Platform.JobRows.{JobRecord, JobRow, get_row}
use shema_business_platform.Platform.JobTable.{is_held}
use shema_business_platform.Platform.JobTable.Update.{IsUnique}
use shema_business_platform.Platform.JobTable.Settled.{complete-Stores, fail-Stores}
use shema_business_platform.Platform.JobTable
use shema_business_platform.Platform.AuditTable.{AuditRecord, new_audit}
use shema_business_platform.Platform.AuditTable
use shema_business_platform.Platform.OutboxTable
use shema_business_platform.Platform.OutboxTable.Append.{IsStored, append-IsStored, append-In}
use shema_business_platform.Foundation.Outbox.{OutboxEvent}
use shema_business_platform.Platform.Transaction.{Tx, pure, ◌>>=◌, ◌>>◌, transaction, >>=-ok}
use shema_business_platform.Application.JobEvents.{
  Db, JobPayload, JobNote, completion_event, completion_audit, failure_event, failure_audit,
  state_value, JobRunResult, Runner,
}
use shema_business_platform.Application.JobRunner.{
  run_result, retry_plan, on_jobs, append_event, append_audit, complete_body, failure_body,
  record_failure, record_success,
}
use shema_business_platform.Application.JobRunner.Recording.{after_delay}

-- The plan of a failed attempt: again after the delay, or never.
abbrev pub IsPlan : RetryPolicy → ℕ → Bool → Datetime → Bool × Datetime → Type 0
IsPlan p attempt retryable now plan =
    ((retryable ≡ true) × (attempt < p.max_attempts) × (plan ≡ (true, after_delay p attempt now)))
    ⊎ (((retryable ≡ false) ⊎ (p.max_attempts ≤ attempt)) × (plan ≡ (false, now)))

retry_plan-IsPlan :
    (p : RetryPolicy) (attempt : ℕ) (retryable : Bool) (now : Datetime) (plan : Bool × Datetime)
    → retry_plan p attempt retryable now ≡ ok plan
    → IsPlan p attempt retryable now plan
unfolding retry_plan
retry_plan-IsPlan p attempt retryable now plan h = ground arith

plan_time :
    (p : RetryPolicy) (attempt : ℕ) (retryable : Bool) (now : Datetime) (plan : Bool × Datetime)
    → IsPlan p attempt retryable now plan
    → plan.0 ≡ false
    → plan.1 ≡ now
plan_time p attempt retryable now plan (inl (_, _, e)) never = cc (e, never)
plan_time p attempt retryable now plan (inr (_, e)) never = ap (λ (x : Bool × Datetime). x.1) e

module _ {P : Type 0} where
  -- The row of a job that has succeeded at `now`.
  abbrev pub finished_row : Datetime → JobRow P → JobRow P
  finished_row now row = record row {
    state = succeeded;
    worker_id = none;
    lease_until = none;
    completed_at = some now;
    updated_at = now;
  }

  -- The row of a job that is to be tried again at `at`.
  abbrev pub retried_row : String → Datetime → Datetime → JobRow P → JobRow P
  retried_row error at now row = record row {
    state = retryable_failure;
    worker_id = none;
    lease_until = none;
    last_error = some error;
    available_at = at;
    completed_at = none;
    updated_at = now;
  }

  -- The row of a job that has failed for good at `now`.
  abbrev pub given_up_row : String → Datetime → JobRow P → JobRow P
  given_up_row error now row = record row {
    state = failed;
    worker_id = none;
    lease_until = none;
    last_error = some error;
    available_at = now;
    completed_at = some now;
    updated_at = now;
  }

  failed_row_as_planned :
      (error : String) (now : Datetime) (plan : Bool × Datetime) (row : JobRow P)
      → (plan.0 ≡ false → plan.1 ≡ now)
      → ◌≡◌ {A = Option (JobRow P)}
          (some (JobTable.fail_row plan.0 error plan.1 now row))
          (some (if plan.0 then retried_row error plan.1 now row else given_up_row error now row))
  failed_row_as_planned error now (true, at) row h = refl
  failed_row_as_planned error now (false, at) row h =
      ap (λ (t : Datetime). some (JobTable.fail_row false error t now row)) (h refl)

module _ {P O : Type 0} where
  on_jobs-ok :
      {A : Type 0} (m : Tx (List (JobRow P)) A) (db db' : Db P O) (a : A)
      → on_jobs m db ≡ ok (a, db')
      → (m db.jobs ≡ ok (a, db'.jobs)) × (db'.outbox ≡ db.outbox) × (db'.audits ≡ db.audits)
  unfolding on_jobs
  on_jobs-ok m db db' a h = ground arith

  append_event-ok :
      (c : Runner P O) (e : OutboxEvent (JobPayload O)) (db db' : Db P O)
      → append_event c.same_payload e db ≡ ok (tt, db')
      → IsStored e db'.outbox × (db'.jobs ≡ db.jobs)
  append_event-ok c e db db' h =
      elim (Result-cases (OutboxTable.append c.same_payload e db.outbox)) [
        | inl ((e', rows), done) ↦
            let same : rows ≡ db'.outbox = unfold append_event in ground arith in
            (
              subst (IsStored e) same (append-IsStored c.same_payload e e' db.outbox rows done),
              unfold append_event in ground arith,
            )
        | inr (x, raised) ↦ absurd (unfold append_event in ground arith)
      ]

  append_audit-ok :
      (a : AuditRecord JobNote) (db db' : Db P O)
      → append_audit a db ≡ ok (tt, db')
      → In a db'.audits × (db'.jobs ≡ db.jobs) × (db'.outbox ≡ db.outbox)
  append_audit-ok a db db' h = elim (Result-cases (AuditTable.append a db.audits)) [
    | inl ((_, rows), done) ↦
        let same : rows ≡ db'.audits = unfold append_audit new_audit in ground arith in
        (
          subst (In a) same (append-In a db.audits rows done),
          unfold append_audit new_audit in ground arith,
          unfold append_audit new_audit in ground arith,
        )
    | inr (x, raised) ↦ absurd (unfold append_audit new_audit in ground arith)
  ]

  success_ran :
      (c : Runner P O) (j : JobRecord P) (output : Option O) (now : Datetime) (db db' : Db P O)
      (r : JobRunResult O)
      → record_success c j output now db ≡ (ok r, db')
      → (f : JobRecord P) × (complete_body c j.execution.job_id c.worker_id now output db
          ≡ ok (f, db'))
        × (r ≡ run_result f output none)
  success_ran c j output now db db' r h =
      elim (Result-cases (complete_body c j.execution.job_id c.worker_id now output db)) [
        | inl ((f, d), done) ↦ (
          f,
          unfold record_success transaction in ground arith,
          unfold record_success transaction in ground arith,
        )
        | inr (x, raised) ↦ absurd (unfold record_success transaction in ground arith)
      ]

  -- A statement on the jobs, then the event and the audit record that it determines.
  abbrev recorded_step :
      Runner P O
      → Tx (List (JobRow P)) (JobRecord P)
      → (JobRecord P → OutboxEvent (JobPayload O))
      → (JobRecord P → AuditRecord JobNote)
      → Tx (Db P O) (JobRecord P)
  recorded_step c m e a =
      on_jobs m >>= λ x. append_event c.same_payload (e x) >> (append_audit (a x) >> pure x)

  recorded_step-ok :
      (c : Runner P O) (m : Tx (List (JobRow P)) (JobRecord P))
      (e : JobRecord P → OutboxEvent (JobPayload O)) (a : JobRecord P → AuditRecord JobNote)
      (db db' : Db P O) (f : JobRecord P)
      → recorded_step c m e a db ≡ ok (f, db')
      → (m db.jobs ≡ ok (f, db'.jobs)) × IsStored (e f) db'.outbox × In (a f) db'.audits
  recorded_step-ok c m e a db db' f h =
      let (g, d₁, ran, rest) =
        >>=-ok (on_jobs m)
          (λ x. append_event c.same_payload (e x) >> (append_audit (a x) >> pure x)) db db' f h in
      let (_, d₂, stored, rest') =
        >>=-ok (append_event c.same_payload (e g)) (λ _. append_audit (a g) >> pure g) d₁ db' f
          rest in
      let (_, d₃, audited, last) = >>=-ok (append_audit (a g)) (λ _. pure g) d₂ db' f rest' in
      let (jobs₁, _, _) = on_jobs-ok m db d₁ g ran in
      let (there, jobs₂) = append_event-ok c (e g) d₁ d₂ stored in
      let (noted, jobs₃, outbox₃) = append_audit-ok (a g) d₂ d₃ audited in
      let same : g ≡ f = cc in
      let final : d₃ ≡ db' = cc in
      subst₂ (λ x d. (m db.jobs ≡ ok (x, d.jobs)) × IsStored (e x) d.outbox × In (a x) d.audits)
        same final
        (
          subst (λ js. m db.jobs ≡ ok (g, js)) (sym (jobs₃ ∙ jobs₂)) jobs₁,
          subst (IsStored (e g)) (sym outbox₃) there,
          noted,
        )

  -- A success that is recorded, on a table whose job ids are unique: the worker held the live lease
  -- on the job, and in one transaction the row of the job became that of a succeeded job, without
  -- lease and ended now, no other job changed, and the event `job.completed` with the job's output and
  -- the audit record were stored; the caller is told that the job succeeded, with its output.
  pub success_recorded :
      (c : Runner P O) (j : JobRecord P) (output : Option O) (now : Datetime) (db db' : Db P O)
      (r : JobRunResult O)
      → IsUnique db.jobs
      → record_success c j output now db ≡ (ok r, db')
      → let id = j.execution.job_id in
        (f : JobRecord P) × (row : JobRow P) × (get_row id db.jobs ≡ some row)
        × (is_held id c.worker_id now row ≡ true)
        × (get_row id db'.jobs ≡ some (finished_row now row))
        × ((k : String) → k ≢ id → get_row k db'.jobs ≡ get_row k db.jobs)
        × IsStored (completion_event c f id output now) db'.outbox
        × In (completion_audit c f id c.worker_id now) db'.audits
        × (f.execution.state ≡ succeeded)
        × (r.state ≡ succeeded)
        × (r.output ≡ output)
  success_recorded c j output now db db' r u h =
      let id = j.execution.job_id in
      let (f, ran, shown) = success_ran c j output now db db' r h in
      let (done, stored, noted) =
        recorded_step-ok c (JobTable.complete id c.worker_id now)
          (λ x. completion_event c x id output now) (λ x. completion_audit c x id c.worker_id now)
          db db' f (unfold complete_body in ran) in
      let (row, (there, held, ended, others), state) =
        complete-Stores id c.worker_id now db.jobs db'.jobs f u done in
      (
        f,
        row,
        there,
        held,
        ended,
        others,
        stored,
        noted,
        state,
        ap (λ (x : JobRunResult O). x.state) shown ∙ state,
        ap (λ (x : JobRunResult O). x.output) shown,
      )

  failure_ran :
      (c : Runner P O) (j : JobRecord P) (error : String) (retryable : Bool) (now : Datetime)
      (db db' : Db P O) (r : JobRunResult O)
      → record_failure c j error retryable now db ≡ (ok r, db')
      → (f : JobRecord P) × (plan : Bool × Datetime) × (retry_plan c.retry_policy
            j.execution.attempt retryable now
          ≡ ok plan)
        × (failure_body c j error plan.0 plan.1 now db ≡ ok (f, db'))
        × (r ≡ run_result f none (some error))
  failure_ran c j error retryable now db db' r h =
      elim (Result-cases (retry_plan c.retry_policy j.execution.attempt retryable now)) [
        | inl ((again, at), planned) ↦
            elim (Result-cases (failure_body c j error again at now db)) [
              | inl ((f, d), done) ↦ (
                f,
                (again, at),
                planned,
                unfold record_failure transaction in ground arith,
                unfold record_failure transaction in ground arith,
              )
              | inr (x, raised) ↦ absurd (unfold record_failure transaction in ground arith)
            ]
        | inr (x, refused) ↦ absurd (unfold record_failure transaction in ground arith)
      ]

  -- A failure that is recorded, on a table whose job ids are unique: the worker held the live lease
  -- on the job, and in one transaction the row of the job, without lease and with the error, became
  -- one to be tried again after the delay where the failure is retryable and the attempt is below the
  -- policy's limit, and one that has failed for good otherwise; no other job changed, and the event and
  -- the audit record that state it were stored. The caller is told the stored state.
  pub failure_recorded :
      (c : Runner P O) (j : JobRecord P) (error : String) (retryable : Bool) (now : Datetime)
      (db db' : Db P O) (r : JobRunResult O)
      → IsUnique db.jobs
      → record_failure c j error retryable now db ≡ (ok r, db')
      → let id = j.execution.job_id in
        let attempt = j.execution.attempt in
        (f : JobRecord P) × (row : JobRow P) × (plan : Bool × Datetime) × (get_row id db.jobs
          ≡ some row)
        × (is_held id c.worker_id now row ≡ true)
        × IsPlan c.retry_policy attempt retryable now plan
        × (get_row id db'.jobs
            ≡ some
                (if plan.0 then retried_row error plan.1 now row else given_up_row error now row))
        × ((k : String) → k ≢ id → get_row k db'.jobs ≡ get_row k db.jobs)
        × IsStored (failure_event c j f.execution.state error plan.1 now) db'.outbox
        × In (failure_audit c j (state_value f.execution.state) error now) db'.audits
        × (f.execution.state ≡ (if plan.0 then retryable_failure else failed))
        × (r.state ≡ f.execution.state)
  failure_recorded c j error retryable now db db' r u h =
      let id = j.execution.job_id in
      let (f, plan, planned, ran, shown) = failure_ran c j error retryable now db db' r h in
      let (done, stored, noted) =
        recorded_step-ok c (JobTable.fail id c.worker_id plan.0 error plan.1 now)
          (λ x. failure_event c j x.execution.state error plan.1 now)
          (λ x. failure_audit c j (state_value x.execution.state) error now) db db' f
          (unfold failure_body in ran) in
      let (row, (there, held, ended, others), state) =
        fail-Stores id c.worker_id plan.0 error plan.1 now db.jobs db'.jobs f u done in
      let is_plan =
        retry_plan-IsPlan c.retry_policy j.execution.attempt retryable now plan planned in
      (
        f,
        row,
        plan,
        there,
        held,
        is_plan,
        ended
            ∙ failed_row_as_planned error now plan row
                (plan_time c.retry_policy j.execution.attempt retryable now plan is_plan),
        others,
        stored,
        noted,
        state,
        ap (λ (x : JobRunResult O). x.state) shown,
      )
