-- ===== src/Platform/JobTable/Fencing.antt =====
-- `renew`, `complete` and `fail` act only for the worker that holds a live lease, and every
-- operation leaves finished rows alone.
use shema_business_platform.Prelude.{
  ℕ, ◌<◌, ◌≡◌, ◌≢◌, ◌∙◌, ap, Bool, true, false, none, some, List, String, Datetime,
  integrity_violation, ok, err, str_eq_iff, is_blank, arith,
}
use shema_business_platform.Platform.JobRows.{JobRow, JobRecord, first_where, get_row}
use shema_business_platform.Platform.JobTable.{
  is_held, claim_next, claim_row, renew, complete, fail,
}
use shema_business_platform.Platform.JobTable.Claim.{claim_next-Takes}
use shema_business_platform.Platform.JobTable.Update.{IsUnique, passes, first_where-get_row}

module _ {P : Type 0} where
  pub held_id :
      (id w : String) (now : Datetime) (r : JobRow P) → is_held id w now r ≡ true → r.job_id ≡ id
  unfolding is_held
  held_id id w now r h = ground (arith, str_eq_iff r.job_id id)

  -- The statement finds the row of the job if it is held, and no row otherwise.
  pub first_held :
      (id w : String) (now : Datetime) (rows : List (JobRow P))
      → IsUnique rows
      → first_where (is_held id w now) rows ≡ passes (is_held id w now) (get_row id rows)
  first_held id w now rows u = first_where-get_row (is_held id w now) id rows (held_id id w now) u

  -- A worker that does not hold a live lease on the job can neither renew, complete nor fail it:
  -- with arguments that pass the checks, each call raises `IntegrityViolation`.
  pub unheld_rejected :
      (id w : String) (secs : ℕ) (retryable : Bool) (error : String) (available_at now : Datetime)
      (rows : List (JobRow P)) (r : JobRow P)
      → IsUnique rows
      → get_row id rows ≡ some r
      → is_held id w now r ≡ false
      → is_blank w ≡ false
      → is_blank error ≡ false
      → 0 < secs
      → now.tz_aware ≡ true
      → (renew id w secs now rows
          ≡ err (integrity_violation "job lease renewal rejected: missing or expired lease"))
        × (complete id w now rows
            ≡ err (integrity_violation "job completion rejected: missing or expired lease"))
        × (fail id w retryable error available_at now rows
            ≡ err (integrity_violation "job failure rejected: missing or expired lease"))
  unfolding renew complete fail
  unheld_rejected id w secs retryable error available_at now rows r u there unheld bw be pos aware =
      let none_found : first_where (is_held id w now) rows ≡ none =
        first_held id w now rows u ∙ ap (passes (is_held id w now)) there ∙ rw unheld in
      (ground arith, ground arith, ground arith)

  not_worker :
      (id w w' : String) (secs : ℕ) (t now : Datetime) (c : JobRow P)
      → w ≢ w'
      → is_held id w now (claim_row w' secs t c) ≡ false
  unfolding is_held
  not_worker id w w' secs t now c ne = ground (arith, str_eq_iff w' w)

  -- Fencing: once another worker has claimed a job, an earlier worker can no longer renew,
  -- complete or fail it, at any time: with arguments that pass the checks each call raises
  -- `IntegrityViolation`.
  pub stale_worker_rejected :
      (locked : String → Bool) (w w' : String) (secs secs' : ℕ) (retryable : Bool) (error : String)
      (t available_at now : Datetime) (rows rows' : List (JobRow P)) (j : JobRecord P)
      → IsUnique rows
      → claim_next locked w' secs' t rows ≡ ok (some j, rows')
      → w ≢ w'
      → is_blank w ≡ false
      → is_blank error ≡ false
      → 0 < secs
      → now.tz_aware ≡ true
      → let id = j.execution.job_id in
        (renew id w secs now rows'
          ≡ err (integrity_violation "job lease renewal rejected: missing or expired lease"))
        × (complete id w now rows'
            ≡ err (integrity_violation "job completion rejected: missing or expired lease"))
        × (fail id w retryable error available_at now rows'
            ≡ err (integrity_violation "job failure rejected: missing or expired lease"))
  stale_worker_rejected locked w w' secs secs' retryable error t available_at now rows rows' j u h
        ne bw be pos aware =
      let (c, took) = claim_next-Takes locked w' secs' t rows rows' j u h in
      let id = j.execution.job_id in
      unheld_rejected id w secs retryable error available_at now rows' (claim_row w' secs' t c)
        took.still_unique (ap (λ k. get_row k rows') took.same_id ∙ took.claimed)
        (not_worker id w w' secs' t now c ne) bw be pos aware
