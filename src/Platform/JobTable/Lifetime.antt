-- ===== src/Platform/JobTable/Lifetime.antt =====
-- Any sequence of transactions on the table: job ids stay unique, and a job that has ended stays
-- as it ended.
use mathlib.Core.Option.{some-injective}
use shema_business_platform.Prelude.{
  ℕ, ◌≡◌, refl, ◌⊎◌, ◌∙◌, sym, ap, subst, inl, inr, Bool, true, false, Option, none, some, List, [],
  ◌∷◌, ◌++◌, map, String, Datetime, Eq, Result, ok, str_eq, str_eq_iff, Bool-cases, Option-cases,
  Result-cases, arith, if◌then◌else◌,
}
use shema_business_platform.Foundation.Jobs.{JobState, succeeded, failed, cancelled}
use shema_business_platform.Platform.Transaction.{transaction}
use shema_business_platform.Platform.JobRows.{JobRow, JobRecord, get_row, row_of}
use shema_business_platform.Platform.JobTable.{
  is_due, is_held, claim_next, renew, renew_row, complete, complete_row, fail, fail_row, enqueue,
}
use shema_business_platform.Platform.JobTable.Update.{
  IsUnique, KeepsId, at_where, get_row-map, map-IsUnique,
}
use shema_business_platform.Platform.JobTable.Claim.{claim_next-Takes, to_record_reads, nothing_due}

abbrev pub is_ended : JobState → Bool
is_ended succeeded = true
is_ended failed = true
is_ended cancelled = true
is_ended _ = false

-- A transaction on the table, by any worker at any time.
pub data JobOp (P : Type 0) : Type 0 where
  enqueues : Datetime → JobRecord P → JobOp P
  claims : (String → Bool) → String → ℕ → Datetime → JobOp P
  renews : String → String → ℕ → Datetime → JobOp P
  completes : String → String → Datetime → JobOp P
  fails : String → String → Bool → String → Datetime → Datetime → JobOp P

module _ {P : Type 0} (q : Eq P) where
  -- The table after the transaction has committed or rolled back.
  unfoldable pub perform : JobOp P → List (JobRow P) → List (JobRow P)
  unfolding transaction
  perform (enqueues created r) rows = (transaction (enqueue q created r) rows).1
  perform (claims locked w secs now) rows = (transaction (claim_next locked w secs now) rows).1
  perform (renews id w secs now) rows = (transaction (renew id w secs now) rows).1
  perform (completes id w now) rows = (transaction (complete id w now) rows).1
  perform (fails id w retryable error at now) rows =
      (transaction (fail id w retryable error at now) rows).1

  unfoldable pub run : List (JobOp P) → List (JobRow P) → List (JobRow P)
  unfolding perform
  run [] rows = rows
  run (op ∷ ops) rows = run ops (perform op rows)

-- What one transaction guarantees for the table `rows'` that it leaves.
module _ {P : Type 0} where
  pub record Keeps (rows rows' : List (JobRow P)) : Type 0 where
    pub unique : IsUnique rows'
    pub ended :
        (id : String) (r : JobRow P)
        → get_row id rows ≡ some r
        → is_ended r.state ≡ true
        → get_row id rows' ≡ some r

  Keeps-refl : (rows : List (JobRow P)) → IsUnique rows → Keeps rows rows
  Keeps-refl rows u = record { unique = u; ended = λ id r there e. there }

  held_alive :
      (id w : String) (now : Datetime) (r : JobRow P)
      → is_ended r.state ≡ true
      → is_held id w now r ≡ false
  unfolding is_held
  held_alive id w now r e = ground arith

  map-Keeps :
      (id w : String) (now : Datetime) (f : JobRow P → JobRow P) (rows : List (JobRow P))
      → KeepsId f
      → IsUnique rows
      → Keeps rows (map (at_where (is_held id w now) f) rows)
  map-Keeps id w now f rows k u = record {
    unique = map-IsUnique (is_held id w now) f rows k u;
    ended = λ j r there e.
        get_row-map (is_held id w now) f j rows k ∙ rw there (rw (held_alive id w now r e));
  }

  ended_not_due :
      (now : Datetime) (r c : JobRow P) → is_ended r.state ≡ true → is_due now c ≡ true → r ≡ c → ⊥
  unfolding is_due
  ended_not_due now r c e due same = ground arith

  -- A transaction keeps the guarantees if it does so when it commits.
  transaction-Keeps :
      {A : Type 0} (m : List (JobRow P) → Result (A × List (JobRow P))) (rows : List (JobRow P))
      → IsUnique rows
      → ((a : A) (rows' : List (JobRow P)) → m rows ≡ ok (a, rows') → Keeps rows rows')
      → Keeps rows (transaction m rows).1
  unfolding transaction
  transaction-Keeps m rows u good = elim (Result-cases (m rows)) [
    | inl ((a, rows'), done) ↦ rw (done, transaction) (good a rows' done)
    | inr (e, raised) ↦ rw (raised, transaction) (Keeps-refl rows u)
  ]

  claim-Keeps :
      (locked : String → Bool) (w : String) (secs : ℕ) (now : Datetime)
      (rows rows' : List (JobRow P)) (o : Option (JobRecord P))
      → IsUnique rows
      → claim_next locked w secs now rows ≡ ok (o, rows')
      → Keeps rows rows'
  claim-Keeps locked w secs now rows rows' none u h =
      subst (Keeps rows) (sym (nothing_due locked w secs now rows rows' u h).0) (Keeps-refl rows u)
  claim-Keeps locked w secs now rows rows' (some j) u h =
      let (c, took) = claim_next-Takes locked w secs now rows rows' j u h in
      record {
        unique = took.still_unique;
        ended = λ id r there e. elim (Bool-cases (str_eq id c.job_id)) [
          | inl same ↦ absurd (
              ended_not_due now r c e took.due (
                some-injective _ _ (
                  sym there
                  ∙ ap (λ k. get_row k rows) ((str_eq_iff id c.job_id).0 same)
                  ∙ took.stored)))
          | inr other ↦ took.others id (λ p. cc (other, (str_eq_iff id c.job_id).1 p)) ∙ there
        ];
      }

  held-Keeps :
      (id w : String) (now : Datetime) (f : JobRow P → JobRow P) (rows rows' : List (JobRow P))
      → KeepsId f
      → IsUnique rows
      → rows' ≡ map (at_where (is_held id w now) f) rows
      → Keeps rows rows'
  held-Keeps id w now f rows rows' k u e =
      subst (Keeps rows) (sym e) (map-Keeps id w now f rows k u)

  renew_rows :
      (id w : String) (secs : ℕ) (now : Datetime) (rows rows' : List (JobRow P)) (j : JobRecord P)
      → renew id w secs now rows ≡ ok (j, rows')
      → rows' ≡ map (at_where (is_held id w now) (renew_row secs now)) rows
  unfolding renew
  renew_rows id w secs now rows rows' j h = ground arith

  complete_rows :
      (id w : String) (now : Datetime) (rows rows' : List (JobRow P)) (j : JobRecord P)
      → complete id w now rows ≡ ok (j, rows')
      → rows' ≡ map (at_where (is_held id w now) (complete_row now)) rows
  unfolding complete
  complete_rows id w now rows rows' j h = ground arith

  fail_rows :
      (id w : String) (retryable : Bool) (error : String) (at now : Datetime)
      (rows rows' : List (JobRow P)) (j : JobRecord P)
      → fail id w retryable error at now rows ≡ ok (j, rows')
      → rows' ≡ map (at_where (is_held id w now) (fail_row retryable error at now)) rows
  unfolding fail
  fail_rows id w retryable error at now rows rows' j h = ground arith

  enqueue_rows :
      (q : Eq P) (created : Datetime) (r j : JobRecord P) (rows rows' : List (JobRow P))
      → enqueue q created r rows ≡ ok (j, rows')
      → (rows' ≡ rows)
        ⊎ ((rows' ≡ rows ++ row_of created r ∷ []) × (get_row r.execution.job_id rows ≡ none))
  unfolding enqueue
  enqueue_rows q created r j rows rows' h = elim (Option-cases (get_row r.execution.job_id rows)) [
    | inl fresh ↦ inr (
      ground (arith, to_record_reads (row_of created r) (rows ++ row_of created r ∷ []) rows' j),
      fresh,
    )
    | inr (old, there) ↦ inl (ground arith)
  ]

  get_row-append :
      (id : String) (rows : List (JobRow P)) (x : JobRow P)
      → get_row id (rows ++ x ∷ []) ≡ (elim (get_row id rows) [
        | none ↦ (if str_eq x.job_id id then some x else none)
        | some r ↦ some r
      ])
  unfolding get_row
  get_row-append id [] x = refl
  get_row-append id (r ∷ rs) x = ground (arith, get_row-append id rs x)

  append-IsUnique :
      (rows : List (JobRow P)) (x : JobRow P)
      → IsUnique rows
      → get_row x.job_id rows ≡ none
      → IsUnique (rows ++ x ∷ [])
  unfolding get_row
  append-IsUnique [] x u fresh = (refl, tt)
  append-IsUnique (r ∷ rs) x u fresh = (
    ground (
      arith,
      get_row-append r.job_id rs x,
      str_eq_iff x.job_id r.job_id,
      str_eq_iff r.job_id x.job_id,
    ),
    append-IsUnique rs x u.1 (ground arith),
  )

  append-Keeps :
      (rows : List (JobRow P)) (x : JobRow P)
      → IsUnique rows
      → get_row x.job_id rows ≡ none
      → Keeps rows (rows ++ x ∷ [])
  append-Keeps rows x u fresh = record {
    unique = append-IsUnique rows x u fresh;
    ended = λ id r there e. get_row-append id rows x ∙ rw there;
  }

module _ {P : Type 0} (q : Eq P) where
  perform-Keeps :
      (op : JobOp P) (rows : List (JobRow P)) → IsUnique rows → Keeps rows (perform q op rows)
  unfolding perform
  perform-Keeps (enqueues created r) rows u =
      transaction-Keeps (enqueue q created r) rows u (λ j rows' h.
        elim (enqueue_rows q created r j rows rows' h) [
          | inl same ↦ subst (Keeps rows) (sym same) (Keeps-refl rows u)
          | inr (grown, fresh) ↦
              subst (Keeps rows) (sym grown) (append-Keeps rows (row_of created r) u fresh)
        ])
  perform-Keeps (claims locked w secs now) rows u =
      transaction-Keeps (claim_next locked w secs now) rows u
        (λ o rows' h. claim-Keeps locked w secs now rows rows' o u h)
  perform-Keeps (renews id w secs now) rows u =
      transaction-Keeps (renew id w secs now) rows u (λ j rows' h.
        held-Keeps id w now (renew_row secs now) rows rows' (λ r. refl) u
          (renew_rows id w secs now rows rows' j h))
  perform-Keeps (completes id w now) rows u =
      transaction-Keeps (complete id w now) rows u (λ j rows' h.
        held-Keeps id w now (complete_row now) rows rows' (λ r. refl) u
          (complete_rows id w now rows rows' j h))
  perform-Keeps (fails id w retryable error at now) rows u =
      transaction-Keeps (fail id w retryable error at now) rows u (λ j rows' h.
        held-Keeps id w now (fail_row retryable error at now) rows rows' (λ r. refl) u
          (fail_rows id w retryable error at now rows rows' j h))

  -- After any sequence of transactions, committed or rolled back, by any workers at any times, the
  -- job ids are still unique, and a job that had succeeded, failed or been cancelled before it has
  -- the same row.
  pub run_ended :
      (ops : List (JobOp P)) (rows : List (JobRow P))
      → IsUnique rows
      → IsUnique (run q ops rows)
        × ((id : String) (r : JobRow P)
            → get_row id rows ≡ some r
            → is_ended r.state ≡ true
            → get_row id (run q ops rows) ≡ some r)
  unfolding run
  run_ended [] rows u = (u, λ id r there e. there)
  run_ended (op ∷ ops) rows u =
      let k = perform-Keeps op rows u in
      let rest = run_ended ops (perform q op rows) k.unique in
      (rest.0, λ id r there e. rest.1 id r (k.ended id r there e) e)
