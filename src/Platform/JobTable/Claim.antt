-- ===== src/Platform/JobTable/Claim.antt =====
-- `claim_next`: which row it takes, and when it takes none.
use mathlib.Core.Option.{some-injective}
use shema_business_platform.Prelude.{
  ℕ, ◌≤◌, ◌<◌, ◌≡◌, refl, ◌≢◌, ◌⊎◌, ◌+◌, ◌∙◌, sym, ap, subst, inl, inr, Bool, true, false, none,
  some, List, [], ◌∷◌, map, String, Datetime, add_seconds, ok, In, In-keep, keep, str_eq_iff,
  Bool-cases, Option-cases, arith,
}
use shema_business_platform.Foundation.Jobs.{queued, running}
use shema_business_platform.Platform.JobRows.{JobRow, JobRecord, get_row, has_id, to_record}
use shema_business_platform.Platform.JobTable.{
  row_le, first_row, earlier, is_due, is_candidate, claim_row, claim_next,
}
use shema_business_platform.Platform.JobTable.Update.{
  IsUnique, at_where, get_row-map, get_row-map_ne, map-IsUnique, In-get_row,
}

module _ {P : Type 0} where
  first_row-In : (rs : List (JobRow P)) (c : JobRow P) → first_row rs ≡ some c → In c rs
  unfolding first_row
  first_row-In [] c h = cc
  first_row-In (r ∷ rs) c h = ground (arith, first_row-In rs c)

  first_row-none : (rs : List (JobRow P)) → first_row rs ≡ none → rs ≡ []
  unfolding first_row
  first_row-none [] h = refl
  first_row-none (r ∷ rs) h = cc

  earlier_first :
      (x y : JobRow P)
      → let z = earlier x (some y) in
        (z.available_at.micros ≤ x.available_at.micros)
        × (z.available_at.micros ≤ y.available_at.micros)
  unfolding row_le
  earlier_first x y = ground arith

  first_row_earliest :
      (rs : List (JobRow P)) (c r : JobRow P)
      → first_row rs ≡ some c
      → In r rs
      → c.available_at.micros ≤ r.available_at.micros
  unfolding first_row
  first_row_earliest [] c r h m = absurd m
  first_row_earliest (x ∷ xs) c r h (inl e) = elim (Option-cases (first_row xs)) [
    | inl end ↦ ground arith
    | inr (y, more) ↦ ground (arith, earlier_first x y)
  ]
  first_row_earliest (x ∷ xs) c r h (inr m) = elim (Option-cases (first_row xs)) [
    | inl end ↦ absurd (subst (In r) (first_row-none xs end) m)
    | inr (y, more) ↦ ground (arith, earlier_first x y, first_row_earliest xs y r more m)
  ]

  pub to_record_reads :
      (r : JobRow P) (rows rows' : List (JobRow P)) (j : JobRecord P)
      → to_record r rows ≡ ok (j, rows')
      → (rows' ≡ rows)
        × (j.execution.job_id ≡ r.job_id)
        × (j.execution.attempt ≡ r.attempt)
        × (j.execution.state ≡ r.state)
  unfolding to_record
  to_record_reads r rows rows' j h = ground arith

  abbrev pub candidates : (String → Bool) → Datetime → List (JobRow P) → List (JobRow P)
  candidates locked now rows = keep (is_candidate locked now) rows

  claimed_rows :
      (w : String) (secs : ℕ) (now : Datetime) (c : JobRow P) → List (JobRow P) → List (JobRow P)
  claimed_rows w secs now c rows = map (at_where (has_id c.job_id) (claim_row w secs now)) rows

  -- What the statement of a claim that takes `c` has done.
  claim_statement :
      (locked : String → Bool) (w : String) (secs : ℕ) (now : Datetime)
      (rows rows' : List (JobRow P)) (j : JobRecord P) (c : JobRow P)
      → get_row c.job_id rows ≡ some c
      → first_row (candidates locked now rows) ≡ some c
      → claim_next locked w secs now rows ≡ ok (some j, rows')
      → (rows' ≡ claimed_rows w secs now c rows)
        × (j.execution.job_id ≡ c.job_id)
        × (j.execution.attempt ≡ (claim_row w secs now c).attempt)
        × (0 < secs)
  unfolding claim_next claimed_rows get_row
  claim_statement locked w secs now rows rows' j c there first h =
      ground
        (arith, to_record_reads (claim_row w secs now c) (claimed_rows w secs now c rows) rows' j)

  claim_nothing :
      (locked : String → Bool) (w : String) (secs : ℕ) (now : Datetime)
      (rows rows' : List (JobRow P)) (j : JobRecord P)
      → first_row (candidates locked now rows) ≡ none
      → claim_next locked w secs now rows ≡ ok (some j, rows')
      → ⊥
  unfolding claim_next
  claim_nothing locked w secs now rows rows' j empty h = ground arith

  pub nothing_due :
      (locked : String → Bool) (w : String) (secs : ℕ) (now : Datetime)
      (rows rows' : List (JobRow P))
      → IsUnique rows
      → claim_next locked w secs now rows ≡ ok (none, rows')
      → (rows' ≡ rows) × (first_row (candidates locked now rows) ≡ none)
  nothing_due locked w secs now rows rows' u h =
      elim (Option-cases (first_row (candidates locked now rows))) [
        | inl empty ↦ unfold claim_next in ground arith
        | inr (c, first) ↦
            let m =
              (In-keep (is_candidate locked now) rows).0
                (first_row-In (candidates locked now rows) c first) in
            let there = In-get_row c rows u m.0 in
            absurd (unfold claim_next get_row in ground arith)
      ]

  -- What a claim that takes the row `c` does to the table.
  pub record Takes (locked : String → Bool) (w : String) (secs : ℕ) (now : Datetime)
      (rows rows' : List (JobRow P)) (j : JobRecord P) (c : JobRow P) : Type 0 where
    pub stored : get_row c.job_id rows ≡ some c
    pub due : is_due now c ≡ true
    pub unlocked : locked c.job_id ≡ false
    pub earliest :
        (r : JobRow P)
        → In r rows
        → is_candidate locked now r ≡ true
        → c.available_at.micros ≤ r.available_at.micros
    pub claimed : get_row c.job_id rows' ≡ some (claim_row w secs now c)
    pub others : (id : String) → id ≢ c.job_id → get_row id rows' ≡ get_row id rows
    pub same_id : j.execution.job_id ≡ c.job_id
    pub same_attempt : j.execution.attempt ≡ (claim_row w secs now c).attempt
    pub leased :
        (r : JobRow P) × (get_row c.job_id rows' ≡ some r)
        × (r.state ≡ running)
        × (r.worker_id ≡ some w)
        × (r.lease_until ≡ some (add_seconds now secs))
        × (r.attempt ≡ j.execution.attempt)
        × (r.payload ≡ c.payload)
    pub first_try : c.state ≡ queued → c.attempt ≡ 1 → j.execution.attempt ≡ 1
    pub next_try : (c.state ≢ queued) ⊎ (c.attempt ≢ 1) → j.execution.attempt ≡ c.attempt + 1
    pub still_unique : IsUnique rows'
    pub lease_positive : 0 < secs

  get_claimed :
      (w : String) (secs : ℕ) (now : Datetime) (c : JobRow P) (rows : List (JobRow P))
      → get_row c.job_id rows ≡ some c
      → get_row c.job_id (claimed_rows w secs now c rows) ≡ some (claim_row w secs now c)
  unfolding claimed_rows
  get_claimed w secs now c rows there = ground (
    arith,
    str_eq_iff c.job_id c.job_id,
    get_row-map (has_id c.job_id) (claim_row w secs now) c.job_id rows (λ r. refl),
  )

  get_others :
      (w : String) (secs : ℕ) (now : Datetime) (c : JobRow P) (rows : List (JobRow P)) (id : String)
      → id ≢ c.job_id
      → get_row id (claimed_rows w secs now c rows) ≡ get_row id rows
  unfolding claimed_rows
  get_others w secs now c rows id ne =
      get_row-map_ne (has_id c.job_id) (claim_row w secs now) c.job_id id rows (λ r. refl)
        (λ r h. (str_eq_iff r.job_id c.job_id).0 h) ne

  next_attempt :
      (w : String) (secs : ℕ) (now : Datetime) (c : JobRow P)
      → (c.state ≢ queued) ⊎ (c.attempt ≢ 1)
      → (claim_row w secs now c).attempt ≡ c.attempt + 1
  next_attempt w secs now c later = ground arith

  -- A claim that returns a job has taken the row of that job: the row was due and not locked, and no
  -- candidate was available earlier. The row is now running, leased to the worker until the given
  -- seconds from now, with the attempt that is returned: one for the first run of a queued job, and
  -- otherwise one more than before. Every other row is as it was.
  pub claim_next-Takes :
      (locked : String → Bool) (w : String) (secs : ℕ) (now : Datetime)
      (rows rows' : List (JobRow P)) (j : JobRecord P)
      → IsUnique rows
      → claim_next locked w secs now rows ≡ ok (some j, rows')
      → (c : JobRow P) × Takes locked w secs now rows rows' j c
  claim_next-Takes locked w secs now rows rows' j u h =
      elim (Option-cases (first_row (candidates locked now rows))) [
        | inl empty ↦ absurd (claim_nothing locked w secs now rows rows' j empty h)
        | inr (c, first) ↦
            let m =
              (In-keep (is_candidate locked now) rows).0
                (first_row-In (candidates locked now rows) c first) in
            let there = In-get_row c rows u m.0 in
            let (e, id, att, pos) =
              claim_statement locked w secs now rows rows' j c there first h in
            (
              c,
              subst (λ rs. Takes locked w secs now rows rs j c) (sym e)
                  (record {
                    stored = there;
                    due = ground (arith, m.1);
                    unlocked = ground (arith, m.1);
                    earliest = λ r n k.
                        first_row_earliest (candidates locked now rows) c r first
                          ((In-keep (is_candidate locked now) rows).1 (n, k));
                    claimed = get_claimed w secs now c rows there;
                    others = get_others w secs now c rows;
                    same_id = id;
                    same_attempt = att;
                    leased = (
                      claim_row w secs now c,
                      get_claimed w secs now c rows there,
                      refl,
                      refl,
                      refl,
                      sym att,
                      refl,
                    );
                    first_try = λ q one. ground (arith, att);
                    next_try = λ later. att ∙ next_attempt w secs now c later;
                    still_unique =
                        unfold claimed_rows in
                        map-IsUnique (has_id c.job_id) (claim_row w secs now) rows (λ r. refl) u;
                    lease_positive = pos;
                  }),
            )
      ]

  -- A claim that returns nothing changed nothing, and no row was due and unlocked: work that is
  -- due is never passed over.
  pub claim_next-none :
      (locked : String → Bool) (w : String) (secs : ℕ) (now : Datetime)
      (rows rows' : List (JobRow P)) (r : JobRow P)
      → IsUnique rows
      → claim_next locked w secs now rows ≡ ok (none, rows')
      → In r rows
      → (rows' ≡ rows) × (is_candidate locked now r ≡ false)
  claim_next-none locked w secs now rows rows' r u h m =
      let (same, empty) = nothing_due locked w secs now rows rows' u h in
      let no_candidate = first_row-none (candidates locked now rows) empty in
      (
        same,
        elim (Bool-cases (is_candidate locked now r)) [
          | inl k ↦
              absurd (subst (In r) no_candidate ((In-keep (is_candidate locked now) rows).1 (m, k)))
          | inr k ↦ k
        ],
      )

  live_not_due :
      (w : String) (secs : ℕ) (now later : Datetime) (c : JobRow P)
      → later.micros < (add_seconds now secs).micros
      → is_due later (claim_row w secs now c) ≡ false
  unfolding is_due
  live_not_due w secs now later c lt = ground arith

  -- While the lease of a claim runs, no later claim on the table, by any worker, returns that job.
  pub claims_exclusive :
      (locked locked' : String → Bool) (w w' : String) (secs secs' : ℕ) (now later : Datetime)
      (rows rows₁ rows₂ : List (JobRow P)) (j j' : JobRecord P)
      → IsUnique rows
      → claim_next locked w secs now rows ≡ ok (some j, rows₁)
      → claim_next locked' w' secs' later rows₁ ≡ ok (some j', rows₂)
      → later.micros < (add_seconds now secs).micros
      → j.execution.job_id ≢ j'.execution.job_id
  claims_exclusive locked locked' w w' secs secs' now later rows rows₁ rows₂ j j' u h h' live same =
      let (c, t) = claim_next-Takes locked w secs now rows rows₁ j u h in
      let (c', t') = claim_next-Takes locked' w' secs' later rows₁ rows₂ j' t.still_unique h' in
      let one : c.job_id ≡ c'.job_id = sym t.same_id ∙ same ∙ t'.same_id in
      let row : claim_row w secs now c ≡ c' =
        some-injective _ _ (sym t.claimed ∙ ap (λ id. get_row id rows₁) one ∙ t'.stored) in
      cc (live_not_due w secs now later c live, ap (is_due later) row, t'.due)
