-- ===== src/Platform/JobTable/Settled.antt =====
-- What a `complete` or a `fail` that returns has stored.
use shema_business_platform.Prelude.{
  ◌≡◌, refl, ◌≢◌, ◌∙◌, sym, subst, inl, inr, Bool, true, Option, none, some, List, map, String,
  Datetime, ok, Option-cases, arith,
}
use shema_business_platform.Platform.JobRows.{
  JobRow, JobRecord, first_where, update, get_row, to_record,
}
use shema_business_platform.Platform.JobTable.{is_held, complete, complete_row, fail, fail_row}
use shema_business_platform.Platform.JobTable.Update.{
  IsUnique, KeepsId, passes, at_where, get_row-map, get_row-map_ne,
}
use shema_business_platform.Platform.JobTable.Claim.{to_record_reads}
use shema_business_platform.Platform.JobTable.Fencing.{first_held, held_id}

module _ {P : Type 0} where
  passed :
      (p : JobRow P → Bool) (o : Option (JobRow P)) (r : JobRow P)
      → passes p o ≡ some r
      → (o ≡ some r) × (p r ≡ true)
  passed p none r h = ground arith
  passed p (some x) r h = ground arith

  -- What a statement on the held row of one job stores.
  abbrev pub Stores :
      String
      → String
      → Datetime
      → (JobRow P → JobRow P)
      → List (JobRow P)
      → List (JobRow P)
      → JobRow P
      → Type 0
  Stores id w now f rows rows' r =
      (get_row id rows ≡ some r)
      × (is_held id w now r ≡ true)
      × (get_row id rows' ≡ some (f r))
      × ((k : String) → k ≢ id → get_row k rows' ≡ get_row k rows)

  held-Stores :
      (id w : String) (now : Datetime) (f : JobRow P → JobRow P) (rows : List (JobRow P))
      (r : JobRow P)
      → KeepsId f
      → IsUnique rows
      → first_where (is_held id w now) rows ≡ some r
      → Stores id w now f rows (map (at_where (is_held id w now) f) rows) r
  held-Stores id w now f rows r k u first =
      let (there, held) =
        passed (is_held id w now) (get_row id rows) r (sym (first_held id w now rows u) ∙ first) in
      (
        there,
        held,
        ground (arith, get_row-map (is_held id w now) f id rows k),
        λ j ne. get_row-map_ne (is_held id w now) f id j rows k (held_id id w now) ne,
      )

  -- A completion that returns.
  pub complete-Stores :
      (id w : String) (now : Datetime) (rows rows' : List (JobRow P)) (j : JobRecord P)
      → IsUnique rows
      → complete id w now rows ≡ ok (j, rows')
      → (r : JobRow P) × Stores id w now (complete_row now) rows rows' r
        × (j.execution.state ≡ (complete_row now r).state)
  complete-Stores id w now rows rows' j u h =
      elim (Option-cases (first_where (is_held id w now) rows)) [
        | inl lost ↦ absurd (unfold complete update in ground arith)
        | inr (r, first) ↦
            let after = map (at_where (is_held id w now) (complete_row now)) rows in
            let read : to_record (complete_row now r) after ≡ ok (j, rows') =
              unfold complete update in ground arith in
            let (same, _, _, state) = to_record_reads (complete_row now r) after rows' j read in
            (
              r,
              subst (λ t. Stores id w now (complete_row now) rows t r) (sym same)
                  (held-Stores id w now (complete_row now) rows r (λ x. refl) u first),
              state,
            )
      ]

  -- A failure that returns.
  pub fail-Stores :
      (id w : String) (again : Bool) (error : String) (at now : Datetime)
      (rows rows' : List (JobRow P)) (j : JobRecord P)
      → IsUnique rows
      → fail id w again error at now rows ≡ ok (j, rows')
      → (r : JobRow P) × Stores id w now (fail_row again error at now) rows rows' r
        × (j.execution.state ≡ (fail_row again error at now r).state)
  fail-Stores id w again error at now rows rows' j u h =
      elim (Option-cases (first_where (is_held id w now) rows)) [
        | inl lost ↦ absurd (unfold fail update in ground arith)
        | inr (r, first) ↦
            let f = fail_row again error at now in
            let after = map (at_where (is_held id w now) f) rows in
            let read : to_record (f r) after ≡ ok (j, rows') = unfold fail update in ground arith in
            let (same, _, _, state) = to_record_reads (f r) after rows' j read in
            (
              r,
              subst (λ t. Stores id w now f rows t r) (sym same)
                  (held-Stores id w now f rows r (λ x. refl) u first),
              state,
            )
      ]
