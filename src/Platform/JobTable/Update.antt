-- ===== src/Platform/JobTable/Update.antt =====
-- Statements on a table whose job ids are unique: what `get_row` sees after an `update`.
use mathlib.Core.Option
use shema_business_platform.Prelude.{
  ◌≡◌, refl, ◌≢◌, ◌∙◌, sym, inl, inr, Bool, true, Option, none, some, List, [], ◌∷◌, map, String,
  In, str_eq_iff, Bool-cases, Option-cases, arith, if◌then◌else◌,
}
use shema_business_platform.Platform.JobRows.{JobRow, first_where, get_row, has_id}

module _ {P : Type 0} where
  -- `job_id` is the primary key.
  abbrev pub IsUnique : List (JobRow P) → Type 0
  IsUnique [] = Unit
  IsUnique (r ∷ rs) = (get_row r.job_id rs ≡ none) × IsUnique rs

  -- The statement sets other columns than `job_id`.
  abbrev pub KeepsId : (JobRow P → JobRow P) → Type 0
  KeepsId f = (r : JobRow P) → (f r).job_id ≡ r.job_id

  abbrev pub at_where : (JobRow P → Bool) → (JobRow P → JobRow P) → JobRow P → JobRow P
  at_where p f r = if p r then f r else r

  pub get_row-map :
      (p : JobRow P → Bool) (f : JobRow P → JobRow P) (id : String) (rows : List (JobRow P))
      → KeepsId f
      → get_row id (map (at_where p f) rows) ≡ Option.map (at_where p f) (get_row id rows)
  unfolding get_row
  get_row-map p f id [] k = refl
  get_row-map p f id (r ∷ rs) k =
      ground
        (arith, k r, str_eq_iff r.job_id id, str_eq_iff (f r).job_id id, get_row-map p f id rs k)

  pub map-IsUnique :
      (p : JobRow P → Bool) (f : JobRow P → JobRow P) (rows : List (JobRow P))
      → KeepsId f
      → IsUnique rows
      → IsUnique (map (at_where p f) rows)
  map-IsUnique p f [] k h = tt
  map-IsUnique p f (r ∷ rs) k h = (same_id, map-IsUnique p f rs k h.1)
    where
      same_id : get_row (at_where p f r).job_id (map (at_where p f) rs) ≡ none
      same_id =
          ground (arith, k r, get_row-map p f r.job_id rs k, get_row-map p f (f r).job_id rs k)

  pub In-get_row :
      (r : JobRow P) (rows : List (JobRow P))
      → IsUnique rows
      → In r rows
      → get_row r.job_id rows ≡ some r
  unfolding get_row
  In-get_row r [] h m = absurd m
  In-get_row r (x ∷ xs) h (inl e) = ground (arith, str_eq_iff x.job_id r.job_id)
  In-get_row r (x ∷ xs) h (inr m) =
      ground (arith, str_eq_iff x.job_id r.job_id, In-get_row r xs h.1 m)

  abbrev pub passes : (JobRow P → Bool) → Option (JobRow P) → Option (JobRow P)
  passes p none = none
  passes p (some r) = if p r then some r else none

  -- A test that only the row of one id passes finds that row or nothing.
  pub first_where-get_row :
      (p : JobRow P → Bool) (id : String) (rows : List (JobRow P))
      → ((r : JobRow P) → p r ≡ true → r.job_id ≡ id)
      → IsUnique rows
      → first_where p rows ≡ passes p (get_row id rows)
  unfolding get_row
  first_where-get_row p id [] own h = refl
  first_where-get_row p id (r ∷ rs) own h =
      ground (arith, own r, str_eq_iff r.job_id id, first_where-get_row p id rs own h.1)

  pub first_where_passes :
      (p : JobRow P → Bool) (rows : List (JobRow P)) (r : JobRow P)
      → first_where p rows ≡ some r
      → p r ≡ true
  unfolding first_where
  first_where_passes p [] r h = cc
  first_where_passes p (x ∷ xs) r h = ground (arith, first_where_passes p xs r)

  pub get_row_id :
      (id : String) (rows : List (JobRow P)) (r : JobRow P)
      → get_row id rows ≡ some r
      → r.job_id ≡ id
  unfolding get_row
  get_row_id id rows r h = (str_eq_iff r.job_id id).0 (first_where_passes (has_id id) rows r h)

  -- A statement on the row of one id leaves the other ids as they are.
  pub get_row-map_ne :
      (p : JobRow P → Bool) (f : JobRow P → JobRow P) (id k : String) (rows : List (JobRow P))
      → KeepsId f
      → ((r : JobRow P) → p r ≡ true → r.job_id ≡ id)
      → k ≢ id
      → get_row k (map (at_where p f) rows) ≡ get_row k rows
  get_row-map_ne p f id k rows kf own ne =
      get_row-map p f k rows kf ∙ elim (Option-cases (get_row k rows)) [
        | inl e ↦ rw e
        | inr (r, e) ↦ elim (Bool-cases (p r)) [
          | inl passed ↦ absurd (ne (sym (get_row_id k rows r e) ∙ own r passed))
          | inr other ↦ rw e (rw other)
        ]
      ]
