-- ===== src/Platform/PlanTable/Revisions.antt =====
-- Optimistic concurrency of repeat plans: a revision is saved over once.
use shema_business_platform.Prelude.{
  ℕ, ◌+◌, ◌≤◌, ◌≡◌, ◌≢◌, some, List, [], ◌∷◌, String, ok, inl, inr, arith, str_eq, str_eq_iff,
  Bool-cases, Result-cases, Option-cases,
}
use shema_business_platform.Prelude.Dict.{lookup, insert, lookup-insert}
use shema_business_platform.Domain.RepeatOrder.{RepeatOrderPlan, new_cadence, new_context, new_plan}
use shema_business_platform.Platform.Transaction.{transaction}
use shema_business_platform.Platform.PlanTable.{
  PlanTable, Referenced, to_row, to_plan, check_save, updated, save, capacity_column,
}

to_plan_same : (r p : RepeatOrderPlan) → to_plan r ≡ ok p → p ≡ r
unfolding to_plan new_plan
to_plan_same r p h = elim (Result-cases (new_cadence r.cadence)) [
  | inr (e, raised) ↦ absurd (ground arith)
  | inl (c, _) ↦ elim (Result-cases (new_context r.context)) [
    | inr (e, raised) ↦ absurd (ground arith)
    | inl (k, _) ↦ ground arith
  ]
]

to_row_revision :
    (known : Referenced) (p r : RepeatOrderPlan) → to_row known p ≡ ok r → r.revision ≡ p.revision
unfolding to_row
to_row_revision known p r h = elim (Result-cases (capacity_column p.context.capacity_units)) [
  | inr (e, raised) ↦ absurd (ground arith)
  | inl (c, _) ↦ ground arith
]

-- A save that succeeds was made at the row's revision, and its row has the next one.
pub save-revision :
    (known : Referenced) (p q : RepeatOrderPlan) (n : ℕ) (t t' : PlanTable)
    → save known p n t ≡ ok (q, t')
    → (r : RepeatOrderPlan) × (lookup p.plan_id t ≡ some r)
      × (r.revision ≡ n)
      × (q.revision ≡ n + 1)
      × (t' ≡ insert p.plan_id q t)
unfolding save
save-revision known p q n t t' h = elim (Option-cases (lookup p.plan_id t)) [
  | inl missing ↦ absurd (ground arith)
  | inr (r, there) ↦ elim (Result-cases (to_plan r)) [
    | inr (e, raised) ↦ absurd (ground arith)
    | inl (c, read) ↦ elim (Result-cases (check_save c n p)) [
      | inr (e, raised) ↦ absurd (ground arith)
      | inl (v, passed) ↦ elim (Result-cases (to_row known (updated c p))) [
        | inr (e, raised) ↦ absurd (ground arith)
        | inl (row, made) ↦
            let back : to_plan row ≡ ok q = ground arith in
            let same = to_plan_same row q back in
            let revision : c.revision ≡ n = unfold check_save in ground arith in
            (
              r,
              there,
              ground (arith, to_plan_same r c read),
              ground (arith, to_row_revision known (updated c p) row made),
              rw same (ground arith),
            )
      ]
    ]
  ]
]

-- Saves, each in a transaction of its own.
abbrev pub saves : Referenced → List (RepeatOrderPlan × ℕ) → PlanTable → PlanTable
saves known [] t = t
saves known ((p, n) ∷ rest) t = saves known rest (transaction (save known p n) t).1

abbrev AtLeast : String → ℕ → PlanTable → Type 0
AtLeast id n t = (r : RepeatOrderPlan) × (lookup id t ≡ some r) × (n ≤ r.revision)

save-AtLeast :
    (known : Referenced) (p : RepeatOrderPlan) (m n : ℕ) (id : String) (t : PlanTable)
    → AtLeast id n t
    → AtLeast id n (transaction (save known p m) t).1
unfolding transaction
save-AtLeast known p m n id t (r, there, low) = elim (Result-cases (save known p m t)) [
  | inr (e, raised) ↦
      let same : (transaction (save known p m) t).1 ≡ t = ground arith in rw same (r, there, low)
  | inl ((q, t'), done) ↦
      let (x, found, old, new, stored) = save-revision known p q m t t' done in
      let same : (transaction (save known p m) t).1 ≡ t' = ground arith in
      rw same (elim (Bool-cases (str_eq p.plan_id id)) [
        | inl mine ↦ (
          q,
          ground (arith, lookup-insert p.plan_id id q t),
          ground (arith, str_eq_iff p.plan_id id),
        )
        | inr other ↦ (r, ground (arith, lookup-insert p.plan_id id q t), low)
      ])
]

saves-AtLeast :
    (known : Referenced) (cs : List (RepeatOrderPlan × ℕ)) (n : ℕ) (id : String) (t : PlanTable)
    → AtLeast id n t
    → AtLeast id n (saves known cs t)
saves-AtLeast known [] n id t h = h
saves-AtLeast known ((p, m) ∷ cs) n id t h =
    saves-AtLeast known cs n id (transaction (save known p m) t).1 (save-AtLeast known p m n id t h)

-- No update is lost: once a save of a plan at a revision has succeeded, no save of that plan that
-- expects this or an earlier revision succeeds, whatever saves come between.
pub stale_plan_rejected :
    (known : Referenced) (p q : RepeatOrderPlan) (n : ℕ) (t t' : PlanTable)
    → save known p n t ≡ ok (q, t')
    → (cs : List (RepeatOrderPlan × ℕ)) (p' q' : RepeatOrderPlan) (m : ℕ) (t'' : PlanTable)
    → p'.plan_id ≡ p.plan_id
    → m ≤ n
    → save known p' m (saves known cs t') ≢ ok (q', t'')
stale_plan_rejected known p q n t t' done cs p' q' m t'' same le again =
    let (x, found, old, new, stored) = save-revision known p q n t t' done in
    let first : AtLeast p.plan_id (n + 1) t' = (
      q,
      ground (arith, lookup-insert p.plan_id p.plan_id q t, str_eq_iff p.plan_id p.plan_id),
      omega arith,
    ) in
    let (r, there, low) = saves-AtLeast known cs (n + 1) p.plan_id t' first in
    let (y, found', old', new', stored') =
      save-revision known p' q' m (saves known cs t') t'' again in
    ground arith
