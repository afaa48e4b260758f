-- ===== src/Platform/PlanTable.antt =====
-- `PostgresRepeatOrderRepository` of platform/postgres_repositories.py: the table
-- `repeat_order_plan` of db/migrations/0010_repeat_order_plan.sql by its primary key.
pub mod Revisions
use shema_business_platform.Prelude.{
  ℕ, ◌+◌, ltb, leb, ◌==◌, Bool, true, false, not, ◌&&◌, ◌||◌, Option, none, some, String, [], ◌∷◌,
  value_error, key_error, integrity_violation, database_error, Result, ok, err, str_eq, format,
  is_some, if◌then◌else◌,
}
use shema_business_platform.Prelude.Dict.{Dict, lookup, insert}
use shema_business_platform.Prelude.Int.{is_negative, magnitude, signed}
use shema_business_platform.Domain.Money.{Decimal, finite, infinite, nan, half_up, is_nonpositive}
use shema_business_platform.Domain.Order.{owner_eq}
use shema_business_platform.Domain.RepeatOrder.{
  RepeatOrderPlan, RepeatOrderContext, RepeatCadence, cadence_eq, new_cadence, new_context,
  new_plan,
}
use shema_business_platform.Platform.Transaction.{Tx, lift, or_raise, gets, ◌>>=◌, ◌>>◌, raise_if}

-- A row holds the plan with its capacity as the column `numeric(18,3)` rounds it.
abbrev pub PlanTable : Type 0
PlanTable = Dict RepeatOrderPlan

-- Which orders and identities the referenced tables hold.
pub record Referenced : Type 0 where
  pub is_order : String → Bool
  pub is_identity : String → Bool

-- A positive value of `numeric(18,3)`, rounded half away from zero. A NaN, which no context holds, is left out.
unfoldable pub capacity_column : Decimal → Result Decimal
unfolding half_up
capacity_column (finite c s) =
    let v = half_up 3 (magnitude c) s in
    if leb 1_000_000_000_000_000_000 v
    then err (database_error "numeric field overflow")
    else if is_negative c || v == 0
    then err (database_error "check constraint violated")
    else ok (finite (signed false v) 3)
capacity_column (infinite negative) = err (database_error "numeric field overflow")
capacity_column nan = err (database_error "numeric field overflow")

abbrev refers : (String → Bool) → Option String → Bool
refers known none = true
refers known (some id) = known id

-- The row of a plan, under the constraints of the table.
unfoldable pub to_row : Referenced → RepeatOrderPlan → Result RepeatOrderPlan
unfolding capacity_column
to_row known p = elim (capacity_column p.context.capacity_units) [
  | err e ↦ err e
  | ok c ↦
      if known.is_order p.source_order_id
        && known.is_identity p.identity_id
        && refers known.is_order p.last_order_id
        && refers known.is_order p.pending_order_id
      then ok (record p { context = record p.context { capacity_units = c } })
      else err (database_error "foreign key constraint violated")
]

unfoldable pub add : Referenced → RepeatOrderPlan → Tx PlanTable (Unit {0})
unfolding to_row
add known p = do
  r ← lift (to_row known p)
  taken ← gets (λ t. is_some (lookup p.plan_id t))
  raise_if taken (database_error "unique constraint violated")
  λ t. ok (tt, insert p.plan_id r t)

-- `_to_plan`: the constructors run on what is read.
unfoldable pub to_plan : RepeatOrderPlan → Result RepeatOrderPlan
unfolding new_cadence new_context new_plan
to_plan r = elim (new_cadence r.cadence) [
  | err e ↦ err e
  | ok _ ↦ elim (new_context r.context) [ ok _ ↦ new_plan r | err e ↦ err e ]
]

unfoldable pub get : String → PlanTable → Result (Option RepeatOrderPlan)
unfolding to_plan
get id t = elim (lookup id t) [
  | none ↦ ok none
  | some r ↦ elim (to_plan r) [ ok p ↦ ok (some p) | err e ↦ err e ]
]

unfoldable pub check_save : RepeatOrderPlan → ℕ → RepeatOrderPlan → Result (Unit {0})
check_save current revision p =
    if not (current.revision == revision)
    then err (integrity_violation "repeat plan revision conflict: stale operator state")
    else if not (owner_eq current.owner_actor_id p.owner_actor_id)
    then err (integrity_violation "repeat order plan owner scope is immutable")
    else if not (
        str_eq current.source_order_id p.source_order_id
        && str_eq current.identity_id p.identity_id
        && cadence_eq current.cadence p.cadence)
    then err (integrity_violation "repeat plan lineage and cadence are immutable")
    else ok tt

-- The `set` clause of `save`.
abbrev pub updated : RepeatOrderPlan → RepeatOrderPlan → RepeatOrderPlan
updated current p = record current {
  status = p.status;
  context = p.context;
  last_order_id = p.last_order_id;
  pending_order_id = p.pending_order_id;
  skipped_occurrences = p.skipped_occurrences;
  revision = current.revision + 1;
}

-- The row is locked between its reading and the update, so the update's own test of the revision holds.
unfoldable pub save : Referenced → RepeatOrderPlan → ℕ → Tx PlanTable RepeatOrderPlan
unfolding to_plan check_save to_row
save known p revision = do
  raise_if (ltb revision 1) (value_error "expected_revision must be >= 1")
  r ← λ t.
      or_raise (lookup p.plan_id t) (key_error (format ("unknown repeat plan: " ∷ p.plan_id ∷ [])))
        t
  current ← lift (to_plan r)
  lift (check_save current revision p)
  row ← lift (to_row known (updated current p))
  λ t. ok (tt, insert p.plan_id row t)
  lift (to_plan row)
