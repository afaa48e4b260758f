-- ===== src/Domain/RepeatOrder.antt =====
-- domain/repeat_order.py: plans of repeated orders.
pub mod Schedule
use shema_business_platform.Prelude.{
  ℕ, ◌+◌, ◌*◌, Bool, true, false, not, ◌&&◌, ◌||◌, Option, none, some, String, value_error, Result,
  ok, err, ◌>>=◌, ◌>>◌, raise_if, ltb, ◌==◌, str_eq, is_blank, is_some, if◌then◌else◌,
}
use shema_business_platform.Domain.Money.{Decimal, is_nonpositive}
use shema_business_platform.Domain.Calendar.{Timestamp, add_days, add_months}

pub data RepeatPlanStatus : Type 0 where
  active paused cancelled : RepeatPlanStatus

abbrev pub is_active : RepeatPlanStatus → Bool
is_active active = true
is_active _ = false

abbrev pub is_paused : RepeatPlanStatus → Bool
is_paused paused = true
is_paused _ = false

abbrev pub is_cancelled : RepeatPlanStatus → Bool
is_cancelled cancelled = true
is_cancelled _ = false

pub data RepeatCadenceUnit : Type 0 where
  day week month : RepeatCadenceUnit

abbrev pub unit_eq : RepeatCadenceUnit → RepeatCadenceUnit → Bool
unit_eq day day = true
unit_eq week week = true
unit_eq month month = true
unit_eq _ _ = false

-- Integers of plans and cadences are natural numbers: the constructors refuse the negative ones.
pub record RepeatCadence : Type 0 where
  pub unit : RepeatCadenceUnit
  pub interval : ℕ

abbrev pub cadence_eq : RepeatCadence → RepeatCadence → Bool
cadence_eq a b = unit_eq a.unit b.unit && a.interval == b.interval

-- `RepeatCadence(...)` with its `__post_init__`.
unfoldable pub new_cadence : RepeatCadence → Result RepeatCadence
new_cadence c = do
  raise_if (ltb c.interval 1) (value_error "repeat cadence interval must be >= 1")
  ok c

abbrev pub step_by : RepeatCadenceUnit → ℕ → Timestamp → Result Timestamp
step_by day n t = add_days n t
step_by week n t = add_days (n * 7) t
step_by month n t = add_months n t

unfoldable pub next_after : RepeatCadence → Timestamp → Result Timestamp
next_after c t = do
  raise_if (not t.tz_aware) (value_error "repeat schedule timestamps must be timezone-aware")
  step_by c.unit c.interval t

pub record RepeatOrderContext : Type 0 where
  pub scheduled_for : Timestamp
  pub service_scope : String
  pub capacity_units : Decimal

-- `RepeatOrderContext(...)` with its `__post_init__`.
unfoldable pub new_context : RepeatOrderContext → Result RepeatOrderContext
new_context c = do
  raise_if (not c.scheduled_for.tz_aware) (value_error "scheduled_for must be timezone-aware")
  raise_if (is_blank c.service_scope) (value_error "service_scope is required")
  small ← is_nonpositive c.capacity_units
  raise_if small (value_error "capacity_units must be positive")
  ok c

pub record RepeatOrderPlan : Type 0 where
  pub plan_id : String
  pub source_order_id : String
  pub identity_id : String
  pub cadence : RepeatCadence
  pub context : RepeatOrderContext
  pub owner_actor_id : Option String
  pub status : RepeatPlanStatus
  pub last_order_id : Option String
  pub pending_order_id : Option String
  pub skipped_occurrences : ℕ
  pub revision : ℕ

-- `RepeatOrderPlan(...)` with its `__post_init__`.
unfoldable pub new_plan : RepeatOrderPlan → Result RepeatOrderPlan
new_plan p = do
  raise_if (is_blank p.plan_id) (value_error "plan_id is required")
  raise_if (is_blank p.source_order_id) (value_error "source_order_id is required")
  raise_if (is_blank p.identity_id) (value_error "identity_id is required")
  raise_if (ltb p.revision 1) (value_error "repeat plan revision must be >= 1")
  ok p

unfoldable pub pause : RepeatOrderPlan → Result RepeatOrderPlan
unfolding new_plan
pause p = do
  raise_if (not (is_active p.status)) (value_error "only active repeat plan can be paused")
  new_plan (record p { status = paused })

unfoldable pub resume : RepeatOrderPlan → Result RepeatOrderPlan
unfolding new_plan
resume p = do
  raise_if (not (is_paused p.status)) (value_error "only paused repeat plan can be resumed")
  new_plan (record p { status = active })

-- `replace(self.context, scheduled_for=self.cadence.next_after(...))`
unfoldable pub advance : RepeatOrderPlan → Result RepeatOrderContext
unfolding next_after new_context
advance p = do
  next ← next_after p.cadence p.context.scheduled_for
  new_context (record p.context { scheduled_for = next })

unfoldable pub skip_once : RepeatOrderPlan → Result RepeatOrderPlan
unfolding new_plan advance
skip_once p = do
  raise_if (not (is_active p.status)) (value_error "only active repeat plan can skip an occurrence")
  raise_if (is_some p.pending_order_id) (value_error "cannot skip while a repeat order is pending")
  context ← advance p
  new_plan (record p { context = context; skipped_occurrences = p.skipped_occurrences + 1 })

unfoldable pub cancel : RepeatOrderPlan → Result RepeatOrderPlan
unfolding new_plan
cancel p = do
  raise_if (is_cancelled p.status) (value_error "repeat plan is already cancelled")
  new_plan (record p { status = cancelled })

unfoldable pub edit_context : RepeatOrderContext → RepeatOrderPlan → Result RepeatOrderPlan
unfolding new_plan
edit_context c p = do
  raise_if (is_cancelled p.status) (value_error "cancelled repeat plan cannot be edited")
  raise_if (is_some p.pending_order_id)
      (value_error "cannot edit repeat context while an order is pending")
  new_plan (record p { context = c })

unfoldable pub attach_pending_order : String → RepeatOrderPlan → Result RepeatOrderPlan
unfolding new_plan
attach_pending_order id p = do
  raise_if (is_blank id) (value_error "pending order id is required")
  raise_if (is_cancelled p.status)
      (value_error "cancelled repeat plan cannot create a pending order")
  raise_if (is_some p.pending_order_id) (value_error "repeat plan already has a pending order")
  new_plan (record p { pending_order_id = some id })

abbrev pub is_order : Option String → String → Bool
is_order none id = false
is_order (some p) id = str_eq p id

-- The context after a confirmation: an active plan moves on to its next occurrence.
abbrev pub confirmed_context : RepeatOrderPlan → Result RepeatOrderContext
confirmed_context p = let moved = advance p in if is_active p.status then moved else ok p.context

unfoldable pub mark_order_confirmed : String → RepeatOrderPlan → Result RepeatOrderPlan
unfolding new_plan advance
mark_order_confirmed id p = do
  raise_if (not (is_order p.pending_order_id id))
      (value_error "confirmed order does not match the pending repeat order")
  context ← confirmed_context p
  new_plan (record p { context = context; last_order_id = some id; pending_order_id = none })
