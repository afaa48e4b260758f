-- ===== src/Application/RepeatOrder/Plans.antt =====
-- The operations of application/repeat_order.py on plans: creating one, and the transitions that
-- `_mutate_plan` runs.
use shema_business_platform.Prelude.{
  not, Option, none, some, String, Result, key_error, quarantine_required, format, [], ◌∷◌, str_eq,
  if◌then◌else◌,
}
use shema_business_platform.Domain.Order.{Order, is_completed}
use shema_business_platform.Domain.RepeatOrder.{
  RepeatCadence, RepeatOrderContext, RepeatOrderPlan, active, new_plan, pause, resume, skip_once,
  cancel, edit_context,
}
use shema_business_platform.Platform.IdempotencyTable
use shema_business_platform.Platform.IdempotencyTable.{IdempotencyRecord}
use shema_business_platform.Platform.OrderTable
use shema_business_platform.Platform.PlanTable
use shema_business_platform.Platform.Transaction.{
  Tx, pure, lift, or_raise, transaction, ◌>>=◌, ◌>>◌, raise_if,
}
use shema_business_platform.Application.OrderData.{
  plan_created, plan_changed, plan_created_note, plan_changed_note, OrderDb, OrderCall, reads,
  on_keys, on_plans, referenced, unit_value, plan_status_value,
}
use shema_business_platform.Application.RepeatOrder.Validation.{
  RepeatService, require_plan, verified_identity, require_owner, authorize, existing_plan,
  stored_plan, record_audit, event,
}

pub record PlanRequest : Type 0 where
  pub plan_id : String
  pub source_order_id : String
  pub cadence : RepeatCadence
  pub context : RepeatOrderContext

-- What follows a reservation of the key for this plan.
unfoldable pub insert_plan :
    RepeatService → OrderCall → PlanRequest → Order → IdempotencyRecord → Tx OrderDb RepeatOrderPlan
insert_plan s c q source r = if not (str_eq r.result_ref q.plan_id) then stored_plan r else do
  p ← lift (
      new_plan (record {
        plan_id = q.plan_id;
        source_order_id = q.source_order_id;
        identity_id = source.identity_id;
        cadence = q.cadence;
        context = q.context;
        owner_actor_id = some c.actor.actor_id;
        status = active;
        last_order_id = none;
        pending_order_id = none;
        skipped_occurrences = 0;
        revision = 1;
      }))
  on_plans (λ db. PlanTable.add (referenced db) p)
  record_audit s c "repeat_order.plan_created" "repeat_order_plan" p.plan_id
      (plan_created_note p.source_order_id p.identity_id (unit_value p.cadence.unit)
        p.cadence.interval)
      (c.clock 0)
  event s c "repeat_order.plan_created" "repeat_order_plan" p.plan_id
      (plan_created p.plan_id p.source_order_id p.identity_id) (c.clock 1)
  pure p

-- The path of a key without a record.
unfoldable pub fresh_plan : RepeatService → OrderCall → PlanRequest → Tx OrderDb RepeatOrderPlan
fresh_plan s c q = do
  found ← reads (λ db. OrderTable.get q.source_order_id db.orders)
  source ← or_raise found (key_error (format ("unknown source order: " ∷ q.source_order_id ∷ [])))
  lift (require_owner source.owner_actor_id c.actor)
  raise_if (not (is_completed source.status))
      (quarantine_required "repeat plan requires a completed source order")
  i ← verified_identity source.identity_id
  authorize s c.actor i 2
  r ← on_keys (IdempotencyTable.reserve c.idempotency_key c.request_hash q.plan_id)
  insert_plan s c q source r

unfoldable pub create_new_plan :
    RepeatService → OrderCall → PlanRequest → Option RepeatOrderPlan → Tx OrderDb RepeatOrderPlan
create_new_plan s c q (some existing) = pure existing
create_new_plan s c q none = fresh_plan s c q

unfoldable pub create_plan_body :
    RepeatService → OrderCall → PlanRequest → Tx OrderDb RepeatOrderPlan
create_plan_body s c q = do existing ← existing_plan c; create_new_plan s c q existing

unfoldable pub create_plan :
    RepeatService → OrderCall → PlanRequest → OrderDb → Result RepeatOrderPlan × OrderDb
create_plan s c q = transaction (create_plan_body s c q)

-- The operations that change a plan, with the names that their records bear.
pub data PlanChange : Type 0 where
  pausing resuming skipping cancelling : PlanChange
  editing : RepeatOrderContext → PlanChange

abbrev pub transition : PlanChange → RepeatOrderPlan → Result RepeatOrderPlan
transition pausing p = pause p
transition resuming p = resume p
transition skipping p = skip_once p
transition cancelling p = cancel p
transition (editing k) p = edit_context k p

abbrev pub action_name : PlanChange → String
action_name pausing = "repeat_order.plan_paused"
action_name resuming = "repeat_order.plan_resumed"
action_name skipping = "repeat_order.plan_skipped"
action_name cancelling = "repeat_order.plan_cancelled"
action_name (editing k) = "repeat_order.plan_context_edited"

unfoldable pub change_plan :
    RepeatService
    → OrderCall
    → String
    → PlanChange
    → RepeatOrderPlan
    → IdempotencyRecord
    → Tx OrderDb RepeatOrderPlan
change_plan s c id change p r = if not (str_eq r.result_ref id) then stored_plan r else do
  next ← lift (transition change p)
  updated ← on_plans (λ db. PlanTable.save (referenced db) next p.revision)
  record_audit s c (action_name change) "repeat_order_plan" id
      (plan_changed_note p.revision (plan_status_value updated.status) updated.pending_order_id
        updated.revision)
      (c.clock 0)
  event s c (action_name change) "repeat_order_plan" id
      (plan_changed id (plan_status_value updated.status) updated.revision) (c.clock 1)
  pure updated

unfoldable pub fresh_change :
    RepeatService → OrderCall → String → PlanChange → Tx OrderDb RepeatOrderPlan
fresh_change s c id change = do
  p ← require_plan id
  lift (require_owner p.owner_actor_id c.actor)
  i ← verified_identity p.identity_id
  authorize s c.actor i 2
  r ← on_keys (IdempotencyTable.reserve c.idempotency_key c.request_hash id)
  change_plan s c id change p r

unfoldable pub mutate_new :
    RepeatService
    → OrderCall
    → String
    → PlanChange
    → Option RepeatOrderPlan
    → Tx OrderDb RepeatOrderPlan
mutate_new s c id change (some existing) = pure existing
mutate_new s c id change none = fresh_change s c id change

unfoldable pub mutate_body :
    RepeatService → OrderCall → String → PlanChange → Tx OrderDb RepeatOrderPlan
mutate_body s c id change = do existing ← existing_plan c; mutate_new s c id change existing

-- `pause_plan`, `resume_plan`, `skip_once`, `cancel_plan` and `edit_context`, by `_mutate_plan`.
unfoldable pub mutate_plan :
    RepeatService → OrderCall → String → PlanChange → OrderDb → Result RepeatOrderPlan × OrderDb
mutate_plan s c id change = transaction (mutate_body s c id change)
