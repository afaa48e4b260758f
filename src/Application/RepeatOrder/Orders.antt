-- ===== src/Application/RepeatOrder/Orders.antt =====
-- The operations of application/repeat_order.py that create and confirm a repeated order.
use shema_business_platform.Prelude.{
  not, Option, none, some, String, Result, quarantine_required, integrity_violation, format, [],
  ◌∷◌, str_eq, is_some, if◌then◌else◌,
}
use shema_business_platform.Domain.Money.{Money}
use shema_business_platform.Domain.Order.{
  Order, draft, new_order, confirm, total, is_draft, is_completed, lines_eq,
}
use shema_business_platform.Domain.Economics.{revenue, new_entry}
use shema_business_platform.Domain.RepeatOrder.{
  RepeatOrderPlan, is_active, is_order, attach_pending_order, mark_order_confirmed,
}
use shema_business_platform.Platform.IdempotencyTable
use shema_business_platform.Platform.IdempotencyTable.{IdempotencyRecord}
use shema_business_platform.Platform.OrderTable
use shema_business_platform.Platform.PlanTable
use shema_business_platform.Platform.EconomicTable
use shema_business_platform.Platform.Transaction.{
  Tx, pure, lift, or_raise, transaction, ◌>>=◌, ◌>>◌, raise_if,
}
use shema_business_platform.Application.OrderData.{
  repeat_created, repeat_confirmed, repeat_created_note, repeat_confirmed_note, OrderDb, OrderCall,
  reads, on_keys, on_orders, on_plans, on_economics, referenced, is_action, status_value,
}
use shema_business_platform.Application.RepeatOrder.Validation.{
  RepeatOrderValidation, RepeatService, require_validation, require_plan, verified_identity,
  require_owner, authorize, fresh_level, existing_order, stored_order, record_audit, event,
}

-- What follows a reservation of the key for the new order.
unfoldable pub insert_order :
    RepeatService
    → OrderCall
    → String
    → RepeatOrderPlan
    → Order
    → RepeatOrderValidation
    → IdempotencyRecord
    → Tx OrderDb Order
insert_order s c order_id p source v r =
    if not (str_eq r.result_ref order_id) then stored_order "repeat" r else do
      o ← lift (
          new_order (record {
            order_id = order_id;
            identity_id = source.identity_id;
            source_action_id = source.source_action_id;
            lines = v.resolved_lines;
            owner_actor_id = some c.actor.actor_id;
            status = draft;
          }))
      on_orders (λ db. OrderTable.add (is_action db) o)
      next ← lift (attach_pending_order o.order_id p)
      on_plans (λ db. PlanTable.save (referenced db) next p.revision)
      record_audit s c "repeat_order.created" "order" o.order_id
          (repeat_created_note p.plan_id p.source_order_id o.identity_id) (c.clock 0)
      event s c "repeat_order.created" "order" o.order_id
          (repeat_created o.order_id p.plan_id p.source_order_id (status_value o.status))
          (c.clock 1)
      pure o

-- The path of a key without a record; `order_id` is what the id factory yields.
unfoldable pub fresh_order : RepeatService → OrderCall → String → String → Tx OrderDb Order
fresh_order s c plan_id order_id = do
  p ← require_plan plan_id
  lift (require_owner p.owner_actor_id c.actor)
  raise_if (not (is_active p.status)) (quarantine_required "repeat plan is not active")
  raise_if (is_some p.pending_order_id)
      (integrity_violation "repeat plan already has a pending order")
  found ← reads (λ db. OrderTable.get p.source_order_id db.orders)
  source ← or_raise found (integrity_violation "repeat plan references missing source order")
  raise_if (not (is_completed source.status))
      (quarantine_required "repeat source order is no longer completed")
  i ← verified_identity p.identity_id
  v ← lift (s.revalidate i source p)
  authorize s c.actor i (fresh_level v)
  lift (require_validation v)
  r ← on_keys (IdempotencyTable.reserve c.idempotency_key c.request_hash order_id)
  insert_order s c order_id p source v r

unfoldable pub create_new_order :
    RepeatService → OrderCall → String → String → Option Order → Tx OrderDb Order
create_new_order s c plan_id order_id (some existing) = pure existing
create_new_order s c plan_id order_id none = fresh_order s c plan_id order_id

unfoldable pub create_order_body : RepeatService → OrderCall → String → String → Tx OrderDb Order
create_order_body s c plan_id order_id = do
  existing ← existing_order c
  create_new_order s c plan_id order_id existing

unfoldable pub create_next_repeat_order :
    RepeatService → OrderCall → String → String → OrderDb → Result Order × OrderDb
create_next_repeat_order s c plan_id order_id = transaction (create_order_body s c plan_id order_id)

-- The revenue entry of a confirmed order.
unfoldable pub book_revenue : OrderCall → String → String → Order → Tx OrderDb Money
book_revenue c plan_id order_id done = do
  amount ← lift (total done)
  entry ← lift (
      new_entry (record {
        entry_id = format ("economics:repeat-order:" ∷ order_id ∷ ":revenue" ∷ []);
        entity_ref = order_id;
        kind = revenue;
        amount = amount;
        source_ref = format ("repeat-order:" ∷ plan_id ∷ ":confirm" ∷ []);
        occurred_at = c.clock 0;
      }))
  on_economics (EconomicTable.add entry)
  pure amount

-- What follows a reservation of the key for the confirmation.
unfoldable pub write_confirmation :
    RepeatService
    → OrderCall
    → String
    → String
    → RepeatOrderPlan
    → Order
    → IdempotencyRecord
    → Tx OrderDb Order
write_confirmation s c plan_id order_id p o r =
    if not (str_eq r.result_ref order_id) then stored_order "confirmed" r else do
      done ← lift (confirm o)
      on_orders (λ db. OrderTable.save done)
      amount ← book_revenue c plan_id order_id done
      next ← lift (mark_order_confirmed order_id p)
      on_plans (λ db. PlanTable.save (referenced db) next p.revision)
      record_audit s c "repeat_order.confirmed" "order" order_id
          (repeat_confirmed_note plan_id done.identity_id (status_value done.status) amount.amount)
          (c.clock 1)
      event s c "repeat_order.confirmed" "order" order_id
          (repeat_confirmed order_id plan_id (status_value done.status) amount.amount) (c.clock 2)
      pure done

unfoldable pub fresh_confirmation : RepeatService → OrderCall → String → String → Tx OrderDb Order
fresh_confirmation s c plan_id order_id = do
  p ← require_plan plan_id
  lift (require_owner p.owner_actor_id c.actor)
  raise_if (not (is_order p.pending_order_id order_id))
      (integrity_violation "order is not the pending repeat order for this plan")
  found ← reads (λ db. OrderTable.get order_id db.orders)
  o ← or_raise found (integrity_violation "repeat plan references missing pending order")
  raise_if (not (is_draft o.status))
      (quarantine_required "only a draft repeat order can be confirmed")
  i ← verified_identity p.identity_id
  v ← lift (s.revalidate i o p)
  authorize s c.actor i (fresh_level v)
  lift (require_validation v)
  raise_if (not (lines_eq v.resolved_lines o.lines)) (
      quarantine_required
        "current pricing or repeat context changed; recreate the draft before confirmation")
  r ← on_keys (IdempotencyTable.reserve c.idempotency_key c.request_hash order_id)
  write_confirmation s c plan_id order_id p o r

unfoldable pub confirm_new :
    RepeatService → OrderCall → String → String → Option Order → Tx OrderDb Order
confirm_new s c plan_id order_id (some existing) = pure existing
confirm_new s c plan_id order_id none = fresh_confirmation s c plan_id order_id

unfoldable pub confirm_body : RepeatService → OrderCall → String → String → Tx OrderDb Order
confirm_body s c plan_id order_id = do
  existing ← existing_order c
  confirm_new s c plan_id order_id existing

unfoldable pub confirm_repeat_order :
    RepeatService → OrderCall → String → String → OrderDb → Result Order × OrderDb
confirm_repeat_order s c plan_id order_id = transaction (confirm_body s c plan_id order_id)
