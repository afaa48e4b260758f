-- ===== src/Application/CriticalWorkflows.antt =====
-- application/critical_workflows.py: creating a commercial action, and an order from a sent one, each in
-- one unit of work under an idempotency key.
pub mod Created
use shema_business_platform.Prelude.{
  ℕ, Bool, true, false, not, Option, none, some, List, [], ◌∷◌, String, Datetime, Eq, key_error,
  integrity_violation, idempotency_conflict, Result, ok, err, str_eq, format, if◌then◌else◌,
}
use shema_business_platform.Foundation.Authorization.{Authorizer}
use shema_business_platform.Foundation.Outbox.{pending}
use shema_business_platform.Domain.CommercialAction.{CommercialAction}
use shema_business_platform.Domain.Identity.{Identity}
use shema_business_platform.Domain.Order.{Order, OrderLine}
use shema_business_platform.Platform.IdempotencyTable
use shema_business_platform.Platform.IdempotencyTable.{IdempotencyRecord}
use shema_business_platform.Platform.IdentityTable
use shema_business_platform.Platform.ActionTable
use shema_business_platform.Platform.OrderTable
use shema_business_platform.Platform.Transaction.{
  Tx, pure, raise, lift, or_raise, gets, transaction, ◌>>=◌, ◌>>◌,
}
use shema_business_platform.Application.SendData
use shema_business_platform.Application.OrderData.{
  OrderPayload, action_created, order_created, OrderNote, action_created_note, order_created_note,
  OrderDb, OrderCall, reads, on_keys, on_orders, on_actions, is_action, status_value, append_event,
  append_audit,
}
use shema_business_platform.Application.CreateServices.{
  ActionRequest, create_ready, create_from_action,
}

pub record Workflow : Type 0 where
  pub authorizer : Authorizer
  pub uuid5 : String → String
  pub same_payload : Eq OrderPayload

-- The event and the audit record of a creation; `occurred_at` is one reading of the clock.
unfoldable pub announce :
    Workflow
    → OrderCall
    → String
    → String
    → String
    → String
    → OrderPayload
    → OrderNote
    → Tx OrderDb (Unit {0})
announce w c key kind name id payload note = do
  append_event w.same_payload (record {
    event_id = w.uuid5 (format (key ∷ ":" ∷ id ∷ []));
    event_type = name;
    aggregate_type = kind;
    aggregate_id = id;
    payload = payload;
    occurred_at = c.clock 0;
    status = pending;
  })
  append_audit (record {
    audit_id = w.uuid5 (format ("audit:" ∷ key ∷ ":" ∷ id ∷ []));
    actor_id = c.actor.actor_id;
    action = name;
    resource_type = kind;
    resource_id = some id;
    outcome = "success";
    occurred_at = c.clock 0;
    metadata = note;
    correlation_id = c.correlation_id;
    configuration_version = none;
  })

-- What a record of a key names.
unfoldable pub referenced_action : String → String → Tx OrderDb CommercialAction
referenced_action message id = do
  found ← gets (λ db. ActionTable.get id db.actions)
  or_raise found (integrity_violation message)

unfoldable pub referenced_order : String → String → Tx OrderDb Order
referenced_order message id = do
  found ← reads (λ db. OrderTable.get id db.orders)
  or_raise found (integrity_violation message)

unfoldable pub insert_action :
    Workflow
    → OrderCall
    → Identity
    → ActionRequest
    → IdempotencyRecord
    → Tx OrderDb CommercialAction
insert_action w c i q r =
    if not (str_eq r.result_ref q.action_id)
    then referenced_action "idempotency reservation references missing commercial action"
        r.result_ref
    else do
      a ← lift (create_ready w.authorizer c.actor i q)
      on_actions (ActionTable.add a)
      announce w c "commercial-action.created" "commercial_action" "commercial_action.created"
          q.action_id
          (action_created q.action_id a.identity_id a.channel (SendData.status_value a.status))
          (action_created_note a.identity_id a.channel)
      pure a

unfoldable pub fresh_action :
    Workflow → OrderCall → String → ActionRequest → Tx OrderDb CommercialAction
fresh_action w c identity_id q = do
  found ← gets (λ db. IdentityTable.get identity_id db.identities)
  i ← or_raise found (key_error (format ("unknown identity: " ∷ identity_id ∷ [])))
  r ← on_keys (IdempotencyTable.reserve c.idempotency_key c.request_hash q.action_id)
  insert_action w c i q r

unfoldable pub action_by_key :
    Workflow
    → OrderCall
    → String
    → ActionRequest
    → Option IdempotencyRecord
    → Tx OrderDb CommercialAction
action_by_key w c identity_id q none = fresh_action w c identity_id q
action_by_key w c identity_id q (some e) =
    if not (str_eq e.request_hash c.request_hash)
    then raise (idempotency_conflict "idempotency key reused with different request")
    else referenced_action "idempotency record references missing commercial action" e.result_ref

unfoldable pub create_action_body :
    Workflow → OrderCall → String → ActionRequest → Tx OrderDb CommercialAction
create_action_body w c identity_id q = do
  existing ← gets (λ db. IdempotencyTable.get c.idempotency_key db.keys)
  action_by_key w c identity_id q existing

-- `CommercialActionCreateWorkflow.execute`
unfoldable pub create_action :
    Workflow → OrderCall → String → ActionRequest → OrderDb → Result CommercialAction × OrderDb
create_action w c identity_id q = transaction (create_action_body w c identity_id q)

unfoldable pub insert_order :
    Workflow
    → OrderCall
    → CommercialAction
    → String
    → List OrderLine
    → IdempotencyRecord
    → Tx OrderDb Order
insert_order w c a order_id lines r =
    if not (str_eq r.result_ref order_id)
    then referenced_order "idempotency reservation references missing order" r.result_ref
    else do
      o ← lift (create_from_action w.authorizer c.actor a order_id lines)
      on_orders (λ db. OrderTable.add (is_action db) o)
      announce w c "order.created" "order" "order.created" order_id
          (order_created order_id o.identity_id o.source_action_id (status_value o.status))
          (order_created_note o.identity_id o.source_action_id)
      pure o

unfoldable pub fresh_order :
    Workflow → OrderCall → String → String → List OrderLine → Tx OrderDb Order
fresh_order w c action_id order_id lines = do
  found ← gets (λ db. ActionTable.get action_id db.actions)
  a ← or_raise found (key_error (format ("unknown commercial action: " ∷ action_id ∷ [])))
  r ← on_keys (IdempotencyTable.reserve c.idempotency_key c.request_hash order_id)
  insert_order w c a order_id lines r

unfoldable pub order_by_key :
    Workflow
    → OrderCall
    → String
    → String
    → List OrderLine
    → Option IdempotencyRecord
    → Tx OrderDb Order
order_by_key w c action_id order_id lines none = fresh_order w c action_id order_id lines
order_by_key w c action_id order_id lines (some e) =
    if not (str_eq e.request_hash c.request_hash)
    then raise (idempotency_conflict "idempotency key reused with different request")
    else referenced_order "idempotency record references missing order" e.result_ref

unfoldable pub create_order_body :
    Workflow → OrderCall → String → String → List OrderLine → Tx OrderDb Order
create_order_body w c action_id order_id lines = do
  existing ← gets (λ db. IdempotencyTable.get c.idempotency_key db.keys)
  order_by_key w c action_id order_id lines existing

-- `OrderCreateWorkflow.execute`
unfoldable pub create_order :
    Workflow → OrderCall → String → String → List OrderLine → OrderDb → Result Order × OrderDb
create_order w c action_id order_id lines =
    transaction (create_order_body w c action_id order_id lines)
