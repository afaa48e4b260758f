-- ===== src/Application/OrderData.antt =====
-- What the services that create orders share: the database that their units of work see, the
-- payloads of their events and the metadata of their audit records (application/repeat_order.py,
-- application/critical_workflows.py). `uuid5` has the fixed name space.
use shema_business_platform.Prelude.{
  ℕ, Bool, Option, List, String, Datetime, Eq, Result, ok, err, is_some,
}
use shema_business_platform.Prelude.Int.{ℤ}
use shema_business_platform.Prelude.Dict.{lookup}
use shema_business_platform.Foundation.Outbox.{OutboxEvent}
use shema_business_platform.Domain.Order.{
  OrderStatus, draft, confirmed, in_progress, completed, cancelled, failed,
}
use shema_business_platform.Domain.RepeatOrder.{
  RepeatPlanStatus, active, paused, RepeatCadenceUnit, day, week, month,
}
use shema_business_platform.Domain.RepeatOrder
use shema_business_platform.Platform.AuditTable.{AuditRecord, new_audit}
use shema_business_platform.Platform.AuditTable
use shema_business_platform.Platform.OutboxTable.{OutboxRow}
use shema_business_platform.Platform.OutboxTable
use shema_business_platform.Platform.IdempotencyTable.{KeyTable}
use shema_business_platform.Platform.IdentityTable.{IdentityTable}
use shema_business_platform.Platform.ActionTable.{ActionTable}
use shema_business_platform.Platform.OrderTable.{OrderTables}
use shema_business_platform.Platform.PlanTable.{PlanTable, Referenced}
use shema_business_platform.Platform.EconomicTable.{EntryRow}
use shema_business_platform.Platform.Transaction.{Tx}
use shema_business_platform.Application.Actor.{Actor}

-- `status.value`
abbrev pub status_value : OrderStatus → String
status_value draft = "draft"
status_value confirmed = "confirmed"
status_value in_progress = "in_progress"
status_value completed = "completed"
status_value cancelled = "cancelled"
status_value failed = "failed"

abbrev pub plan_status_value : RepeatPlanStatus → String
plan_status_value active = "active"
plan_status_value paused = "paused"
plan_status_value RepeatOrder.cancelled = "cancelled"

abbrev pub unit_value : RepeatCadenceUnit → String
unit_value day = "day"
unit_value week = "week"
unit_value month = "month"

-- The payloads of the events, with their values in the order of the source; a revenue is in cents.
pub data OrderPayload : Type 0 where
  plan_created : String → String → String → OrderPayload
  plan_changed : String → String → ℕ → OrderPayload
  repeat_created : String → String → String → String → OrderPayload
  repeat_confirmed : String → String → String → ℤ → OrderPayload
  action_created order_created : String → String → String → String → OrderPayload

-- The metadata of the audit records, likewise.
pub data OrderNote : Type 0 where
  plan_created_note : String → String → String → ℕ → OrderNote
  plan_changed_note : ℕ → String → Option String → ℕ → OrderNote
  repeat_created_note : String → String → String → OrderNote
  repeat_confirmed_note : String → String → String → ℤ → OrderNote
  action_created_note order_created_note : String → String → OrderNote

pub record OrderDb : Type 0 where
  pub keys : KeyTable
  pub identities : IdentityTable
  pub actions : ActionTable
  pub orders : OrderTables
  pub plans : PlanTable
  pub economics : List EntryRow
  pub outbox : List (OutboxRow OrderPayload)
  pub audits : List (AuditRecord OrderNote)

-- The actor and the keys of one call; `clock` gives the readings of the clock in turn.
pub record OrderCall : Type 0 where
  pub actor : Actor
  pub request_hash : String
  pub idempotency_key : String
  pub correlation_id : Option String
  pub clock : ℕ → Datetime

-- The ids that foreign keys may name.
abbrev pub referenced : OrderDb → Referenced
referenced db = record {
  is_order = λ id. is_some (lookup id db.orders.headers);
  is_identity = λ id. is_some (lookup id db.identities);
}

abbrev pub is_action : OrderDb → String → Bool
is_action db id = is_some (lookup id db.actions)

unfoldable pub on_keys : {A : Type 0} → Tx KeyTable A → Tx OrderDb A
on_keys m db = elim (m db.keys) [ ok (a, t) ↦ ok (a, record db { keys = t }) | err e ↦ err e ]

unfoldable pub on_orders : {A : Type 0} → (OrderDb → Tx OrderTables A) → Tx OrderDb A
on_orders m db = elim (m db db.orders) [
  | ok (a, t) ↦ ok (a, record db { orders = t })
  | err e ↦ err e
]

unfoldable pub on_actions : {A : Type 0} → Tx ActionTable A → Tx OrderDb A
on_actions m db = elim (m db.actions) [
  | ok (a, t) ↦ ok (a, record db { actions = t })
  | err e ↦ err e
]

unfoldable pub on_plans : {A : Type 0} → (OrderDb → Tx PlanTable A) → Tx OrderDb A
on_plans m db = elim (m db db.plans) [ ok (a, t) ↦ ok (a, record db { plans = t }) | err e ↦ err e ]

unfoldable pub on_economics : {A : Type 0} → Tx (List EntryRow) A → Tx OrderDb A
on_economics m db = elim (m db.economics) [
  | ok (a, t) ↦ ok (a, record db { economics = t })
  | err e ↦ err e
]

-- A reading of a table that may raise.
unfoldable pub reads : {A : Type 0} → (OrderDb → Result A) → Tx OrderDb A
reads f db = elim (f db) [ ok a ↦ ok (a, db) | err e ↦ err e ]

unfoldable pub append_event : Eq OrderPayload → OutboxEvent OrderPayload → Tx OrderDb (Unit {0})
append_event q e db = elim (OutboxTable.append q e db.outbox) [
  | ok (_, rows) ↦ ok (tt, record db { outbox = rows })
  | err x ↦ err x
]

unfoldable pub append_audit : AuditRecord OrderNote → Tx OrderDb (Unit {0})
append_audit a db = elim (new_audit a) [
  | err x ↦ err x
  | ok a' ↦ elim (AuditTable.append a' db.audits) [
    | ok (_, rows) ↦ ok (tt, record db { audits = rows })
    | err x ↦ err x
  ]
]
