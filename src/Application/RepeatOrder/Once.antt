-- ===== src/Application/RepeatOrder/Once.antt =====
-- The records of the idempotency keys under the statements of a unit of work.
use shema_business_platform.Prelude.{
  List, ◌≡◌, true, String, Result, Eq, inl, inr, arith, str_eq_iff, is_some, Option-cases,
}
use shema_business_platform.Prelude.Dict.{lookup, lookup-insert}
use shema_business_platform.Foundation.Outbox.{OutboxEvent}
use shema_business_platform.Platform.AuditTable.{AuditRecord}
use shema_business_platform.Platform.IdempotencyTable
use shema_business_platform.Platform.IdempotencyTable.{IdempotencyRecord, KeyTable}
use shema_business_platform.Platform.OrderTable.{OrderTables}
use shema_business_platform.Platform.PlanTable.{PlanTable}
use shema_business_platform.Platform.EconomicTable.{EntryRow}
use shema_business_platform.Platform.Transaction.{Tx}
use shema_business_platform.Platform.Transaction.Rules
use shema_business_platform.Application.OrderData.{
  OrderPayload, OrderNote, OrderDb, reads, on_keys, on_orders, on_plans, on_economics, append_event,
  append_audit,
}

-- The idempotency key has a record.
abbrev pub HasKey : String → OrderDb → Type 0
HasKey k db = is_some (lookup k db.keys) ≡ true

module _ (k : String) where
  pub reads-Keeps : {A : Type 0} (f : OrderDb → Result A) → Rules.Keeps (HasKey k) (reads f)
  unfolding reads
  reads-Keeps f s s' a p e = ground arith

  pub on_orders-Keeps :
      {A : Type 0} (f : OrderDb → Tx OrderTables A) → Rules.Keeps (HasKey k) (on_orders f)
  unfolding on_orders
  on_orders-Keeps f s s' a p e = ground arith

  pub on_plans-Keeps :
      {A : Type 0} (f : OrderDb → Tx PlanTable A) → Rules.Keeps (HasKey k) (on_plans f)
  unfolding on_plans
  on_plans-Keeps f s s' a p e = ground arith

  pub on_economics-Keeps :
      {A : Type 0} (m : Tx (List EntryRow) A) → Rules.Keeps (HasKey k) (on_economics m)
  unfolding on_economics
  on_economics-Keeps m s s' a p e = ground arith

  pub append_event-Keeps :
      (q : Eq OrderPayload) (x : OutboxEvent OrderPayload)
      → Rules.Keeps (HasKey k) (append_event q x)
  unfolding append_event
  append_event-Keeps q x s s' a p e = ground arith

  pub append_audit-Keeps : (x : AuditRecord OrderNote) → Rules.Keeps (HasKey k) (append_audit x)
  unfolding append_audit
  append_audit-Keeps x s s' a p e = ground arith

  -- A reservation that succeeds leaves a record under its key.
  pub reserve-Establishes :
      (hash ref : String)
      → Rules.Establishes (HasKey k) (on_keys (IdempotencyTable.reserve k hash ref))
  unfolding on_keys IdempotencyTable.reserve
  reserve-Establishes hash ref s s' r e = elim (Option-cases (lookup k s.keys)) [
    | inl new ↦ ground (
      arith,
      str_eq_iff k k,
      lookup-insert k k (record { key = k; request_hash = hash; result_ref = ref }) s.keys,
    )
    | inr (x, there) ↦ ground arith
  ]
