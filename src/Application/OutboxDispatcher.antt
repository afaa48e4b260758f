-- ===== src/Application/OutboxDispatcher.antt =====
-- application/outbox_dispatcher.py: external publication of the outbox, at least once. The publisher is a
-- parameter; what it does to the database stands for all that other transactions do meanwhile.
pub mod Publishing
use shema_business_platform.Prelude.{
  ℕ, suc, ◌+◌, leb, ltb, Bool, true, false, not, Option, none, some, List, [], ◌∷◌, String,
  Datetime, Error, value_error, Result, ok, err, ◌>>◌, raise_if, is_blank, format, str_of,
  if◌then◌else◌,
}
use shema_business_platform.Foundation.Outbox.{OutboxEvent, OutboxDelivery}
use shema_business_platform.Platform.AuditTable.{AuditRecord, new_audit}
use shema_business_platform.Platform.AuditTable
use shema_business_platform.Platform.OutboxTable.{OutboxRow}
use shema_business_platform.Platform.OutboxTable
use shema_business_platform.Platform.Transaction.{Tx, transaction}

-- The metadata: the event's type, aggregate type and aggregate, the attempt, and an error.
pub record DispatchNote : Type 0 where
  pub event_type : String
  pub aggregate_type : String
  pub aggregate_id : String
  pub delivery_attempt : ℕ
  pub error : Option String

pub record DispatchDb (P : Type 0) : Type 0 where
  pub outbox : List (OutboxRow P)
  pub audits : List (AuditRecord DispatchNote)

pub record Dispatcher (P : Type 0) : Type 0 where
  pub publish : OutboxEvent P → DispatchDb P → Result (Unit {0}) × DispatchDb P
  pub uuid5 : String → String
  pub safe_error_detail : Error → String
  pub worker_id : String
  pub lease_seconds : ℕ

abbrev pub one_more : Result ℕ → Result ℕ
one_more (ok n) = ok (n + 1)
one_more (err e) = err e

module _ {P : Type 0} where
  -- `OutboxDispatcher(...)`
  unfoldable pub new_dispatcher : Dispatcher P → Result (Dispatcher P)
  new_dispatcher s =
      if is_blank s.worker_id
      then err (value_error "worker_id is required")
      else if leb s.lease_seconds 0
      then err (value_error "lease_seconds must be > 0")
      else ok s

  abbrev pub note_of : OutboxDelivery P → Option String → DispatchNote
  note_of d error = record {
    event_type = d.event.event_type;
    aggregate_type = d.event.aggregate_type;
    aggregate_id = d.event.aggregate_id;
    delivery_attempt = d.attempt;
    error = error;
  }

  abbrev pub audit_of :
      Dispatcher P
      → OutboxDelivery P
      → String
      → String
      → String
      → Option String
      → Datetime
      → AuditRecord DispatchNote
  audit_of s d key action outcome error at = record {
    audit_id = s.uuid5 key;
    actor_id = s.worker_id;
    action = action;
    resource_type = "outbox_event";
    resource_id = some d.event.event_id;
    outcome = outcome;
    occurred_at = at;
    metadata = note_of d error;
    correlation_id = none;
    configuration_version = none;
  }

  unfoldable pub append_audit : AuditRecord DispatchNote → Tx (DispatchDb P) (Unit {0})
  append_audit a db = elim (new_audit a) [
    | err x ↦ err x
    | ok a' ↦ elim (AuditTable.append a' db.audits) [
      | ok (_, rows) ↦ ok (tt, record db { audits = rows })
      | err x ↦ err x
    ]
  ]

  unfoldable pub mark :
      Dispatcher P → OutboxDelivery P → Datetime → Tx (DispatchDb P) (OutboxEvent P)
  mark s d now db = elim (OutboxTable.mark_published d.event.event_id s.worker_id now db.outbox) [
    | ok (e, rows) ↦ ok (e, record db { outbox = rows })
    | err x ↦ err x
  ]

  -- The unit of work after a publication.
  unfoldable pub record_published :
      Dispatcher P → OutboxDelivery P → Datetime → Datetime → Tx (DispatchDb P) (Unit {0})
  unfolding mark append_audit
  record_published s d now at db = elim (mark s d now db) [
    | err x ↦ err x
    | ok (_, db') ↦
        append_audit
          (audit_of s d (format ("audit:outbox.published:" ∷ d.event.event_id ∷ []))
            "outbox.published" "success" none at)
          db'
  ]

  -- `_audit_delivery_failure`, whose own failure is swallowed.
  unfoldable pub audit_failure :
      Dispatcher P → OutboxDelivery P → Error → Datetime → DispatchDb P → DispatchDb P
  unfolding append_audit
  audit_failure s d e at db =
      (transaction
        (append_audit (
          audit_of s d
            (format ("audit:outbox.failed:" ∷ d.event.event_id ∷ ":" ∷ str_of d.attempt ∷ []))
            "outbox.publish_failed" "failure" (some (s.safe_error_detail e)) at))
        db).1

  -- The loop over the deliveries; `k` numbers the readings of the clock.
  unfoldable pub publish_all :
      Dispatcher P
      → (ℕ → Datetime)
      → ℕ
      → List (OutboxDelivery P)
      → DispatchDb P
      → Result ℕ × DispatchDb P
  unfolding record_published audit_failure
  publish_all s clock k [] db = (ok 0, db)
  publish_all s clock k (d ∷ ds) db =
      let (sent, db1) = s.publish d.event db in
      elim sent [
        | err e ↦ (err e, audit_failure s d e (clock k) db1)
        | ok _ ↦
            let (marked, db2) = transaction (record_published s d (clock k) (clock (k + 1))) db1 in
            elim marked [
              | err e ↦ (err e, db2)
              | ok _ ↦
                  let (count, db3) = publish_all s clock (k + 2) ds db2 in (one_more count, db3)
            ]
      ]

  unfoldable pub claim :
      (String → Bool) → Dispatcher P → Datetime → ℕ → Tx (DispatchDb P) (List (OutboxDelivery P))
  claim locked s now limit db =
      elim (OutboxTable.claim_pending locked s.worker_id s.lease_seconds now limit db.outbox) [
        | ok (ds, rows) ↦ ok (ds, record db { outbox = rows })
        | err x ↦ err x
      ]

  unfoldable pub dispatch_pending :
      (String → Bool) → Dispatcher P → (ℕ → Datetime) → ℕ → DispatchDb P → Result ℕ × DispatchDb P
  unfolding claim publish_all
  dispatch_pending locked s clock limit db =
      if ltb limit 1
      then (err (value_error "limit must be >= 1"), db)
      else let (claimed, db1) = transaction (claim locked s (clock 0) limit) db in
        elim claimed [ err e ↦ (err e, db1) | ok ds ↦ publish_all s clock 1 ds db1 ]
