-- ===== src/Application/CommercialSend.antt =====
-- application/commercial_execution.py: the external send of a commercial action under a durable,
-- leased reservation. The clock's readings are arguments, and `meanwhile` is what other transactions
-- do between the two transactions of a send.
pub mod Safety
pub mod Reserving
pub mod Outcome
use shema_business_platform.Prelude.{
  ℕ, Bool, true, false, not, ◌&&◌, Option, none, some, List, [], ◌∷◌, ◌++◌, String, Datetime,
  add_seconds, Eq, Error, external_effect_unknown, idempotency_conflict, quarantine_required,
  Result, ok, err, str_eq, format, if◌then◌else◌, is_some,
}
use shema_business_platform.Foundation.Authorization.{
  Authorizer, require, Permission, commercial_action_send,
}
use shema_business_platform.Foundation.Policy.{evaluate}
use shema_business_platform.Foundation.Outbox.{OutboxEvent, pending}
use shema_business_platform.Domain.CommercialAction.{
  CommercialActionStatus, draft, ready, sending, sent, failed, completed, cancelled,
  CommercialAction, has_evidence, is_sending,
}
use shema_business_platform.Platform.AuditTable.{AuditRecord, new_audit}
use shema_business_platform.Platform.AuditTable
use shema_business_platform.Platform.OutboxTable.{OutboxRow}
use shema_business_platform.Platform.OutboxTable
use shema_business_platform.Platform.IdempotencyTable.{IdempotencyRecord, KeyTable, is_pending_ref}
use shema_business_platform.Platform.IdempotencyTable
use shema_business_platform.Platform.ActionTable.{ActionTable, unknown_action, is_sent}
use shema_business_platform.Platform.ActionTable
use shema_business_platform.Platform.Transaction.{
  Tx, pure, raise, lift, or_raise, gets, transaction, ◌>>=◌, ◌>>◌, raise_if, modify,
}
use shema_business_platform.Application.Actor.{Actor, critical_context, unless_allowed}
use shema_business_platform.Application.Communication.{
  CommunicationAdapter, CommunicationSendResult,
}
use shema_business_platform.Application.Communication
use shema_business_platform.Application.SendEvents.{
  unknown_reason, quarantine_row, unknown_key, unknown_event, unknown_audit, sent_key, sent_event,
  sent_audit,
}
use shema_business_platform.Application.SendData.{
  status_value, SendPayload, unknown_effect, delivered, SendNote, unknown_note, delivered_note,
  QuarantineRow, SendDb, Sender, SendCommand, request_hash, pending_ref, effect_idempotency_key,
  worker_of, evidence_level, Reserved, replayed, leased, accepted_result,
}

unfoldable pub on_keys : {A : Type 0} → Tx KeyTable A → Tx SendDb A
on_keys m db = elim (m db.keys) [ ok (a, t) ↦ ok (a, record db { keys = t }) | err e ↦ err e ]

unfoldable pub on_actions : {A : Type 0} → Tx ActionTable A → Tx SendDb A
on_actions m db = elim (m db.actions) [
  | ok (a, t) ↦ ok (a, record db { actions = t })
  | err e ↦ err e
]

unfoldable pub append_event : Sender → OutboxEvent SendPayload → Tx SendDb (Unit {0})
append_event s e db = elim (OutboxTable.append s.same_payload e db.outbox) [
  | ok (_, rows) ↦ ok (tt, record db { outbox = rows })
  | err x ↦ err x
]

unfoldable pub append_audit : AuditRecord SendNote → Tx SendDb (Unit {0})
append_audit a db = elim (new_audit a) [
  | err x ↦ err x
  | ok a' ↦ elim (AuditTable.append a' db.audits) [
    | ok (_, rows) ↦ ok (tt, record db { audits = rows })
    | err x ↦ err x
  ]
]

unfoldable pub claim : SendCommand → Datetime → Tx SendDb Reserved
claim c now = do
  a ← on_actions (ActionTable.claim_for_send c.action_id (worker_of c) (add_seconds now 300) now)
  pure (leased a)

-- The branches on an existing idempotency record.
unfoldable pub reserve_key :
    Sender
    → SendCommand
    → Datetime
    → CommercialAction
    → Option IdempotencyRecord
    → Tx SendDb Reserved
reserve_key s c now a none = do
  on_keys (IdempotencyTable.reserve c.key (request_hash s c) (pending_ref c.action_id))
  claim c now
reserve_key s c now a (some e) =
    if not (str_eq e.request_hash (request_hash s c))
    then raise (idempotency_conflict "idempotency key reused with different request")
    else if not (is_pending_ref e.result_ref)
    then (if not (is_sent a.status)
        then raise
            (quarantine_required "idempotency result exists but commercial action is not sent")
        else pure (replayed (accepted_result a.action_id a.channel e.result_ref)))
    else if not (str_eq e.result_ref (pending_ref c.action_id))
    then raise (idempotency_conflict "idempotency key is reserved for another commercial action")
    else claim c now

abbrev pub is_owner : Option String → String → Bool
is_owner none id = false
is_owner (some o) id = str_eq o id

-- The first `with` block of `execute`.
unfoldable pub reserve_body : Sender → SendCommand → Datetime → Tx SendDb Reserved
reserve_body s c now = do
  existing ← gets (λ db. IdempotencyTable.get c.key db.keys)
  a ← λ db. or_raise (ActionTable.get c.action_id db.actions) (unknown_action c.action_id) db
  raise_if (not (is_owner a.owner_actor_id c.actor.actor_id))
      (quarantine_required "commercial action is outside the actor resource scope")
  d ← lift (
      evaluate (
        critical_context c.actor "commercial_action_send" "commercial_action" c.action_id
          (evidence_level a)))
  lift (unless_allowed d)
  reserve_key s c now a existing

-- The `with` block of `_quarantine_unknown_external_effect`.
unfoldable pub quarantine_body : Sender → SendCommand → Datetime → Datetime → Tx SendDb (Unit {0})
quarantine_body s c now at = do
  failed_row ← on_actions (ActionTable.fail_external_effect c.action_id (worker_of c) now)
  current ← λ db. or_raise (ActionTable.get c.action_id db.actions) (unknown_action c.action_id) db
  modify (λ db. record db {
    quarantine = db.quarantine ++ quarantine_row s c (unknown_reason failed_row) current ∷ [];
  })
  append_event s (unknown_event s c (unknown_reason failed_row) current at)
  append_audit (unknown_audit s c current at)

-- The end of the last `with` block, for an action that is still being sent.
unfoldable pub finish_send :
    Sender
    → SendCommand
    → CommunicationSendResult
    → IdempotencyRecord
    → Datetime
    → Datetime
    → Tx SendDb CommunicationSendResult
finish_send s c result done now at = do
  a ← on_actions (ActionTable.complete_send c.action_id (worker_of c) now)
  append_event s (sent_event s c a done.result_ref at)
  append_audit (sent_audit s c a done.result_ref at)
  pure result

-- The last `with` block of `execute`, and its returns.
unfoldable pub result_body :
    Sender
    → SendCommand
    → CommunicationSendResult
    → Datetime
    → Datetime
    → Tx SendDb CommunicationSendResult
result_body s c result now at = do
  done ← on_keys (IdempotencyTable.complete c.key (request_hash s c) result.external_message_id)
  current ← λ db. or_raise (ActionTable.get c.action_id db.actions) (unknown_action c.action_id) db
  if is_sent current.status
      then (if not (str_eq done.result_ref result.external_message_id)
          then raise
              (idempotency_conflict "external communication result differs from durable result")
          else pure (accepted_result c.action_id current.channel done.result_ref))
      else if not (is_sending current.status)
      then raise
          (quarantine_required "commercial action is no longer waiting for leased completion")
      else finish_send s c result done now at

-- What follows the gateway's call: `ExternalEffectUnknown` is caught, other exceptions pass.
unfoldable pub after_gateway :
    Sender
    → SendCommand
    → Datetime
    → Datetime
    → Result CommunicationSendResult
    → SendDb
    → Result CommunicationSendResult × SendDb
after_gateway s c now at (ok result) db = transaction (result_body s c result now at) db
after_gateway s c now at (err (external_effect_unknown m)) db =
    let (r, db') = transaction (quarantine_body s c now at) db in
    elim r [
      | ok _ ↦ (
        err (quarantine_required "external communication outcome is unknown; action quarantined"),
        db',
      )
      | err e ↦ (err e, db')
    ]
after_gateway s c now at (err e) db = (err e, db)

unfoldable pub after_reserve :
    Sender
    → SendCommand
    → (SendDb → SendDb)
    → Datetime
    → Datetime
    → Reserved
    → SendDb
    → Result CommunicationSendResult × SendDb
after_reserve s c meanwhile now at (replayed r) db = (ok r, db)
after_reserve s c meanwhile now at (leased a) db =
    after_gateway s c now at
      (Communication.send s.adapter a c.body (effect_idempotency_key c.action_id)) (meanwhile db)

-- `execute`: `claimed` is the time of the reservation, `now` and `at` those after the send.
unfoldable pub execute :
    Sender
    → SendCommand
    → (SendDb → SendDb)
    → Datetime
    → Datetime
    → Datetime
    → SendDb
    → Result CommunicationSendResult × SendDb
execute s c meanwhile claimed now at db =
    elim (require s.authorizer c.actor.actor_id commercial_action_send) [
      | err e ↦ (err e, db)
      | ok _ ↦
          let (r, db') = transaction (reserve_body s c claimed) db in
          elim r [
            | err e ↦ (err e, db')
            | ok reserved ↦ after_reserve s c meanwhile now at reserved db'
          ]
    ]
