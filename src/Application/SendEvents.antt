-- ===== src/Application/SendEvents.antt =====
-- application/commercial_execution.py: the quarantine row, the outbox events and the audit records of
-- an external send.
use shema_business_platform.Prelude.{Option, none, some, [], ◌∷◌, String, Datetime, format}
use shema_business_platform.Foundation.Outbox.{OutboxEvent, pending}
use shema_business_platform.Domain.CommercialAction.{CommercialAction}
use shema_business_platform.Platform.AuditTable.{AuditRecord}
use shema_business_platform.Application.SendData.{
  status_value, SendPayload, unknown_effect, delivered, SendNote, unknown_note, delivered_note,
  QuarantineRow, Sender, SendCommand, request_hash, effect_idempotency_key, worker_of,
}

abbrev pub unknown_reason : Option CommercialAction → String
unknown_reason none = "external_effect_unknown_stale_worker"
unknown_reason (some a) = "external_effect_unknown"

unfoldable pub quarantine_row : Sender → SendCommand → String → CommercialAction → QuarantineRow
quarantine_row s c reason current = record {
  object_type = "commercial_action";
  object_ref = c.action_id;
  reason_code = reason;
  request_hash = request_hash s c;
  command_key = c.key;
  effect_key = effect_idempotency_key c.action_id;
  send_attempt = current.send_attempt;
  observed_worker = worker_of c;
  current_worker = current.send_worker_id;
  current_status = status_value current.status;
}

unfoldable pub unknown_key : Sender → SendCommand → String
unknown_key s c = format (
    "commercial-action.external-effect-unknown:"
    ∷ c.action_id
    ∷ ":"
    ∷ request_hash s c
    ∷ ":"
    ∷ worker_of c
    ∷ [])

unfoldable pub unknown_event :
    Sender → SendCommand → String → CommercialAction → Datetime → OutboxEvent SendPayload
unknown_event s c reason current at = record {
  event_id = s.uuid5 (unknown_key s c);
  event_type = "commercial_action.external_effect_unknown";
  aggregate_type = "commercial_action";
  aggregate_id = c.action_id;
  payload =
      unknown_effect c.action_id current.channel reason (request_hash s c) (worker_of c)
        current.send_worker_id (status_value current.status);
  occurred_at = at;
  status = pending;
}

unfoldable pub unknown_audit :
    Sender → SendCommand → CommercialAction → Datetime → AuditRecord SendNote
unknown_audit s c current at = record {
  audit_id = s.uuid5 (format ("audit:" ∷ unknown_key s c ∷ []));
  actor_id = c.actor.actor_id;
  action = "commercial_action.external_effect_unknown";
  resource_type = "commercial_action";
  resource_id = some c.action_id;
  outcome = "quarantined";
  occurred_at = at;
  correlation_id = none;
  configuration_version = none;
  metadata =
      unknown_note current.channel current.send_attempt (worker_of c) current.send_worker_id
        (status_value current.status);
}

unfoldable pub sent_key : SendCommand → String → String
sent_key c message = format ("commercial-action.sent:" ∷ c.action_id ∷ ":" ∷ message ∷ [])

unfoldable pub sent_event :
    Sender → SendCommand → CommercialAction → String → Datetime → OutboxEvent SendPayload
sent_event s c a message at = record {
  event_id = s.uuid5 (sent_key c message);
  event_type = "commercial_action.sent";
  aggregate_type = "commercial_action";
  aggregate_id = c.action_id;
  payload = delivered c.action_id a.identity_id a.channel message;
  occurred_at = at;
  status = pending;
}

unfoldable pub sent_audit :
    Sender → SendCommand → CommercialAction → String → Datetime → AuditRecord SendNote
sent_audit s c a message at = record {
  audit_id = s.uuid5 (format ("audit:" ∷ sent_key c message ∷ []));
  actor_id = c.actor.actor_id;
  action = "commercial_action.sent";
  resource_type = "commercial_action";
  resource_id = some c.action_id;
  outcome = "success";
  occurred_at = at;
  correlation_id = none;
  configuration_version = none;
  metadata = delivered_note a.channel message a.send_attempt;
}
