-- ===== src/Application/SendData.antt =====
-- application/commercial_execution.py: the data of an external send, its tables, payloads, keys and
-- references. `digest` is the hexadecimal SHA-256 of a text, `uuid5` has the fixed name space, and
-- `token` is the fresh `uuid4`.
use shema_business_platform.Prelude.{
  ℕ, true, Option, List, [], ◌∷◌, String, Eq, format, if◌then◌else◌,
}
use shema_business_platform.Foundation.Authorization.{Authorizer}
use shema_business_platform.Domain.CommercialAction.{
  CommercialActionStatus, draft, ready, sending, sent, failed, completed, cancelled,
  CommercialAction, has_evidence,
}
use shema_business_platform.Platform.AuditTable.{AuditRecord}
use shema_business_platform.Platform.OutboxTable.{OutboxRow}
use shema_business_platform.Platform.IdempotencyTable.{KeyTable}
use shema_business_platform.Platform.ActionTable.{ActionTable}
use shema_business_platform.Application.Actor.{Actor}
use shema_business_platform.Application.Communication.{
  CommunicationAdapter, CommunicationSendResult,
}

-- `status.value`
abbrev pub status_value : CommercialActionStatus → String
status_value draft = "draft"
status_value ready = "ready"
status_value sending = "sending"
status_value sent = "sent"
status_value failed = "failed"
status_value completed = "completed"
status_value cancelled = "cancelled"

-- The payloads of the two events.
pub data SendPayload : Type 0 where
  unknown_effect : String → String → String → String → String → Option String → String → SendPayload
  delivered : String → String → String → String → SendPayload

-- The metadata of the two audit records; the name of the exception's class is left out.
pub data SendNote : Type 0 where
  unknown_note : String → ℕ → String → Option String → String → SendNote
  delivered_note : String → String → ℕ → SendNote

-- A row of `quarantine_record`; its random key is left out.
pub record QuarantineRow : Type 0 where
  pub object_type : String
  pub object_ref : String
  pub reason_code : String
  pub request_hash : String
  pub command_key : String
  pub effect_key : String
  pub send_attempt : ℕ
  pub observed_worker : String
  pub current_worker : Option String
  pub current_status : String

pub record SendDb : Type 0 where
  pub keys : KeyTable
  pub actions : ActionTable
  pub quarantine : List QuarantineRow
  pub outbox : List (OutboxRow SendPayload)
  pub audits : List (AuditRecord SendNote)

pub record Sender : Type 0 where
  pub authorizer : Authorizer
  pub adapter : CommunicationAdapter
  pub digest : String → String
  pub uuid5 : String → String
  pub same_payload : Eq SendPayload

-- One command: who sends which action with which text under which idempotency key.
pub record SendCommand : Type 0 where
  pub actor : Actor
  pub action_id : String
  pub body : String
  pub key : String
  pub token : String

unfoldable pub request_hash : Sender → SendCommand → String
request_hash s c = s.digest (format (c.action_id ∷ "\n" ∷ c.key ∷ "\n" ∷ c.body ∷ []))

unfoldable pub pending_ref : String → String
pending_ref id = format ("pending:" ∷ id ∷ [])

unfoldable pub effect_idempotency_key : String → String
effect_idempotency_key id = format ("commercial-send:" ∷ id ∷ [])

abbrev pub worker_of : SendCommand → String
worker_of c = format ("commercial-send:" ∷ c.token ∷ [])

abbrev pub evidence_level : CommercialAction → ℕ
evidence_level a = if has_evidence a.evidence_refs then 2 else 0

-- What the first transaction yields: an earlier result, or the action that it has leased.
pub data Reserved : Type 0 where
  replayed : CommunicationSendResult → Reserved
  leased : CommercialAction → Reserved

abbrev pub accepted_result : String → String → String → CommunicationSendResult
accepted_result id channel message = record {
  action_id = id;
  channel = channel;
  external_message_id = message;
  accepted = true;
}
