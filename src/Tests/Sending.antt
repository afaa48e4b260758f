-- ===== src/Tests/Sending.antt =====
-- Runs of the send of a commercial action: application/commercial_execution.py, the gateway of
-- application/communication.py and the table `commercial_action`.
use text.Mathlib.Text.{starts_with}
use shema_business_platform.Prelude.{
  ℕ, ◌≤◌, ◌<◌, ◌≡◌, ◌≢◌, ◌↔◌, refl, Bool, true, false, ◌&&◌, Option, none, some, [], ◌∷◌, ◌++◌,
  String, Datetime, add_seconds, external_effect_unknown, quarantine_required, integrity_violation,
  ok, err, str_eq, str_eq_iff, is_blank, arith,
}
use shema_business_platform.Prelude.Dict.{lookup, insert}
use shema_business_platform.Foundation.Authorization.{Permission}
use shema_business_platform.Foundation.Policy.{is_critical, evaluate}
use shema_business_platform.Domain.CommercialAction.{
  ready, sending, failed, CommercialAction, is_sendable, has_evidence,
}
use shema_business_platform.Platform.Transaction.{transaction}
use shema_business_platform.Platform.AuditTable.{new_audit, has_audit}
use shema_business_platform.Platform.AuditTable
use shema_business_platform.Platform.OutboxTable
use shema_business_platform.Platform.OutboxTable.Append.{IsStored}
use shema_business_platform.Platform.IdempotencyTable.{reservation}
use shema_business_platform.Platform.IdempotencyTable
use shema_business_platform.Platform.ActionTable.{
  ActionTable, claim_for_send, claim_row, is_claimable, is_held, complete_send,
  fail_external_effect, release,
}
use shema_business_platform.Platform.ActionTable
use shema_business_platform.Platform.ActionTable.Lease.{
  send_claims_exclusive, stale_sender_rejected,
}
use shema_business_platform.Application.Communication.{
  CommunicationAdapter, CommunicationSendRequest, CommunicationSendResult, send_request,
  check_result,
}
use shema_business_platform.Application.Communication
use shema_business_platform.Application.Communication.Answers.{send_checked}
use shema_business_platform.Application.SendData.{
  SendPayload, unknown_effect, delivered, SendDb, Sender, SendCommand, leased, worker_of,
  request_hash, pending_ref,
}
use shema_business_platform.Application.SendEvents.{
  quarantine_row, unknown_key, unknown_event, unknown_audit,
}
use shema_business_platform.Application.CommercialSend.{
  on_keys, on_actions, append_event, append_audit, claim, reserve_key, reserve_body,
  quarantine_body, result_body, after_gateway, execute,
}
use shema_business_platform.Application.CommercialSend.Safety.{not_sendable_never_sent}
use shema_business_platform.Application.CommercialSend.Reserving.{IsReserved, leased_before_send}
use shema_business_platform.Application.CommercialSend.Outcome.{unknown_effect_never_retried}

different : (s t : String) → str_eq s t ≡ false → s ≢ t
different s t h e = ground (arith, str_eq_iff s t)

abbrev at : ℕ → Datetime
at n = record { tz_aware = true; micros = n }

abbrev action : CommercialAction
action = record {
  action_id = "a";
  identity_id = "i";
  contact_ref = "mail";
  channel = "email";
  evidence_refs = "e1" ∷ [];
  owner_actor_id = some "anna";
  status = ready;
  send_attempt = 0;
  send_worker_id = none;
  send_lease_until = none;
}

abbrev lease_end : Datetime
lease_end = add_seconds (at 10) 300

abbrev worker_1 : String
worker_1 = "commercial-send:1"

abbrev worker_2 : String
worker_2 = "commercial-send:2"

abbrev reserved : CommercialAction
reserved = claim_row worker_1 lease_end action

abbrev free_table : ActionTable
free_table = ("a", action) ∷ []

abbrev taken_table : ActionTable
taken_table = ("a", reserved) ∷ []

first_send : claim_for_send "a" worker_1 lease_end (at 10) free_table ≡ ok (reserved, taken_table)
unfolding claim_for_send lookup insert is_blank
first_send = refl

send_claims_exclusive_example :
    claim_for_send "a" worker_2 (at 900000000) (at 20) taken_table ≢ ok (reserved, taken_table)
send_claims_exclusive_example =
    send_claims_exclusive "a" worker_1 worker_2 lease_end (at 900000000) (at 10) (at 20) free_table
      taken_table taken_table reserved reserved first_send (omega arith)

worker_1_named : is_blank worker_1 ≡ false
unfolding is_blank
worker_1_named = refl

worker_2_named : is_blank worker_2 ≡ false
unfolding is_blank
worker_2_named = refl

stale_sender_rejected_example :
    (complete_send "a" worker_2 (at 20) taken_table
      ≡ err (
          integrity_violation
            "commercial action completion rejected: missing or expired send lease"))
    × (fail_external_effect "a" worker_2 (at 20) taken_table ≡ ok (none, taken_table))
stale_sender_rejected_example =
    stale_sender_rejected "a" worker_2 worker_1 lease_end (at 10) (at 20) free_table taken_table
      reserved first_send (different worker_2 worker_1 refl) worker_2_named refl

reserved_stored : lookup "a" taken_table ≡ some reserved
unfolding lookup
reserved_stored = refl

reserved_held : is_held worker_1 (at 20) reserved ≡ true
unfolding is_held
reserved_held = refl

abbrev accepted : CommunicationSendResult
accepted = record {
  action_id = "a";
  channel = "email";
  external_message_id = "m1";
  accepted = true;
}

abbrev mailer : CommunicationAdapter
mailer = record { channel = "email"; send = λ q. ok accepted }

gateway_run : Communication.send mailer reserved "hello" "commercial-send:a" ≡ ok accepted
unfolding Communication.send is_blank
gateway_run = refl

send_checked_example :
    (is_sendable sending ≡ true)
    × (has_evidence reserved.evidence_refs ≡ true)
    × (is_blank reserved.contact_ref ≡ false)
    × (reserved.channel ≡ mailer.channel)
    × (mailer.send (record {
      action_id = "a";
      channel = "email";
      contact_ref = "mail";
      body = "hello";
      idempotency_key = "commercial-send:a";
    })
        ≡ ok accepted)
    × (accepted.action_id ≡ reserved.action_id)
    × (accepted.channel ≡ reserved.channel)
    × (true ≡ true)
    × (is_blank accepted.external_message_id ≡ false)
    × (starts_with accepted.external_message_id "pending:" ≡ false)
send_checked_example = send_checked mailer reserved "hello" "commercial-send:a" accepted gateway_run

abbrev same_worker : Option String → Option String → Bool
same_worker none none = true
same_worker (some v) (some w) = str_eq v w
same_worker _ _ = false

same_worker_iff : (v w : Option String) → (same_worker v w ≡ true) ↔ (v ≡ w)
same_worker_iff none none = ground arith
same_worker_iff none (some w) = ground arith
same_worker_iff (some v) none = ground arith
same_worker_iff (some v) (some w) = ground (arith, str_eq_iff v w)

abbrev same : SendPayload → SendPayload → Bool
same (unknown_effect a b c d e f g) (unknown_effect a' b' c' d' e' f' g') =
    str_eq a a'
    && str_eq b b'
    && str_eq c c'
    && str_eq d d'
    && str_eq e e'
    && same_worker f f'
    && str_eq g g'
same (delivered a b c d) (delivered a' b' c' d') =
    str_eq a a' && str_eq b b' && str_eq c c' && str_eq d d'
same _ _ = false

same_iff : (p q : SendPayload) → (same p q ≡ true) ↔ (p ≡ q)
same_iff (unknown_effect a b c d e f g) (unknown_effect a' b' c' d' e' f' g') = ground (
  arith,
  str_eq_iff a a',
  str_eq_iff b b',
  str_eq_iff c c',
  str_eq_iff d d',
  str_eq_iff e e',
  same_worker_iff f f',
  str_eq_iff g g',
)
same_iff (delivered a b c d) (delivered a' b' c' d') =
    ground (arith, str_eq_iff a a', str_eq_iff b b', str_eq_iff c c', str_eq_iff d d')
same_iff (unknown_effect a b c d e f g) (delivered a' b' c' d') = ground arith
same_iff (delivered a b c d) (unknown_effect a' b' c' d' e' f' g') = ground arith

abbrev everything : Permission → Bool
everything p = true

abbrev sender : Sender
sender = record {
  authorizer = ("anna", record { actor_id = "anna"; permissions = everything }) ∷ [];
  adapter = mailer;
  digest = λ s. s;
  uuid5 = λ s. s;
  same_payload = record { beq = same; beq_iff = same_iff };
}

abbrev command : SendCommand
command = record {
  actor = record { actor_id = "anna"; trust_level = 2; permissions = everything };
  action_id = "a";
  body = "hello";
  key = "k";
  token = "1";
}

abbrev db_with : ActionTable → SendDb
db_with t = record { keys = []; actions = t; quarantine = []; outbox = []; audits = [] }

abbrev reserved_db : SendDb
reserved_db = record (db_with taken_table) {
  keys = ("k", reservation "k" (request_hash sender command) (pending_ref "a")) ∷ [];
}

reserve_run :
    reserve_body sender command (at 10) (db_with free_table) ≡ ok (leased reserved, reserved_db)
unfolding reserve_body reserve_key claim on_keys on_actions IdempotencyTable.get
    IdempotencyTable.reserve ActionTable.get claim_for_send lookup insert evaluate is_critical
    is_blank
reserve_run = refl

leased_before_send_example :
    (before : CommercialAction) × (lookup "a" free_table ≡ some before)
    × (before.owner_actor_id ≡ some "anna")
    × (2 ≤ 2)
    × (has_evidence before.evidence_refs ≡ true)
    × (is_claimable (at 10) before ≡ true)
    × (lookup "a" taken_table ≡ some reserved)
    × ((t : Datetime) → t.micros < lease_end.micros → is_held (worker_of command) t reserved ≡ true)
    × IsReserved sender command reserved_db.keys
leased_before_send_example =
    leased_before_send sender command (at 10) (db_with free_table) reserved_db reserved reserve_run

abbrev stopped : ActionTable
stopped = ("a", release failed reserved) ∷ []

stopped_there : lookup "a" stopped ≡ some (release failed reserved)
unfolding lookup
stopped_there = refl

abbrev nothing : SendDb → SendDb
nothing db = db

not_sendable_never_sent_example :
    (execute sender command nothing (at 10) (at 20) (at 20) (db_with stopped)
      ≡ execute
          (record sender { adapter = mailer })
          command
          nothing
          (at 10)
          (at 20)
          (at 20)
          (db_with stopped))
    × ((execute sender command nothing (at 10) (at 20) (at 20) (db_with stopped)).1
        ≡ db_with stopped)
not_sendable_never_sent_example =
    not_sendable_never_sent sender command mailer nothing nothing (at 10) (at 20) (at 20)
      (db_with stopped) (release failed reserved) stopped_there refl

abbrev unknown_db : SendDb
unknown_db = (transaction (quarantine_body sender command (at 20) (at 20)) reserved_db).1

unknown_run : quarantine_body sender command (at 20) (at 20) reserved_db ≡ ok (tt, unknown_db)
unfolding transaction quarantine_body on_actions ActionTable.get fail_external_effect append_event
    append_audit OutboxTable.append AuditTable.append new_audit unknown_audit unknown_event
    unknown_key lookup insert is_blank request_hash
unknown_run = refl

command_named : is_blank (worker_of command) ≡ false
unfolding is_blank
command_named = refl

unknown_effect_never_retried_example :
    let gone = release failed reserved in
    let reason : String = "external_effect_unknown" in
    (after_gateway sender command
        (at 20)
        (at 20)
        (err (external_effect_unknown "timeout"))
        reserved_db
      ≡ (
        err (quarantine_required "external communication outcome is unknown; action quarantined"),
        unknown_db,
      ))
    × (lookup "a" unknown_db.actions ≡ some gone)
    × (unknown_db.quarantine
        ≡ reserved_db.quarantine ++ quarantine_row sender command reason gone ∷ [])
    × IsStored (unknown_event sender command reason gone (at 20)) unknown_db.outbox
    × (has_audit (unknown_audit sender command gone (at 20)).audit_id unknown_db.audits ≡ true)
    × ((z : Sender) (later : SendCommand) (meanwhile : SendDb → SendDb) (t₁ t₂ t₃ : Datetime)
        → later.action_id ≡ "a"
        → (execute z later meanwhile t₁ t₂ t₃ unknown_db).1 ≡ unknown_db)
unknown_effect_never_retried_example =
    unknown_effect_never_retried sender command "timeout" (at 20) (at 20) reserved_db unknown_db
      reserved reserved_stored reserved_held command_named refl unknown_run

abbrev sent_db : SendDb
sent_db = (transaction (result_body sender command accepted (at 20) (at 20)) reserved_db).1
