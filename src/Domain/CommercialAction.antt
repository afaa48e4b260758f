-- ===== src/Domain/CommercialAction.antt =====
-- domain/commercial_action.py: the life of a commercial action up to its external send.
use shema_business_platform.Prelude.{
  ℕ, Bool, true, false, not, Option, none, some, List, [], ◌∷◌, String, Datetime, value_error,
  quarantine_required, Result, ok, ◌>>◌, raise_if, ltb, is_blank,
}

pub data CommercialActionStatus : Type 0 where
  draft ready sending sent failed completed cancelled : CommercialActionStatus

pub record CommercialAction : Type 0 where
  pub action_id : String
  pub identity_id : String
  pub contact_ref : String
  pub channel : String
  pub evidence_refs : List String
  pub owner_actor_id : Option String
  pub status : CommercialActionStatus
  pub send_attempt : ℕ
  pub send_worker_id : Option String
  pub send_lease_until : Option Datetime

-- `status in (READY, SENDING)`
abbrev pub is_sendable : CommercialActionStatus → Bool
is_sendable ready = true
is_sendable sending = true
is_sendable _ = false

abbrev pub is_sending : CommercialActionStatus → Bool
is_sending sending = true
is_sending _ = false

abbrev pub has_evidence : List String → Bool
has_evidence [] = false
has_evidence (r ∷ rs) = true

unfoldable pub validate_for_send : CommercialAction → Result (Unit {0})
validate_for_send a = do
  raise_if (is_blank a.identity_id) (quarantine_required "commercial action requires identity")
  raise_if (is_blank a.contact_ref) (quarantine_required "commercial action requires contact")
  raise_if (is_blank a.channel) (quarantine_required "commercial action requires channel")
  raise_if (not (has_evidence a.evidence_refs))
      (quarantine_required "commercial action requires evidence")

unfoldable pub validate_for_external_send : CommercialAction → Result (Unit {0})
unfolding validate_for_send
validate_for_external_send a = do
  raise_if (not (is_sendable a.status))
      (quarantine_required "commercial action must be ready or reserved before external send")
  validate_for_send a

-- The new action is built without a send worker and a send lease.
unfoldable pub mark_ready : CommercialAction → Result CommercialAction
unfolding validate_for_send
mark_ready a = do
  validate_for_send a
  ok (record a { status = ready; send_worker_id = none; send_lease_until = none })

unfoldable pub mark_sending : String → Datetime → ℕ → CommercialAction → Result CommercialAction
unfolding validate_for_send
mark_sending w until attempt a = do
  raise_if (is_blank w) (value_error "send worker is required")
  raise_if (not until.tz_aware) (value_error "send lease must be timezone-aware")
  raise_if (ltb attempt 1) (value_error "send attempt must be >= 1")
  raise_if (not (is_sendable a.status))
      (quarantine_required "commercial action is not available for send")
  validate_for_send a
  ok (record a {
    status = sending;
    send_attempt = attempt;
    send_worker_id = some w;
    send_lease_until = some until;
  })

unfoldable pub mark_sent : CommercialAction → Result CommercialAction
mark_sent a = do
  raise_if (not (is_sending a.status)) (value_error "only sending action can be marked sent")
  ok (record a { status = sent; send_worker_id = none; send_lease_until = none })
