-- ===== src/Application/CreateServices.antt =====
-- application/commercial_action.py and application/order.py: the services that build a commercial
-- action and an order under permission and policy.
pub mod Guards
use shema_business_platform.Prelude.{
  ℕ, Bool, true, false, not, Option, none, some, List, String, quarantine_required, Result, ok, err,
  ◌>>=◌, ◌>>◌, raise_if, str_eq, if◌then◌else◌,
}
use shema_business_platform.Foundation.Authorization.{
  Authorizer, require, commercial_action_create, order_create,
}
use shema_business_platform.Foundation.Policy.{evaluate}
use shema_business_platform.Domain.Identity.{Identity, require_verified}
use shema_business_platform.Domain.CommercialAction.{
  CommercialActionStatus, sent, completed, CommercialAction, has_evidence, validate_for_send,
  mark_ready,
}
use shema_business_platform.Domain.CommercialAction
use shema_business_platform.Domain.Order.{Order, OrderLine, new_order}
use shema_business_platform.Domain.Order
use shema_business_platform.Application.Actor.{Actor, critical_context, unless_allowed}

abbrev pub level : List String → ℕ
level refs = if has_evidence refs then 2 else 0

pub record ActionRequest : Type 0 where
  pub action_id : String
  pub contact_ref : String
  pub channel : String
  pub evidence_refs : List String

unfoldable pub create_ready :
    Authorizer → Actor → Identity → ActionRequest → Result CommercialAction
create_ready a actor i q = do
  require a actor.actor_id commercial_action_create
  require_verified i
  d ←
      evaluate (
        critical_context actor "commercial_action" "identity" i.identity_id (level q.evidence_refs))
  unless_allowed d
  mark_ready (record {
    action_id = q.action_id;
    identity_id = i.identity_id;
    contact_ref = q.contact_ref;
    channel = q.channel;
    evidence_refs = q.evidence_refs;
    owner_actor_id = some actor.actor_id;
    status = CommercialAction.draft;
    send_attempt = 0;
    send_worker_id = none;
    send_lease_until = none;
  })

-- `action.status in {SENT, COMPLETED}`
abbrev pub was_sent : CommercialActionStatus → Bool
was_sent sent = true
was_sent completed = true
was_sent _ = false

abbrev pub owner_is : Option String → String → Bool
owner_is none id = false
owner_is (some o) id = str_eq o id

unfoldable pub create_from_action :
    Authorizer → Actor → CommercialAction → String → List OrderLine → Result Order
create_from_action a actor action order_id lines = do
  require a actor.actor_id order_create
  raise_if (not (owner_is action.owner_actor_id actor.actor_id)) (
      quarantine_required
        "order creation is forbidden for a commercial action owned by another actor")
  raise_if (not (was_sent action.status))
      (quarantine_required "order requires a sent or completed commercial action")
  validate_for_send action
  d ← evaluate (
      critical_context actor "order_create" "identity" action.identity_id
        (level action.evidence_refs))
  unless_allowed d
  new_order (record {
    order_id = order_id;
    identity_id = action.identity_id;
    source_action_id = action.action_id;
    lines = lines;
    owner_actor_id = some actor.actor_id;
    status = Order.draft;
  })
