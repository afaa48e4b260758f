-- ===== src/Application/RepeatOrder/Validation.antt =====
-- `RepeatOrderValidation` of application/repeat_order.py, the parts of the service that its operations
-- share, and its audit records and events.
use shema_business_platform.Prelude.{
  ℕ, Bool, false, not, ◌&&◌, ◌||◌, Option, none, some, List, [], ◌∷◌, ◌++◌, String, Datetime, Eq,
  is_empty, format, quarantine_required, policy_denied, integrity_violation, idempotency_conflict,
  key_error, Result, ok, err, str_eq, if◌then◌else◌,
}
use shema_business_platform.Foundation.Authorization.{Authorizer, require, order_create}
use shema_business_platform.Foundation.Outbox.{pending}
use shema_business_platform.Foundation.Policy.{allow, deny, review, PolicyDecision, evaluate}
use shema_business_platform.Domain.Identity.{Identity, require_verified}
use shema_business_platform.Domain.Order.{OrderLine, Order, has_lines}
use shema_business_platform.Domain.RepeatOrder.{RepeatOrderPlan}
use shema_business_platform.Platform.IdempotencyTable
use shema_business_platform.Platform.IdempotencyTable.{IdempotencyRecord}
use shema_business_platform.Platform.IdentityTable
use shema_business_platform.Platform.OrderTable
use shema_business_platform.Platform.PlanTable
use shema_business_platform.Platform.Transaction.{Tx, pure, lift, or_raise, gets, ◌>>=◌, ◌>>◌}
use shema_business_platform.Application.Actor.{Actor, critical_context}
use shema_business_platform.Application.OrderData.{
  OrderPayload, OrderNote, OrderDb, OrderCall, reads, append_event, append_audit,
}

pub record RepeatOrderValidation : Type 0 where
  pub counterparty_ok : Bool
  pub service_scope_ok : Bool
  pub pricing_ok : Bool
  pub date_capacity_ok : Bool
  pub evidence_fresh_ok : Bool
  pub resolved_lines : List OrderLine
  pub failure_reasons : List String

unfoldable pub approved : RepeatOrderValidation → Bool
approved v =
    v.counterparty_ok
    && v.service_scope_ok
    && v.pricing_ok
    && v.date_capacity_ok
    && v.evidence_fresh_ok
    && has_lines v.resolved_lines

abbrev pub unless : Bool → String → List String
unless holds reason = if holds then [] else reason ∷ []

unfoldable pub is_listed : String → List String → Bool
is_listed s [] = false
is_listed s (t ∷ ts) = str_eq t s || is_listed s ts

-- `dict.fromkeys(failures)`: each text once, in the order of the first occurrences.
unfoldable pub from_keys : List String → List String → List String
unfolding is_listed
from_keys seen [] = []
from_keys seen (s ∷ ss) =
    let rest = from_keys seen ss in
    let rest_new = from_keys (s ∷ seen) ss in if is_listed s seen then rest else s ∷ rest_new

-- `", ".join(...)`
abbrev pub joined : List String → String
joined [] = ""
joined (s ∷ []) = s
joined (s ∷ t ∷ ts) = format (s ∷ ", " ∷ joined (t ∷ ts) ∷ [])

unfoldable pub describe_failure : RepeatOrderValidation → String
unfolding from_keys
describe_failure v =
    let text = joined (
      from_keys [] (
        v.failure_reasons
        ++ (unless v.counterparty_ok "counterparty_identity_or_status"
            ++ (unless v.service_scope_ok "service_scope"
                ++ (unless v.pricing_ok "current_pricing_or_policy"
                    ++ (unless v.date_capacity_ok "date_or_capacity_assumptions"
                        ++ (unless v.evidence_fresh_ok "evidence_freshness"
                            ++ unless (has_lines v.resolved_lines) "resolved_order_lines"))))))) in
    if is_empty text then "repeat_order_validation_failed" else text

-- The service: `revalidate` is `RepeatOrderRevalidator.validate`, an outside check that may raise.
pub record RepeatService : Type 0 where
  pub authorizer : Authorizer
  pub revalidate : Identity → Order → RepeatOrderPlan → Result RepeatOrderValidation
  pub uuid5 : String → String
  pub same_payload : Eq OrderPayload

unfoldable pub require_validation : RepeatOrderValidation → Result (Unit {0})
unfolding approved describe_failure
require_validation v =
    if approved v
    then ok tt
    else err (
        quarantine_required (format ("repeat order validation failed: " ∷ describe_failure v ∷ [])))

unfoldable pub require_plan : String → Tx OrderDb RepeatOrderPlan
require_plan id = do
  found ← reads (λ db. PlanTable.get id db.plans)
  or_raise found (key_error (format ("unknown repeat plan: " ∷ id ∷ [])))

unfoldable pub verified_identity : String → Tx OrderDb Identity
unfolding require_verified
verified_identity id = do
  found ← gets (λ db. IdentityTable.get id db.identities)
  i ← or_raise found (integrity_violation "repeat order references missing counterparty identity")
  lift (require_verified i)
  pure i

abbrev pub is_owned : Option String → Actor → Bool
is_owned none actor = false
is_owned (some o) actor = not (is_empty o) && str_eq o actor.actor_id

unfoldable pub require_owner : Option String → Actor → Result (Unit {0})
require_owner owner actor =
    if is_owned owner actor
    then ok tt
    else err (quarantine_required "repeat-order resource is outside the actor resource scope")

abbrev pub unless_permitted : PolicyDecision → Result (Unit {0})
unless_permitted d = elim d.decision [
  | allow ↦ ok tt
  | deny ↦ err (policy_denied d.reason)
  | review ↦ err (quarantine_required d.reason)
]

unfoldable pub authorize : RepeatService → Actor → Identity → ℕ → Tx OrderDb (Unit {0})
authorize s actor i evidence = do
  lift (require s.authorizer actor.actor_id order_create)
  d ← lift (evaluate (critical_context actor "order_create" "identity" i.identity_id evidence))
  lift (unless_permitted d)

abbrev pub fresh_level : RepeatOrderValidation → ℕ
fresh_level v = if v.evidence_fresh_ok then 2 else 0

abbrev pub reused : IdempotencyRecord → OrderCall → Bool
reused e c = not (str_eq e.request_hash c.request_hash)

unfoldable pub existing_plan : OrderCall → Tx OrderDb (Option RepeatOrderPlan)
existing_plan c db = elim (IdempotencyTable.get c.idempotency_key db.keys) [
  | none ↦ ok (none, db)
  | some e ↦
      if reused e c
      then err (idempotency_conflict "idempotency key reused with different request")
      else elim (PlanTable.get e.result_ref db.plans) [
        | err x ↦ err x
        | ok none ↦ err (integrity_violation "idempotency record references missing repeat plan")
        | ok (some p) ↦ ok (some p, db)
      ]
]

unfoldable pub existing_order : OrderCall → Tx OrderDb (Option Order)
existing_order c db = elim (IdempotencyTable.get c.idempotency_key db.keys) [
  | none ↦ ok (none, db)
  | some e ↦
      if reused e c
      then err (idempotency_conflict "idempotency key reused with different request")
      else elim (OrderTable.get e.result_ref db.orders) [
        | err x ↦ err x
        | ok none ↦ err (integrity_violation "idempotency record references missing repeat order")
        | ok (some o) ↦ ok (some o, db)
      ]
]

-- The stored result of another reservation.
unfoldable pub stored_plan : IdempotencyRecord → Tx OrderDb RepeatOrderPlan
stored_plan r = do
  found ← reads (λ db. PlanTable.get r.result_ref db.plans)
  or_raise found (integrity_violation "idempotency reservation references missing repeat plan")

unfoldable pub stored_order : String → IdempotencyRecord → Tx OrderDb Order
stored_order kind r = do
  found ← reads (λ db. OrderTable.get r.result_ref db.orders)
  or_raise found (
      integrity_violation
        (format ("idempotency reservation references missing " ∷ kind ∷ " order" ∷ [])))

unfoldable pub record_audit :
    RepeatService
    → OrderCall
    → String
    → String
    → String
    → OrderNote
    → Datetime
    → Tx OrderDb (Unit {0})
record_audit s c action kind id note at = append_audit (record {
  audit_id = s.uuid5 (format ("audit:" ∷ action ∷ ":" ∷ id ∷ ":" ∷ c.idempotency_key ∷ []));
  actor_id = c.actor.actor_id;
  action = action;
  resource_type = kind;
  resource_id = some id;
  outcome = "success";
  occurred_at = at;
  metadata = note;
  correlation_id = c.correlation_id;
  configuration_version = none;
})

unfoldable pub event :
    RepeatService
    → OrderCall
    → String
    → String
    → String
    → OrderPayload
    → Datetime
    → Tx OrderDb (Unit {0})
event s c type' kind id payload at = append_event s.same_payload (record {
  event_id = s.uuid5 (format (type' ∷ ":" ∷ kind ∷ ":" ∷ id ∷ ":" ∷ c.idempotency_key ∷ []));
  event_type = type';
  aggregate_type = kind;
  aggregate_id = id;
  payload = payload;
  occurred_at = at;
  status = pending;
})
