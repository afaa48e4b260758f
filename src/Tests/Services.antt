-- ===== src/Tests/Services.antt =====
-- Runs of the services of application/repeat_order.py and application/critical_workflows.py.
use shema_business_platform.Prelude.{
  ◌↔◌, ℕ_discrete, ◌≤◌, ◌≡◌, refl, inl, inr, str_eq, str_eq_iff, Bool-cases, arith, Bool, true,
  false, Option, none, some, [], ◌∷◌, String, Eq, Result, ok, err, value_error, is_blank,
}
use shema_business_platform.Prelude.Int.{ℤ}
use shema_business_platform.Prelude.Dict.{lookup, insert}
use shema_business_platform.Foundation.Authorization.{
  Permission, Authorizer, require, is_allowed, order_create,
}
use shema_business_platform.Foundation.Policy.{evaluate, is_critical}
use shema_business_platform.Domain.Identity.{Identity, verified, require_verified}
use shema_business_platform.Domain.CommercialAction.{CommercialAction, sent, validate_for_send}
use shema_business_platform.Domain.Order.{Order, new_order, draft, has_lines}
use shema_business_platform.Domain.RepeatOrder.{paused, pause}
use shema_business_platform.Platform.AuditTable.{new_audit, append}
use shema_business_platform.Platform.OutboxTable
use shema_business_platform.Platform.IdempotencyTable
use shema_business_platform.Platform.IdentityTable
use shema_business_platform.Platform.ActionTable
use shema_business_platform.Platform.OrderTable
use shema_business_platform.Platform.PlanTable
use shema_business_platform.Platform.OrderTable.Stored.{stored_order}
use shema_business_platform.Platform.Transaction.{transaction}
use shema_business_platform.Application.Actor.{Actor}
use shema_business_platform.Application.OrderData.{
  OrderPayload, OrderDb, OrderCall, reads, on_keys, on_orders, on_plans, append_event, append_audit,
}
use shema_business_platform.Application.RepeatOrder.Validation.{
  RepeatService, require_plan, verified_identity, require_owner, authorize, existing_plan,
  record_audit, event,
}
use shema_business_platform.Application.RepeatOrder.Plans.{
  pausing, cancelling, change_plan, fresh_change, mutate_new, mutate_body,
}
use shema_business_platform.Application.RepeatOrder.AtMostOnce.{
  Answer, plan_change, perform, effect_once,
}
use shema_business_platform.Application.CreateServices.{was_sent, create_from_action}
use shema_business_platform.Application.CreateServices.Guards.{order_from_sent}
use shema_business_platform.Application.CriticalWorkflows.{
  Workflow, announce, insert_order, fresh_order, order_by_key, create_order_body, create_order,
}
use shema_business_platform.Application.CriticalWorkflows.Created.{order_replayed}
use shema_business_platform.Tests.Orders.{at, tea, tea-IsLine, order, plan}

abbrev everything : Permission → Bool
everything p = true

abbrev anna : Actor
anna = record { actor_id = "anna"; trust_level = 2; permissions = everything }

abbrev grants : Authorizer
grants = ("anna", record { actor_id = "anna"; permissions = everything }) ∷ []

abbrev first_call : OrderCall
first_call = record {
  actor = anna;
  request_hash = "h";
  idempotency_key = "k";
  correlation_id = none;
  clock = at;
}

abbrev firm : Identity
firm = record {
  identity_id = "i";
  canonical_name = "Firm";
  state = verified;
  tax_id = none;
  registration_id = none;
}

abbrev sent_action : CommercialAction
sent_action = record {
  action_id = "a";
  identity_id = "i";
  contact_ref = "mail";
  channel = "email";
  evidence_refs = "e" ∷ [];
  owner_actor_id = some "anna";
  status = sent;
  send_attempt = 1;
  send_worker_id = none;
  send_lease_until = none;
}

abbrev shop : OrderDb
shop = record {
  keys = [];
  identities = ("i", firm) ∷ [];
  actions = ("a", sent_action) ∷ [];
  orders = record { headers = ("o", OrderTable.header_of order) ∷ []; lines = [] };
  plans = ("p", plan) ∷ [];
  economics = [];
  outbox = [];
  audits = [];
}

ℤ-discrete : Discrete ℤ
ℤ-discrete = hlevel ℕ_discrete

String-discrete : Discrete String
String-discrete s t = elim (Bool-cases (str_eq s t)) [
  | inl e ↦ yes ((str_eq_iff s t).0 e)
  | inr e ↦ no (λ q. absurd (ground (arith, str_eq_iff s t)))
]

payload-discrete : Discrete OrderPayload
unfolding ℤ-discrete
payload-discrete = hlevel (ℤ-discrete, ℕ_discrete, String-discrete)

abbrev holds : {a b : OrderPayload} → Dec (a ≡ b) → Bool
holds (yes e) = true
holds (no e) = false

holds_iff : {a b : OrderPayload} (d : Dec (a ≡ b)) → (holds d ≡ true) ↔ (a ≡ b)
holds_iff (yes e) = (λ h. e, λ h. refl)
holds_iff (no e) = (λ h. cc, λ h. absurd (e h))

same_iff : (a b : OrderPayload) → (holds (payload-discrete a b) ≡ true) ↔ (a ≡ b)
same_iff a b = holds_iff (payload-discrete a b)

abbrev same_payload : Eq OrderPayload
same_payload = record { beq = λ a b. holds (payload-discrete a b); beq_iff = same_iff }

abbrev service : RepeatService
service = record {
  authorizer = grants;
  revalidate = λ i o p. err (value_error "unused");
  uuid5 = λ s. s;
  same_payload = same_payload;
}

abbrev workflow : Workflow
workflow = record { authorizer = grants; uuid5 = λ s. s; same_payload = same_payload }

abbrev pausing_run : Result Answer × OrderDb
pausing_run = perform service first_call (plan_change "p" pausing) shop

plan_was_paused : pausing_run.0 ≡ ok (inl (record plan { status = paused; revision = 2 }))
unfolding perform mutate_body existing_plan IdempotencyTable.get lookup mutate_new fresh_change
    require_plan reads PlanTable.get is_blank require_owner verified_identity IdentityTable.get
    require_verified authorize require evaluate is_critical on_keys IdempotencyTable.reserve insert
    change_plan pause on_plans PlanTable.save record_audit append_audit new_audit append event
    append_event OutboxTable.append transaction
plan_was_paused = refl

effect_once_example :
    (perform service first_call (plan_change "p" cancelling) pausing_run.1).1 ≡ pausing_run.1
effect_once_example =
    effect_once service first_call first_call (plan_change "p" pausing) (plan_change "p" cancelling)
      shop pausing_run.1 (inl (record plan { status = paused; revision = 2 }))
      (λ i. (plan_was_paused i, pausing_run.1)) refl

created :
    create_from_action grants anna sent_action "o2" (tea ∷ [])
    ≡ ok (record order { order_id = "o2" })
unfolding create_from_action require lookup evaluate is_critical validate_for_send new_order
    is_blank
created = refl

order_from_sent_example :
    (is_allowed grants "anna" order_create ≡ true)
    × (2 ≤ 2)
    × (◌≡◌ {A = Option String} (some "anna") (some "anna"))
    × (was_sent sent ≡ true)
    × (validate_for_send sent_action ≡ ok tt)
    × (has_lines (tea ∷ []) ≡ true)
    × (record order { order_id = "o2" } ≡ record {
      order_id = "o2";
      identity_id = "i";
      source_action_id = "a";
      lines = tea ∷ [];
      owner_actor_id = some "anna";
      status = draft;
    })
order_from_sent_example =
    order_from_sent grants anna sent_action "o2" (tea ∷ []) (record order { order_id = "o2" })
      created

abbrev created_run : Result Order × OrderDb
created_run = create_order workflow first_call "a" "o2" (tea ∷ []) shop

order_was_created : created_run.0 ≡ ok (record order { order_id = "o2" })
unfolding create_order create_order_body IdempotencyTable.get ActionTable.get lookup insert
    order_by_key fresh_order on_keys IdempotencyTable.reserve insert_order create_from_action
    require evaluate is_critical validate_for_send new_order is_blank on_orders OrderTable.add
    announce append_event OutboxTable.append append_audit new_audit append transaction
order_was_created = refl

key_is_new : lookup "k" shop.keys ≡ none
unfolding lookup
key_is_new = refl

order_replayed_example :
    (OrderTable.get "o2" created_run.1.orders
      ≡ ok (some (stored_order (record order { order_id = "o2" }))))
    × (create_order workflow first_call "other" "o3" [] created_run.1
        ≡ (ok (stored_order (record order { order_id = "o2" })), created_run.1))
order_replayed_example =
    order_replayed workflow first_call first_call "a" "o2" "other" "o3" (tea ∷ []) [] shop
      created_run.1 (record order { order_id = "o2" }) key_is_new (tea-IsLine, tt) (λ id h. refl)
      refl refl (λ i. (order_was_created i, created_run.1))
