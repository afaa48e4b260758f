-- ===== src/Tests/Policies.antt =====
-- Runs of the policy, the authorizer and the resolution of identities.
use shema_business_platform.Prelude.{
  ◌≤◌, ◌≡◌, ◌↔◌, refl, Bool, true, false, none, some, [], ◌∷◌, String, ok, is_empty,
}
use shema_business_platform.Prelude.Dict.{insert}
use shema_business_platform.Foundation.Policy.{allow, PolicyContext, is_critical, evaluate}
use shema_business_platform.Foundation.Policy.Critical.{critical_allow_iff}
use shema_business_platform.Foundation.Authorization.{Permission, order_read, Authorizer, grant}
use shema_business_platform.Domain.Identity.{Identity, verified}

abbrev context : PolicyContext
context = record {
  actor_id = "anna";
  action = "order_create";
  resource_type = "order";
  resource_id = some "o1";
  actor_trust_level = 2;
  resource_trust_level = 2;
  evidence_level = 1;
  evidence_required = false;
}

order_critical : is_critical "order_create" ≡ true
unfolding is_critical
order_critical = refl

critical_allow_iff_example :
    (evaluate context ≡ ok (record { decision = allow; reason = "policy_ok" }))
    ↔ ((is_empty "anna" ≡ false) × (2 ≤ 2) × (2 ≤ 2) × (2 ≤ 1))
critical_allow_iff_example = critical_allow_iff context order_critical

abbrev reads : Permission → Bool
reads order_read = true
reads _ = false

abbrev reader : Authorizer
reader = ("anna", record { actor_id = "anna"; permissions = reads }) ∷ []

granted : grant "anna" reads [] ≡ ok reader
unfolding grant insert
granted = refl

abbrev company : String → Identity
company id = record {
  identity_id = id;
  canonical_name = "Romashka";
  state = verified;
  tax_id = some "7701";
  registration_id = none;
}
