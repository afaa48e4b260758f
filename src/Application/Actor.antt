-- ===== src/Application/Actor.antt =====
-- `Actor` of application/commands.py, and the guard that the services share: the permission, then
-- the policy's decision on a critical action.
use shema_business_platform.Prelude.{ℕ, Bool, some, String, policy_denied, Result, ok, err, false}
use shema_business_platform.Foundation.Authorization.{Permission}
use shema_business_platform.Foundation.Policy.{allow, PolicyContext, PolicyDecision}

pub record Actor : Type 0 where
  pub actor_id : String
  pub trust_level : ℕ
  pub permissions : Permission → Bool

abbrev pub critical_context : Actor → String → String → String → ℕ → PolicyContext
critical_context actor action kind id evidence = record {
  actor_id = actor.actor_id;
  action = action;
  resource_type = kind;
  resource_id = some id;
  actor_trust_level = actor.trust_level;
  resource_trust_level = 2;
  evidence_level = evidence;
  evidence_required = false;
}

-- `if decision.decision is not Decision.ALLOW: raise PolicyDenied(decision.reason)`
abbrev pub unless_allowed : PolicyDecision → Result (Unit {0})
unless_allowed d = elim d.decision [ allow ↦ ok tt | _ ↦ err (policy_denied d.reason) ]
