-- ===== src/Foundation/Policy.antt =====
-- foundation/policy.py: the deterministic policy boundary.
pub mod Critical
use shema_business_platform.Prelude.{
  ℕ, Bool, true, false, ◌&&◌, ◌||◌, Option, String, policy_denied, Result, ok, err, ltb, str_eq,
  is_empty, if◌then◌else◌,
}

pub data Decision : Type 0 where
  allow deny review : Decision

pub record PolicyContext : Type 0 where
  pub actor_id : String
  pub action : String
  pub resource_type : String
  pub resource_id : Option String
  pub actor_trust_level : ℕ
  pub resource_trust_level : ℕ
  pub evidence_level : ℕ
  pub evidence_required : Bool

pub record PolicyDecision : Type 0 where
  pub decision : Decision
  pub reason : String

abbrev decide : Decision → String → Result PolicyDecision
decide d reason = ok (record { decision = d; reason = reason })

-- The actions that need an actor and a resource of trust level two and evidence of level two.
unfoldable pub is_critical : String → Bool
is_critical action =
    str_eq action "commercial_action"
    || str_eq action "commercial_action_send"
    || str_eq action "order_create"

-- The critical actions, and the end of `evaluate`.
unfoldable pub evaluate_critical : PolicyContext → Result PolicyDecision
evaluate_critical c =
    if is_critical c.action
    then (if ltb c.actor_trust_level 2
        then decide deny "actor_not_trusted"
        else if ltb c.resource_trust_level 2
        then decide deny "resource_not_verified"
        else if ltb c.evidence_level 2
        then decide review "critical_claims_need_evidence"
        else decide allow "policy_ok")
    else decide allow "policy_ok"

unfoldable pub evaluate : PolicyContext → Result PolicyDecision
unfolding evaluate_critical
evaluate c =
    if is_empty c.actor_id
    then err (policy_denied "actor_id is required")
    else if str_eq c.action "ai_run"
    then (if ltb c.actor_trust_level 1
        then decide deny "actor_not_trusted"
        else if ltb c.resource_trust_level 1
        then decide deny "resource_not_verified"
        else if c.evidence_required && ltb c.evidence_level 2
        then decide review "ai_task_needs_evidence"
        else evaluate_critical c)
    else evaluate_critical c
