-- ===== src/Foundation/Policy/Critical.antt =====
-- `PolicyEngine.evaluate` of foundation/policy.py on the critical actions.
use shema_business_platform.Prelude.{
  ◌≤◌, ◌≡◌, ◌↔◌, refl, ap, inl, inr, Bool-cases, true, false, String, ok, str_eq, str_eq_iff,
  is_empty, arith,
}
use shema_business_platform.Foundation.Policy.{allow, PolicyContext, is_critical, evaluate}

ai_run_not_critical : is_critical "ai_run" ≡ false
unfolding is_critical
ai_run_not_critical = refl

not_ai_run : (action : String) → is_critical action ≡ true → str_eq action "ai_run" ≡ false
not_ai_run action h = elim (Bool-cases (str_eq action "ai_run")) [
  | inl e ↦ absurd (cc (ai_run_not_critical, ap is_critical ((str_eq_iff action "ai_run").0 e), h))
  | inr e ↦ e
]

-- A critical action is allowed exactly when the context names an actor, the actor and the resource
-- have trust level two at least, and so has the evidence; any other outcome is not an approval.
pub critical_allow_iff :
    (c : PolicyContext)
    → is_critical c.action ≡ true
    → (evaluate c ≡ ok (record { decision = allow; reason = "policy_ok" })) ↔ (
        (is_empty c.actor_id ≡ false)
        × (2 ≤ c.actor_trust_level)
        × (2 ≤ c.resource_trust_level)
        × (2 ≤ c.evidence_level))
unfolding evaluate
critical_allow_iff c h = (
  λ k. (ground arith, ground arith, ground arith, ground arith),
  λ k. ground (arith, not_ai_run c.action h),
)
