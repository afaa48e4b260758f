-- ===== src/Application/CreateServices/Guards.antt =====
-- What an action or an order that is created went through.
use shema_business_platform.Prelude.{
  ap, ◌≤◌, ◌≡◌, refl, true, Option, none, some, List, String, ok, inl, inr, arith, Result-cases,
  str_eq_iff,
}
use shema_business_platform.Foundation.Authorization.{
  Authorizer, is_allowed, require, commercial_action_create, order_create,
}
use shema_business_platform.Foundation.Policy.{PolicyContext, PolicyDecision, evaluate, is_critical}
use shema_business_platform.Domain.Identity.{Identity, is_verified, require_verified}
use shema_business_platform.Domain.CommercialAction.{
  CommercialAction, ready, has_evidence, validate_for_send, mark_ready,
}
use shema_business_platform.Domain.Order.{Order, OrderLine, draft, new_order, has_lines}
use shema_business_platform.Application.Actor.{Actor, critical_context, unless_allowed}
use shema_business_platform.Application.CreateServices.{
  ActionRequest, level, create_ready, owner_is, was_sent, create_from_action,
}

owned : (o : Option String) (id : String) → owner_is o id ≡ true → o ≡ some id
owned none id h = absurd (ground arith)
owned (some x) id h = ap some ((str_eq_iff x id).0 h)

order_create_critical : is_critical "order_create" ≡ true
unfolding is_critical
order_create_critical = refl

commercial_action_critical : is_critical "commercial_action" ≡ true
unfolding is_critical
commercial_action_critical = refl

-- A critical action that the policy lets pass has an actor and evidence of level two.
passed_levels :
    (c : PolicyContext) (d : PolicyDecision)
    → is_critical c.action ≡ true
    → evaluate c ≡ ok d
    → unless_allowed d ≡ ok tt
    → (2 ≤ c.actor_trust_level) × (2 ≤ c.evidence_level)
unfolding evaluate
passed_levels c d critical h k = (ground arith, ground arith)

level_evidence : (refs : List String) → 2 ≤ level refs → has_evidence refs ≡ true
level_evidence refs h = ground arith

-- An order is created only by an actor with the permission and trust level two, from a commercial action
-- of that actor that was sent, with an identity, a contact, a channel and evidence; it is a draft with lines, of that
-- action, its identity and the actor.
pub order_from_sent :
    (a : Authorizer) (actor : Actor) (action : CommercialAction) (id : String)
    (lines : List OrderLine) (o : Order)
    → create_from_action a actor action id lines ≡ ok o
    → (is_allowed a actor.actor_id order_create ≡ true)
      × (2 ≤ actor.trust_level)
      × (action.owner_actor_id ≡ some actor.actor_id)
      × (was_sent action.status ≡ true)
      × (validate_for_send action ≡ ok tt)
      × (has_lines lines ≡ true)
      × (o ≡ record {
        order_id = id;
        identity_id = action.identity_id;
        source_action_id = action.action_id;
        lines = lines;
        owner_actor_id = some actor.actor_id;
        status = draft;
      })
unfolding create_from_action
order_from_sent a actor action id lines o h =
    let context =
      critical_context actor "order_create" "identity" action.identity_id
        (level action.evidence_refs) in
    elim (Result-cases (evaluate context)) [
      | inr (e, raised) ↦ absurd (ground arith)
      | inl (d, decided) ↦
          let sound : validate_for_send action ≡ ok tt = ground arith in
          let passed : unless_allowed d ≡ ok tt = ground arith in
          let (trust, _) = passed_levels context d order_create_critical decided passed in
          let permitted : require a actor.actor_id order_create ≡ ok tt = ground arith in
          let made : new_order (record {
            order_id = id;
            identity_id = action.identity_id;
            source_action_id = action.action_id;
            lines = lines;
            owner_actor_id = some actor.actor_id;
            status = draft;
          })
              ≡ ok o =
            ground arith in
          (
            unfold require in ground arith,
            trust,
            ground (arith, owned action.owner_actor_id actor.actor_id),
            ground arith,
            sound,
            unfold new_order in ground arith,
            unfold new_order in ground arith,
          )
    ]

-- A commercial action is created only by an actor with the permission and trust level two, for a verified
-- identity and with evidence; it is ready to be sent, owned by the actor, and valid for sending.
pub ready_guarded :
    (a : Authorizer) (actor : Actor) (i : Identity) (q : ActionRequest) (r : CommercialAction)
    → create_ready a actor i q ≡ ok r
    → (is_allowed a actor.actor_id commercial_action_create ≡ true)
      × (2 ≤ actor.trust_level)
      × (is_verified i.state ≡ true)
      × (has_evidence q.evidence_refs ≡ true)
      × (r.owner_actor_id ≡ some actor.actor_id)
      × (r.identity_id ≡ i.identity_id)
      × (r.status ≡ ready)
      × (validate_for_send r ≡ ok tt)
unfolding create_ready
ready_guarded a actor i q r h =
    let context =
      critical_context actor "commercial_action" "identity" i.identity_id (level q.evidence_refs) in
    elim (Result-cases (evaluate context)) [
      | inr (e, raised) ↦ absurd (ground arith)
      | inl (d, decided) ↦
          let passed : unless_allowed d ≡ ok tt = ground arith in
          let (trust, evidence) =
            passed_levels context d commercial_action_critical decided passed in
          let permitted : require a actor.actor_id commercial_action_create ≡ ok tt =
            ground arith in
          let verified : require_verified i ≡ ok tt = ground arith in
          (
            unfold require in ground arith,
            trust,
            unfold require_verified in ground arith,
            level_evidence q.evidence_refs evidence,
            unfold mark_ready in ground arith,
            unfold mark_ready in ground arith,
            unfold mark_ready in ground arith,
            unfold mark_ready validate_for_send in ground arith,
          )
    ]

pub created-made :
    (a : Authorizer) (actor : Actor) (action : CommercialAction) (id : String)
    (lines : List OrderLine) (o : Order)
    → create_from_action a actor action id lines ≡ ok o
    → new_order o ≡ ok o
unfolding create_from_action new_order
created-made a actor action id lines o h =
    let context =
      critical_context actor "order_create" "identity" action.identity_id
        (level action.evidence_refs) in
    elim (Result-cases (evaluate context)) [
      | inr (e, raised) ↦ absurd (ground arith)
      | inl (d, decided) ↦ ground arith
    ]
