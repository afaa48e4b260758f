-- ===== src/Foundation/Authorization.antt =====
-- foundation/authorization.py: role-based permissions. A frozen set of permissions is its test of
-- membership.
pub mod Grants
use shema_business_platform.Prelude.{
  Bool, true, false, List, [], ◌∷◌, Option, none, some, String, authorization_error, value_error,
  Result, ok, err, format, is_blank, is_empty, if◌then◌else◌,
}
use shema_business_platform.Prelude.Dict.{Dict, lookup, insert}

pub data Permission : Type 0 where
  commercial_action_create commercial_action_send order_create order_read : Permission
  economics_read diagnostics_read search_run discovery_run research_run : Permission
  counterparty_check counterparty_monitor_manage counterparty_favorite_manage : Permission
  intelligence_run intelligence_provider_activate intelligence_provider_lookup : Permission
  intelligence_provider_rollback ai_run public_intake_review : Permission

-- `permission.value`
abbrev pub permission_value : Permission → String
permission_value commercial_action_create = "commercial_action.create"
permission_value commercial_action_send = "commercial_action.send"
permission_value order_create = "order.create"
permission_value order_read = "order.read"
permission_value economics_read = "economics.read"
permission_value diagnostics_read = "diagnostics.read"
permission_value search_run = "search.run"
permission_value discovery_run = "discovery.run"
permission_value research_run = "research.run"
permission_value counterparty_check = "counterparty.check"
permission_value counterparty_monitor_manage = "counterparty.monitor.manage"
permission_value counterparty_favorite_manage = "counterparty.favorite.manage"
permission_value intelligence_run = "intelligence.run"
permission_value intelligence_provider_activate = "intelligence.provider.activate"
permission_value intelligence_provider_lookup = "intelligence.provider.lookup"
permission_value intelligence_provider_rollback = "intelligence.provider.rollback"
permission_value ai_run = "ai.run"
permission_value public_intake_review = "public_intake.review"

pub record AuthorizationSubject : Type 0 where
  pub actor_id : String
  pub permissions : Permission → Bool

-- `AuthorizationSubject.from_actor`
unfoldable pub from_actor : String → (Permission → Bool) → Result AuthorizationSubject
from_actor id ps =
    if is_blank id
    then err (value_error "actor_id is required")
    else ok (record { actor_id = id; permissions = ps })

-- The subjects of an authorizer, by actor id.
abbrev pub Authorizer : Type 0
Authorizer = Dict AuthorizationSubject

unfoldable pub new_authorizer : List AuthorizationSubject → Authorizer → Authorizer
new_authorizer [] d = d
new_authorizer (s ∷ rest) d = new_authorizer rest (insert s.actor_id s d)

abbrev allows : Option AuthorizationSubject → Permission → Bool
allows none p = false
allows (some s) p = s.permissions p

unfoldable pub is_allowed : Authorizer → String → Permission → Bool
is_allowed a id p = allows (lookup id a) p

unfoldable pub require : Authorizer → String → Permission → Result (Unit {0})
unfolding is_allowed
require a id p =
    if is_allowed a id p
    then ok tt
    else err (
        authorization_error
          (format ("permission denied: actor=" ∷ id ∷ " permission=" ∷ permission_value p ∷ [])))

unfoldable pub grant : String → (Permission → Bool) → Authorizer → Result Authorizer
grant id ps a =
    if is_empty id
    then err (value_error "actor_id is required")
    else ok (insert id (record { actor_id = id; permissions = ps }) a)
