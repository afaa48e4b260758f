-- ===== src/Foundation/Providers.antt =====
-- foundation/provider_activation.py, foundation/provider_budget.py and foundation/provider_health.py: the
-- switch of an external provider, its budget of calls and its health. `Cost` is the type of the floats
-- that limit costs and durations.
use shema_business_platform.Prelude.{
  ℕ, zero, suc, ◌+◌, ◌-◌, leb, ◌==◌, Bool, true, false, not, ◌&&◌, ◌||◌, Option, none, some, String,
  List, [], ◌∷◌, Datetime, integrity_violation, runtime_error, provider_budget_exceeded,
  value_error, key_error, Result, ok, err, str_eq, is_blank, format, if◌then◌else◌,
}
use shema_business_platform.Prelude.Dict.{Dict, lookup, insert, values}

-- `text[:n]`
abbrev pub take_text : ℕ → String → String
take_text zero s = String.[]
take_text (suc n) String.[] = String.[]
take_text (suc n) (String.◌∷◌ c s) = String.◌∷◌ c (take_text n s)

pub record ProviderActivationState (Cost : Type 0) : Type 0 where
  pub provider_id : String
  pub enabled : Bool
  pub configuration_version : Option String
  pub activation_version : Option String
  pub activated_by : Option String
  pub activated_at : Option Datetime
  pub max_cost : Option Cost
  pub max_duration_seconds : Option Cost
  pub rollback_by : Option String
  pub rollback_at : Option Datetime
  pub rollback_reason : Option String
  pub rollback_from_configuration_version : Option String

-- The arguments of a rollback.
pub record Rollback : Type 0 where
  pub provider_id : String
  pub rolled_back_by : String
  pub rolled_back_at : Datetime
  pub reason : String
  pub expected_activation_version : String
  pub expected_activated_at : Datetime

abbrev pub version_is : Option String → String → Bool
version_is none v = false
version_is (some s) v = str_eq s v

-- `==` with a timestamp; an aware one and a naive one differ.
abbrev pub time_is : Option Datetime → Datetime → Bool
time_is none u = false
time_is (some t) u = (if t.tz_aware then u.tz_aware else not u.tz_aware) && t.micros == u.micros

module _ {Cost : Type 0} where
  abbrev pub is_enabled : Option (ProviderActivationState Cost) → Bool
  is_enabled none = false
  is_enabled (some s) = s.enabled

  -- `InMemoryProviderActivationStateStore.activate`
  unfoldable pub activate :
      ProviderActivationState Cost
      → Dict (ProviderActivationState Cost)
      → Result (Dict (ProviderActivationState Cost))
  activate s d =
      if is_enabled (lookup s.provider_id d)
      then err (runtime_error "provider activation already enabled")
      else ok (insert s.provider_id s d)

  abbrev pub is_target : Rollback → ProviderActivationState Cost → Bool
  is_target r s =
      s.enabled
      && version_is s.activation_version r.expected_activation_version
      && time_is s.activated_at r.expected_activated_at

  abbrev pub rolled_back : Rollback → ProviderActivationState Cost → ProviderActivationState Cost
  rolled_back r s = record s {
    provider_id = r.provider_id;
    enabled = false;
    rollback_by = some r.rolled_back_by;
    rollback_at = some r.rolled_back_at;
    rollback_reason = some (take_text 256 r.reason);
    rollback_from_configuration_version = s.configuration_version;
  }

  -- `InMemoryProviderActivationStateStore.rollback`
  unfoldable pub rollback :
      Rollback → Dict (ProviderActivationState Cost) → Result (Dict (ProviderActivationState Cost))
  rollback r d = elim (lookup r.provider_id d) [
    | none ↦ err (integrity_violation "provider activation rollback has no state")
    | some s ↦
        if not (is_target r s)
        then err
            (integrity_violation "provider activation rollback lost its compare-and-set target")
        else ok (insert r.provider_id (rolled_back r s) d)
  ]

-- `ProviderCallBudget`: the budget's `max_calls`, and the calls made.
pub record CallBudget : Type 0 where
  pub max_calls : ℕ
  pub calls : ℕ

abbrev pub calls_remaining : CallBudget → ℕ
calls_remaining b = b.max_calls - b.calls

unfoldable pub reserve : CallBudget → Result CallBudget
reserve b =
    if leb b.max_calls b.calls
    then err (provider_budget_exceeded "provider call budget exhausted")
    else ok (record b { calls = b.calls + 1 })

pub record ProviderHealth : Type 0 where
  pub provider_id : String
  pub enabled : Bool
  pub configured : Bool
  pub reachable : Option Bool
  pub last_checked_at : Option Datetime
  pub last_error_code : Option String

-- `self.reachable is True`
abbrev pub is_reachable : Option Bool → Bool
is_reachable none = false
is_reachable (some b) = b

unfoldable pub is_ready : ProviderHealth → Bool
is_ready h = not h.enabled || (h.configured && is_reachable h.reachable)

abbrev pub HealthRegistry : Type 0
HealthRegistry = Dict ProviderHealth

unfoldable pub register : String → Bool → Bool → HealthRegistry → ProviderHealth × HealthRegistry
register id enabled configured d =
    let h : ProviderHealth = record {
      provider_id = id;
      enabled = enabled;
      configured = configured;
      reachable = none;
      last_checked_at = none;
      last_error_code = none;
    } in
    (h, insert id h d)

-- `_require`
unfoldable pub require_health : String → HealthRegistry → Result ProviderHealth
require_health id d = elim (lookup id d) [
  | none ↦ err (key_error (format ("provider health is not registered: " ∷ id ∷ [])))
  | some h ↦ ok h
]

-- `at` is `checked_at`, or the clock's reading where none is given.
unfoldable pub mark_reachable :
    String → Datetime → HealthRegistry → Result (ProviderHealth × HealthRegistry)
unfolding require_health
mark_reachable id at d = elim (require_health id d) [
  | err e ↦ err e
  | ok h ↦
      let next : ProviderHealth = record h {
        reachable = some true;
        last_checked_at = some at;
        last_error_code = none;
      } in
      ok (next, insert id next d)
]

unfoldable pub mark_unreachable :
    String → String → Datetime → HealthRegistry → Result (ProviderHealth × HealthRegistry)
unfolding require_health
mark_unreachable id code at d =
    if is_blank code
    then err (value_error "error_code is required")
    else elim (require_health id d) [
      | err e ↦ err e
      | ok h ↦
          let next : ProviderHealth = record h {
            reachable = some false;
            last_checked_at = some at;
            last_error_code = some (take_text 128 code);
          } in
          ok (next, insert id next d)
    ]

abbrev pub all_ready : List ProviderHealth → Bool
all_ready [] = true
all_ready (h ∷ hs) = is_ready h && all_ready hs

-- `ProviderHealthRegistry.ready`
unfoldable pub registry_ready : HealthRegistry → Bool
unfolding is_ready values
registry_ready d = all_ready (values d)
