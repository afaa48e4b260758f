-- ===== src/Platform/ActivationTable.antt =====
-- platform/provider_activation_postgres.py: the provider switch that all replicas share, over the table
-- `provider_activation_state` of db/migrations/0013_provider_activation_state.sql.
pub mod Switch
use shema_business_platform.Prelude.{
  Bool, true, false, not, ◌&&◌, ◌||◌, Option, none, some, value_error, integrity_violation,
  database_error, Result, ok, err, is_some, if◌then◌else◌,
}
use shema_business_platform.Prelude.Dict.{Dict, lookup, insert}
use shema_business_platform.Foundation.Providers.{
  ProviderActivationState, Rollback, is_enabled, is_target, rolled_back,
}
use shema_business_platform.Platform.Transaction.{Tx, ◌>>=◌, ◌>>◌, raise_if}

-- `stored` is the float that a column `numeric(20,8)` gives back, and `is_positive` its comparison with 0.
module _ {Cost : Type 0} (stored : Cost → Cost) (is_positive : Cost → Bool) where
  abbrev pub column : Option Cost → Option Cost
  column none = none
  column (some x) = some (stored x)

  abbrev pub positive : Option Cost → Bool
  positive none = false
  positive (some x) = is_positive (stored x)

  -- The check constraint of the table on an enabled row.
  unfoldable pub limits_ok : ProviderActivationState Cost → Bool
  limits_ok s =
      is_some s.configuration_version
      && is_some s.activation_version
      && is_some s.activated_by
      && is_some s.activated_at
      && (not (is_some s.max_cost) || (positive s.max_cost && positive s.max_duration_seconds))

  -- The row that an activation writes.
  abbrev pub active_row : ProviderActivationState Cost → ProviderActivationState Cost
  active_row s = record s {
    enabled = true;
    max_cost = column s.max_cost;
    max_duration_seconds = column s.max_duration_seconds;
    rollback_by = none;
    rollback_at = none;
    rollback_reason = none;
    rollback_from_configuration_version = none;
  }

  -- `insert ... on conflict (provider_id) do update ... where enabled = false`
  unfoldable pub activate :
      ProviderActivationState Cost → Tx (Dict (ProviderActivationState Cost)) (Unit {0})
  unfolding limits_ok
  activate s = do
    raise_if (not s.enabled) (value_error "activation state must be enabled")
    raise_if (not (limits_ok s)) (database_error "check constraint violated")
    λ t.
        if is_enabled (lookup s.provider_id t)
        then err (integrity_violation "provider activation already enabled on another runtime")
        else ok (tt, insert s.provider_id (active_row s) t)

-- `update ... where enabled = true and activation_version = %s and activated_at = %s`
unfoldable pub rollback :
    {Cost : Type 0} → Rollback → Tx (Dict (ProviderActivationState Cost)) (Unit {0})
rollback r t = elim (lookup r.provider_id t) [
  | none ↦ err (integrity_violation "provider activation rollback lost its compare-and-set target")
  | some s ↦
      if is_target r s
      then ok (tt, insert r.provider_id (rolled_back r s) t)
      else err (integrity_violation "provider activation rollback lost its compare-and-set target")
]
