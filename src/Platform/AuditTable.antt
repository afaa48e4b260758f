-- ===== src/Platform/AuditTable.antt =====
-- `AuditRecord` of foundation/audit.py and `PostgresAuditRepository.append` over the table
-- `audit_log`, whose primary key is `audit_id`. The type of the metadata is a parameter.
use shema_business_platform.Prelude.{
  Bool, false, ◌||◌, Option, List, [], ◌∷◌, ◌++◌, String, Datetime, value_error, database_error,
  Result, ok, err, str_eq, is_blank, if◌then◌else◌,
}
use shema_business_platform.Platform.Transaction.{Tx}

-- The constructor's copy of the metadata needs no counterpart: values are not changed in place.
pub record AuditRecord (M : Type 0) : Type 0 where
  pub audit_id : String
  pub actor_id : String
  pub action : String
  pub resource_type : String
  pub resource_id : Option String
  pub outcome : String
  pub occurred_at : Datetime
  pub metadata : M
  pub correlation_id : Option String
  pub configuration_version : Option String

module _ {M : Type 0} where
  -- The constructor: `AuditRecord(...)` with its `__post_init__`.
  unfoldable pub new_audit : AuditRecord M → Result (AuditRecord M)
  new_audit a =
      if is_blank a.audit_id || is_blank a.actor_id
      then err (value_error "audit_id and actor_id are required")
      else if is_blank a.action || is_blank a.resource_type
      then err (value_error "action and resource_type are required")
      else if is_blank a.outcome
      then err (value_error "outcome is required")
      else ok a

  unfoldable pub has_audit : String → List (AuditRecord M) → Bool
  has_audit id [] = false
  has_audit id (a ∷ as') = str_eq a.audit_id id || has_audit id as'

  unfoldable pub append : AuditRecord M → Tx (List (AuditRecord M)) (Unit {0})
  unfolding has_audit
  append a rows =
      if has_audit a.audit_id rows
      then err (database_error "unique constraint violated")
      else ok (tt, rows ++ a ∷ [])
