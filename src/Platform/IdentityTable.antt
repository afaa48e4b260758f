-- ===== src/Platform/IdentityTable.antt =====
-- `PostgresIdentityRepository` of platform/postgres_repositories.py: the table `identity` by its primary
-- key, with the unique indexes on its tax id and its registration id.
use shema_business_platform.Prelude.{
  Bool, false, ◌||◌, Option, none, some, String, [], ◌∷◌, database_error, ok, err, str_eq, strip,
  is_some, if◌then◌else◌,
}
use shema_business_platform.Prelude.Dict.{Dict, lookup, insert}
use shema_business_platform.Domain.Identity.{Identity}
use shema_business_platform.Platform.Transaction.{Tx}

abbrev pub IdentityTable : Type 0
IdentityTable = Dict Identity

unfoldable pub get : String → IdentityTable → Option Identity
get id t = lookup id t

-- `column = value` of SQL, where null equals nothing.
abbrev pub column_is : Option String → String → Bool
column_is none v = false
column_is (some s) v = str_eq s v

unfoldable pub find_by_tax_id : String → IdentityTable → Option Identity
find_by_tax_id tax [] = none
find_by_tax_id tax ((k, i) ∷ t) =
    if column_is i.tax_id (strip tax) then some i else find_by_tax_id tax t

-- Two values of a column with a unique index.
abbrev clashes : Option String → Option String → Bool
clashes a none = false
clashes a (some v) = column_is a v

unfoldable pub is_taken : Identity → IdentityTable → Bool
is_taken i [] = false
is_taken i ((k, j) ∷ t) =
    clashes j.tax_id i.tax_id || clashes j.registration_id i.registration_id || is_taken i t

unfoldable pub add : Identity → Tx IdentityTable (Unit {0})
unfolding is_taken
add i t =
    if is_some (lookup i.identity_id t) || is_taken i t
    then err (database_error "unique constraint violated")
    else ok (tt, insert i.identity_id i t)
