-- ===== src/Domain/Identity.antt =====
-- domain/identity.py: counterparty identities and how two of them are resolved.
pub mod Resolving
use shema_business_platform.Prelude.{
  Bool, true, false, not, ◌&&◌, ◌||◌, Option, none, some, String, quarantine_required, Result, ok,
  err, str_eq, is_empty, if◌then◌else◌,
}

pub data IdentityState : Type 0 where
  raw candidate identified verified active inactive unknown : IdentityState

pub data Resolution : Type 0 where
  match merge keep_separate quarantine manual_review : Resolution

pub record Identity : Type 0 where
  pub identity_id : String
  pub canonical_name : String
  pub state : IdentityState
  pub tax_id : Option String
  pub registration_id : Option String

-- `state in {IdentityState.VERIFIED, IdentityState.ACTIVE}`
abbrev pub is_verified : IdentityState → Bool
is_verified verified = true
is_verified active = true
is_verified _ = false

unfoldable pub require_verified : Identity → Result (Unit {0})
require_verified i =
    if is_verified i.state
    then ok tt
    else err (quarantine_required "critical action requires verified identity")

-- `bool(self.tax_id)`
abbrev pub has_text : Option String → Bool
has_text none = false
has_text (some s) = not (is_empty s)

abbrev pub same_text : Option String → Option String → Bool
same_text none none = true
same_text (some a) (some b) = str_eq a b
same_text _ _ = false

unfoldable pub can_merge : Identity → Identity → Bool
can_merge a b = has_text a.tax_id && has_text b.tax_id && same_text a.tax_id b.tax_id

unfoldable pub resolve_with : Identity → Identity → Resolution
unfolding can_merge
resolve_with a b =
    if str_eq a.identity_id b.identity_id
    then match
    else if can_merge a b
    then merge
    else if not (has_text a.tax_id) || not (has_text b.tax_id)
    then quarantine
    else manual_review
