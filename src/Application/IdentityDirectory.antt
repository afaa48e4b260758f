-- ===== src/Application/IdentityDirectory.antt =====
-- `IdentityDirectory` of application/identity.py: the index of identities by id, and registration.
pub mod Unique
use shema_business_platform.Prelude.{
  Bool, true, false, not, ◌&&◌, Option, none, some, List, [], ◌∷◌, map, String, value_error,
  quarantine_required, integrity_violation, Result, ok, err, ◌>>=◌, ◌>>◌, raise_if, str_eq, strip,
  is_empty, is_some, format, keep, if◌then◌else◌,
}
use shema_business_platform.Prelude.Dict.{Dict, lookup, insert, values}
use shema_business_platform.Domain.Identity.{
  Identity, identified, Resolution, match, quarantine, keep_separate, has_text, resolve_with,
}

pub data IdentityMatch : Type 0 where
  new existing conflict review : IdentityMatch

pub record IdentityResolution : Type 0 where
  pub match_kind : IdentityMatch
  pub resolution : Resolution
  pub existing_identity_ids : List String

-- `_identities`
abbrev pub Directory : Type 0
Directory = Dict Identity

-- `IdentityDirectory(identities)`
unfoldable pub new_directory : List Identity → Directory → Directory
new_directory [] d = d
new_directory (i ∷ rest) d = new_directory rest (insert i.identity_id i d)

abbrev pub has_tax_id : String → Identity → Bool
has_tax_id tax i = elim i.tax_id [ none ↦ false | some t ↦ str_eq t tax ]

unfoldable pub find_by_tax_id : String → Directory → List Identity
unfolding values
find_by_tax_id tax d = if is_empty (strip tax) then [] else keep (has_tax_id (strip tax)) (values d)

abbrev pub text_or_empty : Option String → String
text_or_empty none = ""
text_or_empty (some s) = s

abbrev pub ids : List Identity → List String
ids is = map (λ (i : Identity). i.identity_id) is

abbrev pub resolve_matches : Identity → List Identity → Result IdentityResolution
resolve_matches candidate [] =
    ok (record { match_kind = new; resolution = keep_separate; existing_identity_ids = [] })
resolve_matches candidate (i ∷ []) = ok (record {
  match_kind = existing;
  resolution =
      if str_eq i.identity_id candidate.identity_id then match else resolve_with i candidate;
  existing_identity_ids = i.identity_id ∷ [];
})
resolve_matches candidate (i ∷ j ∷ rest) = err (
    integrity_violation (
      format (
        "tax_id "
        ∷ text_or_empty candidate.tax_id
        ∷ " is already assigned to multiple identities"
        ∷ [])))

unfoldable pub resolve : Identity → Directory → Result IdentityResolution
unfolding find_by_tax_id
resolve candidate d =
    if not (has_text candidate.tax_id)
    then ok (record { match_kind = review; resolution = quarantine; existing_identity_ids = [] })
    else resolve_matches candidate (find_by_tax_id (text_or_empty candidate.tax_id) d)

abbrev pub is_nil : List Identity → Bool
is_nil [] = true
is_nil (i ∷ is) = false

unfoldable pub register : Identity → Directory → Result (Identity × Directory)
unfolding find_by_tax_id
register candidate d = do
  raise_if (not (has_text candidate.tax_id))
      (quarantine_required "canonical identity registration requires tax_id")
  raise_if (is_some (lookup candidate.identity_id d))
      (integrity_violation "identity_id is already registered")
  raise_if (not (is_nil (find_by_tax_id (text_or_empty candidate.tax_id) d)))
      (integrity_violation "tax_id is already registered")
  ok (candidate, insert candidate.identity_id candidate d)

abbrev pub stripped : Option String → Option String
stripped none = none
stripped (some s) = if is_empty s then none else some (strip s)

-- `id` is the fresh `Id.new()`.
unfoldable pub register_new :
    String → String → String → Option String → Directory → Result (Identity × Directory)
unfolding register strip
register_new id name tax registration d = do
  let candidate : Identity = record {
    identity_id = id;
    canonical_name = strip name;
    state = identified;
    tax_id = some (strip tax);
    registration_id = stripped registration;
  }
  raise_if (is_empty candidate.canonical_name) (value_error "canonical_name is required")
  register candidate d
