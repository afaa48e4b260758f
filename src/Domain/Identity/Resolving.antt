-- ===== src/Domain/Identity/Resolving.antt =====
-- `Identity.resolve_with` of domain/identity.py.
use shema_business_platform.Prelude.{
  ◌≡◌, refl, ◌↔◌, ◌≢◌, true, Option, none, some, String, str_eq, str_eq_iff, arith,
}
use shema_business_platform.Domain.Identity.{
  Identity, has_text, same_text, merge, can_merge, resolve_with,
}

str_eq_comm : (s t : String) → str_eq s t ≡ str_eq t s
str_eq_comm s t = ground (arith, str_eq_iff s t, str_eq_iff t s)

same_text_comm : (a b : Option String) → same_text a b ≡ same_text b a
same_text_comm none none = refl
same_text_comm none (some t) = refl
same_text_comm (some s) none = refl
same_text_comm (some s) (some t) = str_eq_comm s t

same_text_iff : (a b : Option String) → (same_text a b ≡ true) ↔ (a ≡ b)
same_text_iff none none = ground arith
same_text_iff none (some t) = ground arith
same_text_iff (some s) none = ground arith
same_text_iff (some s) (some t) = ground (arith, str_eq_iff s t)

can_merge_comm : (a b : Identity) → can_merge a b ≡ can_merge b a
unfolding can_merge
can_merge_comm a b = ground (arith, same_text_comm a.tax_id b.tax_id)

-- How two identities are resolved does not depend on their order, and they are merged exactly when
-- they have different ids and one tax id, which is not empty.
pub resolve_with_symmetric :
    (a b : Identity)
    → (resolve_with a b ≡ resolve_with b a)
      × ((resolve_with a b ≡ merge)
          ↔ ((a.identity_id ≢ b.identity_id) × (has_text a.tax_id ≡ true) × (a.tax_id ≡ b.tax_id)))
unfolding resolve_with
resolve_with_symmetric a b = (
  ground (arith, can_merge_comm a b, str_eq_comm a.identity_id b.identity_id),
  (
    λ h.
        unfold can_merge in
        ground (arith, str_eq_iff a.identity_id b.identity_id, same_text_iff a.tax_id b.tax_id),
    λ h.
        unfold can_merge in
        ground (arith, str_eq_iff a.identity_id b.identity_id, same_text_iff a.tax_id b.tax_id),
  ),
)
