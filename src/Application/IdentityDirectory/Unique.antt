-- ===== src/Application/IdentityDirectory/Unique.antt =====
-- How far registration keeps tax ids unique.
use shema_business_platform.Prelude.{
  ℕ, ◌+◌, ◌≤◌, ◌≡◌, ◌≢◌, ◌∙◌, refl, sym, ap, subst, true, false, Option, none, some, List, [], ◌∷◌,
  String, ok, inl, inr, arith, Bool-cases, str_eq, str_eq_iff, strip, is_empty, is_some, length,
  keep, if◌then◌else◌,
}
use shema_business_platform.Prelude.Dict.{lookup, insert, values, lookup-insert}
use shema_business_platform.Domain.Identity.{Identity}
use shema_business_platform.Application.IdentityDirectory.{
  Directory, has_tax_id, find_by_tax_id, is_nil, text_or_empty, register,
}

-- How many registered identities have a tax id.
abbrev pub holders : String → Directory → ℕ
holders tax d = length (keep (has_tax_id tax) (values d))

insert_new :
    (tax k : String) (i : Identity) (d : Directory)
    → is_some (lookup k d) ≡ false
    → holders tax (insert k i d) ≡ holders tax d + (if has_tax_id tax i then 1 else 0)
unfolding lookup insert values
insert_new tax k i [] h = ground arith
insert_new tax k i ((j, x) ∷ d) h = ground (arith, insert_new tax k i d)

none_nil : (is : List Identity) → is_nil is ≡ true → length is ≡ 0
none_nil [] h = refl
none_nil (i ∷ is) h = cc

text_of :
    (o : Option String) (tax : String)
    → (elim o [ none ↦ false | some t ↦ str_eq t tax ]) ≡ true
    → text_or_empty o ≡ tax
text_of none tax h = cc
text_of (some t) tax h = (str_eq_iff t tax).0 h

none_held :
    (tax : String) (d : Directory)
    → is_empty (strip tax) ≡ false
    → is_nil (find_by_tax_id tax d) ≡ true
    → holders (strip tax) d ≡ 0
unfolding find_by_tax_id
none_held tax d full h = none_nil (keep (has_tax_id (strip tax)) (values d)) (ground arith)

-- A registration keeps each tax id that is stripped at no more than one identity.
pub register_unique :
    (i j : Identity) (d d' : Directory) (tax : String)
    → strip tax ≡ tax
    → is_empty tax ≡ false
    → holders tax d ≤ 1
    → register i d ≡ ok (j, d')
    → holders tax d' ≤ 1
unfolding register
register_unique i j d d' tax plain full h done =
    let fresh : is_some (lookup i.identity_id d) ≡ false = ground arith in
    let free : is_nil (find_by_tax_id (text_or_empty i.tax_id) d) ≡ true = ground arith in
    let after : insert i.identity_id i d ≡ d' = ground arith in
    let count = insert_new tax i.identity_id i d fresh in
    rw (← after) (elim (Bool-cases (has_tax_id tax i)) [
      | inl mine ↦
          let same = text_of i.tax_id tax mine in
          let none_yet : holders (strip tax) d ≡ 0 =
            none_held tax d (ap is_empty plain ∙ full)
              (ap (λ (t : String). is_nil (find_by_tax_id t d)) (sym same) ∙ free) in
          let zero_there : holders tax d ≡ 0 =
            subst (λ (t : String). holders t d ≡ 0) plain none_yet in
          ground (arith, count)
      | inr other ↦ ground (arith, count)
    ])

nil_none : (is : List Identity) → length is ≡ 0 → is_nil is ≡ true
nil_none [] h = refl
nil_none (i ∷ is) h = absurd (omega arith)

none_found :
    (tax : String) (d : Directory)
    → holders (strip tax) d ≡ 0
    → is_nil (find_by_tax_id tax d) ≡ true
unfolding find_by_tax_id
none_found tax d h = ground (arith, nil_none (keep (has_tax_id (strip tax)) (values d)) h)

padded_other :
    (i : Identity) (tax : String)
    → i.tax_id ≡ some tax
    → strip tax ≢ tax
    → has_tax_id (strip tax) i ≡ false
padded_other i tax h ne = ground (arith, str_eq_iff tax (strip tax))

has_own : (i : Identity) (tax : String) → i.tax_id ≡ some tax → has_tax_id tax i ≡ true
has_own i tax h = ground (arith, str_eq_iff tax tax)

text_at : (i : Identity) (tax : String) → i.tax_id ≡ some tax → text_or_empty i.tax_id ≡ tax
text_at i tax h = ap text_or_empty h

-- A tax id that is not stripped, and that no identity has stripped, is registered for two identities.
pub padded_tax_id_twice :
    (i j : Identity) (d : Directory) (tax : String)
    → i.tax_id ≡ some tax
    → j.tax_id ≡ some tax
    → is_empty tax ≡ false
    → strip tax ≢ tax
    → holders (strip tax) d ≡ 0
    → is_some (lookup i.identity_id d) ≡ false
    → is_some (lookup j.identity_id d) ≡ false
    → i.identity_id ≢ j.identity_id
    → (d' : Directory) × (d'' : Directory) × (register i d ≡ ok (i, d'))
      × (register j d' ≡ ok (j, d''))
      × (holders tax d'' ≡ holders tax d + 2)
unfolding register
padded_tax_id_twice i j d tax hi hj full padded free fresh_i fresh_j ne =
    let d' = insert i.identity_id i d in
    let not_i : has_tax_id (strip tax) i ≡ false = padded_other i tax hi padded in
    let fresh_j' : is_some (lookup j.identity_id d') ≡ false = ground (
      arith,
      lookup-insert i.identity_id j.identity_id i d,
      str_eq_iff i.identity_id j.identity_id,
    ) in
    let free' : holders (strip tax) d' ≡ 0 =
      ground (arith, insert_new (strip tax) i.identity_id i d fresh_i) in
    (
      d',
      insert j.identity_id j d',
      ground (arith, none_found tax d free, text_at i tax hi),
      ground (arith, none_found tax d' free', text_at j tax hj),
      ground (
        arith,
        insert_new tax i.identity_id i d fresh_i,
        insert_new tax j.identity_id j d' fresh_j',
        has_own i tax hi,
        has_own j tax hj,
      ),
    )
