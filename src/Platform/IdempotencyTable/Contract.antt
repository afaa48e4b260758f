-- ===== src/Platform/IdempotencyTable/Contract.antt =====
-- The table of idempotency keys against the in-memory contract, and what a stored result is safe from.
use shema_business_platform.Prelude.{
  ◌≡◌, refl, sym, ap, true, false, some, List, [], ◌∷◌, String, Result, ok, err, arith, inl, inr,
  Option-cases, is_blank, str_eq_iff, if◌then◌else◌, value_error,
}
use shema_business_platform.Prelude.Dict.{Dict, lookup, insert, lookup-insert}
use shema_business_platform.Foundation.Idempotency
use shema_business_platform.Foundation.Idempotency.{IdempotencyRecord, KeyStore, is_settled}
use shema_business_platform.Platform.IdempotencyTable.{KeyTable, reserve, complete}
use shema_business_platform.Platform.Transaction.{transaction}

-- The calls that change the keys.
pub data KeyCall : Type 0 where
  reserving completing : String → String → String → KeyCall

-- A call of the store; a call that raises has changed nothing.
unfoldable pub store_step : KeyCall → KeyStore → Result IdempotencyRecord × KeyStore
unfolding Idempotency.reserve Idempotency.complete
store_step (reserving k h r) d = elim (Idempotency.reserve k h r d) [
  | ok (x, d') ↦ (ok x, d')
  | err e ↦ (err e, d)
]
store_step (completing k h r) d = elim (Idempotency.complete k h r d) [
  | ok (x, d') ↦ (ok x, d')
  | err e ↦ (err e, d)
]

-- A call of the repository in a transaction of its own.
unfoldable pub table_step : KeyCall → KeyTable → Result IdempotencyRecord × KeyTable
unfolding reserve complete transaction
table_step (reserving k h r) t = transaction (reserve k h r) t
table_step (completing k h r) t = transaction (complete k h r) t

module _
    (step : KeyCall
      → Dict IdempotencyRecord
      → Result IdempotencyRecord × Dict IdempotencyRecord) where
  -- What the calls return, in order.
  pub answers : List KeyCall → Dict IdempotencyRecord → List (Result IdempotencyRecord)
  answers [] d = []
  answers (c ∷ cs) d = (step c d).0 ∷ answers cs (step c d).1

  pub after : List KeyCall → Dict IdempotencyRecord → Dict IdempotencyRecord
  after [] d = d
  after (c ∷ cs) d = after cs (step c d).1

-- The store behind one check: a completion with a blank result raises `ValueError`.
unfoldable pub checked_step : KeyCall → KeyStore → Result IdempotencyRecord × KeyStore
unfolding store_step
checked_step (reserving k h r) d = store_step (reserving k h r) d
checked_step (completing k h r) d =
    if is_blank r
    then (err (value_error "result_ref is required"), d)
    else store_step (completing k h r) d

-- Records stand under their own key.
abbrev IsKeyed : KeyTable → Type 0
IsKeyed t = (k : String) (r : IdempotencyRecord) → lookup k t ≡ some r → r.key ≡ k

insert-IsKeyed :
    (k : String) (r : IdempotencyRecord) (t : KeyTable)
    → IsKeyed t
    → r.key ≡ k
    → IsKeyed (insert k r t)
insert-IsKeyed k r t keyed e j s h =
    ground (arith, lookup-insert k j r t, str_eq_iff k j, keyed j s)

step-IsKeyed : (c : KeyCall) (t : KeyTable) → IsKeyed t → IsKeyed (table_step c t).1
unfolding table_step
step-IsKeyed (reserving k h r) t keyed j s m = ground (
  arith,
  keyed j s,
  lookup-insert k j (record { key = k; request_hash = h; result_ref = r }) t,
  str_eq_iff k j,
)
step-IsKeyed (completing k h r) t keyed j s m = elim (Option-cases (lookup k t)) [
  | inl missing ↦ ground (arith, keyed j s)
  | inr (x, found) ↦ ground (
    arith,
    keyed j s,
    keyed k x,
    lookup-insert k j (record x { result_ref = r }) t,
    str_eq_iff k j,
  )
]

steps_agree : (c : KeyCall) (t : KeyTable) → IsKeyed t → checked_step c t ≡ table_step c t
unfolding checked_step table_step
steps_agree (reserving k h r) t keyed = ground arith
steps_agree (completing k h r) t keyed = elim (Option-cases (lookup k t)) [
  | inl missing ↦ ground arith
  | inr (x, found) ↦ ground (arith, keyed k x, str_eq_iff x.request_hash h)
]

agree_from :
    (cs : List KeyCall) (t : KeyTable)
    → IsKeyed t
    → (answers checked_step cs t ≡ answers table_step cs t)
      × (after checked_step cs t ≡ after table_step cs t)
unfolding answers after
agree_from [] t keyed = (refl, refl)
agree_from (c ∷ cs) t keyed =
    let (same, ends) = agree_from cs (table_step c t).1 (step-IsKeyed c t keyed) in
    rw (steps_agree c t keyed) (ap (λ as'. (table_step c t).0 ∷ as') same, ends)

-- The repository implements the in-memory contract but for one check: from empty keys, any sequence
-- of reservations and completions gives the same answers, errors included, and the same records as
-- the in-memory store behind the check that a completion with a blank result raises `ValueError` and
-- changes nothing, which the store itself would record.
pub table_refines_store :
    (cs : List KeyCall)
    → (answers table_step cs [] ≡ answers checked_step cs [])
      × (after table_step cs [] ≡ after checked_step cs [])
table_refines_store cs =
    let (same, ends) = agree_from cs [] (λ k r h. absurd (unfold lookup in cc)) in
    (sym same, sym ends)

settled_step :
    (c : KeyCall) (k : String) (r : IdempotencyRecord) (t : KeyTable)
    → lookup k t ≡ some r
    → is_settled r ≡ true
    → lookup k (table_step c t).1 ≡ some r
unfolding table_step
settled_step (reserving j h f) k r t found settled = ground (
  arith,
  lookup-insert j k (record { key = j; request_hash = h; result_ref = f }) t,
  str_eq_iff j k,
)
settled_step (completing j h f) k r t found settled = elim (Option-cases (lookup j t)) [
  | inl missing ↦ ground arith
  | inr (x, there) ↦
      ground (arith, lookup-insert j k (record x { result_ref = f }) t, str_eq_iff j k)
]

-- A result, once stored, is never replaced: after any sequence of reservations and completions the key
-- still has it, and a reservation or completion of the key with its request returns it.
pub settled_forever :
    (cs : List KeyCall) (k ref : String) (r : IdempotencyRecord) (t : KeyTable)
    → lookup k t ≡ some r
    → is_settled r ≡ true
    → is_blank ref ≡ false
    → (lookup k (after table_step cs t) ≡ some r)
      × ((table_step (reserving k r.request_hash ref) (after table_step cs t)).0 ≡ ok r)
      × ((table_step (completing k r.request_hash ref) (after table_step cs t)).0 ≡ ok r)
unfolding after table_step
settled_forever [] k ref r t found settled given = (
  found,
  ground (arith, str_eq_iff r.request_hash r.request_hash),
  ground (arith, str_eq_iff r.request_hash r.request_hash),
)
settled_forever (c ∷ cs) k ref r t found settled given =
    settled_forever cs k ref r (table_step c t).1 (settled_step c k r t found settled) settled given
