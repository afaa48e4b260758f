-- ===== src/Foundation/Idempotency.antt =====
-- foundation/idempotency.py: the in-memory store of idempotency keys.
use text.Mathlib.Text.{starts_with}
use shema_business_platform.Prelude.{
  Bool, not, ◌&&◌, Option, none, some, String, idempotency_conflict, Result, ok, err, str_eq,
  is_empty, if◌then◌else◌,
}
use shema_business_platform.Prelude.Dict.{Dict, lookup, insert}

pub record IdempotencyRecord : Type 0 where
  pub key : String
  pub request_hash : String
  pub result_ref : String

-- `_records`
abbrev pub KeyStore : Type 0
KeyStore = Dict IdempotencyRecord

-- `result_ref.startswith("pending:")`
abbrev pub is_pending_ref : String → Bool
is_pending_ref ref = starts_with ref "pending:"

-- The record already holds a result.
abbrev pub is_settled : IdempotencyRecord → Bool
is_settled r = not (is_empty r.result_ref) && not (is_pending_ref r.result_ref)

unfoldable pub get : String → KeyStore → Option IdempotencyRecord
get key d = lookup key d

unfoldable pub reserve : String → String → String → KeyStore → Result (IdempotencyRecord × KeyStore)
reserve key hash ref d =
    let r : IdempotencyRecord = record { key = key; request_hash = hash; result_ref = ref } in
    elim (lookup key d) [
      | some existing ↦
          if not (str_eq existing.request_hash hash)
          then err (idempotency_conflict "idempotency key reused with different request")
          else ok (existing, d)
      | none ↦ ok (r, insert key r d)
    ]

unfoldable pub complete :
    String → String → String → KeyStore → Result (IdempotencyRecord × KeyStore)
complete key hash ref d =
    let r : IdempotencyRecord = record { key = key; request_hash = hash; result_ref = ref } in
    elim (lookup key d) [
      | none ↦ err (idempotency_conflict "idempotency completion has no reservation")
      | some existing ↦
          if not (str_eq existing.request_hash hash)
          then err (idempotency_conflict "idempotency key reused with different request")
          else if is_settled existing
          then ok (existing, d)
          else ok (r, insert key r d)
    ]
