-- ===== src/Platform/IdempotencyTable.antt =====
-- `PostgresIdempotencyRepository` of platform/postgres_repositories.py: the table
-- `idempotency_key` by its primary key.
pub mod Contract
use shema_business_platform.Prelude.{
  Bool, not, ◌&&◌, Option, none, some, String, value_error, idempotency_conflict, ok, err, str_eq,
  is_blank, is_empty, if◌then◌else◌,
}
use shema_business_platform.Prelude.Dict.{Dict, lookup, insert}
pub use shema_business_platform.Foundation.Idempotency.{
  IdempotencyRecord, is_pending_ref, is_settled,
}
use shema_business_platform.Platform.Transaction.{Tx}

abbrev pub KeyTable : Type 0
KeyTable = Dict IdempotencyRecord

abbrev pub reservation : String → String → String → IdempotencyRecord
reservation key hash ref = record { key = key; request_hash = hash; result_ref = ref }

unfoldable pub get : String → KeyTable → Option IdempotencyRecord
get key t = lookup key t

unfoldable pub reserve : String → String → String → Tx KeyTable IdempotencyRecord
reserve key hash ref t = elim (lookup key t) [
  | none ↦ ok (reservation key hash ref, insert key (reservation key hash ref) t)
  | some existing ↦
      if not (str_eq existing.request_hash hash)
      then err (idempotency_conflict "idempotency key reused with different request")
      else ok (existing, t)
]

unfoldable pub complete : String → String → String → Tx KeyTable IdempotencyRecord
complete key hash ref t =
    if is_blank ref then err (value_error "result_ref is required") else elim (lookup key t) [
      | none ↦ err (idempotency_conflict "idempotency completion has no reservation")
      | some existing ↦
          if not (str_eq existing.request_hash hash)
          then err (idempotency_conflict "idempotency key reused with different request")
          else if is_settled existing
          then ok (existing, t)
          else ok (
            record existing { result_ref = ref },
            insert key (record existing { result_ref = ref }) t,
          )
    ]
