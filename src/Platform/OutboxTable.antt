-- ===== src/Platform/OutboxTable.antt =====
-- `PostgresOutboxRepository` of platform/postgres_repositories.py over the table `outbox_event`,
-- whose primary key is `event_id`. `locked` says which rows other transactions hold.
pub mod Append
use mathlib.Core.Option
use Prim.Native.Nat.{compare, Ordering}
use Prim.Native.String.{compare as compare_text}
use shema_business_platform.Prelude.{
  ℕ, zero, suc, ◌+◌, ◌==◌, Bool, true, false, not, ◌&&◌, ◌||◌, Option, none, some, List, [], ◌∷◌,
  ◌++◌, map, String, Datetime, add_seconds, value_error, integrity_violation, ok, err, Eq, ltb, leb,
  str_eq, is_blank, is_some, keep, if◌then◌else◌,
}
use shema_business_platform.Foundation.Outbox.{
  OutboxEvent, OutboxDelivery, OutboxStatus, pending, published, bool_eq,
}
use shema_business_platform.Platform.Transaction.{Tx, pure, raise, ◌>>=◌, ◌>>◌, raise_if}

pub record OutboxRow (P : Type 0) : Type 0 where
  pub event_id : String
  pub event_type : String
  pub aggregate_type : String
  pub aggregate_id : String
  pub payload : P
  pub occurred_at : Datetime
  pub published_at : Option Datetime
  pub delivery_attempt : ℕ
  pub delivery_worker_id : Option String
  pub delivery_lease_until : Option Datetime

abbrev lease_over : Option Datetime → Datetime → Bool
lease_over none now = true
lease_over (some u) now = leb u.micros now.micros

abbrev lease_live : Option Datetime → Datetime → Bool
lease_live none now = false
lease_live (some u) now = ltb now.micros u.micros

abbrev worker_is : Option String → String → Bool
worker_is none w = false
worker_is (some v) w = str_eq v w

module _ {P : Type 0} where
  -- `_to_event`
  abbrev pub to_event : OutboxRow P → OutboxEvent P
  to_event r = record {
    event_id = r.event_id;
    event_type = r.event_type;
    aggregate_type = r.aggregate_type;
    aggregate_id = r.aggregate_id;
    payload = r.payload;
    occurred_at = r.occurred_at;
    status = if is_some r.published_at then published else pending;
  }

  abbrev pub new_row : OutboxEvent P → OutboxRow P
  new_row e = record {
    event_id = e.event_id;
    event_type = e.event_type;
    aggregate_type = e.aggregate_type;
    aggregate_id = e.aggregate_id;
    payload = e.payload;
    occurred_at = e.occurred_at;
    published_at = none;
    delivery_attempt = 0;
    delivery_worker_id = none;
    delivery_lease_until = none;
  }

  unfoldable pub find_event : String → List (OutboxRow P) → Option (OutboxRow P)
  find_event id [] = none
  find_event id (r ∷ rs) = if str_eq r.event_id id then some r else find_event id rs

  -- The comparison of the stored event with the one to append; the status is not compared.
  abbrev same_event : Eq P → OutboxRow P → OutboxEvent P → Bool
  same_event q r e =
      str_eq r.event_type e.event_type
      && str_eq r.aggregate_type e.aggregate_type
      && str_eq r.aggregate_id e.aggregate_id
      && q.beq r.payload e.payload
      && bool_eq r.occurred_at.tz_aware e.occurred_at.tz_aware
      && r.occurred_at.micros == e.occurred_at.micros

  unfoldable pub append : Eq P → OutboxEvent P → Tx (List (OutboxRow P)) (OutboxEvent P)
  unfolding find_event
  append q e rows = elim (find_event e.event_id rows) [
    | none ↦ ok (to_event (new_row e), rows ++ new_row e ∷ [])
    | some r ↦
        if not (same_event q r e)
        then err (integrity_violation "outbox event_id collision with different event")
        else ok (to_event r, rows)
  ]

  -- The candidates' `where` clause.
  unfoldable pub is_open : Datetime → OutboxRow P → Bool
  is_open now r =
      not (is_some r.published_at)
      && leb r.occurred_at.micros now.micros
      && lease_over r.delivery_lease_until now

  -- `order by occurred_at, event_id`
  unfoldable pub event_le : OutboxRow P → OutboxRow P → Bool
  event_le a b =
      ltb a.occurred_at.micros b.occurred_at.micros
      || (a.occurred_at.micros == b.occurred_at.micros
          && elim (compare_text a.event_id b.event_id) [ Ordering.gt ↦ false | _ ↦ true ])

  unfoldable pub insert_ordered : OutboxRow P → List (OutboxRow P) → List (OutboxRow P)
  unfolding event_le
  insert_ordered r [] = r ∷ []
  insert_ordered r (x ∷ xs) = if event_le r x then r ∷ x ∷ xs else x ∷ insert_ordered r xs

  unfoldable pub order : List (OutboxRow P) → List (OutboxRow P)
  unfolding insert_ordered
  order [] = []
  order (r ∷ rs) = insert_ordered r (order rs)

  abbrev take_rows : ℕ → List (OutboxRow P) → List (OutboxRow P)
  take_rows zero rs = []
  take_rows (suc n) [] = []
  take_rows (suc n) (r ∷ rs) = r ∷ take_rows n rs

  unfoldable pub candidates :
      (String → Bool) → Datetime → ℕ → List (OutboxRow P) → List (OutboxRow P)
  unfolding is_open order
  candidates locked now limit rows =
      take_rows limit (order (keep (λ r. is_open now r && not (locked r.event_id)) rows))

  -- The `set` clause of the claim.
  abbrev pub claim_row : String → ℕ → Datetime → OutboxRow P → OutboxRow P
  claim_row w secs now r = record r {
    delivery_attempt = r.delivery_attempt + 1;
    delivery_worker_id = some w;
    delivery_lease_until = some (add_seconds now secs);
  }

  abbrev is_chosen : List (OutboxRow P) → OutboxRow P → Bool
  is_chosen chosen r = is_some (find_event r.event_id chosen)

  -- `_to_delivery` of a row that the claim has just set.
  abbrev to_delivery : String → ℕ → Datetime → OutboxRow P → OutboxDelivery P
  to_delivery w secs now r = record {
    event = to_event r;
    attempt = r.delivery_attempt + 1;
    worker_id = w;
    lease_until = add_seconds now secs;
  }

  unfoldable pub claim_pending :
      (String → Bool)
      → String
      → ℕ
      → Datetime
      → ℕ
      → Tx (List (OutboxRow P)) (List (OutboxDelivery P))
  unfolding find_event candidates
  claim_pending locked w secs now limit = do
    raise_if (is_blank w) (value_error "worker_id is required")
    raise_if (leb secs 0) (value_error "lease_seconds must be > 0")
    raise_if (ltb limit 1) (value_error "limit must be >= 1")
    raise_if (not now.tz_aware) (value_error "now must be timezone-aware")
    λ rows.
        let chosen = candidates locked now limit rows in
        ok (
          map (to_delivery w secs now) (keep (is_chosen chosen) rows),
          map (λ r. if is_chosen chosen r then claim_row w secs now r else r) rows,
        )

  -- The `where` clause of the publication.
  unfoldable pub is_publishable : String → String → Datetime → OutboxRow P → Bool
  is_publishable id w now r =
      str_eq r.event_id id
      && not (is_some r.published_at)
      && worker_is r.delivery_worker_id w
      && lease_live r.delivery_lease_until now

  abbrev pub publish_row : Datetime → OutboxRow P → OutboxRow P
  publish_row now r = record r {
    published_at = some now;
    delivery_worker_id = none;
    delivery_lease_until = none;
  }

  unfoldable pub mark_published :
      String → String → Datetime → Tx (List (OutboxRow P)) (OutboxEvent P)
  unfolding is_publishable
  mark_published id w now = do
    raise_if (is_blank w) (value_error "worker_id is required")
    raise_if (not now.tz_aware) (value_error "now must be timezone-aware")
    λ rows. elim (keep (is_publishable id w now) rows) [
      | [] ↦
          err (integrity_violation "outbox publication rejected: missing or expired delivery lease")
      | r ∷ _ ↦ ok (
        to_event (publish_row now r),
        map (λ x. if is_publishable id w now x then publish_row now x else x) rows,
      )
    ]
