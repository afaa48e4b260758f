-- ===== src/Foundation/Outbox.antt =====
-- foundation/outbox.py: the transactional outbox. A store maps event ids to events and to the
-- delivery leases; a call returns its result and the store, which keeps what was written before a
-- raise. The type of payloads is a parameter with its equality. All timestamps of one store carry
-- a time zone or none does, so that `sorted` can compare them.
mod Order
pub mod Claim
pub mod Append
pub mod Leases
pub mod Keys
pub mod Forever
use Prim.Native.Nat.{compare, Ordering}
use Prim.Native.String.{compare as compare_text}
use shema_business_platform.Prelude.{
  ℕ, suc, ◌+◌, Bool, true, false, not, ◌&&◌, ◌||◌, List, [], ◌∷◌, Option, none, some, String,
  Datetime, add_seconds, key_error, integrity_violation, value_error, Result, ok, err, Eq, ltb, leb,
  ◌==◌, str_eq, is_blank, if◌then◌else◌, keep,
}
use shema_business_platform.Prelude.Dict.{Dict, lookup, insert, erase, values}

pub data OutboxStatus : Type 0 where
  pending published : OutboxStatus

abbrev pub is_pending : OutboxStatus → Bool
is_pending pending = true
is_pending published = false

pub record OutboxEvent (P : Type 0) : Type 0 where
  pub event_id : String
  pub event_type : String
  pub aggregate_type : String
  pub aggregate_id : String
  pub payload : P
  pub occurred_at : Datetime
  pub status : OutboxStatus

pub record OutboxDelivery (P : Type 0) : Type 0 where
  pub event : OutboxEvent P
  pub attempt : ℕ
  pub worker_id : String
  pub lease_until : Datetime

pub record OutboxStore (P : Type 0) : Type 0 where
  pub events : Dict (OutboxEvent P)
  pub leases : Dict (OutboxDelivery P)

abbrev pub status_eq : OutboxStatus → OutboxStatus → Bool
status_eq pending pending = true
status_eq published published = true
status_eq _ _ = false

abbrev pub bool_eq : Bool → Bool → Bool
bool_eq true b = b
bool_eq false b = not b

module _ {P : Type 0} where
  -- `existing == event`, field by field, as a data class compares.
  unfoldable pub event_eq : Eq P → OutboxEvent P → OutboxEvent P → Bool
  event_eq q a b =
      str_eq a.event_id b.event_id
      && str_eq a.event_type b.event_type
      && str_eq a.aggregate_type b.aggregate_type
      && str_eq a.aggregate_id b.aggregate_id
      && q.beq a.payload b.payload
      && bool_eq a.occurred_at.tz_aware b.occurred_at.tz_aware
      && a.occurred_at.micros == b.occurred_at.micros
      && status_eq a.status b.status

  unfoldable pub append :
      Eq P → OutboxEvent P → OutboxStore P → Result (OutboxEvent P) × OutboxStore P
  append q event s = elim (lookup event.event_id s.events) [
    | some existing ↦
        if not (event_eq q existing event)
        then (err (integrity_violation "outbox event_id collision with different event"), s)
        else (ok existing, s)
    | none ↦ (ok event, record s { events = insert event.event_id event s.events })
  ]

  unfoldable pub pending_events : OutboxStore P → List (OutboxEvent P)
  pending_events s = keep (λ (e : OutboxEvent P). is_pending e.status) (values s.events)

  -- `(a.occurred_at, a.event_id) <= (b.occurred_at, b.event_id)`
  unfoldable pub key_le : OutboxEvent P → OutboxEvent P → Bool
  key_le a b =
      ltb a.occurred_at.micros b.occurred_at.micros
      || (a.occurred_at.micros == b.occurred_at.micros
          && elim (compare_text a.event_id b.event_id) [ Ordering.gt ↦ false | _ ↦ true ])

  unfoldable pub insert_sorted : OutboxEvent P → List (OutboxEvent P) → List (OutboxEvent P)
  unfolding key_le
  insert_sorted e [] = e ∷ []
  insert_sorted e (x ∷ xs) = if key_le e x then e ∷ x ∷ xs else x ∷ insert_sorted e xs

  -- `sorted(events, key=...)`, a stable sort.
  unfoldable pub sort_events : List (OutboxEvent P) → List (OutboxEvent P)
  unfolding insert_sorted
  sort_events [] = []
  sort_events (e ∷ es) = insert_sorted e (sort_events es)

  -- The event has a lease that is still live.
  unfoldable pub is_leased : Dict (OutboxDelivery P) → Datetime → String → Bool
  is_leased leases now id = elim (lookup id leases) [
    | none ↦ false
    | some d ↦ ltb now.micros d.lease_until.micros
  ]

  abbrev pub next_attempt : Option (OutboxDelivery P) → ℕ
  next_attempt none = 1
  next_attempt (some d) = d.attempt + 1

  -- `OutboxDelivery(...)`: its constructor checks what `claim_pending` has checked before, that the
  -- worker is not blank and `now` has a time zone, and that the attempt counts from one.
  abbrev pub delivery :
      String → Datetime → Dict (OutboxDelivery P) → OutboxEvent P → OutboxDelivery P
  delivery w until leases e = record {
    event = e;
    attempt = next_attempt (lookup e.event_id leases);
    worker_id = w;
    lease_until = until;
  }

  -- The loop of `claim_pending`; `n` events have been selected so far.
  unfoldable pub claim_loop :
      String
      → Datetime
      → Datetime
      → ℕ
      → ℕ
      → List (OutboxEvent P)
      → Dict (OutboxDelivery P)
      → Dict (OutboxDelivery P) × List (OutboxDelivery P)
  claim_loop w until now limit n [] leases = (leases, [])
  claim_loop w until now limit n (e ∷ es) leases =
      let d = delivery w until leases e in
      let leases' = insert e.event_id d leases in
      let skip = claim_loop w until now limit n es leases in
      let rest = claim_loop w until now limit (suc n) es leases' in
      if is_leased leases now e.event_id
      then skip
      else if leb limit (suc n)
      then (leases', d ∷ [])
      else (rest.0, d ∷ rest.1)

  unfoldable pub claim_pending :
      String → ℕ → Datetime → ℕ → OutboxStore P → Result (List (OutboxDelivery P)) × OutboxStore P
  unfolding is_leased claim_loop sort_events pending_events
  claim_pending w lease_seconds now limit s =
      if is_blank w
      then (err (value_error "worker_id is required"), s)
      else if leb lease_seconds 0
      then (err (value_error "lease_seconds must be > 0"), s)
      else if ltb limit 1
      then (err (value_error "limit must be >= 1"), s)
      else if not now.tz_aware
      then (err (value_error "now must be timezone-aware"), s)
      else let (leases', ds) =
          claim_loop w (add_seconds now lease_seconds) now limit 0 (sort_events (pending_events s))
            s.leases in
        (ok ds, record s { leases = leases' })

  abbrev pub publish : OutboxEvent P → OutboxEvent P
  publish e = record e { status = published }

  -- What `mark_published` does once the lease is found valid.
  abbrev pub publish_found :
      String → OutboxStore P → Option (OutboxEvent P) → Result (OutboxEvent P) × OutboxStore P
  publish_found id s none = (err (key_error id), s)
  publish_found id s (some e) = (
    ok (publish e),
    record { events = insert id (publish e) s.events; leases = erase id s.leases },
  )

  unfoldable pub mark_published :
      String → String → Datetime → OutboxStore P → Result (OutboxEvent P) × OutboxStore P
  mark_published id w now s = elim (lookup id s.leases) [
    | none ↦ (
      err (integrity_violation "outbox publication rejected: missing or different worker lease"),
      s,
    )
    | some lease ↦
        if not (str_eq lease.worker_id w)
        then (
          err (
              integrity_violation "outbox publication rejected: missing or different worker lease"),
          s,
        )
        else if leb lease.lease_until.micros now.micros
        then (
          err (
              integrity_violation "outbox publication rejected: missing or expired delivery lease"),
          s,
        )
        else publish_found id s (lookup id s.events)
  ]
