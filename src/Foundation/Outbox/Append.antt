-- ===== src/Foundation/Outbox/Append.antt =====
-- `append` of foundation/outbox.py: it stores an event once, and refuses another under its id.
use shema_business_platform.Prelude.{
  ◌≡◌, ◌≢◌, ◌↔◌, true, some, ok, err, integrity_violation, Eq, Bool, Option-cases, String, inl, inr,
  str_eq_iff, arith,
}
use shema_business_platform.Prelude.Dict.{lookup, lookup-insert}
use shema_business_platform.Foundation.Outbox.{
  OutboxEvent, OutboxStore, OutboxStatus, status_eq, bool_eq, event_eq, append,
}

bool_eq_iff : (a b : Bool) → (bool_eq a b ≡ true) ↔ (a ≡ b)
bool_eq_iff a b = ground arith

status_eq_iff : (a b : OutboxStatus) → (status_eq a b ≡ true) ↔ (a ≡ b)
status_eq_iff a b = ground arith

module _ {P : Type 0} (q : Eq P) where
  pub event_eq_sound : (a b : OutboxEvent P) → event_eq q a b ≡ true → a ≡ b
  unfolding event_eq
  event_eq_sound a b h = ground (
    arith,
    str_eq_iff a.event_id b.event_id,
    str_eq_iff a.event_type b.event_type,
    str_eq_iff a.aggregate_type b.aggregate_type,
    str_eq_iff a.aggregate_id b.aggregate_id,
    q.beq_iff a.payload b.payload,
  )

  pub event_eq_refl : (a : OutboxEvent P) → event_eq q a a ≡ true
  unfolding event_eq
  event_eq_refl a = ground (
    arith,
    str_eq_iff a.event_id a.event_id,
    str_eq_iff a.event_type a.event_type,
    str_eq_iff a.aggregate_type a.aggregate_type,
    str_eq_iff a.aggregate_id a.aggregate_id,
    q.beq_iff a.payload a.payload,
  )

  append_known :
      (e : OutboxEvent P) (s : OutboxStore P)
      → lookup e.event_id s.events ≡ some e
      → append q e s ≡ (ok e, s)
  unfolding append
  append_known e s h = ground (arith, event_eq_refl e)

  append_result :
      (e e' : OutboxEvent P) (s s' : OutboxStore P)
      → append q e s ≡ (ok e', s')
      → (e' ≡ e) × (lookup e.event_id s'.events ≡ some e) × (s'.leases ≡ s.leases)
  unfolding append
  append_result e e' s s' h = elim (Option-cases (lookup e.event_id s.events)) [
    | inl absent ↦
        ground
          (arith, str_eq_iff e.event_id e.event_id, lookup-insert e.event_id e.event_id e s.events)
    | inr (old, present) ↦ ground (arith, event_eq_sound old e)
  ]

  append_others :
      (e e' : OutboxEvent P) (s s' : OutboxStore P)
      → append q e s ≡ (ok e', s')
      → (id : String) → id ≢ e.event_id
      → lookup id s'.events ≡ lookup id s.events
  unfolding append
  append_others e e' s s' h id ne =
      ground (arith, str_eq_iff e.event_id id, lookup-insert e.event_id id e s.events)

  -- An append that succeeds returns the event itself, which is then stored under its id; every
  -- other id keeps its event, the leases stay, and appending the event again succeeds and changes
  -- nothing.
  pub append_stores :
      (e e' : OutboxEvent P) (s s' : OutboxStore P)
      → append q e s ≡ (ok e', s')
      → (e' ≡ e)
        × (lookup e.event_id s'.events ≡ some e)
        × ((id : String) → id ≢ e.event_id → lookup id s'.events ≡ lookup id s.events)
        × (s'.leases ≡ s.leases)
        × (append q e s' ≡ (ok e, s'))
  append_stores e e' s s' h =
      let (same, stored, kept) = append_result e e' s s' h in
      (same, stored, append_others e e' s s' h, kept, append_known e s' stored)

  -- An event whose id holds a different event is refused with `IntegrityViolation`, and the store
  -- stays as it was.
  pub append_collision :
      (e old : OutboxEvent P) (s : OutboxStore P)
      → lookup e.event_id s.events ≡ some old
      → old ≢ e
      → append q e s
        ≡ (err (integrity_violation "outbox event_id collision with different event"), s)
  unfolding append
  append_collision e old s h ne = ground (arith, event_eq_sound old e)
