-- ===== src/Foundation/Outbox/Keys.antt =====
-- The events of a store stand under their own ids, each id once; what a
-- publication by the worker that claimed the event stores.
use shema_business_platform.Prelude.{
  ℕ, ◌<◌, ◌≡◌, refl, ◌≢◌, sym, subst, inl, inr, true, [], ◌∷◌, some, none, String, Datetime, Result,
  ok, Eq, In, In-keep, str_eq, str_eq_iff, Bool-cases, Option-cases, arith,
}
use shema_business_platform.Prelude.Dict.{
  Dict, lookup, insert, erase, values, lookup-insert, lookup-erase,
}
use shema_business_platform.Foundation.Outbox.{
  OutboxEvent, OutboxDelivery, OutboxStore, is_pending, append, claim_pending, pending_events,
  publish, mark_published,
}

module _ {P : Type 0} where
  -- Every event stands under its own id, and no id twice.
  abbrev pub IsKeyed : Dict (OutboxEvent P) → Type 0
  IsKeyed [] = Unit
  IsKeyed ((k, e) ∷ d) = (e.event_id ≡ k) × (lookup k d ≡ none) × IsKeyed d

  insert-IsKeyed :
      (e : OutboxEvent P) (d : Dict (OutboxEvent P)) → IsKeyed d → IsKeyed (insert e.event_id e d)
  unfolding insert lookup
  insert-IsKeyed e [] h = (refl, refl, tt)
  insert-IsKeyed e ((k, x) ∷ d) h = elim (Bool-cases (str_eq k e.event_id)) [
    | inl same ↦ rw same (sym ((str_eq_iff k e.event_id).0 same), h.1, h.2)
    | inr other ↦ rw other (
      h.0,
      ground
          (arith, str_eq_iff e.event_id k, str_eq_iff k e.event_id, lookup-insert e.event_id k e d),
      insert-IsKeyed e d h.2,
    )
  ]

  lookup-In :
      (d : Dict (OutboxEvent P)) (e : OutboxEvent P)
      → IsKeyed d
      → In e (values d)
      → lookup e.event_id d ≡ some e
  unfolding lookup values
  lookup-In [] e h m = absurd m
  lookup-In ((k, x) ∷ d) e h (inl p) = ground (arith, str_eq_iff k e.event_id)
  lookup-In ((k, x) ∷ d) e h (inr m) = ground (arith, str_eq_iff k e.event_id, lookup-In d e h.2 m)

  pub pending_found :
      (s : OutboxStore P) (e : OutboxEvent P)
      → IsKeyed s.events
      → In e (pending_events s)
      → (lookup e.event_id s.events ≡ some e) × (is_pending e.status ≡ true)
  unfolding pending_events
  pending_found s e h m =
      let (found, test) =
        (In-keep (λ (x : OutboxEvent P). is_pending x.status) (values s.events)).0 m in
      (lookup-In s.events e h found, test)

  lookup_key :
      (k : String) (e : OutboxEvent P) (d : Dict (OutboxEvent P))
      → IsKeyed d
      → lookup k d ≡ some e
      → e.event_id ≡ k
  unfolding lookup
  lookup_key k e [] h p = cc
  lookup_key k e ((j, x) ∷ d) h p = ground (arith, str_eq_iff j k, lookup_key k e d h.2)

  replace-IsKeyed :
      (k : String) (e : OutboxEvent P) (d : Dict (OutboxEvent P))
      → IsKeyed d
      → e.event_id ≡ k
      → IsKeyed (insert k e d)
  replace-IsKeyed k e d h p = subst (λ j. IsKeyed (insert j e d)) p (insert-IsKeyed e d h)

  pub append-IsKeyed :
      (q : Eq P) (e : OutboxEvent P) (s : OutboxStore P)
      → IsKeyed s.events
      → IsKeyed (append q e s).1.events
  unfolding append
  append-IsKeyed q e s h = ground (arith, insert-IsKeyed e s.events h)

  pub claim_pending-IsKeyed :
      (w : String) (secs limit : ℕ) (now : Datetime) (s : OutboxStore P)
      → IsKeyed s.events
      → IsKeyed (claim_pending w secs now limit s).1.events
  unfolding claim_pending
  claim_pending-IsKeyed w secs limit now s h = ground arith

  pub mark_published-IsKeyed :
      (id w : String) (now : Datetime) (s : OutboxStore P)
      → IsKeyed s.events
      → IsKeyed (mark_published id w now s).1.events
  unfolding mark_published
  mark_published-IsKeyed id w now s h = elim (Option-cases (lookup id s.events)) [
    | inl missing ↦ ground arith
    | inr (e, found) ↦
        ground (arith, replace-IsKeyed id (publish e) s.events h (lookup_key id e s.events h found))
  ]

  -- Every operation of the store keeps the events under their own ids, each id once, whether it
  -- succeeds or raises.
  pub outbox-IsKeyed :
      (q : Eq P) (e : OutboxEvent P) (id w : String) (secs limit : ℕ) (now : Datetime)
      (s : OutboxStore P)
      → IsKeyed s.events
      → IsKeyed (append q e s).1.events
        × IsKeyed (claim_pending w secs now limit s).1.events
        × IsKeyed (mark_published id w now s).1.events
  outbox-IsKeyed q e id w secs limit now s h = (
    append-IsKeyed q e s h,
    claim_pending-IsKeyed w secs limit now s h,
    mark_published-IsKeyed id w now s h,
  )

  -- What a live lease of the worker gives for `mark_published`.
  pub publish_leased :
      (w : String) (now : Datetime) (s : OutboxStore P) (d : OutboxDelivery P)
      → IsKeyed s.events
      → lookup d.event.event_id s.events ≡ some d.event
      → lookup d.event.event_id s.leases ≡ some d
      → d.worker_id ≡ w
      → now.micros < d.lease_until.micros
      → let id = d.event.event_id in
        mark_published id w now s ≡ (
          ok (publish d.event),
          record { events = insert id (publish d.event) s.events; leases = erase id s.leases },
        )
  unfolding mark_published
  publish_leased w now s d h found stored by live = ground (arith, str_eq_iff d.worker_id w)

  pub none_pending :
      (s : OutboxStore P) (e x : OutboxEvent P)
      → IsKeyed s.events
      → lookup e.event_id s.events ≡ some (publish e)
      → In x (pending_events s)
      → x.event_id ≢ e.event_id
  none_pending s e x h found m same = ground (arith, pending_found s x h m)

  abbrev pub Published : OutboxEvent P → Result (OutboxEvent P) × OutboxStore P → Type 0
  Published e (r, s) =
      (r ≡ ok (publish e))
      × (lookup e.event_id s.events ≡ some (publish e))
      × (lookup e.event_id s.leases ≡ none)
      × ((x : OutboxEvent P) → In x (pending_events s) → x.event_id ≢ e.event_id)

  pub Published-once :
      (e : OutboxEvent P) (s : OutboxStore P)
      → IsKeyed s.events
      → Published e (
        ok (publish e),
        record {
          events = insert e.event_id (publish e) s.events;
          leases = erase e.event_id s.leases;
        },
      )
  Published-once e s h =
      let id = e.event_id in
      let s' : OutboxStore P = record {
        events = insert id (publish e) s.events;
        leases = erase id s.leases;
      } in
      let there : lookup id s'.events ≡ some (publish e) =
        ground (arith, str_eq_iff id id, lookup-insert id id (publish e) s.events) in
      (
        refl,
        there,
        ground (arith, str_eq_iff id id, lookup-erase id id s.leases),
        λ x m. none_pending s' e x (insert-IsKeyed (publish e) s.events h) there m,
      )
