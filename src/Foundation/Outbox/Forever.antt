-- ===== src/Foundation/Outbox/Forever.antt =====
-- A claimed event can be published by its worker, and is then never pending and never delivered again,
-- whatever the store is called with.
use shema_business_platform.Prelude.{
  ℕ, ◌<◌, ◌≡◌, ◌≢◌, ap, sym, subst, inl, inr, List, [], ◌∷◌, some, none, String, Datetime,
  add_seconds, ok, Eq, All-In, In, str_eq_iff, Option-cases, arith,
}
use shema_business_platform.Prelude.Dict.{lookup, lookup-insert}
use shema_business_platform.Foundation.Outbox.{
  OutboxEvent, OutboxDelivery, OutboxStore, append, claim_pending, pending_events, publish,
  mark_published,
}
use shema_business_platform.Foundation.Outbox.Leases.{claim_pending_sound}
use shema_business_platform.Foundation.Outbox.Keys.{
  IsKeyed, pending_found, publish_leased, none_pending, Published, Published-once, append-IsKeyed,
  claim_pending-IsKeyed, mark_published-IsKeyed,
}

-- The calls that change the store.
pub data OutboxCall (P : Type 0) : Type 0 where
  appending : OutboxEvent P → OutboxCall P
  claiming : String → ℕ → Datetime → ℕ → OutboxCall P
  publishing : String → String → Datetime → OutboxCall P

module _ {P : Type 0} (q : Eq P) where
  -- The store after a call, whether it succeeds or raises.
  unfoldable pub outbox_step : OutboxCall P → OutboxStore P → OutboxStore P
  outbox_step (appending e) s = (append q e s).1
  outbox_step (claiming w secs now limit) s = (claim_pending w secs now limit s).1
  outbox_step (publishing id w now) s = (mark_published id w now s).1

  unfoldable pub outbox_after : List (OutboxCall P) → OutboxStore P → OutboxStore P
  outbox_after [] s = s
  outbox_after (c ∷ cs) s = outbox_after cs (outbox_step c s)

  -- The event is stored as published, in a store whose events stand under their own ids.
  abbrev IsSettled : OutboxEvent P → OutboxStore P → Type 0
  IsSettled e s = IsKeyed s.events × (lookup e.event_id s.events ≡ some (publish e))

  step-IsKeyed :
      (c : OutboxCall P) (s : OutboxStore P) → IsKeyed s.events → IsKeyed (outbox_step c s).events
  unfolding outbox_step
  step-IsKeyed (appending e) s h = append-IsKeyed q e s h
  step-IsKeyed (claiming w secs now limit) s h = claim_pending-IsKeyed w secs limit now s h
  step-IsKeyed (publishing id w now) s h = mark_published-IsKeyed id w now s h

  step_keeps :
      (c : OutboxCall P) (e : OutboxEvent P) (s : OutboxStore P)
      → lookup e.event_id s.events ≡ some (publish e)
      → lookup e.event_id (outbox_step c s).events ≡ some (publish e)
  unfolding outbox_step append claim_pending mark_published
  step_keeps (appending x) e s h =
      ground
        (arith, lookup-insert x.event_id e.event_id x s.events, str_eq_iff x.event_id e.event_id)
  step_keeps (claiming w secs now limit) e s h = ground arith
  step_keeps (publishing id w now) e s h = elim (Option-cases (lookup id s.events)) [
    | inl missing ↦ ground arith
    | inr (x, found) ↦
        ground (arith, lookup-insert id e.event_id (publish x) s.events, str_eq_iff id e.event_id)
  ]

  after-IsSettled :
      (cs : List (OutboxCall P)) (e : OutboxEvent P) (s : OutboxStore P)
      → IsSettled e s
      → IsSettled e (outbox_after cs s)
  unfolding outbox_after
  after-IsSettled [] e s h = h
  after-IsSettled (c ∷ cs) e s h =
      after-IsSettled cs e (outbox_step c s) (step-IsKeyed c s h.0, step_keeps c e s h.1)

  not_claimed :
      (w : String) (secs limit : ℕ) (t : Datetime) (s s' : OutboxStore P)
      (ds : List (OutboxDelivery P)) (d : OutboxDelivery P) (e : OutboxEvent P)
      → IsSettled e s
      → claim_pending w secs t limit s ≡ (ok ds, s')
      → In d ds
      → d.event.event_id ≢ e.event_id
  not_claimed w secs limit t s s' ds d e h c m =
      let (_, _, _, from) = claim_pending_sound w secs limit t s s' ds c in
      none_pending s e d.event h.0 h.1 (from d m)

  -- A worker that has claimed an event may publish it while its lease runs: the event is then stored
  -- as published and its lease is gone. From then on, after any sequence of appends, claims and
  -- publications, the event is still stored as published, no pending event has its id, and no
  -- claim delivers it again.
  pub claim_publish :
      (w : String) (secs limit : ℕ) (t now : Datetime) (s s' : OutboxStore P)
      (ds : List (OutboxDelivery P)) (d : OutboxDelivery P)
      → IsKeyed s.events
      → claim_pending w secs t limit s ≡ (ok ds, s')
      → In d ds
      → now.micros < (add_seconds t secs).micros
      → let id = d.event.event_id in
        let (r, s'') = mark_published id w now s' in
        (r ≡ ok (publish d.event))
        × (lookup id s''.events ≡ some (publish d.event))
        × (lookup id s''.leases ≡ none)
        × ((cs : List (OutboxCall P))
            → (lookup id (outbox_after cs s'').events ≡ some (publish d.event))
              × ((e : OutboxEvent P)
                  → In e (pending_events (outbox_after cs s''))
                  → e.event_id ≢ id)
              × ((w' : String) (secs' limit' : ℕ) (t' : Datetime) (s₃ : OutboxStore P)
                    (ds' : List (OutboxDelivery P)) (d' : OutboxDelivery P)
                  → claim_pending w' secs' t' limit' (outbox_after cs s'') ≡ (ok ds', s₃)
                  → In d' ds'
                  → d'.event.event_id ≢ id))
  claim_publish w secs limit t now s s' ds d h c m live =
      let e = d.event in
      let (_, ev, claimed, from) = claim_pending_sound w secs limit t s s' ds c in
      let k = All-In _ ds claimed m in
      let (found, _) = pending_found s e h (from d m) in
      let found' : lookup e.event_id s'.events ≡ some e = rw ev found in
      let keyed' : IsKeyed s'.events = subst IsKeyed (sym ev) h in
      let run =
        publish_leased w now s' d keyed' found' k.stored k.by_worker
          (omega (arith, ap (λ (x : Datetime). x.micros) k.live_until)) in
      let (done, there, gone, _) = subst (Published e) (sym run) (Published-once e s' keyed') in
      let settled : IsSettled e (mark_published e.event_id w now s').1 =
        (mark_published-IsKeyed e.event_id w now s' keyed', there) in
      (
        done,
        there,
        gone,
        λ cs.
            let (k₂, still) = after-IsSettled cs e (mark_published e.event_id w now s').1 settled in
            (
              still,
              λ x n.
                  none_pending (outbox_after cs (mark_published e.event_id w now s').1) e x k₂ still
                    n,
              λ w' secs' limit' t' s₃ ds' d' c' m'.
                  not_claimed w' secs' limit' t'
                    (outbox_after cs (mark_published e.event_id w now s').1) s₃ ds' d' e (k₂, still)
                    c' m',
            ),
      )
