-- ===== src/Foundation/Outbox/Leases.antt =====
-- `claim_pending` and `mark_published` of foundation/outbox.py: exclusive leases and fenced
-- publication.
use shema_business_platform.Prelude.{
  ℕ, ◌≤◌, ◌<◌, ◌≡◌, sym, ◌∙◌, ap, subst, ◌≢◌, true, List, some, String, Datetime, add_seconds,
  integrity_violation, ok, err, All, All-In, In, length, str_eq_iff, arith,
}
use mathlib.Core.Path.{subst₂}
use shema_business_platform.Prelude.Dict.{lookup}
use shema_business_platform.Foundation.Outbox.{
  OutboxEvent, OutboxDelivery, OutboxStore, claim_pending, claim_loop, sort_events, pending_events,
  is_leased, mark_published,
}
use shema_business_platform.Foundation.Outbox.Claim.{
  IsClaimed, claim_loop-IsClaimed, claim_loop-length, claim_loop_complete, claim_loop-In,
}
use shema_business_platform.Foundation.Outbox.Order.{In-sort_events}

module _ {P : Type 0} where
  -- The claim's result in terms of its loop, when it does not raise.
  pub claim_pending-ok :
      (w : String) (secs limit : ℕ) (now : Datetime) (s s' : OutboxStore P)
      (ds : List (OutboxDelivery P))
      → claim_pending w secs now limit s ≡ (ok ds, s')
      → let until = add_seconds now secs in
        let r = claim_loop w until now limit 0 (sort_events (pending_events s)) s.leases in
        (r.1 ≡ ds)
        × (r.0 ≡ s'.leases)
        × (s'.events ≡ s.events)
        × (now.micros < until.micros)
        × (0 < limit)
  unfolding claim_pending
  claim_pending-ok w secs limit now s s' ds h = ground arith

  -- A claim delivers only pending events of the store, at most `limit` of them; each delivery is
  -- leased to the worker until `lease_seconds` from now, the lease stands in the table, and no
  -- live lease stood there before.
  pub claim_pending_sound :
      (w : String) (secs limit : ℕ) (now : Datetime) (s s' : OutboxStore P)
      (ds : List (OutboxDelivery P))
      → claim_pending w secs now limit s ≡ (ok ds, s')
      → (length ds ≤ limit)
        × (s'.events ≡ s.events)
        × All (IsClaimed w (add_seconds now secs) now s.leases s'.leases) ds
        × ((d : OutboxDelivery P) → In d ds → In d.event (pending_events s))
  claim_pending_sound w secs limit now s s' ds h =
      let (eds, els, eev, lt, pos) = claim_pending-ok w secs limit now s s' ds h in
      let until = add_seconds now secs in
      let es = sort_events (pending_events s) in
      (
        omega (arith, claim_loop-length w until now limit 0 es s.leases pos, ap length eds),
        eev,
        subst₂ (λ ls xs. All (IsClaimed w until now s.leases ls) xs) els eds
            (claim_loop-IsClaimed w until now limit 0 es s.leases lt),
        λ d m.
            (In-sort_events d.event (pending_events s)).0
              (claim_loop-In w until now limit 0 es s.leases d (subst (In d) (sym eds) m)),
      )

  -- A claim that delivers fewer events than its limit leaves no pending event without a live
  -- lease: none is passed over.
  pub claim_pending_complete :
      (w : String) (secs limit : ℕ) (now : Datetime) (s s' : OutboxStore P)
      (ds : List (OutboxDelivery P))
      → claim_pending w secs now limit s ≡ (ok ds, s')
      → length ds < limit
      → (e : OutboxEvent P) → In e (pending_events s)
      → is_leased s'.leases now e.event_id ≡ true
  claim_pending_complete w secs limit now s s' ds h short e m =
      let (eds, els, eev, lt, pos) = claim_pending-ok w secs limit now s s' ds h in
      let until = add_seconds now secs in
      let es = sort_events (pending_events s) in
      subst (λ ls. is_leased ls now e.event_id ≡ true) els
        (All-In _ es
          (claim_loop_complete w until now limit 0 es s.leases lt (omega (arith, ap length eds)))
          ((In-sort_events e (pending_events s)).1 m))

  stored_live :
      (t : Datetime) (s : OutboxStore P) (d : OutboxDelivery P) (id : String)
      → lookup id s.leases ≡ some d
      → t.micros < d.lease_until.micros
      → is_leased s.leases t id ≡ true
  unfolding is_leased
  stored_live t s d id h lt = ground arith

  -- Two claims in a row, by any workers, never deliver one event twice while the first lease runs:
  -- when the second claim is made before the first one's leases end, no delivery of one has the
  -- event id of a delivery of the other.
  pub claims_disjoint :
      (w₁ w₂ : String) (secs₁ secs₂ limit₁ limit₂ : ℕ) (t₁ t₂ : Datetime) (s₀ s₁ s₂ : OutboxStore P)
      (ds₁ ds₂ : List (OutboxDelivery P))
      → claim_pending w₁ secs₁ t₁ limit₁ s₀ ≡ (ok ds₁, s₁)
      → claim_pending w₂ secs₂ t₂ limit₂ s₁ ≡ (ok ds₂, s₂)
      → t₂.micros < (add_seconds t₁ secs₁).micros
      → (d₁ d₂ : OutboxDelivery P) → In d₁ ds₁
      → In d₂ ds₂
      → d₁.event.event_id ≢ d₂.event.event_id
  claims_disjoint w₁ w₂ secs₁ secs₂ limit₁ limit₂ t₁ t₂ s₀ s₁ s₂ ds₁ ds₂ h₁ h₂ live d₁ d₂ m₁ m₂
        same =
      let c₁ = All-In _ ds₁ (claim_pending_sound w₁ secs₁ limit₁ t₁ s₀ s₁ ds₁ h₁).2 m₁ in
      let c₂ = All-In _ ds₂ (claim_pending_sound w₂ secs₂ limit₂ t₂ s₁ s₂ ds₂ h₂).2 m₂ in
      let leased =
        stored_live t₂ s₁ d₁ d₁.event.event_id c₁.stored
          (omega (arith, ap (λ (t : Datetime). t.micros) c₁.live_until)) in
      cc (leased, c₂.was_free, same)

  wrong_worker :
      (w : String) (now : Datetime) (s : OutboxStore P) (d : OutboxDelivery P)
      → lookup d.event.event_id s.leases ≡ some d
      → w ≢ d.worker_id
      → mark_published d.event.event_id w now s ≡ (
        err (integrity_violation "outbox publication rejected: missing or different worker lease"),
        s,
      )
  unfolding mark_published
  wrong_worker w now s d stored ne = ground (arith, str_eq_iff d.worker_id w)

  -- Publication is fenced: after a later claim has taken the event over, the earlier worker's
  -- `mark_published` is refused and the store stays as it was.
  pub mark_published_fenced :
      (w w' : String) (secs limit : ℕ) (t now : Datetime) (s s' : OutboxStore P)
      (ds : List (OutboxDelivery P)) (d : OutboxDelivery P)
      → claim_pending w' secs t limit s ≡ (ok ds, s')
      → In d ds
      → w ≢ w'
      → mark_published d.event.event_id w now s' ≡ (
        err (integrity_violation "outbox publication rejected: missing or different worker lease"),
        s',
      )
  mark_published_fenced w w' secs limit t now s s' ds d h m ne =
      let c = All-In _ ds (claim_pending_sound w' secs limit t s s' ds h).2 m in
      wrong_worker w now s' d c.stored (λ e. ne (e ∙ c.by_worker))
