-- ===== src/Foundation/Outbox/Claim.antt =====
-- The loop of `claim_pending`: what it delivers, what it leases and what it leaves.
use shema_business_platform.Prelude.{
  ℕ, suc, ◌+◌, ◌≤◌, ◌<◌, ◌≡◌, refl, ◌∙◌, ap, subst, inl, inr, true, false, List, [], ◌∷◌, some,
  String, Datetime, All, In, length, ltb, leb, str_eq, str_eq_iff, Bool-cases, arith, if◌then◌else◌,
}
use shema_business_platform.Prelude.Dict.{Dict, lookup, insert, lookup-insert}
use shema_business_platform.Foundation.Outbox.{
  OutboxEvent, OutboxDelivery, is_leased, delivery, claim_loop,
}

pub is_leased-insert :
    {P : Type 0} (now : Datetime) (k id : String) (d : OutboxDelivery P)
    (leases : Dict (OutboxDelivery P))
    → is_leased (insert k d leases) now id
      ≡ (if str_eq k id then ltb now.micros d.lease_until.micros else is_leased leases now id)
unfolding is_leased
is_leased-insert now k id d leases = ground (arith, lookup-insert k id d leases)

-- A table that agrees on an id agrees on its lease.
pub is_leased_cong :
    {P : Type 0} (now : Datetime) (id : String) (a b : Dict (OutboxDelivery P))
    → lookup id a ≡ lookup id b
    → is_leased a now id ≡ is_leased b now id
unfolding is_leased
is_leased_cong now id a b e = ground arith

module _ {P : Type 0} (w : String) (until now : Datetime) where
  -- A delivery of the loop: its lease stands in the table, and no live lease stood there before.
  pub record IsClaimed (before after : Dict (OutboxDelivery P)) (d : OutboxDelivery P)
      : Type 0 where
    pub stored : lookup d.event.event_id after ≡ some d
    pub was_free : is_leased before now d.event.event_id ≡ false
    pub by_worker : d.worker_id ≡ w
    pub live_until : d.lease_until ≡ until

module _ {P : Type 0} (w : String) (until now : Datetime) (limit : ℕ) where
  -- A live lease is left as it is.
  pub claim_loop-keeps_live :
      (n : ℕ) (es : List (OutboxEvent P)) (leases : Dict (OutboxDelivery P)) (id : String)
      → now.micros < until.micros
      → is_leased leases now id ≡ true
      → lookup id (claim_loop w until now limit n es leases).0 ≡ lookup id leases
  unfolding claim_loop
  claim_loop-keeps_live n [] leases id lt h = refl
  claim_loop-keeps_live n (e ∷ es) leases id lt h =
      let d = delivery w until leases e in
      ground (
        arith,
        str_eq_iff e.event_id id,
        lookup-insert e.event_id id d leases,
        is_leased-insert now e.event_id id d leases,
        claim_loop-keeps_live n es leases id lt h,
        claim_loop-keeps_live (suc n) es (insert e.event_id d leases) id lt,
      )

  All-IsClaimed-weaken :
      (e : OutboxEvent P) (d : OutboxDelivery P) (before after : Dict (OutboxDelivery P))
      (ds : List (OutboxDelivery P))
      → now.micros < d.lease_until.micros
      → All (IsClaimed w until now (insert e.event_id d before) after) ds
      → All (IsClaimed w until now before after) ds
  All-IsClaimed-weaken e d before after [] lt h = tt
  All-IsClaimed-weaken e d before after (x ∷ xs) lt h = (
    record {
      stored = h.0.stored;
      was_free =
          ground (arith, h.0.was_free, is_leased-insert now e.event_id x.event.event_id d before);
      by_worker = h.0.by_worker;
      live_until = h.0.live_until;
    },
    All-IsClaimed-weaken e d before after xs lt h.1,
  )

  leased_self :
      (e : OutboxEvent P) (leases : Dict (OutboxDelivery P))
      → now.micros < until.micros
      → is_leased (insert e.event_id (delivery w until leases e) leases) now e.event_id ≡ true
  leased_self e leases lt = ground (
    arith,
    str_eq_iff e.event_id e.event_id,
    is_leased-insert now e.event_id e.event_id (delivery w until leases e) leases,
  )

  lookup_self :
      (e : OutboxEvent P) (d : OutboxDelivery P) (leases : Dict (OutboxDelivery P))
      → lookup e.event_id (insert e.event_id d leases) ≡ some d
  lookup_self e d leases =
      ground (arith, str_eq_iff e.event_id e.event_id, lookup-insert e.event_id e.event_id d leases)

  pub claim_loop-IsClaimed :
      (n : ℕ) (es : List (OutboxEvent P)) (leases : Dict (OutboxDelivery P))
      → now.micros < until.micros
      → let (after, ds) = claim_loop w until now limit n es leases in
        All (IsClaimed w until now leases after) ds
  unfolding claim_loop
  claim_loop-IsClaimed n [] leases lt = tt
  claim_loop-IsClaimed n (e ∷ es) leases lt =
      let d = delivery w until leases e in
      let leases' = insert e.event_id d leases in
      elim (Bool-cases (is_leased leases now e.event_id)) [
        | inl live ↦ rw live (claim_loop-IsClaimed n es leases lt)
        | inr free ↦ rw free (elim (Bool-cases (leb limit (suc n))) [
          | inl full ↦ rw full (
            record {
              stored = lookup_self e d leases;
              was_free = free;
              by_worker = refl;
              live_until = refl;
            },
            tt,
          )
          | inr more ↦ rw more (
            record {
              stored =
                  claim_loop-keeps_live (suc n) es leases' e.event_id lt (leased_self e leases lt)
                  ∙ lookup_self e d leases;
              was_free = free;
              by_worker = refl;
              live_until = refl;
            },
            All-IsClaimed-weaken e d leases _ _ lt (claim_loop-IsClaimed (suc n) es leases' lt),
          )
        ])
      ]

  pub claim_loop-length :
      (n : ℕ) (es : List (OutboxEvent P)) (leases : Dict (OutboxDelivery P))
      → n < limit
      → length (claim_loop w until now limit n es leases).1 + n ≤ limit
  unfolding claim_loop
  claim_loop-length n [] leases h = omega arith
  claim_loop-length n (e ∷ es) leases h = ground (
    arith,
    claim_loop-length n es leases h,
    claim_loop-length (suc n) es (insert e.event_id (delivery w until leases e) leases),
  )

  -- What a live lease of `before` gives for the lease table after the loop.
  still_leased :
      (n : ℕ) (es : List (OutboxEvent P)) (leases : Dict (OutboxDelivery P)) (id : String)
      → now.micros < until.micros
      → is_leased leases now id ≡ true
      → is_leased (claim_loop w until now limit n es leases).0 now id ≡ true
  still_leased n es leases id lt h =
      is_leased_cong now id _ leases (claim_loop-keeps_live n es leases id lt h) ∙ h

  -- The three ways of one round.
  loop_skip :
      (n : ℕ) (e : OutboxEvent P) (es : List (OutboxEvent P)) (leases : Dict (OutboxDelivery P))
      → is_leased leases now e.event_id ≡ true
      → claim_loop w until now limit n es leases ≡ claim_loop w until now limit n (e ∷ es) leases
  unfolding claim_loop
  loop_skip n e es leases h = rw h

  loop_stop :
      (n : ℕ) (e : OutboxEvent P) (es : List (OutboxEvent P)) (leases : Dict (OutboxDelivery P))
      → is_leased leases now e.event_id ≡ false
      → leb limit (suc n) ≡ true
      → (insert e.event_id (delivery w until leases e) leases, delivery w until leases e ∷ [])
        ≡ claim_loop w until now limit n (e ∷ es) leases
  unfolding claim_loop
  loop_stop n e es leases h full = rw (h, full)

  loop_take :
      (n : ℕ) (e : OutboxEvent P) (es : List (OutboxEvent P)) (leases : Dict (OutboxDelivery P))
      → is_leased leases now e.event_id ≡ false
      → leb limit (suc n) ≡ false
      → let d = delivery w until leases e in
        let rest = claim_loop w until now limit (suc n) es (insert e.event_id d leases) in
        (rest.0, d ∷ rest.1) ≡ claim_loop w until now limit n (e ∷ es) leases
  unfolding claim_loop
  loop_take n e es leases h more = rw (h, more)

  -- When fewer events are delivered than the limit allows, every event has a live lease.
  abbrev LeavesNone :
      ℕ → List (OutboxEvent P) → Dict (OutboxDelivery P) × List (OutboxDelivery P) → Type 0
  LeavesNone n es r = length r.1 + n < limit → All (λ e. is_leased r.0 now e.event_id ≡ true) es

  pub claim_loop_complete :
      (n : ℕ) (es : List (OutboxEvent P)) (leases : Dict (OutboxDelivery P))
      → now.micros < until.micros
      → LeavesNone n es (claim_loop w until now limit n es leases)
  claim_loop_complete n [] leases lt = λ h. tt
  claim_loop_complete n (e ∷ es) leases lt =
      let d = delivery w until leases e in
      let leases' = insert e.event_id d leases in
      elim (Bool-cases (is_leased leases now e.event_id)) [
        | inl live ↦ subst (LeavesNone n (e ∷ es)) (loop_skip n e es leases live) (λ h.
            (still_leased n es leases e.event_id lt live, claim_loop_complete n es leases lt h))
        | inr free ↦ elim (Bool-cases (leb limit (suc n))) [
          | inl full ↦
              subst (LeavesNone n (e ∷ es)) (loop_stop n e es leases free full)
                (λ h. absurd (ground arith))
          | inr more ↦ subst (LeavesNone n (e ∷ es)) (loop_take n e es leases free more) (λ h. (
            still_leased (suc n) es leases' e.event_id lt (leased_self e leases lt),
            claim_loop_complete (suc n) es leases' lt (omega arith),
          ))
        ]
      ]

  -- Only events of the list are delivered.
  pub claim_loop-In :
      (n : ℕ) (es : List (OutboxEvent P)) (leases : Dict (OutboxDelivery P)) (d : OutboxDelivery P)
      → In d (claim_loop w until now limit n es leases).1
      → In d.event es
  claim_loop-In n [] leases d = λ h. unfold claim_loop in h
  claim_loop-In n (e ∷ es) leases d =
      let d' = delivery w until leases e in
      let leases' = insert e.event_id d' leases in
      elim (Bool-cases (is_leased leases now e.event_id)) [
        | inl live ↦
            subst (λ r. In d r.1 → In d.event (e ∷ es)) (loop_skip n e es leases live)
              (λ h. inr (claim_loop-In n es leases d h))
        | inr free ↦ elim (Bool-cases (leb limit (suc n))) [
          | inl full ↦
              subst (λ r. In d r.1 → In d.event (e ∷ es)) (loop_stop n e es leases free full)
                (elim [ inl p ↦ inl (ap (λ x. x.event) p) | inr h ↦ absurd h ])
          | inr more ↦
              subst (λ r. In d r.1 → In d.event (e ∷ es)) (loop_take n e es leases free more)
                (elim [
                  | inl p ↦ inl (ap (λ x. x.event) p)
                  | inr h ↦ inr (claim_loop-In (suc n) es leases' d h)
                ])
        ]
      ]
