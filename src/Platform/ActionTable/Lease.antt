-- ===== src/Platform/ActionTable/Lease.antt =====
-- The send lease of a commercial action: exclusive while it runs, and fenced once it is taken over.
use mathlib.Core.Option.{some-injective}
use shema_business_platform.Prelude.{
  ◌<◌, ◌≡◌, ◌≢◌, sym, ap, ◌∙◌, true, false, none, some, inl, inr, String, Datetime,
  integrity_violation, ok, err, str_eq_iff, is_blank, Option-cases, arith,
}
use shema_business_platform.Prelude.Dict.{lookup, insert, lookup-insert}
use shema_business_platform.Domain.CommercialAction.{
  CommercialActionStatus, sent, failed, CommercialAction, validate_for_send,
}
use shema_business_platform.Platform.ActionTable.{
  ActionTable, claim_for_send, claim_row, is_claimable, is_held, complete_send,
  fail_external_effect, release,
}

pub lookup_self :
    (id : String) (a : CommercialAction) (t : ActionTable) → lookup id (insert id a t) ≡ some a
lookup_self id a t = ground (arith, str_eq_iff id id, lookup-insert id id a t)

-- A claim that succeeds found an action that was sendable, with no live lease, and has leased it to
-- the worker under the next attempt.
pub claim_for_send_takes :
    (id w : String) (until now : Datetime) (t t' : ActionTable) (a : CommercialAction)
    → claim_for_send id w until now t ≡ ok (a, t')
    → (before : CommercialAction) × (lookup id t ≡ some before)
      × (is_claimable now before ≡ true)
      × (a ≡ claim_row w until before)
      × (lookup id t' ≡ some a)
      × (now.micros < until.micros)
      × (validate_for_send before ≡ ok tt)
claim_for_send_takes id w until now t t' a h = elim (Option-cases (lookup id t)) [
  | inl missing ↦ absurd (unfold claim_for_send in ground arith)
  | inr (before, there) ↦ (
    before,
    there,
    unfold claim_for_send in ground arith,
    unfold claim_for_send in ground arith,
    unfold claim_for_send in ground (arith, lookup_self id (claim_row w until before) t),
    unfold claim_for_send in ground arith,
    unfold claim_for_send in ground arith,
  )
]

held_in_lease :
    (w : String) (until t : Datetime) (a : CommercialAction)
    → t.micros < until.micros
    → is_held w t (claim_row w until a) ≡ true
unfolding is_held
held_in_lease w until t a lt = ground (arith, str_eq_iff w w)

-- The worker of a claim that succeeds holds the action at every time before its lease ends.
pub claim_for_send_held :
    (id w : String) (until now t : Datetime) (s s' : ActionTable) (a : CommercialAction)
    → claim_for_send id w until now s ≡ ok (a, s')
    → t.micros < until.micros
    → is_held w t a ≡ true
claim_for_send_held id w until now t s s' a h lt =
    let (before, _, _, row, _, _, _) = claim_for_send_takes id w until now s s' a h in
    ap (is_held w t) row ∙ held_in_lease w until t before lt

not_claimable :
    (w : String) (until later : Datetime) (before b : CommercialAction)
    → later.micros < until.micros
    → b ≡ claim_row w until before
    → is_claimable later b ≡ false
unfolding is_claimable
not_claimable w until later before b lt e = ground arith

-- While the lease of a send runs, no worker can claim the action again.
pub send_claims_exclusive :
    (id w w' : String) (until until' now later : Datetime) (t t' t'' : ActionTable)
    (a b : CommercialAction)
    → claim_for_send id w until now t ≡ ok (a, t')
    → later.micros < until.micros
    → claim_for_send id w' until' later t' ≢ ok (b, t'')
send_claims_exclusive id w w' until until' now later t t' t'' a b h live again =
    let (before, _, _, row, stored, _, _) = claim_for_send_takes id w until now t t' a h in
    let (c, there, available, _, _, _, _) =
      claim_for_send_takes id w' until' later t' t'' b again in
    let same : c ≡ a = some-injective _ _ (sym there ∙ stored) in
    cc (available, not_claimable w until later before c live (same ∙ row))

stale_refused :
    (id w w' : String) (until now : Datetime) (t : ActionTable) (before : CommercialAction)
    → lookup id t ≡ some (claim_row w' until before)
    → w ≢ w'
    → is_blank w ≡ false
    → now.tz_aware ≡ true
    → (complete_send id w now t
        ≡ err (
            integrity_violation
              "commercial action completion rejected: missing or expired send lease"))
      × (fail_external_effect id w now t ≡ ok (none, t))
unfolding complete_send fail_external_effect
stale_refused id w w' until now t before there ne named aware =
    (ground (arith, str_eq_iff w' w), ground (arith, str_eq_iff w' w))

-- Fencing: once another worker has claimed the action, an earlier worker with a name can neither
-- complete the send, which raises `IntegrityViolation`, nor fail the action, which is left as it
-- is.
pub stale_sender_rejected :
    (id w w' : String) (until t now : Datetime) (s s' : ActionTable) (a : CommercialAction)
    → claim_for_send id w' until t s ≡ ok (a, s')
    → w ≢ w'
    → is_blank w ≡ false
    → now.tz_aware ≡ true
    → (complete_send id w now s'
        ≡ err (
            integrity_violation
              "commercial action completion rejected: missing or expired send lease"))
      × (fail_external_effect id w now s' ≡ ok (none, s'))
stale_sender_rejected id w w' until t now s s' a h ne named aware =
    let (before, _, _, row, stored, _, _) = claim_for_send_takes id w' until t s s' a h in
    stale_refused id w w' until now s' before (stored ∙ ap some row) ne named aware

settled :
    (id w : String) (now : Datetime) (t : ActionTable) (a : CommercialAction)
    → lookup id t ≡ some a
    → is_held w now a ≡ true
    → is_blank w ≡ false
    → now.tz_aware ≡ true
    → (complete_send id w now t ≡ ok (release sent a, insert id (release sent a) t))
      × (fail_external_effect id w now t
          ≡ ok (some (release failed a), insert id (release failed a) t))
unfolding complete_send fail_external_effect
settled id w now t a there held named aware = (ground arith, ground arith)

-- The worker that holds the lease can complete the send or fail the action: the action is then
-- stored as sent, or as failed, without a send lease, and every other action is as it was.
pub held_settles :
    (id w : String) (now : Datetime) (t : ActionTable) (a : CommercialAction)
    → lookup id t ≡ some a
    → is_held w now a ≡ true
    → is_blank w ≡ false
    → now.tz_aware ≡ true
    → (complete_send id w now t ≡ ok (release sent a, insert id (release sent a) t))
      × (fail_external_effect id w now t
          ≡ ok (some (release failed a), insert id (release failed a) t))
      × ((st : CommercialActionStatus) (k : String)
          → k ≢ id
          → lookup k (insert id (release st a) t) ≡ lookup k t)
held_settles id w now t a there held named aware =
    let (done, gone) = settled id w now t a there held named aware in
    (done, gone, λ st k ne. ground (arith, str_eq_iff id k, lookup-insert id k (release st a) t))
