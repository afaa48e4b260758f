-- ===== src/Application/CommercialSend/Reserving.antt =====
-- What the first transaction has established when it yields a leased action.
use mathlib.Core.Option.{some-injective}
use shema_business_platform.Prelude.{
  ◌≤◌, ◌<◌, ◌≡◌, refl, ◌∙◌, sym, ap, subst, inl, inr, true, Option, none, some, String, Datetime,
  add_seconds, ok, str_eq_iff, Option-cases, arith,
}
use shema_business_platform.Prelude.Dict.{lookup, lookup-insert}
use shema_business_platform.Domain.CommercialAction.{CommercialAction, has_evidence}
use shema_business_platform.Platform.ActionTable.{is_claimable, is_sent}
use shema_business_platform.Platform.ActionTable
use shema_business_platform.Platform.ActionTable.Lease.{claim_for_send_takes, claim_for_send_held}
use shema_business_platform.Platform.IdempotencyTable.{IdempotencyRecord, KeyTable, reservation}
use shema_business_platform.Platform.Transaction.{>>=-ok}
use shema_business_platform.Platform.IdempotencyTable
use shema_business_platform.Foundation.Policy.{allow, is_critical, evaluate}
use shema_business_platform.Application.Actor.{critical_context}
use shema_business_platform.Application.SendData.{
  SendDb, Sender, SendCommand, leased, worker_of, request_hash, pending_ref, evidence_level,
}
use shema_business_platform.Application.CommercialSend.{
  on_keys, on_actions, claim, reserve_key, reserve_body, is_owner,
}
use shema_business_platform.Application.CommercialSend.Safety.{on_keys_actions, reserve_parts}

allowed_trust :
    (c : SendCommand) (a : CommercialAction)
    → evaluate (
        critical_context c.actor "commercial_action_send" "commercial_action" c.action_id
          (evidence_level a))
      ≡ ok (record { decision = allow; reason = "policy_ok" })
    → (2 ≤ c.actor.trust_level) × (has_evidence a.evidence_refs ≡ true)
unfolding evaluate is_critical
allowed_trust c a h = (ground arith, ground arith)

owner_is : (o : Option String) (id : String) → is_owner o id ≡ true → o ≡ some id
owner_is none id h = absurd (ground arith)
owner_is (some x) id h = ap some ((str_eq_iff x id).0 h)

claim_leases :
    (c : SendCommand) (now : Datetime) (db db' : SendDb) (a : CommercialAction)
    → claim c now db ≡ ok (leased a, db')
    → (ActionTable.claim_for_send c.action_id (worker_of c) (add_seconds now 300) now db.actions
        ≡ ok (a, db'.actions))
      × (db'.keys ≡ db.keys)
unfolding claim on_actions
claim_leases c now db db' a h = ground arith

-- The record under the command's key is a reservation for the command.
abbrev pub IsReserved : Sender → SendCommand → KeyTable → Type 0
IsReserved s c t =
    (k : IdempotencyRecord) × (lookup c.key t ≡ some k)
    × (k.request_hash ≡ request_hash s c)
    × (k.result_ref ≡ pending_ref c.action_id)

new_key :
    (s : Sender) (c : SendCommand) (db db' : SendDb) (k : IdempotencyRecord)
    → lookup c.key db.keys ≡ none
    → on_keys (IdempotencyTable.reserve c.key (request_hash s c) (pending_ref c.action_id)) db
      ≡ ok (k, db')
    → IsReserved s c db'.keys
unfolding on_keys IdempotencyTable.reserve
new_key s c db db' k fresh h =
    let r = reservation c.key (request_hash s c) (pending_ref c.action_id) in
    (r, ground (arith, str_eq_iff c.key c.key, lookup-insert c.key c.key r db.keys), refl, refl)

old_key :
    (s : Sender) (c : SendCommand) (now : Datetime) (b a : CommercialAction) (k : IdempotencyRecord)
    (db db' : SendDb)
    → reserve_key s c now b (some k) db ≡ ok (leased a, db')
    → (k.request_hash ≡ request_hash s c)
      × (k.result_ref ≡ pending_ref c.action_id)
      × (claim c now db ≡ ok (leased a, db'))
unfolding reserve_key
old_key s c now b a k db db' h = ground (
  arith,
  str_eq_iff k.request_hash (request_hash s c),
  str_eq_iff k.result_ref (pending_ref c.action_id),
)

reserve_leases :
    (s : Sender) (c : SendCommand) (now : Datetime) (b a : CommercialAction) (db db' : SendDb)
    → lookup c.action_id db.actions ≡ some b
    → reserve_key s c now b (lookup c.key db.keys) db ≡ ok (leased a, db')
    → (ActionTable.claim_for_send c.action_id (worker_of c) (add_seconds now 300) now db.actions
        ≡ ok (a, db'.actions))
      × IsReserved s c db'.keys
reserve_leases s c now b a db db' there h = elim (Option-cases (lookup c.key db.keys)) [
  | inl fresh ↦
      let m = IdempotencyTable.reserve c.key (request_hash s c) (pending_ref c.action_id) in
      let (k, d, ran, rest) =
        >>=-ok (on_keys m) (λ _. claim c now) db db' (leased a)
          (unfold reserve_key in ap (λ o. reserve_key s c now b o db) (sym fresh) ∙ h) in
      let (took, same) = claim_leases c now d db' a rest in
      (
        ap (ActionTable.claim_for_send c.action_id (worker_of c) (add_seconds now 300) now)
              (sym (on_keys_actions m db d k ran))
            ∙ took,
        subst (IsReserved s c) (sym same) (new_key s c db d k fresh ran),
      )
  | inr (k, old) ↦
      let (hash, ref, rest) =
        old_key s c now b a k db db' (ap (λ o. reserve_key s c now b o db) (sym old) ∙ h) in
      let (took, same) = claim_leases c now db db' a rest in
      (took, (k, ap (lookup c.key) same ∙ old, hash, ref))
]

-- Before anything is sent the first transaction has found the action owned by the actor, whom the
-- policy allows to send it; it has leased the action to the command's worker for 300 seconds, and
-- the command's idempotency key is reserved for the request, without a result.
pub leased_before_send :
    (s : Sender) (c : SendCommand) (now : Datetime) (db db' : SendDb) (a : CommercialAction)
    → reserve_body s c now db ≡ ok (leased a, db')
    → (before : CommercialAction) × (lookup c.action_id db.actions ≡ some before)
      × (before.owner_actor_id ≡ some c.actor.actor_id)
      × (2 ≤ c.actor.trust_level)
      × (has_evidence before.evidence_refs ≡ true)
      × (is_claimable now before ≡ true)
      × (lookup c.action_id db'.actions ≡ some a)
      × ((t : Datetime)
          → t.micros < (add_seconds now 300).micros
          → ActionTable.is_held (worker_of c) t a ≡ true)
      × IsReserved s c db'.keys
leased_before_send s c now db db' a h =
    let (b, there, owned, allowed, ran) = reserve_parts c now s db db' (leased a) h in
    let (took, key) = reserve_leases s c now b a db db' there ran in
    let until = add_seconds now 300 in
    let (before, stored, available, _, leases, _, _) =
      claim_for_send_takes c.action_id (worker_of c) until now db.actions db'.actions a took in
    let same : before ≡ b = some-injective _ _ (sym stored ∙ there) in
    (
      b,
      there,
      owner_is b.owner_actor_id c.actor.actor_id owned,
      (allowed_trust c b allowed).0,
      (allowed_trust c b allowed).1,
      subst (λ x. is_claimable now x ≡ true) same available,
      leases,
      λ t lt.
          claim_for_send_held c.action_id (worker_of c) until now t db.actions db'.actions a took
            lt,
      key,
    )
