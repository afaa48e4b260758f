-- ===== src/Application/CommercialSend/Safety.antt =====
-- What reaches the gateway: only an action that the first transaction has leased.
use shema_business_platform.Prelude.{
  ◌≡◌, refl, ◌∙◌, ap, inl, inr, Bool, true, false, Option, none, some, Datetime, add_seconds, ok,
  Result-cases, Option-cases, arith,
}
use shema_business_platform.Prelude.Dict.{lookup}
use shema_business_platform.Domain.CommercialAction.{CommercialAction, is_sendable}
use shema_business_platform.Platform.ActionTable.{is_claimable, is_sent}
use shema_business_platform.Platform.ActionTable
use shema_business_platform.Platform.ActionTable.Lease.{claim_for_send_takes}
use shema_business_platform.Platform.IdempotencyTable.{IdempotencyRecord, KeyTable, reservation}
use shema_business_platform.Platform.Transaction.{Tx, pure, transaction, >>=-ok}
use shema_business_platform.Platform.IdempotencyTable
use shema_business_platform.Foundation.Policy.{allow, PolicyContext, PolicyDecision, evaluate}
use shema_business_platform.Application.Actor.{critical_context, unless_allowed}
use shema_business_platform.Application.Communication.{CommunicationAdapter}
use shema_business_platform.Application.SendData.{
  SendDb, Sender, SendCommand, Reserved, replayed, leased, worker_of, request_hash, pending_ref,
  evidence_level,
}
use shema_business_platform.Application.CommercialSend.{
  on_keys, on_actions, claim, reserve_key, reserve_body, after_reserve, execute, is_owner,
}

abbrev is_replayed : Reserved → Bool
is_replayed (replayed r) = true
is_replayed (leased a) = false

claimable_sendable :
    (now : Datetime) (a : CommercialAction)
    → is_claimable now a ≡ true
    → is_sendable a.status ≡ true
unfolding is_claimable
claimable_sendable now a h = ground arith

pub on_keys_actions :
    {A : Type 0} (m : Tx KeyTable A) (db db' : SendDb) (a : A)
    → on_keys m db ≡ ok (a, db')
    → db'.actions ≡ db.actions
unfolding on_keys
on_keys_actions m db db' a h = ground arith

pub on_actions-ok :
    {A : Type 0} (m : Tx ActionTable.ActionTable A) (db db' : SendDb) (a : A)
    → on_actions m db ≡ ok (a, db')
    → m db.actions ≡ ok (a, db'.actions)
unfolding on_actions
on_actions-ok m db db' a h = ground arith

allowed_ok :
    (d : PolicyContext) (p : PolicyDecision)
    → evaluate d ≡ ok p
    → unless_allowed p ≡ ok tt
    → p ≡ record { decision = allow; reason = "policy_ok" }
unfolding evaluate
allowed_ok d p h k = ground arith

module _ (c : SendCommand) (now : Datetime) where
  claim_refused :
      (db db' : SendDb) (a : CommercialAction) (r : Reserved)
      → lookup c.action_id db.actions ≡ some a
      → is_sendable a.status ≡ false
      → claim c now db ≡ ok (r, db')
      → ⊥
  claim_refused db db' a r there closed h =
      let until = add_seconds now 300 in
      let m = on_actions (ActionTable.claim_for_send c.action_id (worker_of c) until now) in
      let (x, d, ran, _) = >>=-ok m (λ y. pure (leased y)) db db' r (unfold claim in h) in
      let (before, stored, available, _, _, _, _) =
        claim_for_send_takes c.action_id (worker_of c) until now db.actions d.actions x
          (on_actions-ok _ db d x ran) in
      ground (arith, claimable_sendable now before available)

  key_refused :
      (s : Sender) (a b : CommercialAction) (e : Option IdempotencyRecord) (db db' : SendDb)
      (r : Reserved)
      → lookup c.action_id db.actions ≡ some a
      → is_sendable a.status ≡ false
      → reserve_key s c now b e db ≡ ok (r, db')
      → (is_replayed r ≡ true) × (db' ≡ db)
  key_refused s a b none db db' r there closed h =
      let m = IdempotencyTable.reserve c.key (request_hash s c) (pending_ref c.action_id) in
      let (_, d, ran, rest) =
        >>=-ok (on_keys m) (λ _. claim c now) db db' r (unfold reserve_key in h) in
      absurd (
        claim_refused d db' a r (ap (lookup c.action_id) (on_keys_actions m db d _ ran) ∙ there)
          closed rest)
  key_refused s a b (some e) db db' r there closed h =
      unfold reserve_key in ground (arith, claim_refused db db' a r there closed)

  pub reserve_parts :
      (s : Sender) (db db' : SendDb) (r : Reserved)
      → reserve_body s c now db ≡ ok (r, db')
      → (a : CommercialAction) × (lookup c.action_id db.actions ≡ some a)
        × (is_owner a.owner_actor_id c.actor.actor_id ≡ true)
        × (evaluate (
              critical_context c.actor "commercial_action_send" "commercial_action" c.action_id
                (evidence_level a))
            ≡ ok (record { decision = allow; reason = "policy_ok" }))
        × (reserve_key s c now a (lookup c.key db.keys) db ≡ ok (r, db'))
  reserve_parts s db db' r h = elim (Option-cases (lookup c.action_id db.actions)) [
    | inl missing ↦ absurd (unfold reserve_body ActionTable.get in ground arith)
    | inr (a, there) ↦
        let d =
          critical_context c.actor "commercial_action_send" "commercial_action" c.action_id
            (evidence_level a) in
        elim (Result-cases (evaluate d)) [
          | inl (p, decided) ↦ (
            a,
            there,
            unfold reserve_body ActionTable.get in ground arith,
            decided
                ∙ ap ok
                    (allowed_ok d p decided (unfold reserve_body ActionTable.get in ground arith)),
            unfold reserve_body ActionTable.get IdempotencyTable.get in ground arith,
          )
          | inr (x, raised) ↦ absurd (unfold reserve_body ActionTable.get in ground arith)
        ]
  ]

  replays_unchanged :
      (s : Sender) (db db' : SendDb) (a : CommercialAction) (r : Reserved)
      → lookup c.action_id db.actions ≡ some a
      → is_sendable a.status ≡ false
      → reserve_body s c now db ≡ ok (r, db')
      → (is_replayed r ≡ true) × (db' ≡ db)
  replays_unchanged s db db' a r there closed h =
      let (b, _, _, _, ran) = reserve_parts s db db' r h in
      key_refused s a b (lookup c.key db.keys) db db' r there closed ran

-- What follows the reservation sends nothing when it replays.
after_replay :
    (s : Sender) (c : SendCommand) (g : CommunicationAdapter) (meanwhile other : SendDb → SendDb)
    (now at : Datetime) (r : Reserved) (db : SendDb)
    → is_replayed r ≡ true
    → (after_reserve s c meanwhile now at r db
        ≡ after_reserve (record s { adapter = g }) c other now at r db)
      × ((after_reserve s c meanwhile now at r db).1 ≡ db)
unfolding after_reserve
after_replay s c g meanwhile other now at (replayed r) db h = (refl, refl)
after_replay s c g meanwhile other now at (leased a) db h = absurd (ground arith)

same_reservation :
    (s : Sender) (c : SendCommand) (g : CommunicationAdapter) (now : Datetime) (db : SendDb)
    → reserve_body (record s { adapter = g }) c now db ≡ reserve_body s c now db
unfolding reserve_body reserve_key request_hash
same_reservation s c g now db = refl

-- An action that is neither ready nor being sent, as one that was sent, failed or cancelled, is
-- never sent again: its execution does not reach the gateway, since neither the adapter nor what
-- happens meanwhile makes a difference to it, and it leaves the database as it was.
pub not_sendable_never_sent :
    (s : Sender) (c : SendCommand) (g : CommunicationAdapter) (meanwhile other : SendDb → SendDb)
    (claimed now at : Datetime) (db : SendDb) (a : CommercialAction)
    → lookup c.action_id db.actions ≡ some a
    → is_sendable a.status ≡ false
    → (execute s c meanwhile claimed now at db
        ≡ execute (record s { adapter = g }) c other claimed now at db)
      × ((execute s c meanwhile claimed now at db).1 ≡ db)
unfolding execute
not_sendable_never_sent s c g meanwhile other claimed now at db a there closed =
    elim (Result-cases (reserve_body s c claimed db)) [
      | inl ((r, d), ran) ↦
          let (again, same) = replays_unchanged c claimed s db d a r there closed ran in
          unfold transaction in
          ground (
            arith,
            same_reservation s c g claimed db,
            after_replay s c g meanwhile other now at r d again,
          )
      | inr (e, raised) ↦ unfold transaction in ground (arith, same_reservation s c g claimed db)
    ]
