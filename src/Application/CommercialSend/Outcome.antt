-- ===== src/Application/CommercialSend/Outcome.antt =====
-- How a send ends: recorded as sent, or quarantined when its outcome is unknown.
use shema_business_platform.Prelude.{
  ◌≡◌, refl, ◌∙◌, sym, ap, subst, inl, inr, true, false, some, String, Datetime, [], ◌∷◌, ◌++◌,
  is_blank, external_effect_unknown, quarantine_required, ok, err, str_eq_iff, Result-cases, arith,
}
use shema_business_platform.Prelude.Dict.{lookup, insert, lookup-insert}
use shema_business_platform.Domain.CommercialAction.{CommercialAction, failed}
use shema_business_platform.Platform.ActionTable.{release, is_sent}
use shema_business_platform.Platform.ActionTable
use shema_business_platform.Platform.ActionTable.Lease.{lookup_self, held_settles}
use shema_business_platform.Platform.IdempotencyTable.{KeyTable, reservation}
use shema_business_platform.Platform.Transaction.{◌>>◌, transaction, >>=-ok}
use shema_business_platform.Platform.IdempotencyTable
use shema_business_platform.Foundation.Outbox.{OutboxEvent}
use shema_business_platform.Platform.AuditTable.{AuditRecord, new_audit, has_audit}
use shema_business_platform.Platform.AuditTable
use shema_business_platform.Platform.OutboxTable
use shema_business_platform.Platform.OutboxTable.Append.{
  IsStored, append-IsStored, has_audit-append,
}
use shema_business_platform.Application.SendData.{
  SendDb, Sender, SendCommand, SendPayload, SendNote, worker_of,
}
use shema_business_platform.Application.SendEvents.{quarantine_row, unknown_event, unknown_audit}
use shema_business_platform.Application.CommercialSend.{
  append_event, append_audit, on_actions, quarantine_body, after_gateway, execute,
}
use shema_business_platform.Application.CommercialSend.Safety.{not_sendable_never_sent}

append_event-ok :
    (s : Sender) (e : OutboxEvent SendPayload) (db db' : SendDb)
    → append_event s e db ≡ ok (tt, db')
    → IsStored e db'.outbox
      × (db'.actions ≡ db.actions)
      × (db'.quarantine ≡ db.quarantine)
      × (db'.keys ≡ db.keys)
append_event-ok s e db db' h = elim (Result-cases (OutboxTable.append s.same_payload e db.outbox)) [
  | inl ((e', rows), done) ↦
      let same : rows ≡ db'.outbox = unfold append_event in ground arith in
      (
        subst (IsStored e) same (append-IsStored s.same_payload e e' db.outbox rows done),
        unfold append_event in ground arith,
        unfold append_event in ground arith,
        unfold append_event in ground arith,
      )
  | inr (x, raised) ↦ absurd (unfold append_event in ground arith)
]

append_audit-ok :
    (a : AuditRecord SendNote) (db db' : SendDb)
    → append_audit a db ≡ ok (tt, db')
    → (has_audit a.audit_id db'.audits ≡ true)
      × (db'.actions ≡ db.actions)
      × (db'.quarantine ≡ db.quarantine)
      × (db'.keys ≡ db.keys)
      × (db'.outbox ≡ db.outbox)
append_audit-ok a db db' h = elim (Result-cases (AuditTable.append a db.audits)) [
  | inl ((_, rows), done) ↦
      unfold append_audit new_audit in ground (arith, has_audit-append a db.audits rows done)
  | inr (x, raised) ↦ absurd (unfold append_audit new_audit in ground arith)
]

-- What the transaction on an unknown outcome has run.
quarantine_ran :
    (s : Sender) (c : SendCommand) (now at : Datetime) (db db' : SendDb) (a : CommercialAction)
    → lookup c.action_id db.actions ≡ some a
    → ActionTable.is_held (worker_of c) now a ≡ true
    → is_blank (worker_of c) ≡ false
    → now.tz_aware ≡ true
    → quarantine_body s c now at db ≡ ok (tt, db')
    → let gone = release failed a in
      let reason : String = "external_effect_unknown" in
      (append_event s (unknown_event s c reason gone at)
          >> append_audit (unknown_audit s c gone at))
        (record db {
          actions = insert c.action_id gone db.actions;
          quarantine = db.quarantine ++ quarantine_row s c reason gone ∷ [];
        })
      ≡ ok (tt, db')
unfolding quarantine_body on_actions ActionTable.get
quarantine_ran s c now at db db' a there held named aware h =
    let (_, gone, _) =
      held_settles c.action_id (worker_of c) now db.actions a there held named aware in
    ground (
      arith,
      gone,
      str_eq_iff c.action_id c.action_id,
      lookup-insert c.action_id c.action_id (release failed a) db.actions,
    )

-- An unknown outcome, recorded under a live lease: the gateway's exception becomes
-- `QuarantineRequired`; the action is stored as failed and its lease is gone, the quarantine row is
-- added, and the event and the audit record are stored. From then on no command on the action, with
-- any adapter, sends it again or changes the database.
pub unknown_effect_never_retried :
    (s : Sender) (c : SendCommand) (message : String) (now at : Datetime) (db db' : SendDb)
    (a : CommercialAction)
    → lookup c.action_id db.actions ≡ some a
    → ActionTable.is_held (worker_of c) now a ≡ true
    → is_blank (worker_of c) ≡ false
    → now.tz_aware ≡ true
    → quarantine_body s c now at db ≡ ok (tt, db')
    → let gone = release failed a in
      let reason : String = "external_effect_unknown" in
      (after_gateway s c now at (err (external_effect_unknown message)) db ≡ (
        err (quarantine_required "external communication outcome is unknown; action quarantined"),
        db',
      ))
      × (lookup c.action_id db'.actions ≡ some gone)
      × (db'.quarantine ≡ db.quarantine ++ quarantine_row s c reason gone ∷ [])
      × IsStored (unknown_event s c reason gone at) db'.outbox
      × (has_audit (unknown_audit s c gone at).audit_id db'.audits ≡ true)
      × ((z : Sender) (later : SendCommand) (meanwhile : SendDb → SendDb) (t₁ t₂ t₃ : Datetime)
          → later.action_id ≡ c.action_id
          → (execute z later meanwhile t₁ t₂ t₃ db').1 ≡ db')
unknown_effect_never_retried s c message now at db db' a there held named aware h =
    let gone = release failed a in
    let e = unknown_event s c "external_effect_unknown" gone at in
    let x = unknown_audit s c gone at in
    let ran = quarantine_ran s c now at db db' a there held named aware h in
    let (_, d, stored, noted) = >>=-ok (append_event s e) (λ _. append_audit x) _ db' tt ran in
    let (put, actions, rows, _) = append_event-ok s e _ d stored in
    let (found, actions', rows', _, outbox') = append_audit-ok x d db' noted in
    let failed_row : lookup c.action_id db'.actions ≡ some gone =
      ap (lookup c.action_id) (actions' ∙ actions) ∙ lookup_self c.action_id gone db.actions in
    (
      unfold after_gateway transaction in ground arith,
      failed_row,
      rows' ∙ rows,
      subst (IsStored e) (sym outbox') put,
      found,
      λ z later meanwhile t₁ t₂ t₃ same.
          (not_sendable_never_sent z later z.adapter meanwhile meanwhile t₁ t₂ t₃ db' gone
            (ap (λ k. lookup k db'.actions) same ∙ failed_row) refl).1,
    )
