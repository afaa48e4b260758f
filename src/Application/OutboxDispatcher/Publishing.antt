-- ===== src/Application/OutboxDispatcher/Publishing.antt =====
-- What a round of the dispatcher publishes.
use shema_business_platform.Prelude.{ℕ, ◌+◌, ◌≡◌, List, [], ◌∷◌, Datetime, ok, ◌++◌, none, format}
use shema_business_platform.Platform.AuditTable
use shema_business_platform.Foundation.Outbox.{OutboxEvent, OutboxDelivery}
use shema_business_platform.Application.OutboxDispatcher.{DispatchDb, Dispatcher, mark, audit_of}

module _ {P : Type 0} (s : Dispatcher P) (clock : ℕ → Datetime) where
  -- The table after the audit record of a publication.
  abbrev pub noted : OutboxDelivery P → Datetime → DispatchDb P → DispatchDb P
  noted d at db = record db {
    audits =
        db.audits
        ++ audit_of s d (format ("audit:outbox.published:" ∷ d.event.event_id ∷ []))
            "outbox.published" "success" none at
          ∷ [];
  }

  -- From a database to another, each event in turn: the publisher accepts it, then the table marks
  -- it as published for the worker, and the audit record of it is added.
  abbrev pub IsRound : ℕ → List (OutboxDelivery P) → DispatchDb P → DispatchDb P → Type 0
  IsRound k [] db db' = db' ≡ db
  IsRound k (d ∷ ds) db db' =
      ((s.publish d.event db).0 ≡ ok tt)
      × (e : OutboxEvent P) × (db₁ : DispatchDb P) × (mark s d (clock k) (s.publish d.event db).1
          ≡ ok (e, db₁))
      × IsRound (k + 2) ds (noted d (clock (k + 1)) db₁) db'
