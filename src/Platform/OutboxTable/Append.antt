-- ===== src/Platform/OutboxTable/Append.antt =====
-- What `append` leaves in the tables `outbox_event` and `audit_log`.
use shema_business_platform.Prelude.{
  ◌≡◌, refl, inl, inr, true, some, none, Option-cases, List, [], ◌∷◌, ◌++◌, Eq, ok, str_eq_iff, In,
  arith,
}
use shema_business_platform.Foundation.Outbox.{OutboxEvent}
use shema_business_platform.Platform.AuditTable.{AuditRecord, has_audit}
use shema_business_platform.Platform.AuditTable
use shema_business_platform.Platform.OutboxTable.{OutboxRow, new_row, find_event, append}

module _ {P : Type 0} where
  find_event-append :
      (rows : List (OutboxRow P)) (r : OutboxRow P)
      → find_event r.event_id rows ≡ none
      → find_event r.event_id (rows ++ r ∷ []) ≡ some r
  unfolding find_event
  find_event-append [] r h = ground (arith, str_eq_iff r.event_id r.event_id)
  find_event-append (x ∷ xs) r h = ground (arith, find_event-append xs r)

  -- The event stands in the table, with its type and payload.
  pub record IsStored (e : OutboxEvent P) (rows : List (OutboxRow P)) : Type 0 where
    pub row : OutboxRow P
    pub found : find_event e.event_id rows ≡ some row
    pub same_type : row.event_type ≡ e.event_type
    pub same_payload : row.payload ≡ e.payload

  pub append-IsStored :
      (q : Eq P) (e e' : OutboxEvent P) (rows rows' : List (OutboxRow P))
      → append q e rows ≡ ok (e', rows')
      → IsStored e rows'
  append-IsStored q e e' rows rows' h = elim (Option-cases (find_event e.event_id rows)) [
    | inl fresh ↦ record {
      row = new_row e;
      found = unfold append in ground (arith, find_event-append rows (new_row e) fresh);
      same_type = refl;
      same_payload = refl;
    }
    | inr (r, there) ↦ record {
      row = r;
      found = unfold append in ground arith;
      same_type = unfold append in ground (arith, str_eq_iff r.event_type e.event_type);
      same_payload = unfold append in ground (arith, q.beq_iff r.payload e.payload);
    }
  ]

pub has_audit-append :
    {M : Type 0} (a : AuditRecord M) (rows rows' : List (AuditRecord M))
    → AuditTable.append a rows ≡ ok (tt, rows')
    → has_audit a.audit_id rows' ≡ true
unfolding AuditTable.append
has_audit-append a rows rows' h = ground (arith, last_found a rows)
  where
    last_found :
        {M : Type 0} (a : AuditRecord M) (rows : List (AuditRecord M))
        → has_audit a.audit_id (rows ++ a ∷ []) ≡ true
    last_found a [] = ground (arith, str_eq_iff a.audit_id a.audit_id)
    last_found a (x ∷ xs) = ground (arith, last_found a xs)

pub append-In :
    {M : Type 0} (a : AuditRecord M) (rows rows' : List (AuditRecord M))
    → AuditTable.append a rows ≡ ok (tt, rows')
    → In a rows'
unfolding AuditTable.append
append-In a rows rows' h = ground (arith, last_in a rows)
  where
    last_in : {M : Type 0} (a : AuditRecord M) (rows : List (AuditRecord M)) → In a (rows ++ a ∷ [])
    last_in a [] = inl refl
    last_in a (x ∷ xs) = inr (last_in a xs)
