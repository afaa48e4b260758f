-- ===== src/Platform/JobTable/Finish.antt =====
-- `complete` and `fail` for the worker that holds the lease: when they succeed and what they store.
use shema_business_platform.Prelude.{
  ◌≤◌, ◌≡◌, refl, ◌≢◌, true, false, Option, none, some, List, map, String, Datetime, ok, is_blank,
  arith,
}
use shema_business_platform.Foundation.Jobs.{is_running}
use shema_business_platform.Platform.JobRows.{
  JobRow, JobRecord, row_execution, blank_error, update, get_row, to_record,
}
use shema_business_platform.Platform.JobTable.{is_held, complete, complete_row}
use shema_business_platform.Platform.JobTable.Update.{
  IsUnique, KeepsId, at_where, get_row-map, get_row-map_ne,
}
use shema_business_platform.Platform.JobTable.Fencing.{first_held, held_id}

-- The stored error, where there is one, is not blank.
abbrev pub ErrorNotBlank : Option String → Type 0
ErrorNotBlank none = Unit
ErrorNotBlank (some e) = is_blank e ≡ false

note_passes : (e : Option String) → ErrorNotBlank e → blank_error e ≡ false
note_passes none h = refl
note_passes (some e) h = h

module _ {P : Type 0} where
  -- The texts of a row are not blank, its attempt counts from one, and it is available from a time
  -- with a time zone.
  pub record IsSound (r : JobRow P) : Type 0 where
    pub has_job_id : is_blank r.job_id ≡ false
    pub has_type : is_blank r.job_type ≡ false
    pub has_key : is_blank r.idempotency_key ≡ false
    pub has_attempt : 1 ≤ r.attempt
    pub zoned : r.available_at.tz_aware ≡ true

  -- The record of a row without a lease.
  abbrev pub unleased : JobRow P → JobRecord P
  unleased r = record {
    execution = row_execution r none;
    payload = r.payload;
    available_at = r.available_at;
    last_error = r.last_error;
  }

  -- A row that is not running and has no lease is read back as a record.
  to_record_total :
      (r : JobRow P) (rows : List (JobRow P))
      → IsSound r
      → is_running r.state ≡ false
      → r.worker_id ≡ none
      → ErrorNotBlank r.last_error
      → to_record r rows ≡ ok (unleased r, rows)
  unfolding to_record
  to_record_total r rows s not_running free note = ground (arith, note_passes r.last_error note)

  abbrev KeptOthers : List (JobRow P) → List (JobRow P) → String → Type 0
  KeptOthers rows rows' id = (k : String) → k ≢ id → get_row k rows' ≡ get_row k rows

  -- An update of the held row, read in the table.
  held_update :
      (id w : String) (now : Datetime) (f : JobRow P → JobRow P) (rows : List (JobRow P))
      (r : JobRow P)
      → KeepsId f
      → IsUnique rows
      → get_row id rows ≡ some r
      → is_held id w now r ≡ true
      → let rows' = map (at_where (is_held id w now) f) rows in
        (update (is_held id w now) f rows ≡ ok (some (f r), rows'))
        × (get_row id rows' ≡ some (f r))
        × KeptOthers rows rows' id
  unfolding update
  held_update id w now f rows r k u there held = (
    ground (arith, first_held id w now rows u),
    ground (arith, get_row-map (is_held id w now) f id rows k),
    λ j ne. get_row-map_ne (is_held id w now) f id j rows k (held_id id w now) ne,
  )

  -- The worker that holds the live lease on a sound row completes the job: the call returns it,
  -- its row is stored as succeeded, without lease and with its end, and no other row changes.
  pub held_completes :
      (id w : String) (now : Datetime) (rows : List (JobRow P)) (r : JobRow P)
      → IsUnique rows
      → get_row id rows ≡ some r
      → is_held id w now r ≡ true
      → IsSound r
      → ErrorNotBlank r.last_error
      → let rows' = map (at_where (is_held id w now) (complete_row now)) rows in
        (complete id w now rows ≡ ok (unleased (complete_row now r), rows'))
        × (get_row id rows' ≡ some (complete_row now r))
        × ((k : String) → k ≢ id → get_row k rows' ≡ get_row k rows)
  unfolding complete
  held_completes id w now rows r u there held s note =
      let (run, stored, others) =
        held_update id w now (complete_row now) rows r (λ x. refl) u there held in
      let rows' = map (at_where (is_held id w now) (complete_row now)) rows in
      let read =
        to_record_total (complete_row now r) rows'
          (record {
            has_job_id = s.has_job_id;
            has_type = s.has_type;
            has_key = s.has_key;
            has_attempt = s.has_attempt;
            zoned = s.zoned;
          })
          refl refl note in
      (unfold update to_record in ground (arith, run, read), stored, others)
