-- ===== src/Platform/EconomicTable.antt =====
-- `PostgresEconomicEntryRepository` of platform/postgres_repositories.py: the table `economic_entry` of
-- db/migrations/0004_commercial_execution.sql, whose primary key is `entry_id`.
use shema_business_platform.Prelude.{
  ltb, ◌==◌, Bool, false, not, ◌&&◌, ◌||◌, some, List, [], ◌∷◌, ◌++◌, String, Datetime,
  database_error, Result, ok, err, str_eq, keep, if◌then◌else◌,
}
use shema_business_platform.Prelude.Int.{ℤ, is_negative}
use shema_business_platform.Domain.Money.{finite, new_money, text_length}
use shema_business_platform.Domain.Economics.{EconomicKind, is_adjustment, EconomicEntry, new_entry}
use shema_business_platform.Platform.OrderTable.{column, text_le}
use shema_business_platform.Platform.Transaction.{Tx, lift, gets, ◌>>=◌, ◌>>◌, raise_if}

-- The amount is in units of 10 ^ -8, the scale of the column.
pub record EntryRow : Type 0 where
  pub entry_id : String
  pub entity_ref : String
  pub kind : EconomicKind
  pub amount : ℤ
  pub currency : String
  pub source_ref : String
  pub occurred_at : Datetime

unfoldable pub has_entry : String → List EntryRow → Bool
has_entry id [] = false
has_entry id (r ∷ rs) = str_eq r.entry_id id || has_entry id rs

-- The check constraints.
abbrev pub row_ok : EntryRow → Bool
row_ok r = (is_adjustment r.kind || not (is_negative r.amount)) && text_length r.currency == 3

unfoldable pub add : EconomicEntry → Tx (List EntryRow) (Unit {0})
unfolding column has_entry
add e = do
  amount ← lift (column (finite e.amount.amount 2))
  let r : EntryRow = record {
    entry_id = e.entry_id;
    entity_ref = e.entity_ref;
    kind = e.kind;
    amount = amount;
    currency = e.amount.currency;
    source_ref = e.source_ref;
    occurred_at = e.occurred_at;
  }
  raise_if (not (row_ok r)) (database_error "check constraint violated")
  taken ← gets (has_entry e.entry_id)
  raise_if taken (database_error "unique constraint violated")
  λ rows. ok (tt, rows ++ r ∷ [])

-- `order by occurred_at, entry_id`
abbrev pub row_le : EntryRow → EntryRow → Bool
row_le a b =
    ltb a.occurred_at.micros b.occurred_at.micros
    || (a.occurred_at.micros == b.occurred_at.micros && text_le a.entry_id b.entry_id)

unfoldable pub insert_row : EntryRow → List EntryRow → List EntryRow
insert_row r [] = r ∷ []
insert_row r (x ∷ xs) = if row_le r x then r ∷ x ∷ xs else x ∷ insert_row r xs

unfoldable pub ordered : List EntryRow → List EntryRow
unfolding insert_row
ordered [] = []
ordered (r ∷ rs) = insert_row r (ordered rs)

-- The constructors run on what is read.
unfoldable pub read_entry : EntryRow → Result EconomicEntry
unfolding new_money new_entry
read_entry r = elim (new_money (some (finite r.amount 8)) r.currency) [
  | err e ↦ err e
  | ok m ↦ new_entry (record {
    entry_id = r.entry_id;
    entity_ref = r.entity_ref;
    kind = r.kind;
    amount = m;
    source_ref = r.source_ref;
    occurred_at = r.occurred_at;
  })
]

unfoldable pub read_entries : List EntryRow → Result (List EconomicEntry)
unfolding read_entry
read_entries [] = ok []
read_entries (r ∷ rs) = elim (read_entry r) [
  | ok e ↦ elim (read_entries rs) [ ok es ↦ ok (e ∷ es) | err x ↦ err x ]
  | err x ↦ err x
]

unfoldable pub list_for_entity : String → List EntryRow → Result (List EconomicEntry)
unfolding ordered read_entries
list_for_entity ref rows = read_entries (ordered (keep (λ r. str_eq r.entity_ref ref) rows))
