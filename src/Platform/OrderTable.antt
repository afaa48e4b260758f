-- ===== src/Platform/OrderTable.antt =====
-- `PostgresOrderRepository` of platform/postgres_repositories.py: the tables `order_header` and
-- `order_line` of db/migrations/0004_commercial_execution.sql. A line's primary key is its `line_id`.
pub mod Lines
pub mod Stored
pub mod Lifecycle
use Prim.Native.Nat.{Ordering}
use Prim.Native.String.{compare as compare_text}
use shema_business_platform.Prelude.{
  ℕ, ◌+◌, ◌*◌, ◌^◌, ◌==◌, leb, Bool, true, false, not, ◌&&◌, ◌||◌, Option, none, some, List, [],
  ◌∷◌, ◌++◌, String, Error, value_error, key_error, integrity_violation, database_error, Result, ok,
  err, str_eq, format, keep, if◌then◌else◌, is_some,
}
use shema_business_platform.Prelude.Dict.{Dict, lookup, insert}
use shema_business_platform.Prelude.Int.{ℤ, pos, is_negative, magnitude, signed}
use shema_business_platform.Domain.Money.{
  Decimal, finite, infinite, nan, half_up, Money, new_money, text_length,
}
use shema_business_platform.Domain.Order.{
  OrderStatus, confirmed, in_progress, completed, OrderLine, new_line, Order, new_order, confirm,
  start, complete, is_draft, lines_eq, status_eq, owner_eq, order_eq,
}
use shema_business_platform.Platform.Transaction.{
  Tx, raise, lift, or_raise, gets, ◌>>=◌, ◌>>◌, raise_if,
}

pub record OrderHeader : Type 0 where
  pub order_id : String
  pub identity_id : String
  pub source_action_id : String
  pub status : OrderStatus
  pub owner_actor_id : Option String

-- Amounts are in units of 10 ^ -8, the scale of the columns.
pub record LineRow : Type 0 where
  pub line_id : String
  pub order_id : String
  pub description : String
  pub quantity : ℤ
  pub unit_price : ℤ
  pub currency : String

pub record OrderTables : Type 0 where
  pub headers : Dict OrderHeader
  pub lines : List LineRow

-- A value of `numeric(20,8)`, rounded half away from zero. A NaN, which no line holds, is left out.
unfoldable pub column : Decimal → Result ℤ
unfolding half_up
column (finite c s) =
    let v = half_up 8 (magnitude c) s in
    if leb 100_000_000_000_000_000_000 v
    then err (database_error "numeric field overflow")
    else ok (signed (is_negative c) v)
column (infinite negative) = err (database_error "numeric field overflow")
column nan = err (database_error "numeric field overflow")

unfoldable pub has_line : String → List LineRow → Bool
has_line id [] = false
has_line id (r ∷ rs) = str_eq r.line_id id || has_line id rs

-- The check constraints of `order_line`.
abbrev pub row_ok : LineRow → Bool
row_ok r =
    not (is_negative r.quantity || magnitude r.quantity == 0)
    && not (is_negative r.unit_price)
    && text_length r.currency == 3

-- One statement of `_insert_lines`.
unfoldable pub insert_line : String → OrderLine → Tx (List LineRow) (Unit {0})
unfolding column has_line
insert_line id l = do
  quantity ← lift (column l.quantity)
  price ← lift (column (finite l.unit_price.amount 2))
  let r : LineRow = record {
    line_id = l.line_id;
    order_id = id;
    description = l.description;
    quantity = quantity;
    unit_price = price;
    currency = l.unit_price.currency;
  }
  raise_if (not (row_ok r)) (database_error "check constraint violated")
  taken ← gets (has_line l.line_id)
  raise_if taken (database_error "unique constraint violated")
  λ rows. ok (tt, rows ++ r ∷ [])

unfoldable pub insert_lines : String → List OrderLine → Tx (List LineRow) (Unit {0})
unfolding insert_line
insert_lines id [] rows = ok (tt, rows)
insert_lines id (l ∷ ls) rows = elim (insert_line id l rows) [
  | ok (_, rows') ↦ insert_lines id ls rows'
  | err e ↦ err e
]

abbrev pub header_of : Order → OrderHeader
header_of o = record {
  order_id = o.order_id;
  identity_id = o.identity_id;
  source_action_id = o.source_action_id;
  status = o.status;
  owner_actor_id = o.owner_actor_id;
}

abbrev on_lines : Tx (List LineRow) (Unit {0}) → Tx OrderTables (Unit {0})
on_lines m t = elim (m t.lines) [
  | ok (_, rows) ↦ ok (tt, record t { lines = rows })
  | err e ↦ err e
]

-- `is_action` tells which ids the table `commercial_action` holds, which `source_action_id` references.
unfoldable pub add : (String → Bool) → Order → Tx OrderTables (Unit {0})
unfolding insert_lines
add is_action o = do
  taken ← gets (λ t. is_some (lookup o.order_id t.headers))
  raise_if taken (database_error "unique constraint violated")
  raise_if (not (is_action o.source_action_id)) (database_error "foreign key constraint violated")
  λ t. ok (tt, record t { headers = insert o.order_id (header_of o) t.headers })
  on_lines (insert_lines o.order_id o.lines)

abbrev pub text_le : String → String → Bool
text_le s t = elim (compare_text s t) [ Ordering.gt ↦ false | _ ↦ true ]

-- `order by line_id`
unfoldable pub line_le : LineRow → LineRow → Bool
line_le a b = text_le a.line_id b.line_id

unfoldable pub insert_by_id : LineRow → List LineRow → List LineRow
unfolding line_le
insert_by_id r [] = r ∷ []
insert_by_id r (x ∷ xs) = if line_le r x then r ∷ x ∷ xs else x ∷ insert_by_id r xs

unfoldable pub by_id : List LineRow → List LineRow
unfolding insert_by_id
by_id [] = []
by_id (r ∷ rs) = insert_by_id r (by_id rs)

-- The constructors run on what is read.
unfoldable pub read_line : LineRow → Result OrderLine
unfolding new_money new_line
read_line r = elim (new_money (some (finite r.unit_price 8)) r.currency) [
  | ok price ↦ new_line (record {
    line_id = r.line_id;
    description = r.description;
    quantity = finite r.quantity 8;
    unit_price = price;
  })
  | err e ↦ err e
]

unfoldable pub read_lines : List LineRow → Result (List OrderLine)
unfolding read_line
read_lines [] = ok []
read_lines (r ∷ rs) = elim (read_line r) [
  | ok l ↦ elim (read_lines rs) [ ok ls ↦ ok (l ∷ ls) | err e ↦ err e ]
  | err e ↦ err e
]

abbrev pub lines_of : String → List LineRow → List LineRow
lines_of id rows = keep (λ r. str_eq r.order_id id) rows

-- The order that a header and the lines of an id make.
unfoldable pub to_order : String → OrderHeader → List LineRow → Result Order
unfolding by_id read_lines new_order
to_order id h rows = elim (read_lines (by_id (lines_of id rows))) [
  | ok ls ↦ new_order (record {
    order_id = h.order_id;
    identity_id = h.identity_id;
    source_action_id = h.source_action_id;
    lines = ls;
    owner_actor_id = h.owner_actor_id;
    status = h.status;
  })
  | err e ↦ err e
]

unfoldable pub get : String → OrderTables → Result (Option Order)
unfolding to_order
get id t = elim (lookup id t.headers) [
  | none ↦ ok none
  | some h ↦ elim (to_order id h t.lines) [ ok o ↦ ok (some o) | err e ↦ err e ]
]

-- The domain transition to a status, from the dictionary of `save`.
unfoldable pub expected : OrderStatus → Order → Option (Result Order)
unfolding confirm start complete
expected confirmed current = some (confirm current)
expected in_progress current = some (start current)
expected completed current = some (complete current)
expected _ current = none

abbrev pub not_permitted : Error
not_permitted = integrity_violation "order status transition is not permitted by domain"

unfoldable pub check_transition : Order → Order → Result (Unit {0})
unfolding expected order_eq
check_transition current o = elim (expected o.status current) [
  | none ↦ err not_permitted
  | some (ok next) ↦ if order_eq next o then ok tt else err not_permitted
  | some (err (value_error m)) ↦
      err (integrity_violation (format ("order status transition rejected: " ∷ m ∷ [])))
  | some (err e) ↦ err e
]

unfoldable pub check_save : Order → Order → Result (Unit {0})
unfolding check_transition
check_save current o =
    if not (
      str_eq current.identity_id o.identity_id
      && str_eq current.source_action_id o.source_action_id)
    then err (integrity_violation "order identity and source action lineage are immutable")
    else if status_eq current.status o.status
    then (if not (is_draft current.status) && not (lines_eq current.lines o.lines)
        then err (integrity_violation "order lines are immutable after draft state")
        else ok tt)
    else check_transition current o

-- The update of the header, and the lines deleted and inserted again.
unfoldable pub rewrite : Order → Tx OrderTables (Unit {0})
unfolding insert_lines
rewrite o = do
  λ t. ok (
    tt,
    record {
      headers = insert o.order_id (header_of o) t.headers;
      lines = keep (λ r. not (str_eq r.order_id o.order_id)) t.lines;
    },
  )
  on_lines (insert_lines o.order_id o.lines)

unfoldable pub save : Order → Tx OrderTables (Unit {0})
unfolding to_order check_save rewrite
save o = do
  h ← λ t.
      or_raise (lookup o.order_id t.headers)
        (key_error (format ("unknown order: " ∷ o.order_id ∷ []))) t
  raise_if (not (owner_eq h.owner_actor_id o.owner_actor_id))
      (integrity_violation "order owner scope is immutable")
  current ← λ t. lift (to_order o.order_id h t.lines) t
  lift (check_save current o)
  rewrite o
