-- ===== src/Domain/Order.antt =====
-- domain/order.py: orders, their lines and their life.
use shema_business_platform.Prelude.{
  ◌^◌, Bool, true, false, not, ◌&&◌, ◌||◌, Option, none, some, List, [], ◌∷◌, String, value_error,
  index_error, Result, ok, err, ◌>>=◌, ◌>>◌, raise_if, str_eq, is_blank,
}
use shema_business_platform.Prelude.Int.{pos, is_negative, ◌*ℤ◌, eq_ℤ}
use shema_business_platform.Domain.Money.{
  Decimal, finite, infinite, is_nonpositive, Money, money_eq, multiply, add,
}

pub data OrderStatus : Type 0 where
  draft confirmed in_progress completed cancelled failed : OrderStatus

abbrev pub is_draft : OrderStatus → Bool
is_draft draft = true
is_draft _ = false

abbrev pub is_confirmed : OrderStatus → Bool
is_confirmed confirmed = true
is_confirmed _ = false

abbrev pub is_in_progress : OrderStatus → Bool
is_in_progress in_progress = true
is_in_progress _ = false

abbrev pub is_completed : OrderStatus → Bool
is_completed completed = true
is_completed _ = false

pub record OrderLine : Type 0 where
  pub line_id : String
  pub description : String
  pub quantity : Decimal
  pub unit_price : Money

-- `OrderLine(...)` with its `__post_init__`.
unfoldable pub new_line : OrderLine → Result OrderLine
new_line l = do
  raise_if (is_blank l.line_id || is_blank l.description)
      (value_error "order line identifiers and description are required")
  small ← is_nonpositive l.quantity
  raise_if small (value_error "quantity must be positive")
  raise_if (is_negative l.unit_price.amount) (value_error "unit price cannot be negative")
  ok l

unfoldable pub line_total : OrderLine → Result Money
unfolding multiply
line_total l = multiply l.unit_price l.quantity

pub record Order : Type 0 where
  pub order_id : String
  pub identity_id : String
  pub source_action_id : String
  pub lines : List OrderLine
  pub owner_actor_id : Option String
  pub status : OrderStatus

abbrev pub has_lines : List OrderLine → Bool
has_lines [] = false
has_lines (l ∷ ls) = true

-- `Order(...)` with its `__post_init__`.
unfoldable pub new_order : Order → Result Order
new_order o = do
  raise_if (is_blank o.order_id) (value_error "order_id is required")
  raise_if (is_blank o.identity_id) (value_error "identity_id is required")
  raise_if (is_blank o.source_action_id) (value_error "source_action_id is required")
  raise_if (not (has_lines o.lines)) (value_error "order must contain at least one line")
  ok o

-- The loop of `total`.
unfoldable pub add_totals : Money → List OrderLine → Result Money
unfolding line_total add
add_totals sum [] = ok sum
add_totals sum (l ∷ ls) = do t ← line_total l; next ← add sum t; add_totals next ls

unfoldable pub lines_total : List OrderLine → Result Money
unfolding add_totals
lines_total [] = err (index_error "tuple index out of range")
lines_total (l ∷ ls) = do first ← line_total l; add_totals first ls

unfoldable pub total : Order → Result Money
unfolding lines_total
total o = lines_total o.lines

unfoldable pub confirm : Order → Result Order
unfolding new_order
confirm o = do
  raise_if (not (is_draft o.status)) (value_error "only draft order can be confirmed")
  new_order (record o { status = confirmed })

unfoldable pub start : Order → Result Order
unfolding new_order
start o = do
  raise_if (not (is_confirmed o.status)) (value_error "only confirmed order can start")
  new_order (record o { status = in_progress })

unfoldable pub complete : Order → Result Order
unfolding new_order
complete o = do
  raise_if (not (is_in_progress o.status)) (value_error "only in-progress order can complete")
  new_order (record o { status = completed })

-- `==` of decimals, by value.
unfoldable pub decimal_eq : Decimal → Decimal → Bool
unfolding ◌*ℤ◌
decimal_eq (finite c s) (finite d t) = eq_ℤ (c *ℤ pos (10 ^ t)) (d *ℤ pos (10 ^ s))
decimal_eq (infinite true) (infinite b) = b
decimal_eq (infinite false) (infinite b) = not b
decimal_eq _ _ = false

unfoldable pub line_eq : OrderLine → OrderLine → Bool
unfolding decimal_eq
line_eq a b =
    str_eq a.line_id b.line_id
    && str_eq a.description b.description
    && decimal_eq a.quantity b.quantity
    && money_eq a.unit_price b.unit_price

-- `==` of two tuples of lines.
unfoldable pub lines_eq : List OrderLine → List OrderLine → Bool
unfolding line_eq
lines_eq [] [] = true
lines_eq (a ∷ as') (b ∷ bs) = line_eq a b && lines_eq as' bs
lines_eq _ _ = false

abbrev pub status_eq : OrderStatus → OrderStatus → Bool
status_eq draft draft = true
status_eq confirmed confirmed = true
status_eq in_progress in_progress = true
status_eq completed completed = true
status_eq cancelled cancelled = true
status_eq failed failed = true
status_eq _ _ = false

abbrev pub owner_eq : Option String → Option String → Bool
owner_eq none none = true
owner_eq (some a) (some b) = str_eq a b
owner_eq _ _ = false

-- `==` of orders, field by field.
unfoldable pub order_eq : Order → Order → Bool
unfolding lines_eq
order_eq a b =
    str_eq a.order_id b.order_id
    && str_eq a.identity_id b.identity_id
    && str_eq a.source_action_id b.source_action_id
    && lines_eq a.lines b.lines
    && owner_eq a.owner_actor_id b.owner_actor_id
    && status_eq a.status b.status
