-- ===== src/Platform/OrderTable/Lines.antt =====
-- What the table `order_line` holds of the lines of an order, and what is read back of them.
use mathlib.Core.List.{Perm}
use mathlib.Core.List.Perm
use shema_business_platform.Prelude.{
  ◌≡◌, ◌∙◌, refl, sym, ap, true, not, some, List, [], ◌∷◌, ◌++◌, map, String, ok, inl, inr, arith,
  str_eq, str_eq_iff, keep, All, Bool-cases, Result-cases, none, if◌then◌else◌,
}
use shema_business_platform.Prelude.Dict.{lookup}
use shema_business_platform.Prelude.Int.{ℤ, pos, is_negative, magnitude, signed, ◌*ℤ◌}
use shema_business_platform.Domain.Money.{
  Decimal, finite, infinite, nan, half_up, quantize, Money, new_money,
}
use shema_business_platform.Domain.Money.Stable.{IsMoney, remade, quantize_column}
use shema_business_platform.Domain.Order.{OrderLine, new_line}
use shema_business_platform.Platform.OrderTable.{
  LineRow, OrderTables, column, row_ok, insert_line, insert_lines, text_le, line_le, insert_by_id,
  by_id, read_line, read_lines, lines_of,
}

-- The units of 10 ^ -8 that a column holds of a decimal.
abbrev pub units : Decimal → ℤ
units (finite c s) = signed (is_negative c) (half_up 8 (magnitude c) s)
units _ = pos 0

abbrev pub row_of : String → OrderLine → LineRow
row_of id l = record {
  line_id = l.line_id;
  order_id = id;
  description = l.description;
  quantity = units l.quantity;
  unit_price = units (finite l.unit_price.amount 2);
  currency = l.unit_price.currency;
}

-- The line with the quantity that its column holds.
abbrev pub stored_line : OrderLine → OrderLine
stored_line l = record l { quantity = finite (units l.quantity) 8 }

-- A line that the constructors have made.
pub record IsLine (l : OrderLine) : Type 0 where
  pub made : new_line l ≡ ok l
  pub price : IsMoney l.unit_price

-- The lines in the order of their ids.
unfoldable pub insert_line_by_id : OrderLine → List OrderLine → List OrderLine
insert_line_by_id l [] = l ∷ []
insert_line_by_id l (x ∷ xs) =
    if text_le l.line_id x.line_id then l ∷ x ∷ xs else x ∷ insert_line_by_id l xs

unfoldable pub sorted_lines : List OrderLine → List OrderLine
sorted_lines [] = []
sorted_lines (l ∷ ls) = insert_line_by_id l (sorted_lines ls)

-- Every line belongs to an order of the table: the foreign key of `order_line`.
abbrev pub HasHeaders : OrderTables → Type 0
HasHeaders t = (id : String) → lookup id t.headers ≡ none → lines_of id t.lines ≡ []

column-units : (d : Decimal) (z : ℤ) → column d ≡ ok z → z ≡ units d
unfolding column
column-units (finite c s) z h = ground arith
column-units (infinite b) z h = cc
column-units nan z h = cc

insert_line-ok :
    (id : String) (l : OrderLine) (rows rows' : List LineRow) (u : Unit {0})
    → insert_line id l rows ≡ ok (u, rows')
    → (rows' ≡ rows ++ row_of id l ∷ []) × (row_ok (row_of id l) ≡ true)
unfolding insert_line
insert_line-ok id l rows rows' u h = elim (Result-cases (column l.quantity)) [
  | inr (e, raised) ↦ absurd (ground arith)
  | inl (q, held) ↦ elim (Result-cases (column (finite l.unit_price.amount 2))) [
    | inr (e, raised) ↦ absurd (ground arith)
    | inl (p, priced) ↦ ground (
      arith,
      column-units l.quantity q held,
      column-units (finite l.unit_price.amount 2) p priced,
    )
  ]
]

append_row :
    (rows : List LineRow) (r : LineRow) (rest : List LineRow)
    → (rows ++ r ∷ []) ++ rest ≡ rows ++ r ∷ rest
append_row [] r rest = refl
append_row (x ∷ rows) r rest = ap (λ ys. x ∷ ys) (append_row rows r rest)

append_none : (rows : List LineRow) → rows ++ [] ≡ rows
append_none [] = refl
append_none (x ∷ rows) = ap (λ ys. x ∷ ys) (append_none rows)

pub insert_lines-ok :
    (id : String) (ls : List OrderLine) (rows rows' : List LineRow) (u : Unit {0})
    → insert_lines id ls rows ≡ ok (u, rows')
    → (rows' ≡ rows ++ map (row_of id) ls) × All (λ l. row_ok (row_of id l) ≡ true) ls
unfolding insert_lines
insert_lines-ok id [] rows rows' u h =
    let e : rows ≡ rows' = ground arith in (sym e ∙ sym (append_none rows), tt)
insert_lines-ok id (l ∷ ls) rows rows' u h = elim (Result-cases (insert_line id l rows)) [
  | inr (e, raised) ↦ absurd (ground arith)
  | inl ((v, rows1), done) ↦
      let (first, good) = insert_line-ok id l rows rows1 v done in
      let (rest, all) = insert_lines-ok id ls rows1 rows' u (ground arith) in
      (
        rest
            ∙ ap (λ (ys : List LineRow). ys ++ map (row_of id) ls) first
            ∙ append_row rows (row_of id l) (map (row_of id) ls),
        (good, all),
      )
]

pub lines_of-append :
    (id : String) (rows : List LineRow) (ls : List OrderLine)
    → lines_of id rows ≡ []
    → lines_of id (rows ++ map (row_of id) ls) ≡ map (row_of id) ls
lines_of-append id [] [] h = refl
lines_of-append id [] (l ∷ ls) h = ground (arith, str_eq_iff id id, lines_of-append id [] ls h)
lines_of-append id (r ∷ rows) ls h = elim (Bool-cases (str_eq r.order_id id)) [
  | inl mine ↦ absurd (ground arith)
  | inr other ↦ rw other (lines_of-append id rows ls (ground arith))
]

pub lines_of-rest :
    (id : String) (rows : List LineRow)
    → lines_of id (keep (λ r. not (str_eq r.order_id id)) rows) ≡ []
lines_of-rest id [] = refl
lines_of-rest id (r ∷ rows) = elim (Bool-cases (str_eq r.order_id id)) [
  | inl mine ↦ rw mine (lines_of-rest id rows)
  | inr other ↦ rw (other, other) (lines_of-rest id rows)
]

insert_by_id-map :
    (id : String) (l : OrderLine) (ls : List OrderLine)
    → insert_by_id (row_of id l) (map (row_of id) ls) ≡ map (row_of id) (insert_line_by_id l ls)
unfolding insert_by_id line_le insert_line_by_id
insert_by_id-map id l [] = refl
insert_by_id-map id l (x ∷ ls) = elim (Bool-cases (text_le l.line_id x.line_id)) [
  | inl le ↦ rw le refl
  | inr gt ↦ rw gt (ap (λ rs. row_of id x ∷ rs) (insert_by_id-map id l ls))
]

pub by_id-map :
    (id : String) (ls : List OrderLine)
    → by_id (map (row_of id) ls) ≡ map (row_of id) (sorted_lines ls)
unfolding by_id sorted_lines
by_id-map id [] = refl
by_id-map id (l ∷ ls) =
    ap (insert_by_id (row_of id l)) (by_id-map id ls) ∙ insert_by_id-map id l (sorted_lines ls)

insert_line_by_id-All :
    (C : OrderLine → Type 0) (l : OrderLine) (ls : List OrderLine)
    → C l
    → All C ls
    → All C (insert_line_by_id l ls)
unfolding insert_line_by_id
insert_line_by_id-All C l [] h hs = (h, tt)
insert_line_by_id-All C l (x ∷ ls) h hs = elim (Bool-cases (text_le l.line_id x.line_id)) [
  | inl le ↦ rw le (h, hs)
  | inr gt ↦ rw gt (hs.0, insert_line_by_id-All C l ls h hs.1)
]

pub sorted_lines-All :
    (C : OrderLine → Type 0) (ls : List OrderLine) → All C ls → All C (sorted_lines ls)
unfolding sorted_lines
sorted_lines-All C [] hs = tt
sorted_lines-All C (l ∷ ls) hs =
    insert_line_by_id-All C l (sorted_lines ls) hs.0 (sorted_lines-All C ls hs.1)

insert_line_by_id-Perm :
    (l : OrderLine) (ls : List OrderLine) → Perm (insert_line_by_id l ls) (l ∷ ls)
unfolding insert_line_by_id
insert_line_by_id-Perm l [] = Perm.refl (l ∷ [])
insert_line_by_id-Perm l (x ∷ ls) = elim (Bool-cases (text_le l.line_id x.line_id)) [
  | inl le ↦ rw le (Perm.refl (l ∷ x ∷ ls))
  | inr gt ↦ rw gt (Perm.trans (Perm.cons x (insert_line_by_id-Perm l ls)) (Perm.swap l x ls))
]

pub sorted_lines-Perm : (ls : List OrderLine) → Perm (sorted_lines ls) ls
unfolding sorted_lines
sorted_lines-Perm [] = Perm.refl []
sorted_lines-Perm (l ∷ ls) =
    Perm.trans (insert_line_by_id-Perm l (sorted_lines ls)) (Perm.cons l (sorted_lines-Perm ls))

price_units : (c : ℤ) → units (finite c 2) ≡ c *ℤ pos 1_000_000
unfolding half_up ◌*ℤ◌
price_units c = ground arith

read_price :
    (m : Money)
    → IsMoney m
    → new_money (some (finite (units (finite m.amount 2)) 8)) m.currency ≡ ok m
read_price m h =
    remade m (finite (units (finite m.amount 2)) 8) h
      (ap (λ (z : ℤ). quantize z 8) (price_units m.amount) ∙ quantize_column m.amount h.fits)

new_line_stored :
    (id : String) (l : OrderLine)
    → new_line l ≡ ok l
    → row_ok (row_of id l) ≡ true
    → new_line (stored_line l) ≡ ok (stored_line l)
unfolding new_line
new_line_stored id l h good = ground arith

read_line-row :
    (id : String) (l : OrderLine)
    → IsLine l
    → row_ok (row_of id l) ≡ true
    → read_line (row_of id l) ≡ ok (stored_line l)
unfolding read_line
read_line-row id l h good =
    ground (arith, read_price l.unit_price h.price, new_line_stored id l h.made good)

pub read_lines-rows :
    (id : String) (ls : List OrderLine)
    → All IsLine ls
    → All (λ l. row_ok (row_of id l) ≡ true) ls
    → read_lines (map (row_of id) ls) ≡ ok (map stored_line ls)
unfolding read_lines
read_lines-rows id [] h good = refl
read_lines-rows id (l ∷ ls) h good =
    ground (arith, read_line-row id l h.0 good.0, read_lines-rows id ls h.1 good.1)
