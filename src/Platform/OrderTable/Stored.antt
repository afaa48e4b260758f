-- ===== src/Platform/OrderTable/Stored.antt =====
-- What the tables hold of an order, and what is read back.
use mathlib.Core.List.{Perm}
use shema_business_platform.Prelude.{
  ◌≡◌, ◌≢◌, ◌∙◌, refl, subst, ap, Bool, true, not, some, List, [], ◌∷◌, ◌++◌, map, String, ok, ◌⊎◌,
  inl, inr, arith, str_eq, str_eq_iff, keep, All, Bool-cases, Result-cases, Option-cases, none,
}
use shema_business_platform.Prelude.Dict.{insert, lookup, lookup-insert}
use shema_business_platform.Domain.Order.{OrderLine, Order, new_order, has_lines}
use shema_business_platform.Platform.OrderTable.{
  LineRow, OrderTables, row_ok, insert_lines, header_of, add, text_le, by_id, read_lines, lines_of,
  to_order, get, rewrite,
}
use shema_business_platform.Platform.OrderTable.Lines.{
  row_of, stored_line, IsLine, insert_line_by_id, sorted_lines, HasHeaders, insert_lines-ok,
  lines_of-append, lines_of-rest, by_id-map, sorted_lines-All, sorted_lines-Perm, read_lines-rows,
}

-- An order that the constructors have made.
pub record IsOrder (o : Order) : Type 0 where
  pub made : new_order o ≡ ok o
  pub lines : All IsLine o.lines

-- The order with its lines by id, and the quantities that the columns hold.
abbrev pub stored_order : Order → Order
stored_order o = record o { lines = map stored_line (sorted_lines o.lines) }

has_lines-insert :
    (l : OrderLine) (ls : List OrderLine)
    → has_lines (map stored_line (insert_line_by_id l ls)) ≡ true
unfolding insert_line_by_id
has_lines-insert l [] = refl
has_lines-insert l (x ∷ ls) = elim (Bool-cases (text_le l.line_id x.line_id)) [
  | inl le ↦ rw le refl
  | inr gt ↦ rw gt refl
]

has_lines-map : (ls : List OrderLine) → has_lines (map stored_line (sorted_lines ls)) ≡ has_lines ls
unfolding sorted_lines
has_lines-map [] = refl
has_lines-map (l ∷ ls) = has_lines-insert l (sorted_lines ls)

new_order_stored :
    (o : Order) → new_order o ≡ ok o → new_order (stored_order o) ≡ ok (stored_order o)
unfolding new_order
new_order_stored o h = ground (arith, has_lines-map o.lines)

to_order_stored :
    (o : Order) (rows rows' : List LineRow) (u : Unit {0})
    → IsOrder o
    → lines_of o.order_id rows ≡ []
    → insert_lines o.order_id o.lines rows ≡ ok (u, rows')
    → to_order o.order_id (header_of o) rows' ≡ ok (stored_order o)
unfolding to_order
to_order_stored o rows rows' u h none_yet done =
    let (held, good) = insert_lines-ok o.order_id o.lines rows rows' u done in
    let mine : by_id (lines_of o.order_id rows') ≡ map (row_of o.order_id) (sorted_lines o.lines) =
      ap (λ (rs : List LineRow). by_id (lines_of o.order_id rs)) held
      ∙ ap by_id (lines_of-append o.order_id rows o.lines none_yet)
      ∙ by_id-map o.order_id o.lines in
    let read =
      ap read_lines mine
      ∙ read_lines-rows o.order_id (sorted_lines o.lines) (sorted_lines-All IsLine o.lines h.lines)
          (sorted_lines-All (λ l. row_ok (row_of o.order_id l) ≡ true) o.lines good) in
    ground (arith, read, new_order_stored o h.made)

get_stored :
    (o : Order) (t : OrderTables) (rows : List LineRow) (u : Unit {0})
    → IsOrder o
    → lines_of o.order_id t.lines ≡ []
    → insert_lines o.order_id o.lines t.lines ≡ ok (u, rows)
    → get o.order_id (record { headers = insert o.order_id (header_of o) t.headers; lines = rows })
      ≡ ok (some (stored_order o))
unfolding get
get_stored o t rows u h none_yet done = ground (
  arith,
  lookup-insert o.order_id o.order_id (header_of o) t.headers,
  str_eq_iff o.order_id o.order_id,
  to_order_stored o t.lines rows u h none_yet done,
)

other_lines :
    (id k : String) (rows : List LineRow) (ls : List OrderLine)
    → id ≢ k
    → lines_of k rows ≡ []
    → lines_of k (rows ++ map (row_of id) ls) ≡ []
other_lines id k [] [] ne h = refl
other_lines id k [] (l ∷ ls) ne h = ground (arith, str_eq_iff id k, other_lines id k [] ls ne h)
other_lines id k (r ∷ rows) ls ne h = elim (Bool-cases (str_eq r.order_id k)) [
  | inl mine ↦ absurd (ground arith)
  | inr other ↦ rw other (other_lines id k rows ls ne (ground arith))
]

kept_lines :
    (p : LineRow → Bool) (k : String) (rows : List LineRow)
    → lines_of k rows ≡ []
    → lines_of k (keep p rows) ≡ []
kept_lines p k [] h = refl
kept_lines p k (r ∷ rows) h = elim (Bool-cases (str_eq r.order_id k)) [
  | inl mine ↦ absurd (ground arith)
  | inr other ↦ ground (arith, kept_lines p k rows)
]

stored-HasHeaders :
    (o : Order) (t : OrderTables) (rows : List LineRow) (u : Unit {0})
    → HasHeaders t
    → insert_lines o.order_id o.lines t.lines ≡ ok (u, rows)
    → HasHeaders (record { headers = insert o.order_id (header_of o) t.headers; lines = rows })
stored-HasHeaders o t rows u keyed held k missing =
    let (added, _) = insert_lines-ok o.order_id o.lines t.lines rows u held in
    let found = lookup-insert o.order_id k (header_of o) t.headers in
    let ne : o.order_id ≢ k =
      λ same. absurd (ground (arith, found, missing, (str_eq_iff o.order_id k).1 same)) in
    let none_yet = keyed k (ground (arith, found, missing)) in
    ap (lines_of k) added ∙ other_lines o.order_id k t.lines o.lines ne none_yet

added_fresh :
    (is_action : String → Bool) (o : Order) (t t' : OrderTables) (u : Unit {0})
    → add is_action o t ≡ ok (u, t')
    → lookup o.order_id t.headers ≡ none
unfolding add
added_fresh is_action o t t' u h = elim (Option-cases (lookup o.order_id t.headers)) [
  | inl fresh ↦ fresh
  | inr (x, there) ↦ absurd (ground arith)
]

-- What a successful `add` or rewrite of an order stores is read back: the same order, each quantity
-- rounded to eight decimals, with the same lines in the order of their ids. The order and its lines are
-- ones that the constructors have made, and every line in the table belongs to an order of it, which
-- then still holds.
pub stored_order_read :
    (is_action : String → Bool) (o : Order) (t t' : OrderTables) (u : Unit {0})
    → IsOrder o
    → HasHeaders t
    → (add is_action o t ≡ ok (u, t')) ⊎ (rewrite o t ≡ ok (u, t'))
    → (get o.order_id t' ≡ ok (some (stored_order o)))
      × Perm (sorted_lines o.lines) o.lines
      × HasHeaders t'
unfolding add rewrite
stored_order_read is_action o t t' u h keyed (inl done) =
    let none_yet = keyed o.order_id (added_fresh is_action o t t' u done) in
    elim (Result-cases (insert_lines o.order_id o.lines t.lines)) [
      | inr (e, raised) ↦ absurd (ground arith)
      | inl ((v, rows), held) ↦
          let e : record { headers = insert o.order_id (header_of o) t.headers; lines = rows }
              ≡ t' =
            ground arith in
          (
            rw (← e) (get_stored o t rows v h none_yet held),
            sorted_lines-Perm o.lines,
            subst HasHeaders e (stored-HasHeaders o t rows v keyed held),
          )
    ]
stored_order_read is_action o t t' u h keyed (inr done) =
    let kept = keep (λ r. not (str_eq r.order_id o.order_id)) t.lines in
    elim (Result-cases (insert_lines o.order_id o.lines kept)) [
      | inr (e, raised) ↦ absurd (ground arith)
      | inl ((v, rows), held) ↦
          let e : record { headers = insert o.order_id (header_of o) t.headers; lines = rows }
              ≡ t' =
            ground arith in
          (
            rw (← e) (
                get_stored o (record t { lines = kept }) rows v h (lines_of-rest o.order_id t.lines)
                  held),
            sorted_lines-Perm o.lines,
            subst HasHeaders e (
                stored-HasHeaders o (record t { lines = kept }) rows v
                  (λ k none_there.
                    kept_lines (λ r. not (str_eq r.order_id o.order_id)) k t.lines
                      (keyed k none_there))
                  held),
          )
    ]
