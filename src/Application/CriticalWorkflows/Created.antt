-- ===== src/Application/CriticalWorkflows/Created.antt =====
-- What the creation of an order leaves in the database, and what a repeated call gets.
use shema_business_platform.Prelude.{
  ◌≡◌, ◌∙◌, refl, sym, ap, none, some, List, String, ok, inl, inr, arith, str_eq_iff, All,
  Option-cases, Result-cases,
}
use shema_business_platform.Prelude.Dict.{lookup, insert, lookup-insert}
use shema_business_platform.Domain.CommercialAction.{CommercialAction}
use shema_business_platform.Domain.Order.{Order, OrderLine}
use shema_business_platform.Platform.IdempotencyTable
use shema_business_platform.Platform.IdempotencyTable.{IdempotencyRecord, reservation}
use shema_business_platform.Platform.ActionTable
use shema_business_platform.Platform.OrderTable
use shema_business_platform.Platform.OrderTable.{lines_of}
use shema_business_platform.Platform.OrderTable.Lines.{IsLine, HasHeaders}
use shema_business_platform.Platform.OrderTable.Stored.{stored_order, stored_order_read}
use shema_business_platform.Platform.Transaction.{transaction, transaction-ok}
use shema_business_platform.Application.OrderData.{
  OrderPayload, OrderNote, OrderDb, OrderCall, reads, on_keys, on_orders, is_action, status_value,
  append_event, append_audit, order_created, order_created_note,
}
use shema_business_platform.Application.CreateServices.{create_from_action}
use shema_business_platform.Application.CreateServices.Guards.{order_from_sent, created-made}
use shema_business_platform.Application.CriticalWorkflows.{
  Workflow, announce, referenced_order, insert_order, fresh_order, order_by_key, create_order_body,
  create_order,
}

announce-frame :
    (w : Workflow) (c : OrderCall) (key kind name id : String) (p : OrderPayload) (n : OrderNote)
    (db db' : OrderDb) (u : Unit {0})
    → announce w c key kind name id p n db ≡ ok (u, db')
    → (db'.keys ≡ db.keys) × (db'.orders ≡ db.orders)
unfolding announce append_event append_audit
announce-frame w c key kind name id p n db db' u h = ground arith

insert_order-ok :
    (w : Workflow) (c : OrderCall) (a : CommercialAction) (id : String) (lines : List OrderLine)
    (r : IdempotencyRecord) (db db' : OrderDb) (o : Order)
    → r.result_ref ≡ id
    → insert_order w c a id lines r db ≡ ok (o, db')
    → (create_from_action w.authorizer c.actor a id lines ≡ ok o)
      × ((u : Unit {0}) × (OrderTable.add (is_action db) o db.orders ≡ ok (u, db'.orders)))
      × (db'.keys ≡ db.keys)
unfolding insert_order on_orders
insert_order-ok w c a id lines r db db' o mine h =
    let same = (str_eq_iff r.result_ref id).1 mine in
    elim (Result-cases (create_from_action w.authorizer c.actor a id lines)) [
      | inr (e, raised) ↦ absurd (ground arith)
      | inl (x, made) ↦ elim (Result-cases (OrderTable.add (is_action db) x db.orders)) [
        | inr (e, raised) ↦ absurd (ground arith)
        | inl ((u, t), added) ↦
            let db1 : OrderDb = record db { orders = t } in
            elim (Result-cases (
              announce w c "order.created" "order" "order.created" id
                (order_created id x.identity_id x.source_action_id (status_value x.status))
                (order_created_note x.identity_id x.source_action_id) db1)) [
                  | inr (e, raised) ↦ absurd (ground arith)
                  | inl ((v, d), told) ↦
                      let (keys, orders) = announce-frame w c _ _ _ _ _ _ db1 d v told in
                      let e : x ≡ o = ground arith in
                      let f : d ≡ db' = ground arith in
                      rw (← e, ← f) (made, (u, ground arith), keys)
                ]
      ]
    ]

fresh_order-ok :
    (w : Workflow) (c : OrderCall) (action_id id : String) (lines : List OrderLine)
    (db db' : OrderDb) (o : Order)
    → lookup c.idempotency_key db.keys ≡ none
    → fresh_order w c action_id id lines db ≡ ok (o, db')
    → (a : CommercialAction) × (create_from_action w.authorizer c.actor a id lines ≡ ok o)
      × ((u : Unit {0}) × (OrderTable.add (is_action db) o db.orders ≡ ok (u, db'.orders)))
      × (lookup c.idempotency_key db'.keys ≡ some (reservation c.idempotency_key c.request_hash id))
unfolding fresh_order on_keys IdempotencyTable.reserve ActionTable.get
fresh_order-ok w c action_id id lines db db' o fresh h =
    elim (Option-cases (lookup action_id db.actions)) [
      | inl missing ↦ absurd (ground arith)
      | inr (a, there) ↦
          let r = reservation c.idempotency_key c.request_hash id in
          let db1 : OrderDb = record db { keys = insert c.idempotency_key r db.keys } in
          let written : insert_order w c a id lines r db1 ≡ ok (o, db') = ground arith in
          let (made, added, keys) = insert_order-ok w c a id lines r db1 db' o refl written in
          (
            a,
            made,
            added,
            ap (lookup c.idempotency_key) keys
                ∙ ground (
                  arith,
                  lookup-insert c.idempotency_key c.idempotency_key r db.keys,
                  str_eq_iff c.idempotency_key c.idempotency_key,
                ),
          )
    ]

known_order :
    (w : Workflow) (c : OrderCall) (action_id id : String) (lines : List OrderLine) (db : OrderDb)
    (r : IdempotencyRecord) (x : Order)
    → lookup c.idempotency_key db.keys ≡ some r
    → r.request_hash ≡ c.request_hash
    → OrderTable.get r.result_ref db.orders ≡ ok (some x)
    → create_order w c action_id id lines db ≡ (ok x, db)
unfolding create_order create_order_body order_by_key referenced_order reads transaction
    IdempotencyTable.get
known_order w c action_id id lines db r x there same read =
    ground (arith, str_eq_iff r.request_hash c.request_hash)

-- An order that was created under a new key is stored, its lines by id, and a request with the same key
-- and hash again, with whatever arguments, returns the stored order and changes nothing. The lines are
-- ones that the constructors have made, and every line in the table belongs to an order of it.
pub order_replayed :
    (w : Workflow) (c c' : OrderCall) (action_id id action_id' id' : String)
    (lines lines' : List OrderLine) (db db' : OrderDb) (o : Order)
    → lookup c.idempotency_key db.keys ≡ none
    → All IsLine lines
    → HasHeaders db.orders
    → c'.idempotency_key ≡ c.idempotency_key
    → c'.request_hash ≡ c.request_hash
    → create_order w c action_id id lines db ≡ (ok o, db')
    → (OrderTable.get id db'.orders ≡ ok (some (stored_order o)))
      × (create_order w c' action_id' id' lines' db' ≡ (ok (stored_order o), db'))
unfolding create_order create_order_body order_by_key IdempotencyTable.get
order_replayed w c c' action_id id action_id' id' lines lines' db db' o fresh good keyed same_key
      same_hash h =
    let ran = transaction-ok (create_order_body w c action_id id lines) db db' o h in
    let (a, made, (u, added), kept) =
      fresh_order-ok w c action_id id lines db db' o fresh (ground arith) in
    let (_, _, _, _, _, _, shape) = order_from_sent w.authorizer c.actor a id lines o made in
    let its_lines : o.lines ≡ lines = ap (λ (x : Order). x.lines) shape in
    let its_id : o.order_id ≡ id = ap (λ (x : Order). x.order_id) shape in
    let read : OrderTable.get id db'.orders ≡ ok (some (stored_order o)) =
      rw (← its_id)
        (stored_order_read (is_action db) o db.orders db'.orders u
          (record {
            made = created-made w.authorizer c.actor a id lines o made;
            lines = rw its_lines good;
          })
          keyed (inl added)).0 in
    (
      read,
      known_order w c' action_id' id' lines' db' (reservation c.idempotency_key c.request_hash id)
          (stored_order o) (rw same_key kept) (sym same_hash) read,
    )
