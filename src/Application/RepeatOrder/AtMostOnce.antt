-- ===== src/Application/RepeatOrder/AtMostOnce.antt =====
-- Idempotency of the service of repeated orders, over all its operations.
use shema_business_platform.Prelude.{
  ◌≡◌, ◌∙◌, ◌⊎◌, sym, ap, subst, not, none, some, String, Error, idempotency_conflict,
  integrity_violation, Result, ok, err, inl, inr, arith, is_some, Bool-cases, Option-cases,
  Result-cases,
}
use shema_business_platform.Prelude.Dict.{lookup}
use shema_business_platform.Domain.Order.{Order, is_draft, is_completed, lines_eq}
use shema_business_platform.Domain.RepeatOrder.{RepeatOrderPlan, is_active, is_order}
use shema_business_platform.Platform.IdempotencyTable
use shema_business_platform.Platform.IdempotencyTable.{IdempotencyRecord}
use shema_business_platform.Platform.PlanTable
use shema_business_platform.Platform.OrderTable
use shema_business_platform.Platform.Transaction.{Tx, lift, or_raise, raise_if, transaction}
use shema_business_platform.Platform.Transaction.Rules.{
  Establishes, Establishes-rest, Establishes-step,
}
use shema_business_platform.Application.OrderData.{OrderDb, OrderCall, reads}
use shema_business_platform.Application.RepeatOrder.Once.{HasKey, reserve-Establishes}
use shema_business_platform.Application.RepeatOrder.Writes.{
  change_plan-Keeps, insert_plan-Keeps, insert_order-Keeps, write_confirmation-Keeps,
}
use shema_business_platform.Application.RepeatOrder.Validation.{
  RepeatService, require_plan, require_owner, verified_identity, authorize, require_validation,
  reused, existing_plan, existing_order,
}
use shema_business_platform.Application.RepeatOrder.Plans.{
  PlanRequest, PlanChange, fresh_plan, create_new_plan, create_plan_body, create_plan, fresh_change,
  mutate_new, mutate_body, mutate_plan,
}
use shema_business_platform.Application.RepeatOrder.Orders.{
  fresh_order, create_new_order, create_order_body, create_next_repeat_order, fresh_confirmation,
  confirm_new, confirm_body, confirm_repeat_order,
}

module _ (s : RepeatService) (c : OrderCall) where
  fresh_plan-Establishes :
      (q : PlanRequest) → Establishes (HasKey c.idempotency_key) (fresh_plan s c q)
  unfolding fresh_plan
  fresh_plan-Establishes q =
      let P = HasKey c.idempotency_key in
      Establishes-rest P (reads _) _ λ a. Establishes-rest P (or_raise a _) _ λ source.
        Establishes-rest P (lift (require_owner source.owner_actor_id c.actor)) _ λ b.
          Establishes-rest P (raise_if (not (is_completed source.status)) _) _ λ d.
            Establishes-rest P (verified_identity _) _ λ i.
              Establishes-rest P (authorize s _ i _) _ λ e.
                Establishes-step P _ _
                  (reserve-Establishes c.idempotency_key c.request_hash q.plan_id)
                  λ r. insert_plan-Keeps c.idempotency_key s c q source r

  fresh_change-Establishes :
      (id : String) (x : PlanChange)
      → Establishes (HasKey c.idempotency_key) (fresh_change s c id x)
  unfolding fresh_change
  fresh_change-Establishes id x =
      let P = HasKey c.idempotency_key in
      Establishes-rest P (require_plan _) _ λ p.
        Establishes-rest P (lift (require_owner p.owner_actor_id c.actor)) _ λ b.
          Establishes-rest P (verified_identity _) _ λ i.
            Establishes-rest P (authorize s _ i _) _ λ e.
              Establishes-step P _ _ (reserve-Establishes c.idempotency_key c.request_hash id)
                λ r. change_plan-Keeps c.idempotency_key s c id x p r

  fresh_order-Establishes :
      (plan_id id : String) → Establishes (HasKey c.idempotency_key) (fresh_order s c plan_id id)
  unfolding fresh_order
  fresh_order-Establishes plan_id id =
      let P = HasKey c.idempotency_key in
      Establishes-rest P (require_plan _) _ λ p.
        Establishes-rest P (lift (require_owner p.owner_actor_id c.actor)) _ λ b.
          Establishes-rest P (raise_if (not (is_active p.status)) _) _ λ d.
            Establishes-rest P (raise_if (is_some p.pending_order_id) _) _ λ e.
              Establishes-rest P (reads _) _ λ f. Establishes-rest P (or_raise f _) _ λ source.
                Establishes-rest P (raise_if (not (is_completed source.status)) _) _ λ g.
                  Establishes-rest P (verified_identity _) _ λ i.
                    Establishes-rest P (lift (s.revalidate i source p)) _ λ v.
                      Establishes-rest P (authorize s _ i _) _ λ h.
                        Establishes-rest P (lift (require_validation v)) _ λ j.
                          Establishes-step P _ _
                            (reserve-Establishes c.idempotency_key c.request_hash id)
                            λ r. insert_order-Keeps c.idempotency_key s c id p source v r

  fresh_confirmation-Establishes :
      (plan_id id : String)
      → Establishes (HasKey c.idempotency_key) (fresh_confirmation s c plan_id id)
  unfolding fresh_confirmation
  fresh_confirmation-Establishes plan_id id =
      let P = HasKey c.idempotency_key in
      Establishes-rest P (require_plan _) _ λ p.
        Establishes-rest P (lift (require_owner p.owner_actor_id c.actor)) _ λ b.
          Establishes-rest P (raise_if (not (is_order p.pending_order_id id)) _) _ λ d.
            Establishes-rest P (reads _) _ λ f. Establishes-rest P (or_raise f _) _ λ o.
              Establishes-rest P (raise_if (not (is_draft o.status)) _) _ λ g.
                Establishes-rest P (verified_identity _) _ λ i.
                  Establishes-rest P (lift (s.revalidate i o p)) _ λ v.
                    Establishes-rest P (authorize s _ i _) _ λ h.
                      Establishes-rest P (lift (require_validation v)) _ λ j.
                        Establishes-rest P (raise_if (not (lines_eq v.resolved_lines o.lines)) _) _
                          λ l.
                            Establishes-step P _ _
                              (reserve-Establishes c.idempotency_key c.request_hash id)
                              λ r. write_confirmation-Keeps c.idempotency_key s c plan_id id p o r

-- A call whose key has a record returns what is stored or raises; nothing is written.
module _ (c : OrderCall) (db : OrderDb) (known : HasKey c.idempotency_key db) where
  plan_known :
      ((e : Error) × (existing_plan c db ≡ err e))
      ⊎ ((p : RepeatOrderPlan) × (existing_plan c db ≡ ok (some p, db)))
  unfolding existing_plan IdempotencyTable.get
  plan_known = elim (Option-cases (lookup c.idempotency_key db.keys)) [
    | inl missing ↦ absurd (ground arith)
    | inr (e, there) ↦ elim (Bool-cases (reused e c)) [
      | inl other ↦
          inl (idempotency_conflict "idempotency key reused with different request", ground arith)
      | inr same ↦ elim (Result-cases (PlanTable.get e.result_ref db.plans)) [
        | inr (x, raised) ↦ inl (x, ground arith)
        | inl (found, read) ↦ elim (Option-cases found) [
          | inl none_there ↦ inl (
            integrity_violation "idempotency record references missing repeat plan",
            ground arith,
          )
          | inr (p, stored) ↦ inr (p, ground arith)
        ]
      ]
    ]
  ]

  order_known :
      ((e : Error) × (existing_order c db ≡ err e))
      ⊎ ((o : Order) × (existing_order c db ≡ ok (some o, db)))
  unfolding existing_order IdempotencyTable.get
  order_known = elim (Option-cases (lookup c.idempotency_key db.keys)) [
    | inl missing ↦ absurd (ground arith)
    | inr (e, there) ↦ elim (Bool-cases (reused e c)) [
      | inl other ↦
          inl (idempotency_conflict "idempotency key reused with different request", ground arith)
      | inr same ↦ elim (Result-cases (OrderTable.get e.result_ref db.orders)) [
        | inr (x, raised) ↦ inl (x, ground arith)
        | inl (found, read) ↦ elim (Option-cases found) [
          | inl none_there ↦ inl (
            integrity_violation "idempotency record references missing repeat order",
            ground arith,
          )
          | inr (o, stored) ↦ inr (o, ground arith)
        ]
      ]
    ]
  ]

-- The operations of the service, and what one does to the database.
pub data RepeatCall : Type 0 where
  plan_creation : PlanRequest → RepeatCall
  plan_change : String → PlanChange → RepeatCall
  order_creation order_confirmation : String → String → RepeatCall

abbrev pub Answer : Type 0
Answer = RepeatOrderPlan ⊎ Order

abbrev pub answer : {A B : Type 0} → (A → B) → Result A × OrderDb → Result B × OrderDb
answer f (ok a, db) = (ok (f a), db)
answer f (err e, db) = (err e, db)

unfoldable pub perform : RepeatService → OrderCall → RepeatCall → OrderDb → Result Answer × OrderDb
unfolding create_plan mutate_plan create_next_repeat_order confirm_repeat_order
perform s c (plan_creation q) db = answer inl (create_plan s c q db)
perform s c (plan_change id x) db = answer inl (mutate_plan s c id x db)
perform s c (order_creation plan_id id) db = answer inr (create_next_repeat_order s c plan_id id db)
perform s c (order_confirmation plan_id id) db = answer inr (confirm_repeat_order s c plan_id id db)

known_unchanged :
    (s : RepeatService) (c : OrderCall) (x : RepeatCall) (db : OrderDb)
    → HasKey c.idempotency_key db
    → (perform s c x db).1 ≡ db
unfolding perform transaction create_plan_body create_new_plan mutate_body mutate_new
    create_order_body create_new_order confirm_body confirm_new
known_unchanged s c (plan_creation q) db known = elim (plan_known c db known) [
  | inl (e, raised) ↦ ground arith
  | inr (p, there) ↦ ground arith
]
known_unchanged s c (plan_change id x) db known = elim (plan_known c db known) [
  | inl (e, raised) ↦ ground arith
  | inr (p, there) ↦ ground arith
]
known_unchanged s c (order_creation plan_id id) db known = elim (order_known c db known) [
  | inl (e, raised) ↦ ground arith
  | inr (p, there) ↦ ground arith
]
known_unchanged s c (order_confirmation plan_id id) db known = elim (order_known c db known) [
  | inl (e, raised) ↦ ground arith
  | inr (p, there) ↦ ground arith
]

answered :
    {A : Type 0} (m : Tx OrderDb A) (f : A → Answer) (db db' : OrderDb) (a : Answer)
    → answer f (transaction m db) ≡ (ok a, db')
    → (r : A) × (m db ≡ ok (r, db'))
answered m f db db' a h = elim (Result-cases (m db)) [
  | inl ((r, d), done) ↦ (r, unfold transaction in ground arith)
  | inr (e, raised) ↦ absurd (unfold transaction in ground arith)
]

performed-HasKey :
    (s : RepeatService) (c : OrderCall) (x : RepeatCall) (db db' : OrderDb) (a : Answer)
    → lookup c.idempotency_key db.keys ≡ none
    → perform s c x db ≡ (ok a, db')
    → HasKey c.idempotency_key db'
unfolding perform existing_plan existing_order IdempotencyTable.get create_plan_body create_new_plan
    mutate_body mutate_new create_order_body create_new_order confirm_body confirm_new
performed-HasKey s c (plan_creation q) db db' a fresh h =
    let (p, done) = answered (create_plan_body s c q) inl db db' a h in
    fresh_plan-Establishes s c q db db' p (ground arith)
performed-HasKey s c (plan_change id x) db db' a fresh h =
    let (p, done) = answered (mutate_body s c id x) inl db db' a h in
    fresh_change-Establishes s c id x db db' p (ground arith)
performed-HasKey s c (order_creation plan_id id) db db' a fresh h =
    let (o, done) = answered (create_order_body s c plan_id id) inr db db' a h in
    fresh_order-Establishes s c plan_id id db db' o (ground arith)
performed-HasKey s c (order_confirmation plan_id id) db db' a fresh h =
    let (o, done) = answered (confirm_body s c plan_id id) inr db db' a h in
    fresh_confirmation-Establishes s c plan_id id db db' o (ground arith)

-- An idempotency key takes effect at most once: after an operation of the service that succeeded, no
-- operation of any kind under the same key changes the database, whatever its request and its actor.
pub effect_once :
    (s : RepeatService) (c c' : OrderCall) (x x' : RepeatCall) (db db' : OrderDb) (a : Answer)
    → perform s c x db ≡ (ok a, db')
    → c'.idempotency_key ≡ c.idempotency_key
    → (perform s c' x' db').1 ≡ db'
effect_once s c c' x x' db db' a done same =
    elim (Option-cases (lookup c.idempotency_key db.keys)) [
      | inl fresh ↦
          let held = performed-HasKey s c x db db' a fresh done in
          known_unchanged s c' x' db' (subst (λ (k : String). HasKey k db') (sym same) held)
      | inr (e, there) ↦
          let held : HasKey c.idempotency_key db = ground arith in
          let kept : db ≡ db' =
            sym (known_unchanged s c x db held) ∙ ap (λ (r : Result Answer × OrderDb). r.1) done in
          known_unchanged s c' x' db' (
            subst (λ (k : String). HasKey k db') (sym same)
              (subst (HasKey c.idempotency_key) kept held))
    ]
