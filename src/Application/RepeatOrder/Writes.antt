-- ===== src/Application/RepeatOrder/Writes.antt =====
-- The statements that follow a reservation keep its record.
use shema_business_platform.Prelude.{not, String, str_eq}
use shema_business_platform.Domain.Order.{Order, total}
use shema_business_platform.Domain.Economics.{EconomicEntry}
use shema_business_platform.Domain.Money.{Money}
use shema_business_platform.Domain.RepeatOrder.{RepeatOrderPlan}
use shema_business_platform.Platform.IdempotencyTable.{IdempotencyRecord}
use shema_business_platform.Platform.Transaction.Rules.{
  Keeps, Keeps-bind, Keeps-pure, Keeps-lift, Keeps-or_raise, Keeps-if,
}
use shema_business_platform.Application.OrderData.{OrderCall}
use shema_business_platform.Application.RepeatOrder.Once.{
  HasKey, reads-Keeps, on_orders-Keeps, on_plans-Keeps, on_economics-Keeps, append_event-Keeps,
  append_audit-Keeps,
}
use shema_business_platform.Application.RepeatOrder.Validation.{
  RepeatService, RepeatOrderValidation, stored_plan, stored_order, record_audit, event,
}
use shema_business_platform.Application.RepeatOrder.Plans.{
  PlanRequest, PlanChange, insert_plan, change_plan,
}
use shema_business_platform.Application.RepeatOrder.Orders.{
  insert_order, book_revenue, write_confirmation,
}

module _ (k : String) where
  stored_plan-Keeps : (r : IdempotencyRecord) → Keeps (HasKey k) (stored_plan r)
  unfolding stored_plan
  stored_plan-Keeps r =
      Keeps-bind (HasKey k) _ _ (reads-Keeps k _) (λ found. Keeps-or_raise (HasKey k) found _)

  stored_order-Keeps :
      (kind : String) (r : IdempotencyRecord) → Keeps (HasKey k) (stored_order kind r)
  unfolding stored_order
  stored_order-Keeps kind r =
      Keeps-bind (HasKey k) _ _ (reads-Keeps k _) (λ found. Keeps-or_raise (HasKey k) found _)

  pub change_plan-Keeps :
      (s : RepeatService) (c : OrderCall) (id : String) (x : PlanChange) (p : RepeatOrderPlan)
      (r : IdempotencyRecord)
      → Keeps (HasKey k) (change_plan s c id x p r)
  unfolding change_plan record_audit event
  change_plan-Keeps s c id x p r =
      Keeps-if (HasKey k) (not (str_eq r.result_ref id)) _ _ (stored_plan-Keeps r) (
        Keeps-bind (HasKey k) _ _ (Keeps-lift (HasKey k) _) λ next.
          Keeps-bind (HasKey k) _ _ (on_plans-Keeps k _) λ u.
            Keeps-bind (HasKey k) _ _ (append_audit-Keeps k _) λ a.
              Keeps-bind (HasKey k) _ _ (append_event-Keeps k _ _) λ b. Keeps-pure (HasKey k) _)

  pub insert_plan-Keeps :
      (s : RepeatService) (c : OrderCall) (q : PlanRequest) (o : Order) (r : IdempotencyRecord)
      → Keeps (HasKey k) (insert_plan s c q o r)
  unfolding insert_plan record_audit event
  insert_plan-Keeps s c q o r =
      Keeps-if (HasKey k) (not (str_eq r.result_ref q.plan_id)) _ _ (stored_plan-Keeps r) (
        Keeps-bind (HasKey k) _ _ (Keeps-lift (HasKey k) _) λ p.
          Keeps-bind (HasKey k) _ _ (on_plans-Keeps k _) λ u.
            Keeps-bind (HasKey k) _ _ (append_audit-Keeps k _) λ a.
              Keeps-bind (HasKey k) _ _ (append_event-Keeps k _ _) λ b. Keeps-pure (HasKey k) _)

  pub insert_order-Keeps :
      (s : RepeatService) (c : OrderCall) (id : String) (p : RepeatOrderPlan) (o : Order)
      (v : RepeatOrderValidation) (r : IdempotencyRecord)
      → Keeps (HasKey k) (insert_order s c id p o v r)
  unfolding insert_order record_audit event
  insert_order-Keeps s c id p o v r =
      Keeps-if (HasKey k) (not (str_eq r.result_ref id)) _ _ (stored_order-Keeps "repeat" r) (
        Keeps-bind (HasKey k) _ _ (Keeps-lift (HasKey k) _) λ n.
          Keeps-bind (HasKey k) _ _ (on_orders-Keeps k _) λ u.
            Keeps-bind (HasKey k) _ _ (Keeps-lift (HasKey k) _) λ p.
              Keeps-bind (HasKey k) _ _ (on_plans-Keeps k _) λ q.
                Keeps-bind (HasKey k) _ _ (append_audit-Keeps k _) λ a.
                  Keeps-bind (HasKey k) _ _ (append_event-Keeps k _ _) λ b. Keeps-pure (HasKey k) _)

  book_revenue-Keeps :
      (c : OrderCall) (plan_id id : String) (o : Order)
      → Keeps (HasKey k) (book_revenue c plan_id id o)
  unfolding book_revenue
  book_revenue-Keeps c plan_id id o =
      Keeps-bind (HasKey k) {A = Money} _ _ (Keeps-lift (HasKey k) (total o)) λ t.
        Keeps-bind (HasKey k) {A = EconomicEntry} _ _ (Keeps-lift (HasKey k) _)
          λ e. Keeps-bind (HasKey k) _ _ (on_economics-Keeps k _) λ w. Keeps-pure (HasKey k) _

  pub write_confirmation-Keeps :
      (s : RepeatService) (c : OrderCall) (plan_id id : String) (p : RepeatOrderPlan) (o : Order)
      (r : IdempotencyRecord)
      → Keeps (HasKey k) (write_confirmation s c plan_id id p o r)
  unfolding write_confirmation record_audit event
  write_confirmation-Keeps s c plan_id id p o r =
      Keeps-if (HasKey k) (not (str_eq r.result_ref id)) _ _ (stored_order-Keeps "confirmed" r) (
        Keeps-bind (HasKey k) _ _ (Keeps-lift (HasKey k) _) λ n.
          Keeps-bind (HasKey k) _ _ (on_orders-Keeps k _) λ u.
            Keeps-bind (HasKey k) _ _ (book_revenue-Keeps c plan_id id n) λ t.
              Keeps-bind (HasKey k) _ _ (Keeps-lift (HasKey k) _) λ x.
                Keeps-bind (HasKey k) _ _ (on_plans-Keeps k _) λ q.
                  Keeps-bind (HasKey k) _ _ (append_audit-Keeps k _) λ a.
                    Keeps-bind (HasKey k) _ _ (append_event-Keeps k _ _)
                      λ b. Keeps-pure (HasKey k) _)
