-- ===== src/Tests/Orders.antt =====
-- Runs of orders, repeat plans and the services that create them.
use shema_business_platform.Prelude.{
  ℕ, ◌≡◌, ◌≢◌, refl, inl, Bool, true, false, none, some, [], ◌∷◌, String, Datetime, ok, str_eq,
  str_eq_iff, is_blank, arith,
}
use shema_business_platform.Prelude.Int.{pos}
use shema_business_platform.Prelude.Dict.{lookup, insert}
use shema_business_platform.Domain.Money.{finite, new_money}
use shema_business_platform.Domain.Money.Stable.{new_money-IsMoney}
use shema_business_platform.Domain.Order.{Order, OrderLine, new_line, new_order, draft, confirmed}
use shema_business_platform.Domain.Calendar.{Timestamp}
use shema_business_platform.Domain.RepeatOrder.{RepeatOrderPlan, active, paused, day}
use shema_business_platform.Platform.OrderTable.{OrderTables, LineRow, header_of, add, save, get}
use shema_business_platform.Platform.OrderTable.Lines.{IsLine, HasHeaders, sorted_lines}
use shema_business_platform.Platform.OrderTable.Stored.{stored_order, stored_order_read}
use mathlib.Core.List.{Perm}
use shema_business_platform.Platform.PlanTable.{PlanTable, Referenced}
use shema_business_platform.Platform.PlanTable
use shema_business_platform.Platform.PlanTable.Revisions.{saves, stale_plan_rejected}

pub different : (s t : String) → str_eq s t ≡ false → s ≢ t
different s t h e = ground (arith, str_eq_iff s t)

abbrev pub at : ℕ → Datetime
at n = record { tz_aware = true; micros = n }

abbrev pub tea : OrderLine
tea = record {
  line_id = "l1";
  description = "Tea";
  quantity = finite (pos 2) 0;
  unit_price = record { amount = pos 1050; currency = "EUR" };
}

tea_price : new_money (some (finite (pos 1050) 2)) "EUR" ≡ ok tea.unit_price
unfolding new_money
tea_price = refl

tea_made : new_line tea ≡ ok tea
unfolding new_line is_blank
tea_made = refl

pub tea-IsLine : IsLine tea
tea-IsLine = record {
  made = tea_made;
  price = new_money-IsMoney (some (finite (pos 1050) 2)) "EUR" tea.unit_price tea_price;
}

abbrev pub order : Order
order = record {
  order_id = "o";
  identity_id = "i";
  source_action_id = "a";
  lines = tea ∷ [];
  owner_actor_id = some "anna";
  status = draft;
}

order_made : new_order order ≡ ok order
unfolding new_order is_blank
order_made = refl

abbrev pub no_orders : OrderTables
no_orders = record { headers = []; lines = [] }

abbrev tea_row : LineRow
tea_row = record {
  line_id = "l1";
  order_id = "o";
  description = "Tea";
  quantity = pos 200000000;
  unit_price = pos 1050000000;
  currency = "EUR";
}

abbrev one_order : OrderTables
one_order = record { headers = ("o", header_of order) ∷ []; lines = tea_row ∷ [] }

abbrev every : String → Bool
every s = true

abbrev milk : OrderLine
milk = record tea { line_id = "l2"; description = "Milk" }

milk-IsLine : IsLine milk
milk-IsLine = record { made = unfold new_line is_blank in refl; price = tea-IsLine.price }

abbrev two_lines : Order
two_lines = record order { lines = milk ∷ tea ∷ [] }

two_lines_made : new_order two_lines ≡ ok two_lines
unfolding new_order is_blank
two_lines_made = refl

abbrev two_rows : OrderTables
two_rows = record {
  headers = ("o", header_of two_lines) ∷ [];
  lines = record tea_row { line_id = "l2"; description = "Milk" } ∷ tea_row ∷ [];
}

two_lines_added : add every two_lines no_orders ≡ ok (tt, two_rows)
unfolding add lookup insert
two_lines_added = refl

stored_order_read_example :
    (get "o" two_rows ≡ ok (some (stored_order two_lines)))
    × Perm (sorted_lines (milk ∷ tea ∷ [])) (milk ∷ tea ∷ [])
    × HasHeaders two_rows
stored_order_read_example =
    stored_order_read every two_lines no_orders two_rows tt
      (record { made = two_lines_made; lines = (milk-IsLine, (tea-IsLine, tt)) }) (λ id h. refl)
      (inl two_lines_added)

abbrev order_confirmed : Order
order_confirmed = record order { status = confirmed }

abbrev one_confirmed : OrderTables
one_confirmed = record { headers = ("o", header_of order_confirmed) ∷ []; lines = tea_row ∷ [] }

abbrev monday : Timestamp
monday = record { tz_aware = true; year = 2024; month = 1; day = 1; time = 0 }

abbrev pub plan : RepeatOrderPlan
plan = record {
  plan_id = "p";
  source_order_id = "o";
  identity_id = "i";
  cadence = record { unit = day; interval = 7 };
  context = record {
    scheduled_for = monday;
    service_scope = "tea";
    capacity_units = finite (pos 1000) 3;
  };
  owner_actor_id = some "anna";
  status = active;
  last_order_id = none;
  pending_order_id = none;
  skipped_occurrences = 0;
  revision = 1;
}

abbrev plan_paused : RepeatOrderPlan
plan_paused = record plan { status = paused; revision = 2 }

abbrev all_known : Referenced
all_known = record { is_order = every; is_identity = every }

plan_saved :
    PlanTable.save all_known (record plan { status = paused }) 1 (("p", plan) ∷ [])
    ≡ ok (plan_paused, ("p", plan_paused) ∷ [])
unfolding PlanTable.save lookup insert is_blank
plan_saved = refl

stale_plan_rejected_example :
    PlanTable.save all_known plan 1 (saves all_known ((plan, 2) ∷ []) (("p", plan_paused) ∷ []))
    ≢ ok (plan_paused, [])
stale_plan_rejected_example =
    stale_plan_rejected all_known (record plan { status = paused }) plan_paused 1 (("p", plan) ∷ [])
      (("p", plan_paused) ∷ []) plan_saved ((plan, 2) ∷ []) plan plan_paused 1 [] refl (omega arith)
