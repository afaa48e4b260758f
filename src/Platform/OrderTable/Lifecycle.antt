-- ===== src/Platform/OrderTable/Lifecycle.antt =====
-- What `save` lets an order become, and what it leaves alone.
use shema_business_platform.Prelude.{◌≡◌, Bool, true, false, ◌||◌, ◌&&◌}
use shema_business_platform.Domain.Order.{
  OrderStatus, draft, confirmed, in_progress, completed, Order, is_draft, lines_eq, status_eq,
}

-- The edges of the life of an order: draft, confirmed, in progress, completed.
abbrev pub follows : OrderStatus → OrderStatus → Bool
follows draft confirmed = true
follows confirmed in_progress = true
follows in_progress completed = true
follows _ _ = false

-- What a save may do: the status stays or moves along one edge, and lines change only in a draft.
abbrev pub IsLawful : Order → Order → Type 0
IsLawful current o =
    (o.identity_id ≡ current.identity_id)
    × (o.source_action_id ≡ current.source_action_id)
    × ((status_eq current.status o.status || follows current.status o.status) ≡ true)
    × (((is_draft current.status && is_draft o.status) || lines_eq current.lines o.lines) ≡ true)
