-- ===== src/Application/RepeatOrder.antt =====
-- application/repeat_order.py: the service of repeated orders. Each operation is one unit of work; the
-- revalidator is a parameter.
pub mod Validation
pub mod Plans
pub mod Orders
pub mod Once
pub mod Writes
pub mod AtMostOnce
