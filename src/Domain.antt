-- ===== src/Domain.antt =====
-- The domain layer, src/shema_platform/domain.
pub mod Identity
pub mod Money
pub mod Order
pub mod Economics
pub mod CommercialAction
pub mod Calendar
pub mod RepeatOrder
