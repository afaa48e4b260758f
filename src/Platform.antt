-- ===== src/Platform.antt =====
-- The PostgreSQL repositories, src/shema_platform/platform, as functions on tables of rows. A
-- statement runs on the rows that its transaction sees.
pub mod Transaction
pub mod IdempotencyTable
pub mod ActionTable
pub mod AuditTable
pub mod OutboxTable
pub mod JobRows
pub mod JobTable
pub mod IdentityTable
pub mod OrderTable
pub mod PlanTable
pub mod EconomicTable
pub mod ActivationTable
