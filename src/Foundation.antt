-- ===== src/Foundation.antt =====
-- The foundation layer, src/shema_platform/foundation: contracts and reference stores that the
-- application builds on.
pub mod Outbox
pub mod Jobs
pub mod Recovery
pub mod Policy
pub mod Authorization
pub mod Idempotency
pub mod Providers
