-- ===== src/Application.antt =====
-- The application services, src/shema_platform/application.
pub mod Actor
pub mod Communication
pub mod SendData
pub mod SendEvents
pub mod CommercialSend
pub mod JobEvents
pub mod JobRunner
pub mod OrderData
pub mod RepeatOrder
pub mod CreateServices
pub mod CriticalWorkflows
pub mod IdentityDirectory
pub mod OutboxDispatcher
