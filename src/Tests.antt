-- ===== src/Tests.antt =====
-- Runs of the modelled code on concrete data, and the theorems applied at them.
mod Jobs
mod Outbox
mod Executions
mod Runner
mod Policies
mod Sending
mod Amounts
mod Stores
mod Orders
mod Services
