-- ===== src/Lib.antt =====
-- Verification library of the Shema business platform: the durable core that moves commercial work,
-- its outbox, its jobs and the external sends, the orders and repeat orders that follow, and the policy that
-- guards them.
--
-- The parts and how they interact. A service checks the actor's permission (`RBACAuthorizer`) and the
-- policy (`PolicyEngine`), then works in a unit of work, one database transaction over repositories. What
-- must happen later is written in the same transaction, as an event of the outbox or as a job. Workers
-- claim events and jobs under leases with an end, so that a crashed worker's work is taken over and a
-- slow worker is fenced off. A commercial action is sent by `CommercialActionSendWorkflow`: one transaction
-- reserves the idempotency key and leases the action, the gateway calls the adapter, a second transaction
-- records the result, and an unknown outcome fails and quarantines the action instead of retrying it.
--
-- The files, with the code under src/shema_platform that they model:
--   Prelude             Boolean tests, texts (`str.strip`, f-strings), exceptions as values, timestamps,
--                       lists, dictionaries.
--   Foundation.Outbox   foundation/outbox.py: `OutboxStore.append`, `pending`, `claim_pending` (its loop is
--                       `claim_loop`), `mark_published`. Claim, Leases, Keys and Forever prove its contract.
--   Foundation.Jobs     foundation/jobs.py: the constructors, `start`, `renew`, `succeed`, `fail`.
--   Foundation.Recovery foundation/recovery.py: the retry policy.
--   Foundation.Policy, Foundation.Authorization
--                       foundation/policy.py and foundation/authorization.py.
--   Domain.Identity, Domain.CommercialAction
--                       domain/identity.py and domain/commercial_action.py.
--   Platform.Transaction
--                       platform/postgres.py: a block that raises leaves the tables as they were.
--   Platform.JobRows, Platform.JobTable
--                       `PostgresJobRepository` of platform/postgres_repositories.py, a function for
--                       each operation, the SQL statements as tests and updates of rows.
--   Platform.OutboxTable, Platform.IdempotencyTable, Platform.ActionTable, Platform.AuditTable
--                       the repositories of those tables in the same file.
--   Application.Communication
--                       application/communication.py: the gateway.
--   Application.SendData, Application.SendEvents, Application.CommercialSend
--                       application/commercial_execution.py: `execute` is the whole method,
--                       `reserve_body`, `result_body` and `quarantine_body` its three transactions.
--   Application.JobEvents, Application.JobRunner
--                       application/job_runner.py: `run_next`, `_complete`, `_record_failure`.
--   Foundation.Idempotency, Foundation.Providers
--                       foundation/idempotency.py; foundation/provider_activation.py, provider_budget.py and
--                       provider_health.py.
--   Domain.Money, Domain.Order, Domain.Economics, Domain.Calendar, Domain.RepeatOrder
--                       domain/money.py, domain/order.py, domain/economics.py and domain/repeat_order.py,
--                       with the dates of `datetime` that it uses.
--   Platform.IdentityTable, Platform.OrderTable, Platform.PlanTable, Platform.EconomicTable
--                       the repositories of identities, orders, repeat plans and economic entries.
--   Platform.ActivationTable
--                       platform/provider_activation_postgres.py.
--   Application.OrderData, Application.RepeatOrder
--                       application/repeat_order.py: `_mutate_plan` is `mutate_plan`, with the five operations
--                       that call it as `PlanChange`.
--   Application.CreateServices, Application.CriticalWorkflows
--                       application/commercial_action.py, application/order.py and
--                       application/critical_workflows.py.
--   Application.OutboxDispatcher, Application.IdentityDirectory
--                       application/outbox_dispatcher.py and application/identity.py.
--   Tests               runs on concrete data, and each theorem applied at one.
--
-- How the model is made:
--   - An exception is a value of `Error`; an operation on a table is a function from the table to a result
--     and the new table. A block that raises rolls back, so its state is dropped there. The in-memory store
--     returns its state along with the exception instead.
--   - Integers of the code are natural numbers: trust levels, attempts, limits, lease lengths. A timestamp is
--     an instant in microseconds and whether it carries a time zone; the year 9999 is no bound. The seconds of
--     a retry delay, floats in the code, are whole microseconds, without the overflow of a float.
--   - A decimal is an integer over a power of ten, an infinity or a NaN; an amount of money is its cents. The
--     precision is that of Python's default context. A column `numeric(20,8)` rounds halves away from zero.
--   - An attempt is unbounded, where its column holds four bytes. A timestamp without a time zone that is stored
--     as `available_at` raises when the row is read back; the database would give it a zone. The callers pass
--     timestamps with one.
--   - A plan's timestamps are dates and times of one time zone, in which the database returns them too. Texts
--     of uuid columns are canonical ones. Texts are ordered by their code points.
--   - The floats that limit a provider's costs are a parameter, with what a column gives back for one.
--   - The readings of the clock are arguments, one for each block that reads it, and so is `created`, the
--     database's own time.
--   - A table is a list of rows or a dictionary by its primary key, with the check constraints of the
--     migrations db/migrations/0001, 0004, 0006, 0009, 0010 and 0013. `for update skip locked` skips the rows that the argument
--     `locked` names, whatever they are.
--   - Parameters are what the code calls outside the model: the communication adapter, the job handlers,
--     `uuid5` and `sha256`, `safe_error_detail`, the equality of payloads (with its law), and what other
--     transactions do to the database while an external call runs.
--   - The loops run over lists by recursion, so no fuel is needed; only the printing of a number takes as fuel
--     the number itself, which is never less than its digits.
--
-- What is not modelled: the connection's life cycle, telemetry, the HTTP interface and the adapters;
-- monitoring, public intake, evidence, search and the AI runtime are left out as well, and of the providers the
-- probes and the rate of calls per second. The random key of a quarantine row and the class name of the
-- exception in one audit record are left out.
pub mod Prelude
pub mod Foundation
pub mod Domain
pub mod Platform
pub mod Application
pub mod Tests
