-- ===== src/Lib.antt =====
-- The broadcast service of fmxevolution-go and the parts around it: who is sent a message, how a job
-- is claimed, sent, retried and reported on, what keeps the rate down, what webhooks are told, and the
-- contacts of tenants.
--
-- The parts and the files that model them
--
-- - Domain: internal/domain/errors.go. An error is a value with the sentinel that `errors.Is` finds
--   and the text that `Error()` shows.
-- - Broadcast.Model, Broadcast.Repo, Broadcast.Jobs: the rows of internal/repository/models.go and the
--   statements of internal/repository/gorm.go on the tables of recipients (Repo) and jobs (Jobs). A
--   table is a list of rows, and a statement a function on it.
-- - Broadcast.Env: what the service is run against. The world holds the tables, the queue of the
--   workers and the calls of `SendText` so far; the environment answers the n-th call of the clock,
--   the context, the database and the other services with its n-th entry.
-- - Broadcast.Recipients, Broadcast.Processor: internal/broadcast/processor.go. `process` is
--   `deliveryProcessor.Process`, with each call in the order of the source.
-- - Broadcast.Service, Broadcast.Listing, Broadcast.Worker: internal/broadcast/service.go, the
--   requests (Create, Get, List, ListRecipients, HandleReceipt), the pages of a list of recipients,
--   and the background work (claimAndEnqueue, waitForInstanceSlot, handleJob, handleFailure).
-- - SendStatus: pkg/sendstatus/registry.go, the registry of sent messages and of receipts.
-- - RateLimit: internal/middleware/rate_limit.go, the limiter in memory and its middlewares.
-- - ChatSearch: internal/instance/chat_cache.go and `SearchChats` of internal/instance/service.go.
-- - RuntimeObs: pkg/runtimeobs/registry.go, lifecycle events and the dropping of repeated ones.
-- - Webhook.Values, Webhook.Events, Webhook.Payload: internal/webhook/normalize.go and what
--   internal/webhook/service.go reads from the data of an event.
-- - Webhook.Model, Webhook.Repo, Webhook.Env: the rows, the statements of internal/repository/gorm.go
--   on them, and what the service is run against, in the way of Broadcast.Env.
-- - Webhook.Service, Webhook.Service.Dispatch: internal/webhook/service.go, the endpoints and the way of
--   an event to them; Webhook.Retry: internal/webhook/retry.go, further attempts at deliveries.
-- - Crm.Model, Crm.Repo, Crm.Env, Crm.Service: internal/crm/service.go with the rows of contacts, tags,
--   notes and contact_tags and the statements of internal/repository/gorm.go on them. The statements
--   of the repository's AssignTags are one call. Crm.Foreign, Crm.Calls: the rows of other tenants,
--   and what the calls leave alone.
-- - Base: helpers on tests, lists, texts, Go's integers, maps and the error monad.
--
-- A request creates a job and the rows of its recipients. The dispatcher claims due jobs and puts them
-- on the queue; a worker waits for a slot of the instance, runs `process`, and marks the job as
-- completed or failed, in which case it may go back to the queue. Receipts change the rows later. An
-- event of an instance goes to the webhooks of its tenant, and a delivery that fails waits in a table
-- for the retry worker.
--
-- How Go is modelled
--
-- Instants are nanoseconds since Go's zero time, durations natural or signed numbers of nanoseconds,
-- and the products that can exceed an `int64`, that of `delay_sec` and that of the wait of a webhook,
-- wrap around. A `map[string]any` is a list of fields. A section under a
-- mutex and a statement of the database are one step. White space and the case of letters are those of
-- Unicode, by the lists of Base.Text and Base.Case; `len` of a text is its number of bytes.
--
-- Bounds and fuel
--
-- `wait_for_instance_slot` runs on fuel, one unit for each round of its loop, which in the source ends
-- only when the slot is free or the context is cancelled, and may go on for ever where other workers
-- take each slot; running out of fuel is told apart from both. `next_instance_at` is shared by the
-- workers: `other_slots` of the environment is what the others have made of it since the last call.
-- What is proved of the spacing of slots is about the section under the mutex, for
-- any sequence of rounds, and needs no fuel. `decimal` prints 20 digits at most, and an `int64` has
-- 19. All other loops are structural recursion.
--
-- What is not modelled
--
-- Logging; the columns `updated_at`; HTTP, JSON and headers; the loops that only repeat a step
-- (dispatcher, workers, Start, Stop); RedisRateLimitStore, which nothing makes. ILIKE, `lower` and
-- the collation of the database, the identifiers that it hands out, what `Scan` of gorm makes of
-- fields marked `gorm:"-"`, the HTTP client, JSON and the signatures of webhooks, the WhatsApp
-- bridge and the answers of other services are parameters. Other requests do not change the tables
-- between the calls of one run. Authentication, AI replies, the audit log, the dashboard and
-- the services of pkg are not modelled.
pub mod Base
pub mod Domain
pub mod Broadcast
pub mod SendStatus
pub mod RateLimit
pub mod ChatSearch
pub mod RuntimeObs
pub mod Webhook
pub mod Crm
