-- ===== src/Lib.antt =====
-- A model of the banking core of this repository: a double-entry ledger, transfers as sagas behind
-- an idempotency guard, screening, an outbox, and settlement with compensation.
--
-- A transfer enters at an HTTP endpoint, passes the guard, the two screens and the checks of its
-- accounts, and posts its journal, its event, its saga and its settlement in one database
-- transaction. The settlement worker later asks the rail, and completes the saga or posts the
-- reverse journal.
--
-- Base: lists, texts, tests and integers that the other modules share. A text is its list of code
-- points, so texts are valid UTF-8.
-- Shared: internal/shared/domain. Money and its children (money.go: amounts over int64, with the
-- wrap-around of Go written out), Iban and its children (iban.go: Slips has the arithmetic of the
-- check digits, Reading what is accepted, RoundTrip the grouped form), Errors (errors.go: the chain
-- of errors, without their messages). GoText and Json are what the code uses of Go's strings,
-- strconv, unicode and encoding/json: a JSON body is an object of text fields, or malformed. The
-- Unicode tables beyond ASCII, and the SHA-256 digests, are arguments.
-- Ledger: internal/ledger. Account, Entry, Transaction, Balance (domain), Repository
-- (adapters/postgres/repository.go and locking.go). Keeps says which calls keep the ledger sound.
-- Storage: the tables and Redis keys that the adapters share, and the monad of calls on them. A
-- world holds the tables, the Redis records, the fraud counters, the clock and a script of what the
-- surroundings do at each call: nothing, a fault, or a change of the Redis records by others. A
-- database transaction is one step: its row locks keep others out, and one that fails or whose
-- commit fails leaves the tables as they were. The constraints of migrations/ that the repositories
-- answer to are part of their writes. Keeps, Idles and Marks have the rules by which chains of
-- calls keep a property of the tables, leave Redis alone, or succeed only on tables of one kind and
-- leave tables of another. Queue counts the rows that wait in a table.
-- Idempotency: internal/idempotency (domain/key.go, domain/record.go, adapters/redis/store.go,
-- app/guard.go). Guard.Fresh says when an answer is no replay. Guard.Race interleaves the clients
-- of one key between their calls of the store.
-- Outbox: internal/outbox (domain/event.go, adapters/postgres/repository.go, app/relay.go); the
-- publisher is an argument. Adapters has the two publishers of the repository (adapters/kafka,
-- adapters/logpublisher), over a Kafka client that is an argument. Rows has the columns as they
-- cross the driver.
-- Transfer: internal/transfer. Command, Saga (domain), Codec (app/codec.go), Service
-- (app/service.go), SagaStore (adapters/postgres/saga_repository.go; Rows has the columns, with
-- SQL's NULLs, as they cross the driver), and Coordinator
-- (internal/platform/uow/postgres/coordinator.go). What the driver makes of an update while rows
-- are open is an argument of the claim, `Connection`. Writes is the interface between the stores
-- and the services: what the writes of a transfer and of its settlement keep of the tables.
-- Screening: internal/fraud and internal/compliance.
-- Settlement: internal/settlement (app/processor.go, app/reconcile.go); the rail is an argument.
-- Sarie is the mock rail (app/sarie.go), over the draws of its generator.
-- Platform: Auth (internal/platform/auth, http/middleware/auth.go), Handlers and HttpErrors
-- (http/handlers), Poster (internal/ledger/app/poster.go), Audit and Log (internal/platform/audit),
-- Http (requests and replies), Views (the answers' JSON fields), Middleware (http/middleware),
-- Server (http/server.go: the routes over clean paths, and the chain of middlewares), Config
-- (internal/platform/config), Worker (internal/platform/worker), Wiring and Api (cmd/api/main.go),
-- Connect (internal/platform/postgres/pool.go, internal/platform/redis), Migrate
-- (internal/platform/postgres/migrate.go), Start (what cmd/api, cmd/worker and cmd/migrate do
-- before their work, and how they end), Recorder (http/middleware/errors.go and recorder.go).
-- System: the runs of the whole program, as sequences of requests, worker turns and changes of the
-- surroundings from the database that migrations/000004_seed_and_indexes.up.sql leaves; one request
-- or turn ends before the next begins. Steps is the interface between the writes and the runs: a
-- property that every write keeps is kept by every run. Bank and History are its instances: the
-- sound books, and what stays recorded. Interleaved takes the writes of any number of clients and
-- workers one by one, Commits takes them by whole database transactions. Loops takes the loops of
-- the workers, over their ticks, for runs. Backlog repeats the turns of the relay.
-- Tests: concrete runs and the theorems at concrete values.
--
-- A ledger is sound when every stored line is well formed (a positive riyal amount within int64 on
-- one of the two sides), the stored debits equal the stored credits, and no account's balance is
-- negative.
--
-- Loops are recursion on lists; the decimal printer runs on fuel, as much as the number itself,
-- which has fewer digits, and the loop of ResetAllMigrations on a number of rounds, one more than
-- there are applied migrations. Times are seconds, and 0 stands for Go's zero time; expiry times,
-- logging, metrics and the tickers of the workers are not modelled, as they are I/O around the
-- modelled code; nor is the bytes' form of JSON. What the Kafka, pgx, go-redis and migrate
-- libraries answer is an argument. The runs of System take requests and turns one after another;
-- interleaved are the clients of the guard, and the writes in the tables.
pub mod Base
pub mod Shared
pub mod Ledger
pub mod Idempotency
pub mod Outbox
pub mod Transfer
pub mod Storage
pub mod Screening
pub mod Settlement
pub mod Platform
pub mod System
mod Tests
