-- ===== src/Lib.antt =====
-- krossdb: relational, document and vector databases behind one set of interfaces. This library
-- models the parts of src/krossdb that decide what happens to data and calls, and proves what they
-- guarantee.
--
-- How the parts interact. A repository (repositories/) runs its calls in a block that an adapter
-- (adapters/relational/base.py) opens on a node. The adapter chooses the node by role, with a
-- weighted balancer over replicas and one circuit breaker for each node (resilience/), retries reads
-- and pings (resilience/retry.py), and translates every driver's exception into the library's
-- hierarchy (core/exceptions.py, core/exception_mapper.py). A Unit of Work
-- (interfaces/unit_of_work.py, uow/sqlalchemy_uow.py) binds one session to the task, so that the
-- adapter neither commits nor closes it, and persists its domain events into an outbox
-- (events/outbox.py) before it commits; a relay (events/relay.py) later publishes them, and a
-- dispatcher (events/dispatcher.py) hands events to handlers in the process. Repositories are
-- scoped to tenants by a wrapper (multitenancy/context.py). A factory (factory/db_factory.py)
-- connects all the adapters of an application, or none. The command line (cli/) scaffolds files,
-- reports health and creates tables through a factory, and an application's migrations get their
-- connection from migrations/support.py. Log lines, audit entries and spans carry the correlation id
-- of the task (core/context.py), and log lines are masked (core/logging.py).
--
-- Which file models which part (paths under src/krossdb):
--   Common                  results, state passing, dicts, texts and lists
--   Errors                  core/exceptions.py
--   Errors.Mapper           core/exception_mapper.py, and the mapper of cache/redis_cache.py
--   Config                  core/config.py, core/enums.py: Defaults has the models' defaults, and Files
--                           reads a file of connections, as two commands and the migrations do
--   Resilience.Breaker      resilience/circuit_breaker.py
--   Resilience.Retry        resilience/retry.py
--   Adapter.Routing         adapters/relational/routing.py
--   Adapter.Relational      adapters/relational/base.py: Session has acquire and run_read,
--                           Lifecycle has connect, disconnect and health_check; Bound is about
--                           the session of a Unit of Work
--   Adapter.Interface       what interfaces/adapter.py gives to every adapter
--   Adapter.Single          what the adapters of one node share, and run_read of
--                           interfaces/adapter.py; Adapter.Mongo is adapters/document/mongodb.py
--                           and Adapter.Qdrant adapters/vector/qdrant.py
--   Factory                 factory/db_factory.py; Resolve has its registry of classes
--   Cache                   interfaces/cache.py, core/idempotency.py; Redis is cache/redis_cache.py
--   Uow                     interfaces/unit_of_work.py
--   Uow.Sqlalchemy          uow/sqlalchemy_uow.py
--   Events                  interfaces/events.py; Outbox and SqlStore are the two stores of
--                           events/outbox.py, Relay and Dispatcher the other files of events/;
--                           Relay.InClaim is the relay over the SQL store
--   Repository.Criteria     the filters of interfaces/repository.py; Relational, Mongo and Qdrant
--                           are their translations by the three files of repositories/
--   Repository.Interface    the contract of interfaces/repository.py
--   Repository.Bulk         the outcomes of bulk operations, which the repositories share
--   Repository.Relational   the methods of repositories/relational_repository.py; Repository.Table
--                           has its statements
--   Repository.Document     those of repositories/document_repository.py
--   Repository.Vector       those of repositories/vector_repository.py; Repository.Point has the
--                           points
--   Repository.Tenancy      multitenancy/context.py, and the tenant's variable of core/context.py
--   Schema                  schema/config.py and schema/builder.py
--   Migrations              migrations/support.py: the connection string, and Environment has
--                           configure; the templates are Cli.Templates
--   Observability.Context   the correlation id of core/context.py
--   Observability.Logging   core/logging.py: the masking, and Chain has the processors
--   Observability.Audit     observability/audit.py, and the record of models/base.py
--   Observability.Tracking  observability/metrics.py and observability/tracing.py
--   Cli                     cli/: Init and Health are the files of their names in cli/commands,
--                           Schema and InitMigrations the two commands of schema.py, Connected their
--                           block over a factory, and Templates is migrations/templates.py
--
-- How code becomes definitions. An `async` function over objects is a function from a state to a
-- result and a state (`Exec`), and its exceptions are values: an error of the library, an exception
-- of a driver, or a cancellation, which `except Exception` does not catch. The steps of one task
-- are modelled in its order; what other tasks do in between is modelled where it matters, as an
-- arbitrary interleaving of the breaker's events, and as a block that changes the state freely.
-- Clocks are numbers, and the elapsed time of a clock that does not run backwards is a difference.
--
-- Parameters. SQLAlchemy answers each call by a function of the calls before it, and the state keeps
-- their history. tenacity's loop is a parameter with its documented rule; `Resilience.Retry.Bounded`
-- is an instance by the attempts that are left, so the loop ends after at most `max_attempts` runs.
-- MongoDB and Qdrant read single clauses and conditions by a parameter, and their clients and that
-- of Redis are records of calls over a world of their own. A statement of SQLAlchemy is answered
-- like its other calls, and compiled to a text by a parameter. A cache is a record of
-- operations, and encoding is a pair of functions. A repository under a tenant is any record of
-- operations that keeps the promises of its interface; `Repository.Document.Contract` has those of
-- the MongoDB repository, and `Repository.Slot` is a small instance. The relay runs over any store and
-- any publisher; `Events.Relay.Batch` takes the in-memory store, and `Events.Relay.InClaim` the
-- SQL store. SQLAlchemy's `Table` and the parsers of a schema are parameters, as is what reads the
-- configuration of a migration. Alembic answers each call by a function of the calls before it,
-- and so does the disk that a command writes to. structlog's processors and renderers, the
-- substitution of the two patterns in a text, random ids, and what OpenTelemetry does as a span
-- ends are parameters of the observability; the commands take the adapters' health checks,
-- sessions and imports as parameters.
--
-- Not modelled: the settings that are read from the environment, which no code reads again; the
-- fields of the base entity, which are declarations; the parsing of the command line's options,
-- which is typer's; the package files that only re-export names; and the example program. Times
-- that are only waited for, stamped or measured are left out. Entities are dicts of JSON scalars,
-- with ids as texts. Loops are by recursion on a list, but for the relay's `run`, which ends when
-- it is told to: it follows a list of observations of that.
pub mod Common
pub mod Errors
pub mod Config
pub mod Resilience
pub mod Adapter
pub mod Factory
pub mod Cache
pub mod Events
pub mod Uow
pub mod Repository
pub mod Schema
pub mod Migrations
pub mod Observability
pub mod Cli
