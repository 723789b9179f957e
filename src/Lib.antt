-- ===== src/Lib.antt =====
-- The LiteLLM control plane: the registry of nodes, providers, models, accounts, endpoints and
-- consumers in SQLite, the state machine that follows the health of accounts and endpoints, the
-- policy engine that selects endpoints for a consumer, the summaries for operators, the resolver of
-- secrets, the virtual keys of the consumers on the proxies, and the rollout of configurations with
-- its drift detection. Requests of the API, callbacks of the proxies and the rounds of a background
-- task run one after another, each in a transaction of src/config/db.py. The routes call the store,
-- the key manager and the rollout orchestrator; a callback becomes signals to the state machine;
-- the background task probes endpoints in cooldown and reconciles each node. The operations that
-- change a row for an operator or move a state write an audit entry.
--
-- Which file models which part:
-- Common, Table: lists, texts and numbers; what SELECT, UPDATE, DELETE and ORDER BY do to a table.
-- Models: the rows, the updates and the literals of src/registry/models.py, and its validators.
-- Process: what lives outside the database: the requests sent to proxies and to Doppler, the cache
--   of the resolver, the files and the paths that deployments remember.
-- World: the database of src/config/schema.sql and the process, with the clock and the random ids as
--   streams, a monad of functions that may raise, and `get_db` of src/config/db.py, which rolls back
--   the database and not the process. World.Keeps, World.Quiet, World.Raises and World.Runs hold the
--   rules for the invariants, the effects, the exceptions and the runs of a chain of calls.
-- Audit: `log_audit` of src/audit/logger.py.
-- Store: src/registry/store.py, a child for each table under the names of the source, with
--   `Store.Statements` for the statements that the constraints of the schema may refuse.
--   `Store.Keeps` is the interface between the operations and an invariant: what is proved once of
--   the statements holds of every operation. `Store.Consistency` and `Store.AuditTrail` fill it.
-- Health.StateMachine: src/health/state_machine.py, with children for the words of the statements,
--   for single transitions, for the signals against a table, and for sequences of signals.
-- Health.Manager: src/health/manager.py.
-- Policy: src/policy/engine.py, with `Policy.Selection` and `Policy.Access` for its meaning.
-- Service: requests, each a list of calls of the store and the state machine in one transaction.
-- Health.Probe: src/health/probe.py; the resolver of secrets and the HTTP client are an argument
--   `Upstream`, whose answers may depend on all of the world.
-- Config.Generator: src/config/generator.py; the resolver and `_resolve_api_base` are an argument
--   `Secrets`.
-- Doppler: src/secrets/doppler.py; `Doppler.Uri` has the references.
-- Adapter: the requests of src/adapters/litellm_adapter.py.
-- KeyManager: src/registry/key_manager.py, with what a sync and a deletion leave on the proxies.
-- Orchestrator: src/rollout/orchestrator.py: `Orchestrator.Deploy` and `Orchestrator.Drift`, with
--   children for the polling, a deployment that returns, the outcomes of a rollback and what the
--   drift detection reports.
-- Events: src/events/ingestion.py, over the JSON values of `Events.Payload`.
-- Api: src/api/routes.py by its groups of routes, and the background task of src/api/main.py.
-- Tests: runs on concrete rows.
--
-- The state is the whole database: a row is a record, a table a list in the order of insertion, and
-- a function of the source that takes a connection is a function of the world that returns a value
-- or an exception beside the world it leaves. What answers from outside (providers, proxies,
-- Doppler, the disk, YAML, SHA-256) is an argument, a function of the world, so that it may answer
-- differently at each call. A time is its number of microseconds and the clock may read anything.
-- The loops run over lists, except three: the printing of a number has one more fuel than the
-- number and so at least its digits; the loop that waits for a proxy has one more than the ticks of
-- its time-out, which is enough where the clock goes on by a tick in each round; and the background
-- task runs any number of its rounds. The order of rows that SQLite leaves open, in a SELECT
-- without ORDER BY and among equal keys, is that of insertion.
--
-- Not modelled: log lines, prints and metrics, which nothing reads; the opening of database files,
-- pragmas and migrations; the wiring of FastAPI, the checks of the bodies and the texts it serves;
-- `start_subprocess` of the adapter, which starts a process; `_resolve_api_base` of the generator,
-- a parameter; the bootstrap script, which reads files and calls the store; the lock of the cache,
-- as one thread runs. A JSON text is what `json.loads` makes of it, as far as the program asks.
pub mod Common
pub mod Table
pub mod Models
pub mod Process
pub mod Doppler
pub mod Adapter
pub mod KeyManager
pub mod Orchestrator
pub mod Events
pub mod Api
pub mod World
pub mod Audit
pub mod Store
pub mod Health
pub mod Policy
pub mod Config
pub mod Service
pub mod Tests
