-- ===== src/Lib.antt =====
-- A verification library of the Common Data Layer: the schema registry, which stores versioned
-- schemas and views in a property graph and replicates its changes; the data router, which sends a
-- message to the topic of its schema; the command service, which hands it to a storage; the query
-- router and the query services, which read it back; the merge of document versions by the PostgreSQL
-- shrinker; the loop that hands messages to a limited number of tasks, and the queue of permits that is
-- to order them; the queue of messages that a Kafka consumer has not acknowledged; the GraphQL API
-- and the command line client of the registry; and the election of the registry's master.
--
-- Files, and the code that each models:
-- - Prelude (with Prelude/Tests, Lists and Text), Fallible, Exec: Boolean tests, lists, and the
--   results and stateful actions that Rust's `?` and `&mut` become. An error keeps the state reached
--   before it, and `Fault` tells the abort of a process from an error that a caller handles.
-- - Json: values of serde_json; an object is its fields in order, each name once.
-- - Registry/Types, Registry/Storage: the data of crates/schema-registry/src/types.rs and of
--   types/storage, with its stored form.
-- - Registry/Externals: the parameters: indradb's transactions and queries, the codecs of serde_json
--   and semver, JSON Schema compilation, JMESPath and UUID parsing. Registry/Laws says what the
--   theorems assume of them: the store is a property graph, the codecs read back what they wrote, the
--   order of versions is total. Registry/Memory is an instance at which those laws hold.
-- - Registry/Db, Registry/Update, Registry/Transfer: `SchemaDb` of crates/schema-registry/src/db.rs,
--   one definition per method, and `build_full_schema` of schema.rs. A method is a function from the
--   store's contents to a result and the new contents.
-- - Registry/Replication, Registry/Replica: crates/schema-registry/src/replication: the role with
--   the channels to its worker, and the loop of the slave, over a list of messages each with the state
--   of the stop signal. The receivers of a worker can be gone: a
--   master's thread drops them without a poll of the loop of replication/master.rs, of which only the
--   key of an event is modelled.
-- - Registry/Start (with Restart, Tests): crates/schema-registry/src/main.rs up to the serving, and
--   `SchemaRegistryImpl::new` of rpc.rs, over the store and a state of the file system.
-- - Registry/Wire, Registry/Rpc, Registry/Rpc/Queries: the handlers of
--   crates/schema-registry/src/rpc.rs, on the store and the replication state.
-- - Registry/Stored, Versions, Metadata, Created, Linked, Greatest, NewVersion, NewSchema, Renamed,
--   Views, Replicated, Histories, Consumed, Reading, TypeChange, Roles, Tests: lemmas, theorems and
--   runs of the registry. Histories says which changes a replica can follow: those that leave nothing
--   for the store to choose.
-- - Shrinker, with Shrinker/Paths, Latest, Shrink, Shrunk and Tests: `merge`, `minimize_document`,
--   `shrink_by_id` and the loop of crates/db-shrinker-postgres/src/main.rs.
-- - TaskQueue, with TaskQueue/Exclusion, Ages, Order and Tests: crates/utils/src/parallel_task_queue.rs.
--   The parts that run under the mutex are functions; what the tasks do is a step relation.
-- - TaskLimiter, with TaskLimiter/Bounds: crates/utils/src/task_limiter.rs, a step relation on the
--   permits of a semaphore. Listener, with Listener/Accounts, Drained, Exited, Overtaken and
--   Tests: the loops of
--   crates/data-router/src/main.rs and of `listen` in
--   crates/command-service/src/input/service/message_queue.rs, a step relation that differs between
--   the two in what an error of the stream does, to the end of the process. A task is its message; its handling is in DataRouter
--   and CommandService.
-- - AckQueue, with AckQueue/Cursor, Stores, Runs and Tests: crates/utils/src/messaging_system/
--   kafka_ack_queue.rs.
-- - Cache (with Cache/Single): the crate lru_cache as a parameter, what its callers rely on, and an
--   instance of capacity one.
-- - Messaging: messages and insert messages of crates/utils/src/messaging_system and
--   message_types.rs. Psql: crates/utils/src/psql.rs.
-- - DataRouter, with DataRouter/Settings, Coherence, Described, Parts, Expected, Acked and Tests:
--   crates/data-router/src/main.rs. `Described` says what a message calls for without cache or store.
-- - CommandService, with CommandService/Input (Grpc, MessageQueue), Druid, Postgres, VictoriaMetrics,
--   Settings, Start, and the proofs Handled, Alike, Deliveries, Lines, Names, Consumers, Started, Tests:
--   crates/command-service/src, one file for each of its modules.
-- - RpcClients (QueryService, QueryServiceTs, SchemaRegistry): the clients of crates/rpc/src. The one of
--   the schema registry is a record of calls, which `served` fills with the handlers of Registry/Rpc.
-- - QueryRouter, with QueryRouter/Uncached, Answers and Tests: crates/query-router/src.
-- - QueryService, with Requests: crates/query-service/src/psql.rs. QueryServiceTs, with
--   Victoria, Druid, Sent and Tests: crates/query-service-ts/src.
-- - Api, with Mutation, Query, Messages, Subscriptions: crates/api/src, its resolvers as actions on the
--   state behind a client of the registry; Created, Updated, Sent, Subscriptions/Dead and Tests are
--   theorems and runs.
-- - Cli, with Schema, View, Args: crates/cdl-cli/src, its actions on the registry and on what is
--   printed; Sorted, Printed, Reading and Tests are theorems and runs.
-- - LeaderElector, with Masters and Tests: crates/leader-elector/src/main.rs.
--
-- How the parts meet: a handler of Rpc parses its request, calls the methods of the store, and hands
-- an event to Replication; a slave applies the same event by the same methods of the store. The data
-- router and the query router ask the registry by way of a cache. The command service hands a message
-- to an `OutputPlugin` on a store of its own, which its three outputs fill; the query router calls the
-- clients of RpcClients, whose servers are parameters. The API and the command line call the client
-- `served`, so that their theorems are about the handlers and the store.
--
-- A loop of the modelled code runs over a list and is structural recursion, except for the search of
-- a cursor in AckQueue, which is given as many turns as the list has elements. A loop over a stream is
-- a step relation, and the endless loop of the leader elector is run for a number of rounds.
-- Ids are numbers for UUIDs, and versions are records of numbers with an order that is a parameter.
--
-- Time stamps are numbers that are only passed on, and the bytes of a payload are a text.
--
-- Not modelled: the reports and object queries of the API and its web
-- server, the parsing of command lines, logging and metrics, the interleaving of the tasks' own
-- steps, the calls of Kafka, AMQP, HTTP and PostgreSQL (parameters of the definitions that make them),
-- threads, and what SQL statements mean.
-- The statuses of the registry's handlers come without their texts.
pub mod Prelude
pub mod Exec
pub mod Fallible
pub mod Json
pub mod Registry
pub mod Shrinker
pub mod TaskQueue
pub mod LeaderElector
pub mod Listener
pub mod TaskLimiter
pub mod AckQueue
pub mod Api
pub mod Cache
pub mod Messaging
pub mod Psql
pub mod DataRouter
pub mod Cli
pub mod CommandService
pub mod RpcClients
pub mod QueryRouter
pub mod QueryService
pub mod QueryServiceTs
