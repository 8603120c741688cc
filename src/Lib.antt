-- ===== src/Lib.antt =====
-- A model of idempotent-transformer: durable workflows, whose tasks run once although the worker that
-- runs them may be restarted.
--
-- A worker asks a workflow server for a runner of a workflow (`startWorkflow`), and runs each task of
-- the workflow through the runner's `execute`. Before the task is called, `execute` leases a
-- checkpoint at the runner's `position`; if the server has a result there, that is given back and the
-- task is not called. After the task, its serialized result is stored at the server as that checkpoint,
-- for as long as the lease lasts; if it could not be stored, a function of the user may undo the task.
-- The runner talks to the server through an adapter, and turns results into bytes with a serializer,
-- which has to know the classes that the program has decorated.
--
-- The parts, and the files that model them:
--
-- - packages/core/base/rpc-adapter, packages/core/base/types, packages/core/base/serializer/serializer.ts:
--   the inputs and outputs of remote calls, the error codes, and the interfaces of an adapter and of a
--   serializer are the records of Rpc.antt.
-- - packages/core/idempotent-transformer: `IdempotentTransformer`, `startWorkflow`, and the functions
--   `complete`, `getWorkflowStatus`, `generateIdempotencyKey` and `waitFor` are in Runner.antt; the
--   function `execute` is in Execute.antt. What a transformer is built with is a `Host`; the constants
--   that the functions of a runner close over are a `Workflow`; the variable `position` is in the
--   `Session`, beside the state of the world outside of the runner.
-- - server/proto/workflow_service.proto and packages/grpc-adapter: the messages are in Proto.antt, and
--   `GrpcAdapter` with `handleError` in Grpc.antt; `grpc_adapter` is the adapter as an `RpcAdapter`.
-- - packages/core/base/serializer: the decorator `Serialize` and the map `decoratedModels` are in
--   Serializer.antt.
-- - packages/message-pack-adapter: `MessagePack` is in MessagePack.antt; `message_pack` is it as an
--   `IdempotentSerializer`, and `Objects` is the code of the decorated classes.
-- - packages/core/factory, packages/nestjs: `IdempotentFactory` and `IdempotentModule` are in
--   Factory.antt.
-- - examples/nestjs: the example's service is in Payment.antt.
-- - server/migrations, server/src/schema, server/src/repositories: the tables, the cache of leases and the
--   statements on them are in Server.antt. The handlers of server/src/services/checkpoint_service.rs are
--   in Server/Checkpoints.antt, those of workflow_service.rs in Server/Workflows.antt, and the service of
--   server/src/rpc_server is in Server/Rpc.antt, as the client stub that the adapter calls.
--   Server/Requests.antt serves one request after the other; Server/Interleaving.antt has the handler of a
--   lease from await to await, with its lock, for two requests that are served at the same time.
--
-- - bdd_tests/features: the acceptance tests are the programs of Scenario.antt, one file each:
--   idempotent-execution/01.ts, 02.ts and 03.ts are SingleTask, FourTasks and Nested, the serialization of a
--   class is Contract, and expiry is Expiry. A program is written over a `Transformer`, and is run on the
--   `library`: the runner, the adapter, the serializer and the server together.
-- - overhead_tests/parallel-same-workflow.js and parallel-different-workflow.js: the measured workflows are
--   in Overhead.antt, as runs that follow each other.
--
-- The abstract view. Memo.antt says what the library promises of a workflow, without leases in a cache,
-- encodings, adapters or loops: a table of results that the runner fills. `Reflects` relates a table to the
-- world of the library; Simulation.antt says what it is for one program to end as another one does, with
-- rules for the ways in which programs are composed. A scenario is followed on the promise, where a
-- `Journal` says which results its workflow has, and its end is carried over to the library.
--
-- How a program is modelled. An asynchronous function is an `Async S A` (Async.antt): it takes the state
-- `S` to a state and an outcome, which is a value, a thrown value, or `running` where a loop has not ended
-- within its fuel. The state `E` of a host is the whole world outside of the runner, so that other workers
-- may act within any remote call or wait. The host, the tasks and the functions `onAbort` are parameters,
-- which may do anything to that state. What a theorem needs of them is a hypothesis on a record of laws:
-- `Lively` for calls that end and a clock that goes on, `Frees` for a server that frees a lease in the
-- end, `Durable` for a server that gives back what it stores, `OneofGetters` for generated getters,
-- `Retains` for the cache of the server. Server/Rpc/Replay.antt and Server/Rpc/Once.antt put the runner,
-- the adapter and the server together: the state of the world is the server's database there, and the
-- server is `Durable`. In Server/Rpc/Network.antt each remote call takes a millisecond; that host is
-- `Lively`, and its server `Frees` a lease.
--
-- Histories. Trace.antt wraps a host so that each call on it, and each call of a task or of
-- `onAbort.function`, is written into a log; theorems on the order of calls are about that log. The
-- protocol of `execute` is an automaton of its own, Execute/Protocol.antt, that reads a log without
-- looking at the code.
--
-- Bounds and fuel. Numbers of milliseconds, positions and tokens are natural numbers, since none of them
-- is negative, and those of a run stay far below 2 ^ 53, from where on JavaScript rounds. Timers are in
-- tenths of a millisecond, since a lease is polled after a tenth of its remaining time. The loop that
-- leases a checkpoint and the one that stores it have fuel; how much is enough is a theorem, below. The
-- loop over `retryCount` is recursion on the rounds that are left. In `world_execute`, of the scenarios,
-- the loops have fuel 1: where no other worker holds the lease, and the result is stored at once, each
-- makes one round, and elsewhere the promise says nothing. On the server, the end of a lease is cut off at
-- the largest 64-bit integer as in the code; its other sums are taken to stay below that, and a remaining
-- time below 0 is 0, since it is only compared with 0.
--
-- Not modelled: log messages; the construction of the gRPC client and of the `Packr`; the encoding of
-- msgpackr, whose functions are parameters; the interleaving of two calls of `execute` on one runner,
-- which share `position`; the resolution of providers by NestJS; failures of the server's database, and
-- the interleaving of its handlers, of which only that of two leases is; runs of one workflow in parallel,
-- beyond that; that time passes while the scenarios and the measured workflows do anything but wait; the
-- unit test of the encoding; the experiments on compression, whose packages the repository no longer has;
-- scripts.
pub mod Common
pub mod Async
pub mod Loop
pub mod Rpc
pub mod Runner
pub mod Trace
pub mod Execute
pub mod Proto
pub mod Grpc
pub mod Serializer
pub mod MessagePack
pub mod Factory
pub mod Server
pub mod Payment
pub mod Simulation
pub mod Memo
pub mod Scenario
pub mod Overhead
