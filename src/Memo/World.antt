-- ===== src/Memo/World.antt =====
-- The world in which a program of the user runs: the database of the server, and what the program itself
-- changes. The runner of a workflow is over the adapter, the server, and `MessagePack`.
use idempotent_transformer.Common.{ℕ, String, ◌≡◌, Option, none, some, List}
use idempotent_transformer.Async.{Outcome, done, Async, gets}
use idempotent_transformer.Rpc.{bytes, RpcAdapter, WorkflowStatusInput, WorkflowStatusOutput}
use idempotent_transformer.Runner.{
  TaskOptions, Host, Workflow, WorkflowOptions, Session, start_workflow, complete,
  get_workflow_status,
}
use idempotent_transformer.Execute.{execute}
use idempotent_transformer.Execute.Paths.{async_task}
use idempotent_transformer.Grpc.{Getters, grpc_adapter}
use idempotent_transformer.Grpc.Replies.{OneofGetters}
use idempotent_transformer.MessagePack.{message_pack}
use idempotent_transformer.Server.{Database, Libraries}
use idempotent_transformer.Server.Rpc.{Status, Transport, service}

pub record World (U : Type 0) : Type 0 where
  pub database : Database
  pub user : U

-- The parts that the repository does not hold, over results of type `R`, and the timers of the worker.
pub record Platform (R U : Type 0) : Type 0 where
  pub libraries : Libraries
  pub transport : Transport
  pub getters : Getters
  pub pack : R → List ℕ
  pub unpack : List ℕ → Outcome R
  pub promise : R
  pub set_timeout : ℕ → Async (World U) (Unit {0})

-- What is documented of these parts: an error carries the message of its status, bytes are sent as they
-- are, the getters of a `oneof`, and msgpackr unpacks what it packs.
pub record IsFaithful {R U : Type 0} (f : Platform R U) : Type 0 where
  pub details : (s : Status) → (f.transport.stub_error s).details ≡ s.message
  pub sent : (b : List ℕ) → f.transport.wire_bytes (bytes b) ≡ b
  pub oneof : OneofGetters f.getters
  pub unpacks : (r : R) → f.unpack (f.pack r) ≡ done r

module _ {U : Type 0} where
  abbrev on_database : {A : Type 0} → Async Database A → Async (World U) A
  on_database m e = let (o, d) = m e.database in (o, record e { database = d })

  abbrev on_adapter : RpcAdapter Database → RpcAdapter (World U)
  on_adapter a = record {
    start_workflow = λ i. on_database (a.start_workflow i);
    checkpoint = λ i. on_database (a.checkpoint i);
    lease_checkpoint = λ i. on_database (a.lease_checkpoint i);
    complete_workflow = λ i. on_database (a.complete_workflow i);
    get_workflow_status = λ i. on_database (a.get_workflow_status i);
    release_lease_checkpoint = λ i. on_database (a.release_lease_checkpoint i);
    generate_idempotency_key = λ i. on_database (a.generate_idempotency_key i);
  }

module _ {R U : Type 0} (f : Platform R U) where
  abbrev pub world_host : Host (World U) R
  world_host = record {
    rpc_adapter = on_adapter (grpc_adapter f.getters (service f.libraries f.transport));
    serializer = message_pack f.pack f.unpack;
    date_now = gets (λ e. e.database.now);
    set_timeout = f.set_timeout;
  }

  -- `transformer.startWorkflow`: the runner that it returns is at position 0.
  unfoldable pub world_start : String → WorkflowOptions → Async (World U) Workflow
  world_start id options e = let (o, s) = start_workflow world_host id options e in (o, s.env)

  -- `taskOptions` with the one option that a program gives here.
  abbrev pub lease_option : Option ℕ → Option (TaskOptions (World U) R)
  lease_option none = none
  lease_option (some timeout) = some (record { lease_timeout = some timeout; on_abort = none })

  -- `runner.execute` of an asynchronous task. Its loops make one round each where no other worker holds the
  -- lease.
  unfoldable pub world_execute :
      Workflow → String → Async (World U) R → Option ℕ → Async (Session (World U)) R
  world_execute w key task timeout =
      execute world_host w 1 key (async_task f.promise task) (lease_option timeout)

  unfoldable pub world_complete : Workflow → Async (World U) (Unit {0})
  world_complete w e =
      let (o, s) = complete world_host w (record { position = 0; env = e }) in (o, s.env)

  unfoldable pub world_status :
      Workflow → WorkflowStatusInput → Async (World U) WorkflowStatusOutput
  world_status w i e =
      let (o, s) = get_workflow_status world_host w i (record { position = 0; env = e }) in
      (o, s.env)
