-- ===== src/Server/Rpc/Network/Tests.antt =====
-- A runner that waits for the lease of another worker at a small server.
use idempotent_transformer.Common.{
  ℕ, ◌≡◌, refl, Option, none, some, ◌&&◌, ◌==◌, str_eq, if◌then◌else◌, arith,
}
use idempotent_transformer.Async.{done, thrown, error}
use idempotent_transformer.Rpc.{LeaseCheckpointInput}
use idempotent_transformer.Runner.{Returned, object, settled, OnAbort, TaskOptions, Host, Workflow}
use idempotent_transformer.Execute.{
  Task, execute, lease_loop, lease_round, perform, run_task, persist_loop, persist_round, conclude,
}
use idempotent_transformer.Loop.{loop}
use idempotent_transformer.Execute.Termination.{IsOver, Answers, request, execute-IsOver}
use idempotent_transformer.Proto.{LeaseCheckpointResponse}
use idempotent_transformer.Grpc.{lease_checkpoint, checkpoint}
use idempotent_transformer.Server.{Database, LeasedCheckpointValue}
use idempotent_transformer.Server.Checkpoints.{handle_checkpoint, handle_lease_checkpoint}
use idempotent_transformer.Server.Rpc.{service}
use idempotent_transformer.Server.Requests.Sample.{libraries, started}
use idempotent_transformer.Server.Rpc.Sample.{transport, getters, getters-OneofGetters, serializer}
use idempotent_transformer.Server.Rpc.Network.Handlers.{RunsOut}
use idempotent_transformer.Server.Rpc.Network.{IsLocal, network_host, network-Lively, network-Frees}

serializer-IsLocal : IsLocal serializer
serializer-IsLocal = record {
  serializes = λ r d. tt;
  serialize_keeps = λ r d. refl;
  deserializes = λ v d. tt;
  deserialize_keeps = λ v d. refl;
}

-- Another worker holds the lease of the first checkpoint for another 300 milliseconds.
abbrev other_lease : LeasedCheckpointValue
other_lease = record { lease_timeout = 400; created_at = 0 }

abbrev busy : Database
busy = record started {
  leases = λ id p. if str_eq id "w" && (p == 0) then some (other_lease, 30) else none;
}

abbrev host : Host Database ℕ
host = network_host libraries transport getters getters-OneofGetters serializer serializer-IsLocal

abbrev workflow : Workflow
workflow = record { workflow_id = "w"; fencing_token = 2; completed_retention_time = none }

abbrev undoing : OnAbort Database ℕ
undoing = record {
  function = λ result d. (thrown (error "Error" "failed"), d);
  retry_count = some 2;
  retry_delay = none;
}

abbrev options : Option (TaskOptions Database ℕ)
options = some (record { lease_timeout = some 50; on_abort = some undoing })

-- A task that returns a promise.
abbrev seven : Task Database ℕ
seven d = (done (object (some (λ e. (done 7, e))) 0), d)

abbrev asked : LeaseCheckpointInput
asked = request workflow "k" options 0

-- The first request is told to wait for 300 milliseconds.
told_to_wait :
    (host.rpc_adapter.lease_checkpoint asked busy).0
    ≡ done (record {
      value = some (getters.get_value (LeaseCheckpointResponse.remaining_lease_timeout 300));
      remaining_lease_timeout = some 300;
    })
unfolding lease_checkpoint service handle_lease_checkpoint
told_to_wait = refl

busy-RunsOut : RunsOut asked 401 busy
busy-RunsOut lease ttl there = ground arith

seven-Answers : Answers (λ d. d.now) seven
unfolding settled
seven-Answers = record {
  call = λ d. (tt, omega arith);
  await = λ d r e d'.
      let p : ◌≡◌ {A = Returned Database ℕ} (object (some (λ e. (done 7, e))) 0) r = cc in
      rw (← p) (tt, omega arith);
}

undoing-Answers : (result : ℕ) → Answers (λ d. d.now) (undoing.function result)
undoing-Answers result = record { call = λ d. (tt, omega arith); await = λ d r e d'. absurd (cc e) }

execute-IsOver_example :
    IsOver (execute host workflow 303 "k" seven options (record { position = 0; env = busy })).0
execute-IsOver_example =
    execute-IsOver host (λ d. d.now)
      (network-Lively libraries transport getters getters-OneofGetters serializer
        serializer-IsLocal)
      workflow "k" options 0 (RunsOut asked 401) 401
      (network-Frees libraries transport getters getters-OneofGetters serializer serializer-IsLocal
        asked 401)
      303 seven busy busy-RunsOut (omega arith) (omega arith) seven-Answers undoing-Answers

-- After the wait the runner gets the lease, and its task is run.
waits_and_runs :
    (execute host workflow 303 "k" seven options (record { position = 0; env = busy })).0 ≡ done 7
unfolding execute lease_loop lease_round loop perform run_task settled persist_loop persist_round
    conclude lease_checkpoint checkpoint service handle_lease_checkpoint handle_checkpoint
waits_and_runs = refl
