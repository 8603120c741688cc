-- ===== src/Server/Rpc/Once/Tests.antt =====
-- A task that returns its result, at the small server.
use idempotent_transformer.Common.{ℕ, ◌≡◌, ◌≢◌, refl, Option, none, some, List, [], ◌∷◌}
use idempotent_transformer.Async.{done}
use idempotent_transformer.Loop.{loop}
use idempotent_transformer.Runner.{primitive, OnAbort, TaskOptions, Host, Workflow, Session}
use idempotent_transformer.Execute.{
  Task, execute, lease_loop, lease_round, perform, run_task, persist_loop, persist_round, conclude,
}
use idempotent_transformer.Grpc.{lease_checkpoint, checkpoint as adapter_checkpoint}
use idempotent_transformer.Server.{Database}
use idempotent_transformer.Server.Checkpoints.{handle_checkpoint, handle_lease_checkpoint}
use idempotent_transformer.Server.Requests.{Request, start, wait, serve_all}
use idempotent_transformer.Server.Requests.Sample.{libraries, started, lease_as}
use idempotent_transformer.Server.Rpc.{service}
use idempotent_transformer.Server.Rpc.Sample.{transport, getters, getters-OneofGetters, serializer}
use idempotent_transformer.Server.Rpc.Once.{remote_host, returned_never_leased}

abbrev host : Host Database ℕ
host =
    remote_host libraries transport getters getters-OneofGetters serializer (λ d. (done d.now, d))
      (λ tenths d. (done tt, d)) (λ v d. refl)

abbrev workflow : Workflow
workflow = record { workflow_id = "w"; fencing_token = 2; completed_retention_time = none }

abbrev seven : Task Database ℕ
seven d = (done (primitive 7), d)

abbrev undoing : OnAbort Database ℕ
undoing = record {
  function = λ result d. (done (primitive tt), d);
  retry_count = none;
  retry_delay = none;
}

abbrev options : Option (TaskOptions Database ℕ)
options = some (record { lease_timeout = none; on_abort = some undoing })

abbrev session : Session Database
session = record { position = 0; env = started }

abbrev requests : List Request
requests = start (record { workflow_id = "w"; name = none }) ∷ wait 90000 ∷ []

returned : (execute host workflow 2 "k" seven options session).0 ≡ done 7
unfolding execute lease_loop lease_round perform run_task persist_loop persist_round conclude loop
    lease_checkpoint adapter_checkpoint service handle_lease_checkpoint handle_checkpoint
returned = refl

returned_never_leased_example :
    (handle_lease_checkpoint libraries
      (lease_as 3 "k")
      (serve_all libraries requests (execute host workflow 2 "k" seven options session).1.env)).0
    ≢ done none
returned_never_leased_example =
    returned_never_leased libraries transport getters getters-OneofGetters serializer
      (λ d. (done d.now, d)) (λ tenths d. (done tt, d)) (λ v d. refl) workflow 2 "k" seven options
      undoing session 7 requests (lease_as 3 "k") refl returned refl refl
