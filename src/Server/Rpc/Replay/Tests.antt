-- ===== src/Server/Rpc/Replay/Tests.antt =====
-- A worker that is restarted, at the small server.
use idempotent_transformer.Common.{ℕ, ◌≡◌, refl, none, List, [], ◌∷◌}
use idempotent_transformer.Async.{done, thrown, error, Async}
use idempotent_transformer.Runner.{Workflow, WorkflowOptions, Session, start_workflow, Host}
use idempotent_transformer.Execute.Replay.{Call, run_calls}
use idempotent_transformer.Grpc.{start_workflow as adapter_start}
use idempotent_transformer.Server.{Database}
use idempotent_transformer.Server.Workflows.{create_workflow}
use idempotent_transformer.Server.Requests.{Request, wait, start, serve, serve_all}
use idempotent_transformer.Server.Requests.Sample.{libraries, with_result}
use idempotent_transformer.Server.Rpc.Sample.{
  transport, getters, getters-OneofGetters, decode, serializer,
}
use idempotent_transformer.Server.Rpc.{service}
use idempotent_transformer.Server.Rpc.Replay.{server_host, server_Durable, run_calls-restarted}

abbrev set_timeout : ℕ → Async Database (Unit {0})
set_timeout tenths d = (done tt, d)

abbrev host : Host Database ℕ
host =
    server_host libraries transport getters getters-OneofGetters serializer decode set_timeout
      (λ v d. refl)

-- One call, whose task fails by now.
abbrev calls : List (Call Database ℕ)
calls = record { key = "a"; task = λ d. (thrown (error "Error" "failed"), d); options = none } ∷ []

abbrev requests : List Request
requests = start (record { workflow_id = "w"; name = none }) ∷ wait 5000 ∷ []

abbrev options : WorkflowOptions
options = record { completed_retention_time = none; name = none }

abbrev workflow : Workflow
workflow = record { workflow_id = "w"; fencing_token = 4; completed_retention_time = none }

abbrev session : Session Database
session = (start_workflow host "w" options (serve_all libraries requests with_result)).1

restarted :
    start_workflow host "w" options (serve_all libraries requests with_result)
    ≡ (done workflow, session)
unfolding start_workflow adapter_start service create_workflow serve
restarted = refl

run_calls-restarted_example :
    (run_calls host
      (server_Durable libraries transport getters getters-OneofGetters serializer decode set_timeout
        (λ v d. refl))
      workflow
      1
      calls
      session).0
    ≡ done (4 ∷ [])
run_calls-restarted_example =
    run_calls-restarted libraries transport getters getters-OneofGetters serializer decode
      set_timeout (λ v d. refl) requests with_result options workflow session 0 calls (4 ∷ [])
      ((4 ∷ [], refl, refl), tt) restarted
