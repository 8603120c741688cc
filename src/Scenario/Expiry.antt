-- ===== src/Scenario/Expiry.antt =====
-- bdd_tests/features/step_definitions/expiry/01.ts: a completed workflow that is kept for three seconds.
-- The server cleans up every ten seconds (server/src/cron/clean_up_workflows.rs), the first time at any
-- time of the wait.
pub mod Cleanup
pub mod Outcomes
use idempotent_transformer.Common.{
  ℕ, ◌+◌, ◌-◌, String, Bool, true, false, Option, none, some, str_eq, ltb, if◌then◌else◌,
}
use idempotent_transformer.Async.{
  Thrown, error, non_error, Async, pure, throw, gets, modify, ◌>>=◌, ◌>>◌, try_catch,
}
use idempotent_transformer.Rpc.{WorkflowStatusInput, WorkflowStatusOutput}
use idempotent_transformer.Runner.{Workflow, Session, on_env}
use idempotent_transformer.Proto.{WorkflowStatusResponse}
use idempotent_transformer.Grpc.{Getters}
use idempotent_transformer.Server.{WorkflowRow}
use idempotent_transformer.Server.Rpc.{status_number}
use idempotent_transformer.Server.Workflows.{is_expired, handle_workflow_cleanup}
use idempotent_transformer.Memo.{Memo, Spec, refused, modify_memo}
use idempotent_transformer.Memo.World.{World, Platform, world_status}
use idempotent_transformer.Scenario.{Transformer, wait, on_runner, expect}

-- What the scenario uses beside a transformer: `getWorkflowStatus` of a runner, and the clean-up of the
-- server.
pub record Upkeep (E : Type 0) : Type 0 where
  pub get_workflow_status : Workflow → WorkflowStatusInput → Async E WorkflowStatusOutput
  pub clean_up : Async E (Unit {0})

abbrev pub library_upkeep : {R V : Type 0} → Platform R V → Upkeep (World V)
library_upkeep f = record {
  get_workflow_status = world_status f;
  clean_up = modify (λ e. record e { database = handle_workflow_cleanup true e.database });
}

-- The status that a row is reported with.
abbrev status_message : String → WorkflowRow → WorkflowStatusResponse
status_message id row = record {
  workflow_id = id;
  status = status_number row.status;
  expire_at = row.expire_at;
  created_at = row.created_at;
  completed_at = row.completed_at;
}

abbrev reported : Getters → String → WorkflowRow → WorkflowStatusOutput
reported g id row = record {
  id = id;
  status = status_number row.status;
  expire_at = some (g.get_expire_at (status_message id row));
  completed_at = some (g.get_completed_at (status_message id row));
}

abbrev pub status_by :
    {S : Type 0} → Getters → String → Option WorkflowRow → Async S WorkflowStatusOutput
status_by g id none = throw (refused "workflow_not_found")
status_by g id (some row) = pure (reported g id row)

-- What is promised of the two.
abbrev pub promised_upkeep : {R V : Type 0} → Getters → Upkeep (Spec R V)
promised_upkeep g = record {
  get_workflow_status = λ w i. do
    row ← gets (λ a. a.memo.rows i.workflow_id)
    status_by g i.workflow_id row;
  clean_up = modify_memo (λ m. record m {
    tokens = λ id. if is_expired m.now (m.rows id) then none else m.tokens id;
    rows = λ id. if is_expired m.now (m.rows id) then none else m.rows id;
    results = λ id p. if is_expired m.now (m.rows id) then none else m.results id p;
  });
}

abbrev ttl_ms : ℕ
ttl_ms = 3000

-- `error?.message`, compared with a value.
abbrev has_message : String → Option Thrown → Bool
has_message s none = false
has_message s (some (error name message)) = str_eq message s
has_message s (some (non_error t)) = false

module _ {E : Type 0} (t : Transformer E String (Unit {0})) (u : Upkeep E) (assertion : Thrown)
    (workflow_id task_result : String) where
  abbrev pub configure_a_ttl : Async E Workflow
  configure_a_ttl =
      t.start_workflow workflow_id
        (record { completed_retention_time = some ttl_ms; name = some "expiry-test" })

  abbrev pub execute_and_complete : Workflow → Async E (Unit {0})
  execute_and_complete runner = do
    on_runner (t.execute runner "task" (pure task_result) none)
    t.complete runner

  abbrev get_status : Workflow → Async E WorkflowStatusOutput
  get_status runner = u.get_workflow_status runner (record { workflow_id = workflow_id })

  -- What is left of the wait of twelve seconds after a first clean-up at `ms`: ten seconds later there is
  -- another one, if the wait is not over by then.
  abbrev rest_of_wait : ℕ → Async E (Unit {0})
  rest_of_wait ms =
      if ltb 2000 ms
      then wait t (12000 - ms)
      else (wait t 10000 >> (u.clean_up >> wait t (2000 - ms)))

  abbrev pub wait_12000 : ℕ → Async E (Unit {0})
  wait_12000 ms = wait t ms >> (u.clean_up >> rest_of_wait ms)

  abbrev pub must_not_be_found : Workflow → ℕ → Async E (Unit {0})
  must_not_be_found runner ms = do
    persisted ← get_status runner
    expect assertion (str_eq persisted.id workflow_id)
    wait_12000 ms
    err ← try_catch (get_status runner >>= λ _. pure none) (λ err. pure (some err))
    expect assertion (has_message "workflow_not_found" err)

  unfoldable pub persist_with_a_ttl : ℕ → Async E (Unit {0})
  persist_with_a_ttl ms = do
    runner ← configure_a_ttl
    execute_and_complete runner
    must_not_be_found runner ms
