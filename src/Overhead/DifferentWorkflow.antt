-- ===== src/Overhead/DifferentWorkflow.antt =====
-- overhead_tests/parallel-different-workflow.js: each run is one of a workflow of its own.
-- The test data that faker makes up are a parameter, by how often they were made; errors that are only
-- logged are left out.
pub mod Runs
use idempotent_transformer.Common.{ℕ, zero, suc, ◌+◌, String, Option, none, some}
use idempotent_transformer.Async.{Async, pure, ◌>>=◌, ◌>>◌, try_catch}
use idempotent_transformer.Runner.{Workflow, Session, on_env}
use idempotent_transformer.Scenario.{Transformer, read, assign, on_runner}
use idempotent_transformer.Overhead.{Counters, one_more_success, one_more_fail}

pub record Variables : Type 0 where
  pub made : ℕ
  pub counters : Counters

module _ {E R : Type 0} (t : Transformer E R Variables) (data_ : ℕ → R) where
  abbrev get_data : Async E R
  get_data = do
    n ← read t (λ v. v.made)
    assign t (λ v. record v { made = v.made + 1 })
    pure (data_ n)

  -- `task1` to `task6` are the same.
  abbrev pub task : Async E R
  task = get_data

  abbrev pub calls : Workflow → Async (Session E) (Unit {0})
  calls runner = do
    t.execute runner "task1" task none
    t.execute runner "task2" task none
    t.execute runner "task3" task none
    t.execute runner "task4" task none
    t.execute runner "task5" task none
    t.execute runner "task6" task none
    on_env (t.complete runner)

  abbrev pub emit : (Counters → Counters) → Async E (Unit {0})
  emit change = assign t (λ v. record v { counters = change v.counters })

  -- A run that fails completes its workflow all the same.
  unfoldable pub run_workflow : String → Async E (Unit {0})
  run_workflow uuid = do
    runner ←
        t.start_workflow uuid (record { completed_retention_time = some 70000; name = some uuid })
    try_catch (on_runner (calls runner) >> emit one_more_success)
        (λ err. t.complete runner >> emit one_more_fail)
