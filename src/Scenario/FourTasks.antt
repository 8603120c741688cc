-- ===== src/Scenario/FourTasks.antt =====
-- bdd_tests/features/step_definitions/idempotent-execution/02.ts: a workflow of four tasks, the third of
-- which fails in a first run.
pub mod Passes
use idempotent_transformer.Common.{
  ℕ, ◌+◌, String, Bool, true, false, ◌&&◌, Option, none, some, ltb, ◌==◌, if◌then◌else◌,
}
use idempotent_transformer.Async.{Thrown, error, Async, pure, throw, ◌>>=◌, ◌>>◌}
use idempotent_transformer.Runner.{Workflow, Session, on_env}
use idempotent_transformer.Scenario.{Transformer, read, assign, on_runner, expect, caught, is_error}

-- What a task returns: a string, or `undefined`.
abbrev pub Value : Type 0
Value = Option String

-- `retryCount`, and the elements of `workflowExecution`.
pub record Variables : Type 0 where
  pub retry_count : ℕ
  pub execution0 : ℕ
  pub execution1 : ℕ
  pub execution2 : ℕ
  pub execution3 : ℕ

abbrev pub initial : Variables
initial = record { retry_count = 0; execution0 = 0; execution1 = 0; execution2 = 0; execution3 = 0 }

module _ {E : Type 0} (t : Transformer E Value Variables) (assertion : Thrown)
    (workflow_id input : String) where
  abbrev pub task1 : Value → Async E Value
  task1 i = assign t (λ v. record v { execution0 = v.execution0 + 1 }) >> pure i

  abbrev pub task2 : Value → Async E Value
  task2 i = assign t (λ v. record v { execution1 = v.execution1 + 1 }) >> pure i

  abbrev pub task3 : Value → Async E Value
  task3 i = do
    retry_count ← read t (λ v. v.retry_count)
    if ltb retry_count 1
        then throw (error "Error" "Task 3 failed")
        else (assign t (λ v. record v { execution2 = v.execution2 + 1 }) >> pure none)

  abbrev pub task4 : Value → Async E Value
  task4 i = assign t (λ v. record v { execution3 = v.execution3 + 1 }) >> pure i

  abbrev pub start : Async E Workflow
  start =
      t.start_workflow workflow_id
        (record { completed_retention_time = none; name = some "workflow-with-4-tasks" })

  -- The body of the `try`.
  abbrev pub first_run : Workflow → Async (Session E) (Unit {0})
  first_run runner = do
    result1 ← t.execute runner "task1" (task1 (some input)) none
    result2 ← t.execute runner "task2" (task2 result1) none
    t.execute runner "task3" (task3 result2) (some 3000)
    t.execute runner "task4" (task4 (some input)) none
    on_env (t.complete runner)

  abbrev pub third_task_fails : Workflow → Async E (Unit {0})
  third_task_fails runner = do
    err ← caught (on_runner (first_run runner))
    expect assertion (is_error err)

  abbrev pub second_run : Workflow → Async (Session E) (Unit {0})
  second_run new_runner = do
    t.execute new_runner "task1" (task1 (some input)) none
    t.execute new_runner "task2" (task2 (some input)) none
    t.execute new_runner "task3" (task3 (some input)) (some 3000)
    t.execute new_runner "task4" (task4 (some input)) none
    on_env (t.complete new_runner)

  abbrev pub retry_all_tasks : Async E (Unit {0})
  retry_all_tasks = do
    assign t (λ v. record v { retry_count = v.retry_count + 1 })
    new_runner ← start
    on_runner (second_run new_runner)

  abbrev pub each_once : Variables → Bool
  each_once v = v.execution0 == 1 && (v.execution1 == 1 && (v.execution2 == 1 && v.execution3 == 1))

  unfoldable pub workflow_idempotency : Async E (Unit {0})
  workflow_idempotency = do
    runner ← start
    third_task_fails runner
    retry_all_tasks
    read t (λ v. v) >>= λ v. expect assertion (each_once v)
