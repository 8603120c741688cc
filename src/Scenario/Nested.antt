-- ===== src/Scenario/Nested.antt =====
-- bdd_tests/features/step_definitions/idempotent-execution/03.ts: a workflow, one task of which runs
-- another workflow, whose second task fails in a first run.
pub mod Inner
pub mod Outer
pub mod Passes
use idempotent_transformer.Common.{
  ℕ, ◌+◌, String, Bool, true, false, ◌&&◌, Option, none, some, ltb, ◌==◌, if◌then◌else◌,
}
use Prim.Native.String.{◌++◌}
use idempotent_transformer.Async.{Thrown, error, Async, pure, throw, ◌>>=◌, ◌>>◌}
use idempotent_transformer.Runner.{Workflow, Session, on_env}
use idempotent_transformer.Scenario.{Transformer, read, assign, on_runner, expect, caught, is_error}

-- What a task returns: a string, or `undefined`.
abbrev pub Value : Type 0
Value = Option String

-- `String(value)`
abbrev text_of : Value → String
text_of none = "undefined"
text_of (some s) = s

-- `a + b`, where one of the two is a string.
abbrev pub plus : Value → Value → Value
plus a b = some (text_of a ++ text_of b)

-- `retryCount`, and the elements of `workflowExecution`.
pub record Variables : Type 0 where
  pub retry_count : ℕ
  pub execution0 : ℕ
  pub execution1 : ℕ
  pub execution2 : ℕ
  pub execution3 : ℕ
  pub execution4 : ℕ
  pub execution5 : ℕ
  pub execution6 : ℕ

module _ {E : Type 0} (t : Transformer E Value Variables) (assertion : Thrown)
    (workflow_id input : String) where
  abbrev pub task5 : Async E Value
  task5 = assign t (λ v. record v { execution4 = v.execution4 + 1 }) >> pure (some input)

  abbrev pub task6 : Async E Value
  task6 = do
    retry_count ← read t (λ v. v.retry_count)
    if ltb retry_count 1
        then throw (error "Error" "Task 6 failed")
        else (assign t (λ v. record v { execution5 = v.execution5 + 1 }) >> pure (some input))

  abbrev pub task7 : Async E Value
  task7 = assign t (λ v. record v { execution6 = v.execution6 + 1 }) >> pure (some input)

  abbrev pub task1 : Async E Value
  task1 = assign t (λ v. record v { execution0 = v.execution0 + 1 }) >> pure (some input)

  abbrev start_inner : Async E Workflow
  start_inner =
      t.start_workflow (workflow_id ++ "-task2")
        (record { completed_retention_time = none; name = some "inner workflow with 3 tasks" })

  -- The part of `task2` that has its runner.
  abbrev pub inner_run : Workflow → Async (Session E) Value
  inner_run inner_runner = do
    result ← t.execute inner_runner "task5" task5 none
    result2 ← t.execute inner_runner "task6" task6 none
    result3 ← t.execute inner_runner "task7" task7 none
    on_env (assign t (λ v. record v { execution1 = v.execution1 + 1 }))
    on_env (t.complete inner_runner)
    pure (plus (plus result result2) result3)

  abbrev pub task2 : Async E Value
  task2 = do inner_runner ← start_inner; on_runner (inner_run inner_runner)

  abbrev pub task3 : Async E Value
  task3 = assign t (λ v. record v { execution2 = v.execution2 + 1 }) >> pure none

  abbrev pub task4 : Async E Value
  task4 = assign t (λ v. record v { execution3 = v.execution3 + 1 }) >> pure (some input)

  abbrev start_outer : Async E Workflow
  start_outer =
      t.start_workflow workflow_id
        (record { completed_retention_time = none; name = some "a workflow with 4 tasks" })

  -- The calls of the outer runner, which are the same in both runs.
  abbrev pub outer_run : Workflow → Async (Session E) (Unit {0})
  outer_run runner = do
    t.execute runner "task1" task1 none
    t.execute runner "task2" task2 none
    t.execute runner "task3" task3 none
    t.execute runner "task4" task4 none
    on_env (t.complete runner)

  abbrev pub inner_task_fails : Async E (Unit {0})
  inner_task_fails = do
    err ← caught (do runner ← start_outer; on_runner (outer_run runner))
    expect assertion (is_error err)

  abbrev pub retry_the_outer_workflow : Async E (Unit {0})
  retry_the_outer_workflow = do
    runner ← start_outer
    assign t (λ v. record v { retry_count = v.retry_count + 1 })
    on_runner (outer_run runner)

  abbrev pub each_once : Variables → Bool
  each_once v =
      v.execution0 == 1
      && (v.execution1 == 1
          && (v.execution2 == 1
              && (v.execution3 == 1
                  && (v.execution4 == 1 && (v.execution5 == 1 && v.execution6 == 1)))))

  unfoldable pub workflow_within_a_workflow : Async E (Unit {0})
  workflow_within_a_workflow = do
    inner_task_fails
    retry_the_outer_workflow
    read t (λ v. v) >>= λ v. expect assertion (each_once v)
