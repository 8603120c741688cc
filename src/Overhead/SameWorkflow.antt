-- ===== src/Overhead/SameWorkflow.antt =====
-- overhead_tests/parallel-same-workflow.js: every run is one of the same workflow.
-- A file is the list of what was appended to it. The append of `task5`, which is not awaited, is done at
-- once here; errors that are only logged are left out.
pub mod Refined
pub mod Calls
pub mod Failure
pub mod Runs
use idempotent_transformer.Common.{
  ℕ, zero, suc, ◌+◌, String, Bool, true, false, Option, none, some, List, [], ◌∷◌, ◌++◌,
  if◌then◌else◌,
}
use Prim.Native.String.{◌++◌ as concat}
use idempotent_transformer.Async.{Thrown, Async, pure, throw, ◌>>=◌, ◌>>◌, try_catch}
use idempotent_transformer.Runner.{Workflow, Session, on_env}
use idempotent_transformer.Scenario.{Transformer, read, assign, wait, date_now, on_runner}
use idempotent_transformer.Overhead.{Counters, one_more_success, one_more_fail}

-- The file, the error that its disk gives, if any, and the counters.
pub record Variables : Type 0 where
  pub file : List String
  pub disk_error : Option Thrown
  pub counters : Counters

abbrev pub with_line : String → Variables → Variables
with_line content v = record v { file = v.file ++ content ∷ [] }

abbrev pub workflow_id : String
workflow_id = "1000"

module _ {E : Type 0} (t : Transformer E String Variables) (to_string : ℕ → String) where
  -- `appendFileAsync`, with the error of the disk.
  abbrev pub append_by : Option Thrown → String → Async E (Unit {0})
  append_by none content = assign t (with_line content)
  append_by (some err) content = throw err

  abbrev append_file_async : String → Async E (Unit {0})
  append_file_async content = read t (λ v. v.disk_error) >>= λ err. append_by err content

  abbrev pub log_by : Option Thrown → String → Async E (Unit {0})
  log_by none content = assign t (with_line content)
  log_by (some err) content = pure tt

  -- `appendFile` with a callback that logs an error.
  abbrev pub append_file : String → Async E (Unit {0})
  append_file content = read t (λ v. v.disk_error) >>= λ err. log_by err content

  -- A task that waits, and appends the time at which it began.
  abbrev pub appends_after : ℕ → Async E String
  appends_after ms = do
    now ← date_now t
    wait t ms
    append_file_async (concat (to_string now) "\n")
    pure (to_string now)

  abbrev pub task1 : Async E String
  task1 = appends_after 300

  abbrev pub task2 : Async E String
  task2 = appends_after 300

  abbrev pub task3 : Async E String
  task3 = appends_after 100

  abbrev pub task4 : Async E String
  task4 = appends_after 500

  abbrev pub task5 : Async E String
  task5 = do
    now ← date_now t
    wait t 1000
    append_file (concat (to_string now) "\n")
    pure (to_string now)

  abbrev pub calls : Workflow → Async (Session E) (Unit {0})
  calls runner = do
    t.execute runner "task1" task1 none
    t.execute runner "task2" task2 none
    t.execute runner "task3" task3 none
    t.execute runner "task4" task4 none
    t.execute runner "task5" task5 none
    on_env (t.complete runner)

  abbrev pub emit : (Counters → Counters) → Async E (Unit {0})
  emit change = assign t (λ v. record v { counters = change v.counters })

  -- `startWorkflow` has no option `contextName`: the workflow has no name.
  unfoldable pub run_workflow : Async E (Unit {0})
  run_workflow =
      try_catch
        (do
          runner ←
              t.start_workflow workflow_id (record { completed_retention_time = none; name = none })
          on_runner (calls runner)
          emit one_more_success)
        (λ err. emit one_more_fail)

  -- Runs that follow each other.
  abbrev pub runs : ℕ → Async E (Unit {0})
  runs zero = pure tt
  runs (suc n) = run_workflow >> runs n
