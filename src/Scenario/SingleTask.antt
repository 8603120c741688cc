-- ===== src/Scenario/SingleTask.antt =====
-- bdd_tests/features/step_definitions/idempotent-execution/01.ts: a task that is executed twice.
pub mod Passes
use idempotent_transformer.Common.{
  ℕ, ◌+◌, String, Bool, true, false, ◌&&◌, Option, none, some, List, [], ◌∷◌, ◌==◌, str_eq,
  if◌then◌else◌,
}
use idempotent_transformer.Async.{Thrown, Async, pure, ◌>>=◌, ◌>>◌}
use idempotent_transformer.Runner.{Workflow}
use idempotent_transformer.Scenario.{Transformer, read, assign, on_runner, expect, map_has, set_has}

-- What the task returns: the fields of `a` and of its `b`. `null` and `undefined` are each a `none`, a
-- `Map` is the list of its entries, a `Set` that of its elements, and a `Date` is its time.
pub record TaskResult : Type 0 where
  pub c : List String
  pub d : Option String
  pub e : Option String
  pub f : List (String × String)
  pub g : List ℕ
  pub h : ℕ

-- `deep.equal` of two arrays of strings.
abbrev texts_eq : List String → List String → Bool
texts_eq [] [] = true
texts_eq [] (y ∷ ys) = false
texts_eq (x ∷ xs) [] = false
texts_eq (x ∷ xs) (y ∷ ys) = str_eq x y && texts_eq xs ys

abbrev is_absent : Option String → Bool
is_absent none = true
is_absent (some s) = false

module _ {E : Type 0} (t : Transformer E TaskResult ℕ) (assertion : Thrown)
    (workflow_id input : String) (current_date : ℕ) where
  -- The variable is `taskExecutionCount`.
  abbrev pub async_task : String → Async E TaskResult
  async_task i = do
    assign t (λ count. count + 1)
    pure (record {
      c = i ∷ i ∷ i ∷ [];
      d = none;
      e = none;
      f = ("a", "b") ∷ [];
      g = 1 ∷ 2 ∷ 3 ∷ [];
      h = current_date;
    })

  abbrev wrap_the_task : Async E Workflow
  wrap_the_task =
      t.start_workflow workflow_id (record { completed_retention_time = none; name = some "test" })

  abbrev pub execute_the_wrapped_task : Workflow → Async E TaskResult
  execute_the_wrapped_task runner = on_runner (t.execute runner input (async_task input) none)

  -- The fields that both expectations look at.
  abbrev pub is_expected : TaskResult → Bool
  is_expected r =
      texts_eq r.c (input ∷ input ∷ input ∷ [])
      && (is_absent r.d
          && (is_absent r.e && (map_has "a" "b" r.f && (set_has 3 r.g && r.h == current_date))))

  abbrev expect_the_result : TaskResult → Async E (Unit {0})
  expect_the_result first_result = expect assertion (is_expected first_result)

  abbrev pub execute_the_wrapped_task_again : Async E TaskResult
  execute_the_wrapped_task_again = do
    runner ← t.start_workflow workflow_id (record { completed_retention_time = none; name = none })
    on_runner (t.execute runner input (async_task input) none)

  abbrev expect_the_cached_result : TaskResult → Async E (Unit {0})
  expect_the_cached_result second_result = do
    count ← read t (λ count. count)
    expect assertion (is_expected second_result && count == 1)

  unfoldable pub successful_execution : Async E (Unit {0})
  successful_execution = do
    runner ← wrap_the_task
    first_result ← execute_the_wrapped_task runner
    expect_the_result first_result
    second_result ← execute_the_wrapped_task_again
    expect_the_cached_result second_result
