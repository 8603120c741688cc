-- ===== src/Scenario/Nested/Passes.antt =====
-- How the scenario of a workflow within a workflow goes, and how it ends.
use idempotent_transformer.Common.{
  ℕ, ◌+◌, String, ◌≡◌, refl, ◌∙◌, true, false, Option, none, some, List, [], ◌⊎◌, inl, inr,
}
use idempotent_transformer.Async.{Thrown, done}
use idempotent_transformer.Runner.{Workflow, WorkflowOptions}
use idempotent_transformer.Server.{incremented}
use idempotent_transformer.Simulation.{
  Follows, >>=-Follows, >>-Follows, pure-Follows, throw-Follows, try_catch-Follows, on_env-Follows,
  if-Follows,
}
use idempotent_transformer.Memo.{Spec}
use idempotent_transformer.Memo.Journal.{Returns, Journal}
use idempotent_transformer.Memo.World.{World, Platform, IsFaithful}
use idempotent_transformer.Memo.Rules.{>>=-Returns, >>-Returns, >>=-Throws, returns_as}
use idempotent_transformer.Memo.StartRules.{started_as}
use idempotent_transformer.Scenario.{Transformer, promised, library, on_runner}
use idempotent_transformer.Scenario.Refinement.{
  Implements, IsFresh, blank, blank-Journal, library-Implements, library_returns, on_runner-Follows,
  expect-Follows, read-Follows, assign-Follows, start-Follows, execute-Follows, complete-Follows,
}
use idempotent_transformer.Scenario.Steps.{
  At, on_runner_fails, caught_step, assign_step, start_step, on_runner_step, expect_step,
  expect_variables_step,
}
use idempotent_transformer.Scenario.Nested.{
  Value, Variables, outer_run, inner_task_fails, retry_the_outer_workflow, each_once,
  workflow_within_a_workflow,
}
use idempotent_transformer.Scenario.Nested.Inner.{inner_id, vars, inner1}
use idempotent_transformer.Scenario.Nested.Outer.{
  And, And-Stable, done1, first_run_lem, second_run_lem,
}

module _ {S T : Type 0} (Rel : S → T → Type 0) (Mine : String → Type 0)
    (abstract_ : Transformer S Value Variables) (detailed : Transformer T Value Variables)
    (law : Implements Rel Mine abstract_ detailed) (assertion : Thrown) (id input : String)
    (owner : Mine id) (owner2 : Mine (inner_id id)) where
  workflow_within-Follows :
      Follows Rel
        (workflow_within_a_workflow abstract_ assertion id input)
        (workflow_within_a_workflow detailed assertion id input)
  unfolding workflow_within_a_workflow
  workflow_within-Follows =
      search
        (
          start-Follows law,
          on_runner-Follows,
          execute-Follows law,
          complete-Follows law,
          read-Follows law,
          assign-Follows law,
          expect-Follows,
          >>=-Follows,
          >>-Follows,
          pure-Follows,
          throw-Follows,
          try_catch-Follows,
          on_env-Follows,
          if-Follows,
          owner,
          owner2,
        )
        depth 60 fits 20000

module _ (assertion : Thrown) (id input : String) (outer_token inner_token : Option ℕ) where
  abbrev options : WorkflowOptions
  options = record { completed_retention_time = none; name = some "a workflow with 4 tasks" }

  abbrev w : Workflow
  w = started_as outer_token id options

  abbrev w' : Workflow
  w' = started_as (some w.fencing_token) id options

  abbrev results1 : List (String × Value)
  results1 = inner1 w [] 0 assertion input inner_token

  abbrev again : Option ℕ
  again = some (incremented inner_token 1)

  abbrev Ones : Spec Value Variables → Type 0
  Ones a = a.user ≡ vars 1 1 1 1 1 1 1 1

  inner_task_fails_lem :
      (a : Spec Value Variables)
      → Journal id outer_token [] false a.memo
      → And id (vars 0 0 0 0 0 0 0 0) inner_token [] a
      → Returns (inner_task_fails promised assertion id input) a tt (
          At w (done1 assertion input w inner_token) (And id (vars 0 1 0 0 0 1 0 0) again results1))
  inner_task_fails_lem a j known =
      >>=-Returns _
        (caught_step
          (At w (done1 assertion input w inner_token)
            (And id (vars 0 1 0 0 0 1 0 0) again results1))
          (>>=-Throws (λ runner. on_runner (outer_run promised assertion id input runner))
            (start_step (And id (vars 0 0 0 0 0 0 0 0) inner_token []) id options outer_token [] a
              (And-Stable id _ _ _) (j, known))
            (λ b at.
              on_runner_fails (And id (vars 0 0 0 0 0 0 0 0) inner_token []) w [] _ 1 _ at
                (first_run_lem assertion input w inner_token))))
        (λ b at.
          expect_step
            (At w (done1 assertion input w inner_token)
              (And id (vars 0 1 0 0 0 1 0 0) again results1))
            assertion true b refl at)

  retry_lem :
      (a : Spec Value Variables)
      → At w (done1 assertion input w inner_token) (And id (vars 0 1 0 0 0 1 0 0) again results1) a
      → Returns (retry_the_outer_workflow promised assertion id input) a tt Ones
  retry_lem a at =
      >>=-Returns _
        (start_step (And id (vars 0 1 0 0 0 1 0 0) again results1) id options (some w.fencing_token)
          (done1 assertion input w inner_token) a (And-Stable id _ _ _) at)
        (λ b (j, (ran, ji)).
          >>-Returns
            (assign_step (And id (vars 0 1 0 0 0 1 0 0) again results1)
              (λ v. record v { retry_count = v.retry_count + 1 })
              (At w' (done1 assertion input w inner_token)
                (And id (vars 1 1 0 0 0 1 0 0) again results1))
              b (j, (rw ran refl, ji)))
            (λ c at'.
              returns_as (λ d (j', (ran', ji')). ran')
                (on_runner_step (And id (vars 1 1 0 0 0 1 0 0) again results1) w' _ _ 4 _ at'
                  (second_run_lem assertion input w' again))))

  passes_lem :
      (a : Spec Value Variables)
      → Journal id outer_token [] false a.memo
      → And id (vars 0 0 0 0 0 0 0 0) inner_token [] a
      → Returns (workflow_within_a_workflow promised assertion id input) a tt Ones
  unfolding workflow_within_a_workflow
  passes_lem a j known = >>-Returns (inner_task_fails_lem a j known) (λ b at.
      >>-Returns (retry_lem b at) (λ c ran.
        expect_variables_step Ones assertion (λ v. v) (each_once promised assertion id input) c
          (rw ran refl) ran))

-- The scenario of a workflow within a workflow passes on the library, over the adapter and the server,
-- whatever the identifier of the outer workflow and the input, if the server has no result and no lease of
-- the two workflows: the failure of the inner task is caught, and once the outer workflow is retried each of
-- the seven tasks has run to its end exactly once.
pub workflow_within_a_workflow-passes :
    (f : Platform Value Variables) (assertion : Thrown) (id input : String) (e : World Variables)
    → IsFaithful f
    → IsFresh (λ other. (other ≡ id) ⊎ (other ≡ inner_id id)) e.database
    → e.user ≡ vars 0 0 0 0 0 0 0 0
    → ((workflow_within_a_workflow (library f) assertion id input e).0 ≡ done tt)
      × ((workflow_within_a_workflow (library f) assertion id input e).1.user
          ≡ vars 1 1 1 1 1 1 1 1)
workflow_within_a_workflow-passes f assertion id input e law fresh none_yet =
    let Mine : String → Type 0 = λ other. (other ≡ id) ⊎ (other ≡ inner_id id) in
    let a : Spec Value Variables = record { memo = blank e.database; user = e.user } in
    let promise =
      passes_lem assertion id input (e.database.fencing_tokens id)
        (e.database.fencing_tokens (inner_id id)) a (blank-Journal e.database id)
        (none_yet, blank-Journal e.database (inner_id id)) in
    let (ended, reflects) =
      library_returns Mine f.pack (workflow_within_a_workflow promised assertion id input)
        (workflow_within_a_workflow (library f) assertion id input) e tt
        (workflow_within-Follows _ _ _ _ (library-Implements Mine f law) assertion id input
          (inl refl) (inr refl)).simulates
        fresh promise.ended in
    (ended, reflects.1 ∙ promise.after)
