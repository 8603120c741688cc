-- ===== src/Scenario/FourTasks/Passes.antt =====
-- How the scenario of four tasks goes, call by call, and how it ends.
use idempotent_transformer.Common.{
  ℕ, ◌+◌, String, ◌≡◌, refl, sym, ◌∙◌, true, false, Option, none, some, List, [], ◌∷◌, ◌++◌,
}
use idempotent_transformer.Async.{Thrown, error, done}
use idempotent_transformer.Runner.{Workflow, WorkflowOptions, Session}
use idempotent_transformer.Simulation.{
  Follows, >>=-Follows, >>-Follows, pure-Follows, throw-Follows, try_catch-Follows, on_env-Follows,
  if-Follows,
}
use idempotent_transformer.Memo.{Spec}
use idempotent_transformer.Memo.Journal.{Returns, Throws, Journal}
use idempotent_transformer.Memo.World.{World, Platform, IsFaithful}
use idempotent_transformer.Memo.Rules.{>>=-Returns, >>-Returns, >>=-Throws, throws->>=}
use idempotent_transformer.Memo.StartRules.{started_as}
use idempotent_transformer.Scenario.{Transformer, promised, library, on_runner}
use idempotent_transformer.Scenario.Refinement.{
  Implements, IsFresh, blank, blank-Journal, library-Implements, library_returns, on_runner-Follows,
  expect-Follows, read-Follows, assign-Follows, start-Follows, execute-Follows, complete-Follows,
}
use idempotent_transformer.Scenario.Steps.{
  At, AtPosition, fail_step, complete_step, on_runner_fails, caught_step, assign_step, store_step,
  replay_step, start_step, on_runner_step, expect_step, expect_variables_step,
}
use idempotent_transformer.Scenario.FourTasks.{
  Value, Variables, initial, task1, task2, task3, second_run, third_task_fails, retry_all_tasks,
  each_once, workflow_idempotency, first_run,
}

module _ {S T : Type 0} (Rel : S → T → Type 0) (Mine : String → Type 0)
    (abstract_ : Transformer S Value Variables) (detailed : Transformer T Value Variables)
    (law : Implements Rel Mine abstract_ detailed) (assertion : Thrown) (id input : String)
    (owner : Mine id) where
  workflow_idempotency-Follows :
      Follows Rel
        (workflow_idempotency abstract_ assertion id input)
        (workflow_idempotency detailed assertion id input)
  unfolding workflow_idempotency
  workflow_idempotency-Follows =
      search
        (
          start-Follows law,
          on_runner-Follows,
          execute-Follows law,
          complete-Follows law,
          read-Follows law,
          assign-Follows law,
          expect-Follows,
          >>=-Follows,
          >>-Follows,
          pure-Follows,
          throw-Follows,
          try_catch-Follows,
          on_env-Follows,
          if-Follows,
          owner,
        )
        depth 40 fits 5000

module _ (assertion : Thrown) (id input : String) where
  abbrev failure : Thrown
  failure = error "Error" "Task 3 failed"

  -- The tasks have run so often, in this try.
  abbrev Ran : (retry_count n0 n1 n2 n3 : ℕ) → Spec Value Variables → Type 0
  Ran retry_count n0 n1 n2 n3 a = a.user ≡ record {
    retry_count = retry_count;
    execution0 = n0;
    execution1 = n1;
    execution2 = n2;
    execution3 = n3;
  }

  abbrev done2 : List (String × Value)
  done2 = ("task1", some input) ∷ ("task2", some input) ∷ []

  abbrev done4 : List (String × Value)
  done4 = done2 ++ (("task3", none) ∷ ("task4", some input) ∷ [])

  first_run_lem :
      (w : Workflow) (s : Session (Spec Value Variables))
      → AtPosition 0 w [] (Ran 0 0 0 0 0) s
      → Throws
          (first_run promised assertion id input w)
          s
          failure
          (AtPosition 2 w done2 (Ran 0 1 1 0 0))
  first_run_lem w s at =
      >>=-Throws _
        (store_step w "task1" _ none [] (Ran 0 0 0 0 0) (Ran 0 1 0 0 0) (λ a m e x. x)
          (λ a m e x. x) (some input) (λ v. record v { execution0 = v.execution0 + 1 }) s
          (λ b e. (refl, rw e refl)) at)
        (λ s1 at1.
          >>=-Throws _
            (store_step w "task2" _ none (("task1", some input) ∷ []) (Ran 0 1 0 0 0)
              (Ran 0 1 1 0 0) (λ a m e x. x) (λ a m e x. x) (some input)
              (λ v. record v { execution1 = v.execution1 + 1 }) s1 (λ b e. (refl, rw e refl)) at1)
            (λ s2 at2. throws->>= _ (
              fail_step w "task3" (task3 promised assertion id input (some input)) (some 3000) done2
                (Ran 0 1 1 0 0) (Ran 0 1 1 0 0) (λ a m e x. x) (λ a m e x. x) failure (λ v. v) s2
                (λ b e. (rw e refl, e)) at2)))

  second_run_lem :
      (w : Workflow) (s : Session (Spec Value Variables))
      → AtPosition 0 w done2 (Ran 1 1 1 0 0) s
      → Returns
          (second_run promised assertion id input w)
          s
          tt
          (AtPosition 4 w done4 (Ran 1 1 1 1 1))
  second_run_lem w s at =
      >>-Returns
        (replay_step w "task1" (task1 promised assertion id input (some input)) none 0 done2
          (Ran 1 1 1 0 0) (some input) s refl at)
        (λ s1 at1.
          >>-Returns
            (replay_step w "task2" (task2 promised assertion id input (some input)) none 1 done2
              (Ran 1 1 1 0 0) (some input) s1 refl at1)
            (λ s2 at2.
              >>-Returns
                (store_step w "task3" _ (some 3000) done2 (Ran 1 1 1 0 0) (Ran 1 1 1 1 0)
                  (λ a m e x. x) (λ a m e x. x) none
                  (λ v. record v { execution2 = v.execution2 + 1 }) s2
                  (λ b e. (rw e refl, rw e refl)) at2)
                (λ s3 at3.
                  >>-Returns
                    (store_step w "task4" _ none (done2 ++ (("task3", none) ∷ [])) (Ran 1 1 1 1 0)
                      (Ran 1 1 1 1 1) (λ a m e x. x) (λ a m e x. x) (some input)
                      (λ v. record v { execution3 = v.execution3 + 1 }) s3
                      (λ b e. (refl, rw e refl)) at3)
                    (λ s4 at4. complete_step (Ran 1 1 1 1 1) w 4 done4 s4 (λ a m e x. x) at4))))

  third_task_fails_lem :
      (w : Workflow) (a : Spec Value Variables)
      → At w [] (Ran 0 0 0 0 0) a
      → Returns (third_task_fails promised assertion id input w) a tt (At w done2 (Ran 0 1 1 0 0))
  third_task_fails_lem w a at =
      >>=-Returns _
        (caught_step (At w done2 (Ran 0 1 1 0 0))
          (on_runner_fails (Ran 0 0 0 0 0) w [] done2 2 (Ran 0 1 1 0 0) at (first_run_lem w)))
        (λ b at'. expect_step (At w done2 (Ran 0 1 1 0 0)) assertion true b refl at')

  abbrev options : WorkflowOptions
  options = record { completed_retention_time = none; name = some "workflow-with-4-tasks" }

  retry_lem :
      (w : Workflow) (a : Spec Value Variables)
      → w.workflow_id ≡ id
      → At w done2 (Ran 0 1 1 0 0) a
      → Returns
          (retry_all_tasks promised assertion id input)
          a
          tt
          (At (started_as (some w.fencing_token) id options) done4 (Ran 1 1 1 1 1))
  retry_lem w a same (j, ran) =
      let w' = started_as (some w.fencing_token) id options in
      let j' : Journal id (some w.fencing_token) done2 false a.memo = rw (sym same) j in
      >>-Returns
        (assign_step (Ran 0 1 1 0 0) (λ v. record v { retry_count = v.retry_count + 1 })
          (λ b. Journal id (some w.fencing_token) done2 false b.memo × Ran 1 1 1 0 0 b) a
          (j', rw ran refl))
        (λ b at.
          >>=-Returns (λ new_runner. on_runner (second_run promised assertion id input new_runner))
            (start_step (Ran 1 1 1 0 0) id options (some w.fencing_token) done2 b (λ a m e x. x) at)
            (λ c at'.
              on_runner_step (Ran 1 1 1 0 0) w' done2 done4 4 (Ran 1 1 1 1 1) at'
                (second_run_lem w')))

  passes_lem :
      (a : Spec Value Variables) (token : Option ℕ)
      → Journal id token [] false a.memo
      → a.user ≡ initial
      → Returns (workflow_idempotency promised assertion id input) a tt (Ran 1 1 1 1 1)
  unfolding workflow_idempotency
  passes_lem a token j none_yet =
      let w = started_as token id options in
      >>=-Returns _ (start_step (Ran 0 0 0 0 0) id _ token [] a (λ a m e x. x) (j, none_yet))
        (λ b at. >>-Returns (third_task_fails_lem w b at) (λ c at1.
          >>-Returns (retry_lem w c refl at1) (λ d (j', ran).
            expect_variables_step (Ran 1 1 1 1 1) assertion (λ v. v)
              (each_once promised assertion id input) d (rw ran refl) ran)))

-- The scenario of four tasks passes on the library, over the adapter and the server, whatever the
-- identifier of the workflow and the input, if the server has no result and no lease of the workflow: the
-- failure of the third task is caught, and once the workflow is retried each of the four tasks has run to
-- its end exactly once.
pub workflow_idempotency-passes :
    (f : Platform Value Variables) (assertion : Thrown) (id input : String) (e : World Variables)
    → IsFaithful f
    → IsFresh (λ other. other ≡ id) e.database
    → e.user ≡ initial
    → ((workflow_idempotency (library f) assertion id input e).0 ≡ done tt)
      × ((workflow_idempotency (library f) assertion id input e).1.user ≡ record {
        retry_count = 1;
        execution0 = 1;
        execution1 = 1;
        execution2 = 1;
        execution3 = 1;
      })
workflow_idempotency-passes f assertion id input e law fresh none_yet =
    let a : Spec Value Variables = record { memo = blank e.database; user = e.user } in
    let promise =
      passes_lem assertion id input a (e.database.fencing_tokens id) (blank-Journal e.database id)
        none_yet in
    let (ended, reflects) =
      library_returns (λ other. other ≡ id) f.pack
        (workflow_idempotency promised assertion id input)
        (workflow_idempotency (library f) assertion id input) e tt
        (workflow_idempotency-Follows _ _ _ _ (library-Implements _ f law) assertion id input
          refl).simulates
        fresh promise.ended in
    (ended, reflects.1 ∙ promise.after)
