-- ===== src/Scenario/SingleTask/Passes.antt =====
-- How the scenario of one task goes, call by call, and how it ends.
use idempotent_transformer.Common.{
  ℕ, ◌+◌, String, ◌≡◌, refl, sym, ap, ◌∙◌, true, false, ◌&&◌, Option, none, some, [], ◌∷◌, arith,
  ◌==◌,
}
use text.Mathlib.TextPositions.{eq_refl}
use idempotent_transformer.Async.{Thrown, done}
use idempotent_transformer.Runner.{Workflow, WorkflowOptions}
use idempotent_transformer.Simulation.{Follows, >>=-Follows, >>-Follows, pure-Follows}
use idempotent_transformer.Memo.{Spec}
use idempotent_transformer.Memo.Journal.{Returns, returned, Journal}
use idempotent_transformer.Memo.World.{World, Platform, IsFaithful}
use idempotent_transformer.Memo.Rules.{>>=-Returns}
use idempotent_transformer.Memo.StartRules.{started_as}
use idempotent_transformer.Scenario.Steps.{
  At, store_step, replay_step, start_step, on_runner_step, expect_step, expect_variables_step,
}
use idempotent_transformer.Scenario.{Transformer, promised, library}
use idempotent_transformer.Scenario.Refinement.{
  Implements, IsFresh, blank, blank-Journal, library-Implements, library_returns, on_runner-Follows,
  expect-Follows, read-Follows, assign-Follows, start-Follows, execute-Follows,
}
use idempotent_transformer.Scenario.SingleTask.{
  TaskResult, async_task, execute_the_wrapped_task, is_expected, execute_the_wrapped_task_again,
  successful_execution,
}

module _ {S T : Type 0} (Rel : S → T → Type 0) (Mine : String → Type 0)
    (abstract_ : Transformer S TaskResult ℕ) (detailed : Transformer T TaskResult ℕ)
    (law : Implements Rel Mine abstract_ detailed) (assertion : Thrown) (id input : String)
    (owner : Mine id) (date : ℕ) where
  successful_execution-Follows :
      Follows Rel
        (successful_execution abstract_ assertion id input date)
        (successful_execution detailed assertion id input date)
  unfolding successful_execution
  successful_execution-Follows =
      search
        (
          start-Follows law,
          on_runner-Follows,
          execute-Follows law,
          read-Follows law,
          assign-Follows law,
          expect-Follows,
          >>=-Follows,
          >>-Follows,
          pure-Follows,
          owner,
        )
        depth 20

module _ (assertion : Thrown) (id input : String) (date : ℕ) where
  abbrev result : TaskResult
  result = record {
    c = input ∷ input ∷ input ∷ [];
    d = none;
    e = none;
    f = ("a", "b") ∷ [];
    g = 1 ∷ 2 ∷ 3 ∷ [];
    h = date;
  }

  -- The task has run so often.
  abbrev Ran : ℕ → Spec TaskResult ℕ → Type 0
  Ran count a = a.user ≡ count

  result_lem : is_expected promised assertion id input date result ≡ true
  result_lem = let same : (date == date) ≡ true = ground arith in rw (eq_refl input, same) refl

  first_lem :
      (w : Workflow) (a : Spec TaskResult ℕ)
      → At w [] (Ran 0) a
      → Returns
          (execute_the_wrapped_task promised assertion id input date w)
          a
          result
          (At w ((input, result) ∷ []) (Ran 1))
  first_lem w a known = on_runner_step (Ran 0) w [] ((input, result) ∷ []) 1 (Ran 1) known (λ s at.
      store_step w input _ none [] (Ran 0) (Ran 1) (λ a m e x. x) (λ a m e x. x) result (λ n. n + 1)
        s (λ b e. (refl, ap (λ n. n + 1) e)) at)

  second_lem :
      (w : Workflow) (a : Spec TaskResult ℕ)
      → At w ((input, result) ∷ []) (Ran 1) a
      → Returns
          (execute_the_wrapped_task promised assertion id input date w)
          a
          result
          (At w ((input, result) ∷ []) (Ran 1))
  second_lem w a known =
      on_runner_step (Ran 1) w ((input, result) ∷ []) ((input, result) ∷ []) 1 (Ran 1) known
        (λ s at.
          replay_step w input (async_task promised assertion id input date input) none 0
            ((input, result) ∷ []) (Ran 1) result s refl at)

  again_lem :
      (w : Workflow) (a : Spec TaskResult ℕ)
      → w.workflow_id ≡ id
      → At w ((input, result) ∷ []) (Ran 1) a
      → Returns (execute_the_wrapped_task_again promised assertion id input date) a result (Ran 1)
  again_lem w a same (j, once) =
      let options : WorkflowOptions = record { completed_retention_time = none; name = none } in
      let w' = started_as (some w.fencing_token) id options in
      let j' : Journal id (some w.fencing_token) ((input, result) ∷ []) false a.memo =
        rw (sym same) j in
      >>=-Returns _
        (start_step (Ran 1) id options (some w.fencing_token) ((input, result) ∷ []) a
          (λ a m e x. x) (j', once))
        (λ b at. returned _ b (let run = second_lem w' b at in (run.ended, run.after.1)))

  passes_lem :
      (a : Spec TaskResult ℕ) (token : Option ℕ)
      → Journal id token [] false a.memo
      → Ran 0 a
      → Returns (successful_execution promised assertion id input date) a tt (Ran 1)
  unfolding successful_execution
  passes_lem a token j none_yet =
      let w =
        started_as token id (record { completed_retention_time = none; name = some "test" }) in
      >>=-Returns _ (start_step (Ran 0) id _ token [] a (λ a m e x. x) (j, none_yet)) (λ b at.
        >>=-Returns _ (first_lem w b at) (λ c at1.
          >>=-Returns _
            (expect_step (At w ((input, result) ∷ []) (Ran 1)) assertion _ c result_lem at1)
            (λ d at2. >>=-Returns _ (again_lem w d refl at2) (λ e ran.
              let once : (e.user == 1) ≡ true = rw ran refl in
              expect_variables_step (Ran 1) assertion (λ count. count)
                (λ count. is_expected promised assertion id input date result && count == 1) e
                (rw (result_lem, once) refl) ran))))

-- The scenario of one task passes on the library, over the adapter and the server, whatever the identifier
-- of the workflow, the input and the date, if the server has no result and no lease of the workflow: the
-- results of both calls are as expected, and the task runs once.
pub successful_execution-passes :
    (f : Platform TaskResult ℕ) (assertion : Thrown) (id input : String) (date : ℕ) (e : World ℕ)
    → IsFaithful f
    → IsFresh (λ other. other ≡ id) e.database
    → e.user ≡ 0
    → ((successful_execution (library f) assertion id input date e).0 ≡ done tt)
      × ((successful_execution (library f) assertion id input date e).1.user ≡ 1)
successful_execution-passes f assertion id input date e law fresh none_yet =
    let a : Spec TaskResult ℕ = record { memo = blank e.database; user = e.user } in
    let promise =
      passes_lem assertion id input date a (e.database.fencing_tokens id)
        (blank-Journal e.database id) none_yet in
    let (ended, reflects) =
      library_returns (λ other. other ≡ id) f.pack
        (successful_execution promised assertion id input date)
        (successful_execution (library f) assertion id input date) e tt
        (successful_execution-Follows _ _ _ _ (library-Implements _ f law) assertion id input refl
          date).simulates
        fresh promise.ended in
    (ended, reflects.1 ∙ promise.after)
