-- ===== src/Overhead/DifferentWorkflow/Runs.antt =====
-- How a run of a workflow of its own ends.
use idempotent_transformer.Common.{
  ℕ, suc, ◌+◌, String, ◌≡◌, refl, ap, ◌∙◌, false, Option, none, some, List, [], ◌∷◌, ◌++◌, length,
  arith,
}
use idempotent_transformer.Async.{done}
use idempotent_transformer.Runner.{Workflow, WorkflowOptions, Session}
use idempotent_transformer.Simulation.{
  Follows, >>=-Follows, >>-Follows, pure-Follows, try_catch-Follows, on_env-Follows,
}
use idempotent_transformer.Memo.{Spec, memo_execute}
use idempotent_transformer.Memo.Journal.{Returns, Journal}
use idempotent_transformer.Memo.World.{World, Platform, IsFaithful}
use idempotent_transformer.Memo.Rules.{>>=-Returns, >>-Returns}
use idempotent_transformer.Memo.StartRules.{started_as}
use idempotent_transformer.Scenario.{Transformer, promised, library}
use idempotent_transformer.Scenario.Steps.{
  At, AtPosition, store_step, start_step, on_runner_step, complete_step, assign_step, try_step,
}
use idempotent_transformer.Scenario.Refinement.{
  Implements, IsFresh, blank, blank-Journal, library-Implements, library_returns, on_runner-Follows,
  read-Follows, assign-Follows, start-Follows, execute-Follows, complete-Follows,
}
use idempotent_transformer.Overhead.{Counters, one_more_success}
use idempotent_transformer.Overhead.DifferentWorkflow.{Variables, task, calls, run_workflow}

module _ {S T R : Type 0} (Rel : S → T → Type 0) (Mine : String → Type 0)
    (abstract_ : Transformer S R Variables) (detailed : Transformer T R Variables)
    (law : Implements Rel Mine abstract_ detailed) (data_ : ℕ → R) (uuid : String)
    (owner : Mine uuid) where
  run_workflow-Follows :
      Follows Rel (run_workflow abstract_ data_ uuid) (run_workflow detailed data_ uuid)
  unfolding run_workflow
  run_workflow-Follows =
      search
        (
          start-Follows law,
          on_runner-Follows,
          execute-Follows law,
          complete-Follows law,
          read-Follows law,
          assign-Follows law,
          >>=-Follows,
          >>-Follows,
          pure-Follows,
          try_catch-Follows,
          on_env-Follows,
          owner,
        )
        depth 60 fits 20000

module _ {R : Type 0} (data_ : ℕ → R) (uuid : String) where
  abbrev Known : ℕ → Counters → Spec R Variables → Type 0
  Known made counters a = a.user ≡ record { made = made; counters = counters }

  abbrev options : WorkflowOptions
  options = record { completed_retention_time = some 70000; name = some uuid }

  module _ (w : Workflow) (counters : Counters) where
    task_step :
        (key : String) (rs : List (String × R)) (n : ℕ) (s : Session (Spec R Variables))
        → AtPosition (length rs) w rs (Known n counters) s
        → Returns
            (memo_execute w key (task promised data_) none)
            s
            (data_ n)
            (AtPosition (suc (length rs)) w (rs ++ (key, data_ n) ∷ []) (Known (n + 1) counters))
    task_step key rs n s at =
        store_step w key (task promised data_) none rs (Known n counters) (Known (n + 1) counters)
          (λ a m e x. x) (λ a m e x. x) (data_ n) (λ v. record v { made = v.made + 1 }) s
          (λ b e. (rw e refl, rw e refl)) at

    abbrev results : ℕ → List (String × R)
    results n =
        ("task1", data_ n)
        ∷ ("task2", data_ (n + 1))
        ∷ ("task3", data_ (n + 1 + 1))
        ∷ ("task4", data_ (n + 1 + 1 + 1))
        ∷ ("task5", data_ (n + 1 + 1 + 1 + 1))
        ∷ ("task6", data_ (n + 1 + 1 + 1 + 1 + 1))
        ∷ []

    calls_lem :
        (n : ℕ) (s : Session (Spec R Variables))
        → AtPosition 0 w [] (Known n counters) s
        → Returns
            (calls promised data_ w)
            s
            tt
            (AtPosition 6 w (results n) (Known (n + 1 + 1 + 1 + 1 + 1 + 1) counters))
    calls_lem n s at = >>-Returns (task_step "task1" [] n s at) (λ s1 at1.
        >>-Returns (task_step "task2" _ (n + 1) s1 at1) (λ s2 at2.
          >>-Returns (task_step "task3" _ (n + 1 + 1) s2 at2) (λ s3 at3.
            >>-Returns (task_step "task4" _ (n + 1 + 1 + 1) s3 at3) (λ s4 at4.
              >>-Returns (task_step "task5" _ (n + 1 + 1 + 1 + 1) s4 at4) (λ s5 at5.
                >>-Returns (task_step "task6" _ (n + 1 + 1 + 1 + 1 + 1) s5 at5) (λ s6 at6.
                  complete_step (Known (n + 1 + 1 + 1 + 1 + 1 + 1) counters) w 6 (results n) s6
                    (λ a m e x. x) at6))))))

  run_lem :
      (token : Option ℕ) (counters : Counters) (n : ℕ) (a : Spec R Variables)
      → Journal uuid token [] false a.memo
      → Known n counters a
      → Returns (run_workflow promised data_ uuid) a tt (
          At
            (started_as token uuid options)
            (results (started_as token uuid options) counters n)
            (Known (n + 6) (one_more_success counters)))
  unfolding run_workflow
  run_lem token counters n a j known =
      let w = started_as token uuid options in
      >>=-Returns _
        (start_step (Known n counters) uuid options token [] a (λ a m e x. x) (j, known))
        (λ b at. try_step _ (
          >>-Returns
            (on_runner_step (Known n counters) w [] (results w counters n) 6
              (Known (n + 1 + 1 + 1 + 1 + 1 + 1) counters) at (calls_lem w counters n))
            (λ c (j', user).
              assign_step (Known (n + 1 + 1 + 1 + 1 + 1 + 1) counters)
                (λ v. record v { counters = one_more_success v.counters })
                (At w (results w counters n) (Known (n + 6) (one_more_success counters))) c
                (
                  j',
                  rw user (
                      ap (λ m. record { made = m; counters = one_more_success counters })
                        (omega arith)),
                ))))

-- A run of a workflow of its own on the library, over the adapter and the server, if the server has no
-- result and no lease of it: the run counts as a success, and six data were made, one for each of its tasks.
pub run_workflow-succeeds :
    {R : Type 0} (f : Platform R Variables) (data_ : ℕ → R) (uuid : String) (n : ℕ)
    (counters : Counters) (e : World Variables)
    → IsFaithful f
    → IsFresh (λ other. other ≡ uuid) e.database
    → e.user ≡ record { made = n; counters = counters }
    → ((run_workflow (library f) data_ uuid e).0 ≡ done tt)
      × ((run_workflow (library f) data_ uuid e).1.user
          ≡ record { made = n + 6; counters = one_more_success counters })
run_workflow-succeeds {R = R} f data_ uuid n counters e law fresh user =
    let Mine : String → Type 0 = λ other. other ≡ uuid in
    let a : Spec R Variables = record { memo = blank e.database; user = e.user } in
    let promise =
      run_lem data_ uuid (e.database.fencing_tokens uuid) counters n a
        (blank-Journal e.database uuid) user in
    let (ended, reflects) =
      library_returns Mine f.pack (run_workflow promised data_ uuid)
        (run_workflow (library f) data_ uuid) e tt
        (run_workflow-Follows _ _ _ _ (library-Implements Mine f law) data_ uuid refl).simulates
        fresh promise.ended in
    (ended, reflects.1 ∙ promise.after.1)
