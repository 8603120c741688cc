-- ===== src/Overhead/SameWorkflow/Failure.antt =====
-- A run of the one workflow whose disk gives an error.
use idempotent_transformer.Common.{ℕ, String, ◌≡◌, refl, ◌∙◌, false, Option, none, some, List, []}
use idempotent_transformer.Async.{Thrown, Async, done, try_catch}
use idempotent_transformer.Runner.{Workflow, WorkflowOptions, Session}
use idempotent_transformer.Server.{Database}
use idempotent_transformer.Memo.{Memo, Spec}
use idempotent_transformer.Memo.Journal.{Returns, Throws, returned, threw, Journal}
use idempotent_transformer.Memo.Leasing.{content-none}
use idempotent_transformer.Memo.Reflects.{Holds}
use idempotent_transformer.Memo.World.{World, Platform, IsFaithful}
use idempotent_transformer.Memo.Rules.{>>=-Throws, throws->>=}
use idempotent_transformer.Memo.StartRules.{started_as}
use idempotent_transformer.Scenario.{promised, library}
use idempotent_transformer.Scenario.Steps.{
  At, AtPosition, fail_task_step, start_step, on_runner_fails, assign_step,
}
use idempotent_transformer.Scenario.Refinement.{
  IsFresh, blank, blank-Journal, library-Implements, library_returns,
}
use idempotent_transformer.Overhead.{Counters, one_more_fail}
use idempotent_transformer.Overhead.SameWorkflow.Refined.{run_workflow-Follows}
use idempotent_transformer.Overhead.SameWorkflow.{
  Variables, workflow_id, task1, calls, run_workflow,
}

-- A `catch` that returns.
catch_step :
    {S A : Type 0} {m : Async S A} {s : S} {err : Thrown} {a : A} {Mid After : S → Type 0}
    (f : Thrown → Async S A)
    → Throws m s err Mid
    → ((t : S) → Mid t → Returns (f err) t a After)
    → Returns (try_catch m f) s a After
catch_step {m = m} {s = s} f run next =
    let caught = next (m s).1 run.after in
    returned (try_catch m f) s (rw run.ended (caught.ended, caught.after))

-- A server that has nothing of a workflow, by a promised state that has nothing of it.
empty-IsFresh :
    {R : Type 0} (id : String) (pack : R → List ℕ) (token : Option ℕ) (m : Memo R) (d : Database)
    → Holds (λ other. other ≡ id) pack m d
    → Journal id token [] false m
    → IsFresh (λ other. other ≡ id) d
empty-IsFresh id pack token m d holds j = record {
  checkpoints = λ other p own.
      rw own (content-none (d.checkpoints id p) (holds.results id p refl ∙ rw (j.entries p) refl));
  leases = λ other p own. rw own (holds.leases id p refl (j.lease p));
}

module _ (to_string : ℕ → String) (file : List String) (err : Thrown) where
  abbrev Known : Counters → Spec String Variables → Type 0
  Known counters a = a.user ≡ record { file = file; disk_error = some err; counters = counters }

  abbrev options : WorkflowOptions
  options = record { completed_retention_time = none; name = none }

  calls_fail :
      (w : Workflow) (counters : Counters) (s : Session (Spec String Variables))
      → AtPosition 0 w [] (Known counters) s
      → Throws (calls promised to_string w) s err (AtPosition 0 w [] (Known counters))
  calls_fail w counters s at = throws->>= _ (
      fail_task_step w "task1" (task1 promised to_string) none [] (Known counters) (Known counters)
        (λ a m e x. x) (λ a m e x. x) err s
        (λ b j user. threw (task1 promised to_string) b (
          rw user
            (refl, (record { current = j.current; entries = j.entries; lease = j.lease }, refl))))
        at)

  run_lem :
      (token : Option ℕ) (counters : Counters) (a : Spec String Variables)
      → Journal workflow_id token [] false a.memo
      → Known counters a
      → Returns
          (run_workflow promised to_string)
          a
          tt
          (At (started_as token workflow_id options) [] (Known (one_more_fail counters)))
  unfolding run_workflow
  run_lem token counters a j known =
      let w = started_as token workflow_id options in
      catch_step _
        (>>=-Throws _
          (start_step (Known counters) workflow_id options token [] a (λ a m e x. x) (j, known))
          (λ b at. throws->>= _ (
            on_runner_fails (Known counters) w [] [] 0 (Known counters) at
              (calls_fail w counters))))
        (λ c (j', user).
          assign_step (Known counters) (λ v. record v { counters = one_more_fail v.counters })
            (At w [] (Known (one_more_fail counters))) c (j', rw user refl))

-- A run of the one workflow whose disk gives an error, on the library, over the adapter and the server, if
-- the server has no result and no lease of the workflow: the run counts as a failure, writes nothing into
-- the file, and leaves the server without a result and a lease of the workflow.
pub run_workflow-fails :
    (f : Platform String Variables) (to_string : ℕ → String) (file : List String) (err : Thrown)
    (counters : Counters) (e : World Variables)
    → IsFaithful f
    → IsFresh (λ other. other ≡ workflow_id) e.database
    → e.user ≡ record { file = file; disk_error = some err; counters = counters }
    → let after = run_workflow (library f) to_string e in
      (after.0 ≡ done tt)
      × ((after.1.user
            ≡ record { file = file; disk_error = some err; counters = one_more_fail counters })
          × IsFresh (λ other. other ≡ workflow_id) after.1.database)
run_workflow-fails f to_string file err counters e law fresh user =
    let Mine : String → Type 0 = λ other. other ≡ workflow_id in
    let a : Spec String Variables = record { memo = blank e.database; user = e.user } in
    let promise =
      run_lem to_string file err (e.database.fencing_tokens workflow_id) counters a
        (blank-Journal e.database workflow_id) user in
    let (ended, (holds, same)) =
      library_returns Mine f.pack (run_workflow promised to_string)
        (run_workflow (library f) to_string) e tt
        (run_workflow-Follows _ _ _ _ (library-Implements Mine f law) refl to_string).simulates
        fresh promise.ended in
    (ended, (same ∙ promise.after.1, empty-IsFresh workflow_id f.pack _ _ _ holds promise.after.0))
