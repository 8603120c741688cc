-- ===== src/Overhead/SameWorkflow/Refined.antt =====
-- A run over the library does what it does over the promise.
use idempotent_transformer.Common.{ℕ, zero, suc, String, Option, none, some}
use Prim.Native.String.{◌++◌ as concat}
use idempotent_transformer.Async.{Thrown}
use idempotent_transformer.Simulation.{
  Follows, >>=-Follows, >>-Follows, pure-Follows, throw-Follows, try_catch-Follows, on_env-Follows,
}
use idempotent_transformer.Scenario.{Transformer}
use idempotent_transformer.Scenario.Refinement.{
  Implements, on_runner-Follows, read-Follows, assign-Follows, wait-Follows, date_now-Follows,
  start-Follows, execute-Follows, complete-Follows,
}
use idempotent_transformer.Overhead.SameWorkflow.{
  Variables, with_line, workflow_id, append_by, log_by, appends_after, task5, run_workflow, runs,
}

module _ {S T : Type 0} (Rel : S → T → Type 0) (Mine : String → Type 0)
    (abstract_ : Transformer S String Variables) (detailed : Transformer T String Variables)
    (law : Implements Rel Mine abstract_ detailed) (owner : Mine workflow_id)
    (to_string : ℕ → String) where
  append_by-Follows :
      (o : Option Thrown) (content : String)
      → Follows Rel
          (append_by abstract_ to_string o content)
          (append_by detailed to_string o content)
  append_by-Follows none content = assign-Follows law (with_line content)
  append_by-Follows (some err) content = throw-Follows err

  log_by-Follows :
      (o : Option Thrown) (content : String)
      → Follows Rel (log_by abstract_ to_string o content) (log_by detailed to_string o content)
  log_by-Follows none content = assign-Follows law (with_line content)
  log_by-Follows (some err) content = pure-Follows tt

  -- A task begins with the time and a wait.
  appends_after-Follows :
      (ms : ℕ)
      → Follows Rel (appends_after abstract_ to_string ms) (appends_after detailed to_string ms)
  appends_after-Follows ms = >>=-Follows (date_now-Follows law) (λ now.
      >>-Follows (wait-Follows law ms) (
        >>-Follows
          (>>=-Follows (read-Follows law (λ v. v.disk_error))
            (λ err. append_by-Follows err (concat (to_string now) "\n")))
          (pure-Follows (to_string now))))

  task5-Follows : Follows Rel (task5 abstract_ to_string) (task5 detailed to_string)
  task5-Follows = >>=-Follows (date_now-Follows law) (λ now. >>-Follows (wait-Follows law 1000) (
      >>-Follows
        (>>=-Follows (read-Follows law (λ v. v.disk_error))
          (λ err. log_by-Follows err (concat (to_string now) "\n")))
        (pure-Follows (to_string now))))

  pub run_workflow-Follows :
      Follows Rel (run_workflow abstract_ to_string) (run_workflow detailed to_string)
  unfolding run_workflow
  run_workflow-Follows =
      search
        (
          start-Follows law,
          on_runner-Follows,
          execute-Follows law,
          complete-Follows law,
          assign-Follows law,
          appends_after-Follows,
          task5-Follows,
          >>=-Follows,
          >>-Follows,
          try_catch-Follows,
          on_env-Follows,
          owner,
        )
        depth 60 fits 20000

  pub runs-Follows : (n : ℕ) → Follows Rel (runs abstract_ to_string n) (runs detailed to_string n)
  runs-Follows zero = pure-Follows tt
  runs-Follows (suc n) = >>-Follows run_workflow-Follows (runs-Follows n)
