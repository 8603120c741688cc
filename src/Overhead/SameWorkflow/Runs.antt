-- ===== src/Overhead/SameWorkflow/Runs.antt =====
-- How runs of the one workflow end, the first one and later ones.
use idempotent_transformer.Common.{
  ℕ, zero, suc, ◌+◌, String, ◌≡◌, refl, ap, ◌∙◌, false, Option, none, some, List, [], ◌∷◌, ◌++◌,
  arith,
}
use idempotent_transformer.Async.{done}
use idempotent_transformer.Runner.{Workflow, WorkflowOptions, Session}
use idempotent_transformer.Memo.{Spec}
use idempotent_transformer.Memo.Journal.{Returns, returned, Journal}
use idempotent_transformer.Memo.World.{World, Platform, IsFaithful}
use idempotent_transformer.Memo.Rules.{>>=-Returns, >>-Returns, returns_as}
use idempotent_transformer.Memo.StartRules.{started_as}
use idempotent_transformer.Scenario.{promised, library}
use idempotent_transformer.Scenario.Steps.{
  At, AtPosition, start_step, on_runner_step, assign_step, try_step,
}
use idempotent_transformer.Scenario.Refinement.{
  IsFresh, blank, blank-Journal, library-Implements, library_returns,
}
use idempotent_transformer.Overhead.{Counters, one_more_success}
use idempotent_transformer.Overhead.SameWorkflow.Refined.{runs-Follows}
use idempotent_transformer.Overhead.SameWorkflow.{Variables, workflow_id, calls, run_workflow, runs}
use idempotent_transformer.Overhead.SameWorkflow.Calls.{
  Known, line, Known-Stable, file5, results5, first_calls, later_calls,
}

module _ (to_string : ℕ → String) where
  abbrev options : WorkflowOptions
  options = record { completed_retention_time = none; name = none }

  -- One run, by what its calls do.
  run_lem :
      (token : Option ℕ) (rs rs' : List (String × String)) (file file' : List String)
      (counters : Counters) (n n' : ℕ) (a : Spec String Variables)
      → ((s : Session (Spec String Variables))
          → AtPosition 0
              (started_as token workflow_id options)
              rs
              (Known to_string file counters n)
              s
          → Returns (calls promised to_string (started_as token workflow_id options)) s tt (
              AtPosition 5
                (started_as token workflow_id options)
                rs'
                (Known to_string file' counters n')))
      → Journal workflow_id token rs false a.memo
      → Known to_string file counters n a
      → Returns (run_workflow promised to_string) a tt (
          At
            (started_as token workflow_id options)
            rs'
            (Known to_string file' (one_more_success counters) n'))
  unfolding run_workflow
  run_lem token rs rs' file file' counters n n' a run j known =
      let w = started_as token workflow_id options in
      try_step _ (
        >>=-Returns _
          (start_step (Known to_string file counters n) workflow_id options token rs a
            (Known-Stable to_string _ _ _) (j, known))
          (λ b at.
            >>-Returns
              (on_runner_step (Known to_string file counters n) w rs rs' 5
                (Known to_string file' counters n') at run)
              (λ c (j', (user, at')).
                assign_step (Known to_string file' counters n')
                  (λ v. record v { counters = one_more_success v.counters })
                  (At w rs' (Known to_string file' (one_more_success counters) n')) c
                  (j', (rw user refl, at')))))

  -- The counters after more runs.
  abbrev more : ℕ → Counters → Counters
  more k counters = record counters { success = counters.success + k }

  at_count :
      (file : List String) (counters : Counters) (p q : ℕ)
      → p ≡ q
      → Path Variables
          (record { file = file; disk_error = none; counters = record counters { success = p } })
          (record { file = file; disk_error = none; counters = record counters { success = q } })
  at_count file counters p q e =
      ap
        (λ m. record { file = file; disk_error = none; counters = record counters { success = m } })
        e

  module _ (w : Workflow) (file : List String) (counters : Counters) (n : ℕ) where
    later_runs :
        (k token : ℕ) (file' : List String) (counters' : Counters) (n' : ℕ)
        (a : Spec String Variables)
        → Journal workflow_id (some token) (results5 to_string w file counters n) false a.memo
        → Known to_string file' counters' n' a
        → Returns
            (runs promised to_string k)
            a
            tt
            (λ b. b.user ≡ record { file = file'; disk_error = none; counters = more k counters' })
    later_runs zero token file' counters' n' a j (user, at) =
        returned _ a (refl, user ∙ at_count file' counters' _ _ (omega arith))
    later_runs (suc k) token file' counters' n' a j known =
        let rs = results5 to_string w file counters n in
        >>-Returns
          (run_lem (some token) rs rs file' file' counters' n' n' a
            (later_calls to_string (started_as (some token) workflow_id options) file counters n
              file' counters' n')
            j known)
          (λ b (j', known').
            returns_as (λ c user. user ∙ at_count file' counters' _ _ (omega arith))
              (later_runs k (token + 1) file' (one_more_success counters') n' b j' known'))

  -- The lines of the first run, which begins at a time.
  abbrev pub written : ℕ → List String
  written n =
      line to_string n
      ∷ line to_string (n + 300)
      ∷ line to_string (n + 300 + 300)
      ∷ line to_string (n + 300 + 300 + 100)
      ∷ line to_string (n + 300 + 300 + 100 + 500)
      ∷ []

  file5-written :
      (w : Workflow) (file : List String) (counters : Counters) (n : ℕ)
      → file5 to_string w file counters n ≡ file ++ written n
  file5-written w [] counters n = refl
  file5-written w (x ∷ file) counters n = ap (λ l. x ∷ l) (file5-written w file counters n)

  all_runs :
      (k : ℕ) (token : Option ℕ) (file : List String) (counters : Counters) (n : ℕ)
      (a : Spec String Variables)
      → Journal workflow_id token [] false a.memo
      → Known to_string file counters n a
      → Returns (runs promised to_string (suc k)) a tt (λ b.
        b.user
        ≡ record { file = file ++ written n; disk_error = none; counters = more (suc k) counters })
  all_runs k token file counters n a j known =
      let w = started_as token workflow_id options in
      >>-Returns
        (run_lem token [] (results5 to_string w file counters n) file
          (file5 to_string w file counters n) counters n (n + 300 + 300 + 100 + 500 + 1000) a
          (first_calls to_string w file counters n) j known)
        (λ b (j', known').
          returns_as
            (λ c user.
              user
              ∙ at_count (file5 to_string w file counters n) counters _ _ (omega arith)
              ∙ ap (λ l. record { file = l; disk_error = none; counters = more (suc k) counters })
                  (file5-written w file counters n))
            (later_runs w file counters n k w.fencing_token (file5 to_string w file counters n)
              (one_more_success counters) (n + 300 + 300 + 100 + 500 + 1000) b j' known'))

-- Any number of runs of the one workflow, one after the other, on the library, over the adapter and the
-- server, if the server has no result and no lease of the workflow at first and the disk gives no error:
-- each run counts as a success, and the file has the five lines of the first run and no others.
pub runs-succeed :
    (f : Platform String Variables) (to_string : ℕ → String) (k : ℕ) (file : List String)
    (counters : Counters) (e : World Variables)
    → IsFaithful f
    → IsFresh (λ other. other ≡ workflow_id) e.database
    → e.user ≡ record { file = file; disk_error = none; counters = counters }
    → ((runs (library f) to_string (suc k) e).0 ≡ done tt)
      × ((runs (library f) to_string (suc k) e).1.user ≡ record {
        file = file ++ written to_string e.database.now;
        disk_error = none;
        counters = record counters { success = counters.success + suc k };
      })
runs-succeed f to_string k file counters e law fresh user =
    let Mine : String → Type 0 = λ other. other ≡ workflow_id in
    let a : Spec String Variables = record { memo = blank e.database; user = e.user } in
    let promise =
      all_runs to_string k (e.database.fencing_tokens workflow_id) file counters e.database.now a
        (blank-Journal e.database workflow_id) (user, refl) in
    let (ended, reflects) =
      library_returns Mine f.pack (runs promised to_string (suc k))
        (runs (library f) to_string (suc k)) e tt
        (runs-Follows _ _ _ _ (library-Implements Mine f law) refl to_string (suc k)).simulates
        fresh promise.ended in
    (ended, reflects.1 ∙ promise.after)
