-- ===== src/Overhead/Tests.antt =====
-- The measured workflows at a small server.
use idempotent_transformer.Common.{ℕ, String, ◌≡◌, refl, none, some, [], ◌∷◌}
use idempotent_transformer.Async.{Thrown, error, done}
use idempotent_transformer.Memo.World.{World}
use idempotent_transformer.Scenario.{library}
use idempotent_transformer.Scenario.Codec.{text, number}
use idempotent_transformer.Scenario.Refinement.{IsFresh}
use idempotent_transformer.Scenario.Sample.{platform, platform-IsFaithful, world, started-IsFresh}
use idempotent_transformer.Overhead.{Counters}
use idempotent_transformer.Overhead.SameWorkflow.{
  Variables, runs, workflow_id, run_workflow as run_same_workflow,
}
use idempotent_transformer.Overhead.SameWorkflow.Runs.{runs-succeed}
use idempotent_transformer.Overhead.SameWorkflow.Failure.{run_workflow-fails}
use idempotent_transformer.Overhead.DifferentWorkflow.{Variables as DataVariables, run_workflow}
use idempotent_transformer.Overhead.DifferentWorkflow.Runs.{run_workflow-succeeds}

abbrev no_counts : Counters
no_counts = record { success = 0; fail = 0 }

abbrev digit : ℕ → String
digit n = "0"

abbrev before : World Variables
before = world (record { file = []; disk_error = none; counters = no_counts })

runs-succeed_example :
    ((runs (library (platform text "")) digit 3 before).0 ≡ done tt)
    × ((runs (library (platform text "")) digit 3 before).1.user ≡ record {
      file = "0\n" ∷ "0\n" ∷ "0\n" ∷ "0\n" ∷ "0\n" ∷ [];
      disk_error = none;
      counters = record { success = 3; fail = 0 };
    })
runs-succeed_example =
    runs-succeed (platform text "") digit 2 [] no_counts before (platform-IsFaithful text "")
      (started-IsFresh _) refl

abbrev before_data : World DataVariables
before_data = world (record { made = 1; counters = no_counts })

run_workflow-succeeds_example :
    ((run_workflow (library (platform number 0)) (λ n. n) "b7" before_data).0 ≡ done tt)
    × ((run_workflow (library (platform number 0)) (λ n. n) "b7" before_data).1.user
        ≡ record { made = 7; counters = record { success = 1; fail = 0 } })
run_workflow-succeeds_example =
    run_workflow-succeeds (platform number 0) (λ n. n) "b7" 1 no_counts before_data
      (platform-IsFaithful number 0) (started-IsFresh _) refl

abbrev disk_full : Thrown
disk_full = error "Error" "ENOSPC"

abbrev before_failure : World Variables
before_failure = world (record { file = []; disk_error = some disk_full; counters = no_counts })

run_workflow-fails_example :
    let after = run_same_workflow (library (platform text "")) digit before_failure in
    (after.0 ≡ done tt)
    × ((after.1.user ≡ record {
      file = [];
      disk_error = some disk_full;
      counters = record { success = 0; fail = 1 };
    })
        × IsFresh (λ other. other ≡ workflow_id) after.1.database)
run_workflow-fails_example =
    run_workflow-fails (platform text "") digit [] disk_full no_counts before_failure
      (platform-IsFaithful text "") (started-IsFresh _) refl
