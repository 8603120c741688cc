-- ===== src/Scenario/Expiry/Cleanup.antt =====
-- The status and the clean-up of the library do what is promised of them.
use idempotent_transformer.Common.{
  String, ◌≡◌, refl, ◌∙◌, Bool, true, false, Option, none, some, if◌then◌else◌,
}
use idempotent_transformer.Rpc.{WorkflowStatusInput}
use idempotent_transformer.Runner.{Workflow, get_workflow_status}
use idempotent_transformer.Grpc.{handle_error, get_workflow_status as adapter_status}
use idempotent_transformer.Server.{WorkflowRow, CheckpointValue}
use idempotent_transformer.Server.Requests.Durability.{content}
use idempotent_transformer.Server.Rpc.{service}
use idempotent_transformer.Server.Workflows.{is_expired, handle_workflow_cleanup}
use idempotent_transformer.Simulation.{Agrees, Follows}
use idempotent_transformer.Memo.{Spec}
use idempotent_transformer.Memo.Reflects.{packed, Reflects}
use idempotent_transformer.Memo.World.{World, Platform, IsFaithful, world_status}
use idempotent_transformer.Scenario.Expiry.{library_upkeep, promised_upkeep, status_by}

module _ (Mine : String → Type 0) {R V : Type 0} (f : Platform R V) (law : IsFaithful f) where
  status-Agrees :
      (w : Workflow) (i : WorkflowStatusInput) (a : Spec R V) (e : World V)
      (row : Option WorkflowRow)
      → Mine i.workflow_id
      → Reflects Mine f.pack a e
      → a.memo.rows i.workflow_id ≡ row
      → Agrees
          (Reflects Mine f.pack)
          (status_by f.getters i.workflow_id row a).0
          (status_by f.getters i.workflow_id row a).1
          (world_status f w i e).0
          (world_status f w i e).1
  unfolding world_status get_workflow_status adapter_status service handle_error
  status-Agrees w i a e none own (holds, same) there = rw (holds.rows i.workflow_id own ∙ there) (
      rw (law.details (record { code = "NOT_FOUND"; message = "workflow_not_found" }))
        (refl, (holds, same)))
  status-Agrees w i a e (some row) own (holds, same) there =
      rw (holds.rows i.workflow_id own ∙ there) (refl, (holds, same))

  pub status-Follows :
      (w : Workflow) (i : WorkflowStatusInput)
      → Mine i.workflow_id
      → Follows
          (Reflects Mine f.pack)
          ((promised_upkeep f.getters).get_workflow_status w i)
          ((library_upkeep f).get_workflow_status w i)
  status-Follows w i own = record {
    simulates = λ a e rel. status-Agrees w i a e (a.memo.rows i.workflow_id) own rel refl;
  }

  packed-cleaned :
      (b : Bool) (o : Option CheckpointValue) (c : Option (String × R))
      → content o ≡ packed f.pack c
      → content (if b then none else o) ≡ packed f.pack (if b then none else c)
  packed-cleaned true o c e = refl
  packed-cleaned false o c e = e

  pub clean_up-Follows :
      Follows
        (Reflects Mine f.pack)
        (promised_upkeep f.getters).clean_up
        (library_upkeep f).clean_up
  unfolding handle_workflow_cleanup
  clean_up-Follows = record {
    simulates = λ a e (holds, same). (
      refl,
      (
        record {
          now = holds.now;
          tokens = λ id own. rw (holds.now, holds.rows id own, holds.tokens id own) refl;
          rows = λ id own. rw (holds.now, holds.rows id own) refl;
          results = λ id p own.
              rw (holds.now, holds.rows id own)
                (packed-cleaned (is_expired a.memo.now (a.memo.rows id))
                  (e.database.checkpoints id p) (a.memo.results id p) (holds.results id p own));
          leases = holds.leases;
        },
        same,
      ),
    );
  }
