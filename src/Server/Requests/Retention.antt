-- ===== src/Server/Requests/Retention.antt =====
-- How long a completed workflow is kept.
use idempotent_transformer.Common.{
  ℕ, ◌+◌, ◌≤◌, ◌≡◌, ◌↔◌, true, Option, none, some, ltb, if◌then◌else◌, arith,
}
use text.Mathlib.TextPositions.{eq_refl}
use idempotent_transformer.Async.{done}
use idempotent_transformer.Rpc.{CompleteWorkflowInput}
use idempotent_transformer.Server.{WorkflowRow, Database}
use idempotent_transformer.Server.Workflows.{finish_workflow, finish_with, handle_workflow_cleanup}

finish_with-done :
    (i : CompleteWorkflowInput) (o : Option ℕ) (t : ℕ) (d : Database)
    → o ≡ some t
    → ((finish_with i o d).0 ≡ done tt) ↔ (i.fencing_token ≤ t)
finish_with-done i o t d e = rw e (ground arith)

-- A runner may complete its workflow exactly if the workflow's token is its own or a later one: so also
-- a runner that was superseded.
pub finish_workflow-done :
    (i : CompleteWorkflowInput) (t : ℕ) (d : Database)
    → d.fencing_tokens i.workflow_id ≡ some t
    → ((finish_workflow i d).0 ≡ done tt) ↔ (i.fencing_token ≤ t)
unfolding finish_workflow
finish_workflow-done i t d e = finish_with-done i (d.fencing_tokens i.workflow_id) t d e

-- A clean-up that follows the completion of a workflow, after some time: it deletes the checkpoints of
-- the workflow if that time is longer than the runner asked for them to be kept, and else leaves them.
pub cleanup-retention :
    (i : CompleteWorkflowInput) (t ms : ℕ) (row : WorkflowRow) (d : Database) (p : ℕ)
    → d.fencing_tokens i.workflow_id ≡ some t
    → i.fencing_token ≤ t
    → d.workflows i.workflow_id ≡ some row
    → (handle_workflow_cleanup true
          (record (finish_workflow i d).1 { now = (finish_workflow i d).1.now + ms })).checkpoints
        i.workflow_id p
      ≡ (if ltb i.expire_after ms then none else d.checkpoints i.workflow_id p)
unfolding finish_workflow handle_workflow_cleanup
cleanup-retention i t ms row d p e le found = ground (arith, eq_refl i.workflow_id)
