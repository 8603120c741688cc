-- ===== src/Server/Workflows.antt =====
-- server/src/services/workflow_service.rs: the handlers of workflows, and the clean-up.
use idempotent_transformer.Common.{
  ℕ, ◌+◌, Bool, true, false, Option, none, some, ltb, if◌then◌else◌,
}
use idempotent_transformer.Async.{Async, throw, modify, ◌>>=◌, ◌>>◌}
use idempotent_transformer.Rpc.{StartWorkflowInput, CompleteWorkflowInput}
use idempotent_transformer.Server.{
  running, completed, WorkflowRow, Database, with_row, get_workflow_fencing_token,
  increment_workflow_fencing_token, create_or_get_workflow,
}
use idempotent_transformer.Server.Checkpoints.{not_found, expired}

unfoldable pub create_workflow : StartWorkflowInput → Async Database ℕ
create_workflow data_ = do
  create_or_get_workflow data_.workflow_id data_.name
  increment_workflow_fencing_token data_.workflow_id 1

abbrev pub finished : Option WorkflowRow → (now expire_after : ℕ) → Option WorkflowRow
finished none now expire_after = none
finished (some row) now expire_after = some (record row {
  status = completed;
  expire_at = some (now + expire_after);
  completed_at = some now;
})

-- `UPDATE Workflows SET expire_at = $1, status = $2, completed_at = $3 WHERE id = $4`
abbrev pub finish : CompleteWorkflowInput → Async Database (Unit {0})
finish data_ = modify (λ d. record d {
  workflows =
      with_row d.workflows data_.workflow_id
        (finished (d.workflows data_.workflow_id) d.now data_.expire_after);
})

abbrev pub finish_with : CompleteWorkflowInput → Option ℕ → Async Database (Unit {0})
finish_with data_ none = throw not_found
finish_with data_ (some token) =
    if ltb token data_.fencing_token then throw expired else finish data_

unfoldable pub finish_workflow : CompleteWorkflowInput → Async Database (Unit {0})
finish_workflow data_ = do
  token ← get_workflow_fencing_token data_.workflow_id
  finish_with data_ token

-- `expire_at < $1 AND status = $2`
abbrev pub is_expired : ℕ → Option WorkflowRow → Bool
is_expired now none = false
is_expired now (some row) = elim row.status [
  | running ↦ false
  | completed ↦ elim row.expire_at [ none ↦ false | some t ↦ ltb t now ]
]

-- The three deletions, which run on the leader only. Two of them select from the workflows, which the
-- last one deletes.
unfoldable pub handle_workflow_cleanup : (is_leader : Bool) → Database → Database
handle_workflow_cleanup false d = d
handle_workflow_cleanup true d = record d {
  fencing_tokens = λ id. if is_expired d.now (d.workflows id) then none else d.fencing_tokens id;
  checkpoints = λ id p. if is_expired d.now (d.workflows id) then none else d.checkpoints id p;
  workflows = λ id. if is_expired d.now (d.workflows id) then none else d.workflows id;
}
