-- ===== src/Server/Requests.antt =====
-- The requests that the server takes, one after the other, and what no request changes.
pub mod Durability
pub mod Tokens
mod Clock
pub mod Leases
pub mod Keys
pub mod Results
pub mod Races
pub mod Retention
pub mod Sample
mod Tests
use idempotent_transformer.Common.{ℕ, ◌+◌, String, List, [], ◌∷◌}
use idempotent_transformer.Rpc.{
  StartWorkflowInput, LeaseCheckpointInput, CompleteWorkflowInput, GenerateIdempotencyKeyInput,
}
use idempotent_transformer.Server.{Database, Libraries}
use idempotent_transformer.Server.Checkpoints.{
  CheckpointInput, handle_checkpoint, handle_lease_checkpoint, release_checkpoint,
  create_durable_idempotency_key,
}
use idempotent_transformer.Server.Workflows.{create_workflow, finish_workflow}

-- `wait` stands for time that passes; the clean-up of expired workflows is none of these; the status of a workflow changes nothing, and so has no request.
pub data Request : Type 0 where
  start : StartWorkflowInput → Request
  complete : CompleteWorkflowInput → Request
  checkpoint : CheckpointInput → Request
  lease : LeaseCheckpointInput → Request
  release : String → ℕ → Request
  generate : GenerateIdempotencyKeyInput → Request
  wait : ℕ → Request

module _ (lib : Libraries) where
  unfoldable pub serve : Request → Database → Database
  serve (start i) d = (create_workflow i d).1
  serve (complete i) d = (finish_workflow i d).1
  serve (checkpoint i) d = (handle_checkpoint lib i d).1
  serve (lease i) d = (handle_lease_checkpoint lib i d).1
  serve (release id p) d = (release_checkpoint lib id p d).1
  serve (generate i) d = (create_durable_idempotency_key lib i d).1
  serve (wait ms) d = record d { now = d.now + ms }

  abbrev pub serve_all : List Request → Database → Database
  serve_all [] d = d
  serve_all (r ∷ rs) d = serve_all rs (serve r d)
