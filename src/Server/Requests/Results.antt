-- ===== src/Server/Requests/Results.antt =====
-- The first result that the server takes for a checkpoint.
use idempotent_transformer.Common.{
  ℕ, ◌≡◌, Bool, Option, none, some, List, str_eq, if◌then◌else◌, arith,
}
use text.Mathlib.TextPositions.{eq_refl}
use idempotent_transformer.Async.{done, thrown}
use idempotent_transformer.Rpc.{LeaseCheckpointInput}
use idempotent_transformer.Server.{
  LeasedCheckpointValue, Database, Libraries, cached, remove_leased_checkpoint,
}
use idempotent_transformer.Server.Checkpoints.{
  CheckpointInput, checkpoint_with, handle_checkpoint, handle_lease_checkpoint, checkpoint_value,
  non_deterministic,
}
use idempotent_transformer.Server.Requests.{Request, serve_all}
use idempotent_transformer.Server.Requests.Durability.{Stored, handle_lease_checkpoint-replied}

checkpoint_with-stores :
    (i : CheckpointInput) (token : Option ℕ) (l : Option LeasedCheckpointValue) (d : Database)
    (abort : Bool)
    → d.checkpoints i.workflow_id i.position ≡ none
    → (checkpoint_with i token l d).0 ≡ done abort
    → Stored i.workflow_id i.position
        (i.idempotency_key, some i.value)
        (checkpoint_with i token l d).1
checkpoint_with-stores i none l d abort new e = ground arith
checkpoint_with-stores i (some token) l d abort new e = ground (arith, eq_refl i.workflow_id)

-- The first result that the server takes for a checkpoint, aborting the runner or not, is the one that
-- every later lease of it with the same key is given, through all requests, those with other results for
-- the checkpoint included. A lease with another key fails as non-deterministic.
pub first_result_kept :
    (lib : Libraries) (i : CheckpointInput) (j : LeaseCheckpointInput) (abort : Bool)
    (rs : List Request) (d : Database)
    → d.checkpoints i.workflow_id i.position ≡ none
    → (handle_checkpoint lib i d).0 ≡ done abort
    → j.workflow_id ≡ i.workflow_id
    → j.position ≡ i.position
    → (handle_lease_checkpoint lib j (serve_all lib rs (handle_checkpoint lib i d).1)).0 ≡ (
        if str_eq i.idempotency_key j.idempotency_key
        then done (some (checkpoint_value i.value))
        else thrown non_deterministic)
unfolding handle_checkpoint
first_result_kept lib i j abort rs d new taken a b =
    let stored =
      checkpoint_with-stores i (d.fencing_tokens i.workflow_id)
        (cached lib (d.leases i.workflow_id i.position) d.now)
        (remove_leased_checkpoint lib i.workflow_id i.position d).1 abort new taken in
    handle_lease_checkpoint-replied lib rs (handle_checkpoint lib i d).1 j
      (i.idempotency_key, some i.value) (rw (a, b) stored)
