-- ===== src/Server/Requests/Clock.antt =====
-- What leaves the lease of a checkpoint alone, and the clock, which no request turns back.
use idempotent_transformer.Common.{
  ℕ, ◌≤◌, String, ◌≡◌, refl, false, ◌&&◌, Option, none, some, List, [], ◌∷◌, ◌==◌, str_eq, arith,
}
use idempotent_transformer.Rpc.{
  LeaseCheckpointInput, GenerateIdempotencyKeyInput, CompleteWorkflowInput,
}
use idempotent_transformer.Server.{
  LeasedCheckpointValue, Database, Libraries, CheckpointValue, cached, remove_leased_checkpoint,
}
use idempotent_transformer.Server.Checkpoints.{
  CheckpointInput, checkpoint_with, lease_with, lease_by_token, key_with, key_found, lease_found,
  stored_reply, handle_checkpoint, handle_lease_checkpoint, create_durable_idempotency_key,
}
use idempotent_transformer.Server.Workflows.{create_workflow, finish_workflow, finish_with}
use idempotent_transformer.Server.Requests.{
  Request, start, complete, checkpoint, lease, release, generate, wait, serve, serve_all,
}

module _ (id : String) (p : ℕ) where
  -- Handlers that leave the lease of one checkpoint, and the clock, alone.
  abbrev pub SameLease : Database → Database → Type 0
  SameLease d e = (e.leases id p ≡ d.leases id p) × (e.now ≡ d.now)

  pub checkpoint_with-SameLease :
      (i : CheckpointInput) (token : Option ℕ) (l : Option LeasedCheckpointValue) (d : Database)
      → SameLease d (checkpoint_with i token l d).1
  checkpoint_with-SameLease i none l d = (refl, refl)
  checkpoint_with-SameLease i (some token) l d = ground arith

  lease_by_token-SameLease :
      (i : LeaseCheckpointInput) (token : Option ℕ) (d : Database)
      → (str_eq i.workflow_id id && (i.position == p)) ≡ false
      → SameLease d (lease_by_token i token d).1
  lease_by_token-SameLease i none d other = (refl, refl)
  lease_by_token-SameLease i (some token) d other = ground arith

  pub lease_with-SameLease :
      (i : LeaseCheckpointInput) (l : Option LeasedCheckpointValue) (token : Option ℕ)
      (d : Database)
      → (str_eq i.workflow_id id && (i.position == p)) ≡ false
      → SameLease d (lease_with i l token d).1
  lease_with-SameLease i none token d other = lease_by_token-SameLease i token d other
  lease_with-SameLease i (some l) token d other =
      let by_token = lease_by_token-SameLease i token d other in ground arith

  pub stored_reply-SameLease :
      (i : LeaseCheckpointInput) (row : CheckpointValue) (d : Database)
      → SameLease d (stored_reply i row d).1
  stored_reply-SameLease i row d = ground arith

  pub key_with-SameLease :
      (fresh : String) (i : GenerateIdempotencyKeyInput) (token : Option ℕ) (d : Database)
      → SameLease d (key_with fresh i token d).1
  key_with-SameLease fresh i none d = (refl, refl)
  key_with-SameLease fresh i (some token) d = ground arith

  pub finish_with-SameLease :
      (i : CompleteWorkflowInput) (token : Option ℕ) (d : Database)
      → SameLease d (finish_with i token d).1
  finish_with-SameLease i none d = (refl, refl)
  finish_with-SameLease i (some token) d = ground arith

lease_by_token-now :
    (i : LeaseCheckpointInput) (token : Option ℕ) (d : Database)
    → (lease_by_token i token d).1.now ≡ d.now
lease_by_token-now i none d = refl
lease_by_token-now i (some token) d = ground arith

lease_with-now :
    (i : LeaseCheckpointInput) (l : Option LeasedCheckpointValue) (token : Option ℕ) (d : Database)
    → (lease_with i l token d).1.now ≡ d.now
lease_with-now i none token d = lease_by_token-now i token d
lease_with-now i (some l) token d = ground (arith, lease_by_token-now i token d)

module _ (lib : Libraries) where
  lease_found-now :
      (i : LeaseCheckpointInput) (o : Option CheckpointValue) (d : Database)
      → (lease_found lib i o d).1.now ≡ d.now
  lease_found-now i none d =
      lease_with-now i (cached lib (d.leases i.workflow_id i.position) d.now)
        (d.fencing_tokens i.workflow_id) d
  lease_found-now i (some row) d = (stored_reply-SameLease "" 0 i row d).1

  key_found-now :
      (i : GenerateIdempotencyKeyInput) (o : Option CheckpointValue) (d : Database)
      → (key_found lib i o d).1.now ≡ d.now
  key_found-now i none d =
      (key_with-SameLease "" 0 (lib.uuid d.uuids) i (d.fencing_tokens i.workflow_id) d).1
  key_found-now i (some row) d = refl

  -- No request turns the clock back.
  pub serve-now : (r : Request) (d : Database) → d.now ≤ (serve lib r d).now
  unfolding serve create_workflow finish_workflow handle_checkpoint handle_lease_checkpoint
      create_durable_idempotency_key
  serve-now (start i) d = omega arith
  serve-now (complete i) d =
      omega (arith, (finish_with-SameLease "" 0 i (d.fencing_tokens i.workflow_id) d).1)
  serve-now (checkpoint i) d = omega (
    arith,
    (checkpoint_with-SameLease "" 0 i (d.fencing_tokens i.workflow_id)
        (cached lib (d.leases i.workflow_id i.position) d.now)
        (remove_leased_checkpoint lib i.workflow_id i.position d).1).1,
  )
  serve-now (lease i) d =
      omega (arith, lease_found-now i (d.checkpoints i.workflow_id i.position) d)
  serve-now (release id q) d = omega arith
  serve-now (generate i) d =
      omega (arith, key_found-now i (d.checkpoints i.workflow_id i.position) d)
  serve-now (wait ms) d = omega arith

  pub serve_all-now : (rs : List Request) (d : Database) → d.now ≤ (serve_all lib rs d).now
  serve_all-now [] d = omega arith
  serve_all-now (r ∷ rs) d = omega (arith, serve-now r d, serve_all-now rs (serve lib r d))
