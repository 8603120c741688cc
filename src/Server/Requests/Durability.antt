-- ===== src/Server/Requests/Durability.antt =====
-- A checkpoint that is there keeps its key and its value, whatever is asked of the server.
use idempotent_transformer.Common.{
  ℕ, ◌+◌, String, ◌≡◌, ap, ◌∙◌, Option, none, some, List, [], ◌∷◌, str_eq, str_eq_iff,
  if◌then◌else◌, arith,
}
use idempotent_transformer.Async.{Outcome, done, thrown}
use idempotent_transformer.Rpc.{
  LeaseCheckpointInput, GenerateIdempotencyKeyInput, CompleteWorkflowInput,
}
use idempotent_transformer.Server.{
  LeasedCheckpointValue, cached, remove_leased_checkpoint, Database, Libraries, CheckpointValue,
  upserted, create_checkpoint,
}
use idempotent_transformer.Server.Checkpoints.{
  CheckpointInput, checkpoint_with, lease_with, lease_by_token, key_with, key_found, lease_found,
  stored_reply, handle_checkpoint, handle_lease_checkpoint, create_durable_idempotency_key,
  LeaseReply, checkpoint_value, non_deterministic, no_value,
}
use idempotent_transformer.Server.Workflows.{create_workflow, finish_workflow, finish_with}
use idempotent_transformer.Server.Requests.{
  Request, start, complete, checkpoint, lease, release, generate, wait, serve, serve_all,
}

-- A row of the checkpoints, without the time at which it was written.
abbrev pub content : Option CheckpointValue → Option (String × Option (List ℕ))
content none = none
content (some row) = some (row.idempotency_key, row.value)

-- What is stored under a position.
abbrev pub Stored : String → ℕ → String × Option (List ℕ) → Database → Type 0
Stored id p c d = content (d.checkpoints id p) ≡ some c

content-upserted :
    (o : Option CheckpointValue) (c : String × Option (List ℕ)) (key : String)
    (value : Option (List ℕ)) (now : ℕ)
    → content o ≡ some c
    → content (some (upserted o key value now)) ≡ some c
content-upserted none c key value now e = cc
content-upserted (some row) c key value now e = e

module _ (id : String) (p : ℕ) (c : String × Option (List ℕ)) where
  create_checkpoint-Stored :
      (id' : String) (value : Option (List ℕ)) (q : ℕ) (key : String) (d : Database)
      → Stored id p c d
      → Stored id p c (create_checkpoint id' value q key d).1
  create_checkpoint-Stored id' value q key d s =
      ground (arith, str_eq_iff id' id, content-upserted (d.checkpoints id p) c key value d.now s)

  checkpoint_with-Stored :
      (i : CheckpointInput) (token : Option ℕ) (l : Option LeasedCheckpointValue) (d : Database)
      → Stored id p c d
      → Stored id p c (checkpoint_with i token l d).1
  checkpoint_with-Stored i none l d s = s
  checkpoint_with-Stored i (some token) l d s =
      let created =
        create_checkpoint-Stored i.workflow_id (some i.value) i.position i.idempotency_key d s in
      ground arith

  lease_by_token-Stored :
      (i : LeaseCheckpointInput) (token : Option ℕ) (d : Database)
      → Stored id p c d
      → Stored id p c (lease_by_token i token d).1
  lease_by_token-Stored i none d s = s
  lease_by_token-Stored i (some token) d s = ground arith

  lease_with-Stored :
      (i : LeaseCheckpointInput) (l : Option LeasedCheckpointValue) (token : Option ℕ)
      (d : Database)
      → Stored id p c d
      → Stored id p c (lease_with i l token d).1
  lease_with-Stored i none token d s = lease_by_token-Stored i token d s
  lease_with-Stored i (some l) token d s = ground (arith, lease_by_token-Stored i token d s)

  stored_reply-Stored :
      (i : LeaseCheckpointInput) (row : CheckpointValue) (d : Database)
      → Stored id p c d
      → Stored id p c (stored_reply i row d).1
  stored_reply-Stored i row d s = ground arith

  key_with-Stored :
      (fresh : String) (i : GenerateIdempotencyKeyInput) (token : Option ℕ) (d : Database)
      → Stored id p c d
      → Stored id p c (key_with fresh i token d).1
  key_with-Stored fresh i none d s = s
  key_with-Stored fresh i (some token) d s =
      let created =
        create_checkpoint-Stored i.workflow_id none i.position fresh
          (record d { uuids = d.uuids + 1 }) s in
      ground arith

  finish_with-Stored :
      (i : CompleteWorkflowInput) (token : Option ℕ) (d : Database)
      → Stored id p c d
      → Stored id p c (finish_with i token d).1
  finish_with-Stored i none d s = s
  finish_with-Stored i (some token) d s = ground arith

  module _ (lib : Libraries) where
    lease_found-Stored :
        (i : LeaseCheckpointInput) (o : Option CheckpointValue) (d : Database)
        → Stored id p c d
        → Stored id p c (lease_found lib i o d).1
    lease_found-Stored i none d s =
        lease_with-Stored i (cached lib (d.leases i.workflow_id i.position) d.now)
          (d.fencing_tokens i.workflow_id) d s
    lease_found-Stored i (some row) d s = stored_reply-Stored i row d s

    key_found-Stored :
        (i : GenerateIdempotencyKeyInput) (o : Option CheckpointValue) (d : Database)
        → Stored id p c d
        → Stored id p c (key_found lib i o d).1
    key_found-Stored i none d s =
        key_with-Stored (lib.uuid d.uuids) i (d.fencing_tokens i.workflow_id) d s
    key_found-Stored i (some row) d s = s

    serve-Stored : (r : Request) (d : Database) → Stored id p c d → Stored id p c (serve lib r d)
    unfolding serve create_workflow finish_workflow handle_checkpoint handle_lease_checkpoint
        create_durable_idempotency_key
    serve-Stored (start i) d s = s
    serve-Stored (complete i) d s = finish_with-Stored i (d.fencing_tokens i.workflow_id) d s
    serve-Stored (checkpoint i) d s =
        checkpoint_with-Stored i (d.fencing_tokens i.workflow_id)
          (cached lib (d.leases i.workflow_id i.position) d.now)
          (remove_leased_checkpoint lib i.workflow_id i.position d).1 s
    serve-Stored (lease i) d s = lease_found-Stored i (d.checkpoints i.workflow_id i.position) d s
    serve-Stored (release id' q) d s = s
    serve-Stored (generate i) d s = key_found-Stored i (d.checkpoints i.workflow_id i.position) d s
    serve-Stored (wait ms) d s = s

    -- A checkpoint that is stored keeps its key and its value through all requests that the server
    -- takes: those of later runners, with other keys and values for it, too.
    pub serve_all-Stored :
        (rs : List Request) (d : Database) → Stored id p c d → Stored id p c (serve_all lib rs d)
    serve_all-Stored [] d s = s
    serve_all-Stored (r ∷ rs) d s = serve_all-Stored rs (serve lib r d) (serve-Stored r d s)

-- The reply to a lease of a stored checkpoint: its value, if the key is the same and a value is there.
abbrev pub replied : String → String × Option (List ℕ) → Outcome (Option LeaseReply)
replied key (k, none) = if str_eq k key then thrown no_value else thrown non_deterministic
replied key (k, some v) =
    if str_eq k key then done (some (checkpoint_value v)) else thrown non_deterministic

stored_reply-replied :
    (i : LeaseCheckpointInput) (row : CheckpointValue) (d : Database)
    → (stored_reply i row d).0 ≡ replied i.idempotency_key (row.idempotency_key, row.value)
stored_reply-replied i row d = ground arith

lease_found-replied :
    (lib : Libraries) (i : LeaseCheckpointInput) (c : String × Option (List ℕ))
    (o : Option CheckpointValue) (d : Database)
    → content o ≡ some c
    → (lease_found lib i o d).0 ≡ replied i.idempotency_key c
lease_found-replied lib i c none d e = cc
lease_found-replied lib i c (some row) d e =
    let same : (row.idempotency_key, row.value) ≡ c = cc in
    stored_reply-replied i row d ∙ ap (replied i.idempotency_key) same

-- A lease is answered by the result that was first stored under its position, however many requests the
-- server took since: with its value if the key is the same and a value is there, and else with an error.
pub handle_lease_checkpoint-replied :
    (lib : Libraries) (rs : List Request) (d : Database) (i : LeaseCheckpointInput)
    (c : String × Option (List ℕ))
    → Stored i.workflow_id i.position c d
    → (handle_lease_checkpoint lib i (serve_all lib rs d)).0 ≡ replied i.idempotency_key c
unfolding handle_lease_checkpoint
handle_lease_checkpoint-replied lib rs d i c s =
    let e = serve_all lib rs d in
    lease_found-replied lib i c (e.checkpoints i.workflow_id i.position) e
      (serve_all-Stored i.workflow_id i.position c lib rs d s)
