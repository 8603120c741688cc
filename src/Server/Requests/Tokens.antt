-- ===== src/Server/Requests/Tokens.antt =====
-- Fencing tokens only grow, and a runner with an old one leases nothing.
use idempotent_transformer.Common.{
  ℕ, ◌+◌, ◌≤◌, ◌<◌, String, ◌≡◌, ◌≢◌, refl, inl, inr, false, Bool-cases, Option, none, some, List,
  [], ◌∷◌, str_eq, str_eq_iff, arith,
}
use idempotent_transformer.Async.{done}
use idempotent_transformer.Rpc.{
  StartWorkflowInput, LeaseCheckpointInput, GenerateIdempotencyKeyInput, CompleteWorkflowInput,
}
use idempotent_transformer.Server.{
  LeasedCheckpointValue, Database, Libraries, CheckpointValue, cached, remove_leased_checkpoint,
}
use idempotent_transformer.Server.Checkpoints.{
  CheckpointInput, checkpoint_with, lease_with, lease_by_token, key_with, key_found, lease_found,
  stored_reply, handle_checkpoint, handle_lease_checkpoint, create_durable_idempotency_key,
}
use idempotent_transformer.Server.Workflows.{create_workflow, finish_workflow, finish_with}
use idempotent_transformer.Server.Requests.{
  Request, start, complete, checkpoint, lease, release, generate, wait, serve, serve_all,
}

-- The token of a workflow is `t` or a later one.
abbrev Reached : String → ℕ → Database → Type 0
Reached id t d = (u : ℕ) × (d.fencing_tokens id ≡ some u) × (t ≤ u)

-- Handlers that leave the tokens alone.
abbrev SameTokens : Database → Database → Type 0
SameTokens d e = (id : String) → e.fencing_tokens id ≡ d.fencing_tokens id

checkpoint_with-SameTokens :
    (i : CheckpointInput) (token : Option ℕ) (l : Option LeasedCheckpointValue) (d : Database)
    → SameTokens d (checkpoint_with i token l d).1
checkpoint_with-SameTokens i none l d id = refl
checkpoint_with-SameTokens i (some token) l d id = ground arith

lease_by_token-SameTokens :
    (i : LeaseCheckpointInput) (token : Option ℕ) (d : Database)
    → SameTokens d (lease_by_token i token d).1
lease_by_token-SameTokens i none d id = refl
lease_by_token-SameTokens i (some token) d id = ground arith

lease_with-SameTokens :
    (i : LeaseCheckpointInput) (l : Option LeasedCheckpointValue) (token : Option ℕ) (d : Database)
    → SameTokens d (lease_with i l token d).1
lease_with-SameTokens i none token d id = lease_by_token-SameTokens i token d id
lease_with-SameTokens i (some l) token d id = ground (arith, lease_by_token-SameTokens i token d id)

stored_reply-SameTokens :
    (i : LeaseCheckpointInput) (row : CheckpointValue) (d : Database)
    → SameTokens d (stored_reply i row d).1
stored_reply-SameTokens i row d id = ground arith

key_with-SameTokens :
    (fresh : String) (i : GenerateIdempotencyKeyInput) (token : Option ℕ) (d : Database)
    → SameTokens d (key_with fresh i token d).1
key_with-SameTokens fresh i none d id = refl
key_with-SameTokens fresh i (some token) d id = ground arith

finish_with-SameTokens :
    (i : CompleteWorkflowInput) (token : Option ℕ) (d : Database)
    → SameTokens d (finish_with i token d).1
finish_with-SameTokens i none d id = refl
finish_with-SameTokens i (some token) d id = ground arith

start-Reached :
    (i : StartWorkflowInput) (id : String) (t : ℕ) (d : Database)
    → Reached id t d
    → Reached id t (create_workflow i d).1
unfolding create_workflow
start-Reached i id t d (u, e, le) = elim (Bool-cases (str_eq i.workflow_id id)) [
  | inl same ↦ (u + 1, (rw (same, (str_eq_iff i.workflow_id id).0 same, e) refl), omega arith)
  | inr other ↦ (u, rw other e, le)
]

module _ (lib : Libraries) where
  lease_found-SameTokens :
      (i : LeaseCheckpointInput) (o : Option CheckpointValue) (d : Database)
      → SameTokens d (lease_found lib i o d).1
  lease_found-SameTokens i none d =
      lease_with-SameTokens i (cached lib (d.leases i.workflow_id i.position) d.now)
        (d.fencing_tokens i.workflow_id) d
  lease_found-SameTokens i (some row) d = stored_reply-SameTokens i row d

  key_found-SameTokens :
      (i : GenerateIdempotencyKeyInput) (o : Option CheckpointValue) (d : Database)
      → SameTokens d (key_found lib i o d).1
  key_found-SameTokens i none d id =
      key_with-SameTokens (lib.uuid d.uuids) i (d.fencing_tokens i.workflow_id) d id
  key_found-SameTokens i (some row) d id = refl

  same-Reached :
      (id : String) (t : ℕ) (d e : Database) → SameTokens d e → Reached id t d → Reached id t e
  same-Reached id t d e same (u, f, le) = (u, rw (same id) f, le)

  serve-Reached :
      (id : String) (t : ℕ) (r : Request) (d : Database)
      → Reached id t d
      → Reached id t (serve lib r d)
  unfolding serve finish_workflow handle_checkpoint handle_lease_checkpoint
      create_durable_idempotency_key
  serve-Reached id t (start i) d s = start-Reached i id t d s
  serve-Reached id t (complete i) d s =
      same-Reached id t d (serve lib (complete i) d)
        (finish_with-SameTokens i (d.fencing_tokens i.workflow_id) d) s
  serve-Reached id t (checkpoint i) d s =
      same-Reached id t d (serve lib (checkpoint i) d)
        (checkpoint_with-SameTokens i (d.fencing_tokens i.workflow_id)
          (cached lib (d.leases i.workflow_id i.position) d.now) _)
        s
  serve-Reached id t (lease i) d s =
      same-Reached id t d (serve lib (lease i) d)
        (lease_found-SameTokens i (d.checkpoints i.workflow_id i.position) d) s
  serve-Reached id t (release id' q) d s = s
  serve-Reached id t (generate i) d s =
      same-Reached id t d (serve lib (generate i) d)
        (key_found-SameTokens i (d.checkpoints i.workflow_id i.position) d) s
  serve-Reached id t (wait ms) d s = s

  serve_all-Reached :
      (id : String) (t : ℕ) (rs : List Request) (d : Database)
      → Reached id t d
      → Reached id t (serve_all lib rs d)
  serve_all-Reached id t [] d s = s
  serve_all-Reached id t (r ∷ rs) d s =
      serve_all-Reached id t rs (serve lib r d) (serve-Reached id t r d s)

  lease_by_token-old :
      (i : LeaseCheckpointInput) (u : ℕ) (d : Database)
      → i.fencing_token < u
      → (lease_by_token i (some u) d).0 ≢ done none
  lease_by_token-old i u d old e = ground arith

  lease_with-old :
      (i : LeaseCheckpointInput) (l : Option LeasedCheckpointValue) (u : ℕ) (d : Database)
      → i.fencing_token < u
      → (lease_with i l (some u) d).0 ≢ done none
  lease_with-old i none u d old e = lease_by_token-old i u d old e
  lease_with-old i (some l) u d old e = ground (arith, lease_by_token-old i u d old)

  lease_found-old :
      (i : LeaseCheckpointInput) (o : Option CheckpointValue) (u : ℕ) (d : Database)
      → d.fencing_tokens i.workflow_id ≡ some u
      → i.fencing_token < u
      → (lease_found lib i o d).0 ≢ done none
  lease_found-old i none u d f old e =
      lease_with-old i (cached lib (d.leases i.workflow_id i.position) d.now) u d old (rw f at e)
  lease_found-old i (some row) u d f old e = ground arith

  checkpoint_with-old :
      (i : CheckpointInput) (l : Option LeasedCheckpointValue) (u : ℕ) (d : Database)
      → i.fencing_token < u
      → (checkpoint_with i (some u) l d).0 ≢ done false
  checkpoint_with-old i l u d old e = ground arith

  handle_checkpoint-old :
      (i : CheckpointInput) (u : ℕ) (d : Database)
      → d.fencing_tokens i.workflow_id ≡ some u
      → i.fencing_token < u
      → (handle_checkpoint lib i d).0 ≢ done false
  unfolding handle_checkpoint
  handle_checkpoint-old i u d f old e =
      checkpoint_with-old i (cached lib (d.leases i.workflow_id i.position) d.now) u
        (remove_leased_checkpoint lib i.workflow_id i.position d).1 old (rw f at e)

  -- Once a workflow has a later token than that of a runner, then through all requests from there on the
  -- runner is never given a lease, and no checkpoint of it is taken without telling it to abort.
  pub old_token_refused :
      (i : LeaseCheckpointInput) (j : CheckpointInput) (t : ℕ) (rs : List Request) (d : Database)
      → Reached i.workflow_id t d
      → i.fencing_token < t
      → j.workflow_id ≡ i.workflow_id
      → j.fencing_token ≡ i.fencing_token
      → let e = serve_all lib rs d in
        ((handle_lease_checkpoint lib i e).0 ≢ done none)
        × ((handle_checkpoint lib j e).0 ≢ done false)
  unfolding handle_lease_checkpoint
  old_token_refused i j t rs d s old same_id same_token =
      let e = serve_all lib rs d in
      let (u, f, le) = serve_all-Reached i.workflow_id t rs d s in
      (
        λ k. lease_found-old i (e.checkpoints i.workflow_id i.position) u e f (omega arith) k,
        handle_checkpoint-old j u e (rw same_id f) (omega arith),
      )
