-- ===== src/Server/Checkpoints.antt =====
-- server/src/services/checkpoint_service.rs: the handlers of checkpoints and of their leases.
-- A handler is one step on the database, in the order of its awaits. An `io::Error` is an `error` with
-- the name of its kind.
use idempotent_transformer.Common.{
  ℕ, ◌+◌, ◌-◌, String, Bool, false, not, ◌&&◌, Option, none, some, List, ltb, ◌==◌, str_eq,
  if◌then◌else◌,
}
use idempotent_transformer.Async.{Thrown, error, Async, pure, throw, gets, modify, ◌>>=◌, ◌>>◌}
use idempotent_transformer.Rpc.{
  LeaseCheckpointInput, GenerateIdempotencyKeyInput, code_text, fencing_token_expired,
  fencing_token_not_found, non_deterministic_checkpoint_found,
}
use idempotent_transformer.Server.{
  CheckpointValue, LeasedCheckpointValue, Database, Libraries, get_checkpoint, create_checkpoint,
  lease_checkpoint, get_workflow_fencing_token, get_leased_checkpoint, remove_leased_checkpoint,
}

pub record CheckpointInput : Type 0 where
  pub workflow_id : String
  pub fencing_token : ℕ
  pub position : ℕ
  pub value : List ℕ
  pub idempotency_key : String

-- `LeaseCheckpointReturnType`
pub data LeaseReply : Type 0 where
  checkpoint_value : List ℕ → LeaseReply
  remaining_lease_timeout : ℕ → LeaseReply

abbrev pub max_i64 : ℕ
max_i64 = 9223372036854775807

abbrev pub saturating_add : ℕ → ℕ → ℕ
saturating_add a b = if ltb max_i64 (a + b) then max_i64 else a + b

-- The remaining time, which is 0 here where it is 0 or less.
abbrev pub diff_lease_expiry_from_now : LeasedCheckpointValue → ℕ → ℕ
diff_lease_expiry_from_now lease now = saturating_add lease.created_at lease.lease_timeout - now

abbrev pub not_found : Thrown
not_found = error "NotFound" (code_text fencing_token_not_found)

abbrev pub no_token : Thrown
no_token = error "InvalidData" (code_text fencing_token_not_found)

abbrev pub expired : Thrown
expired = error "InvalidData" (code_text fencing_token_expired)

abbrev pub non_deterministic : Thrown
non_deterministic = error "Interrupted" (code_text non_deterministic_checkpoint_found)

abbrev pub no_value : Thrown
no_value = error "InvalidData" "checkpoint_value_not_found"

abbrev pub unexpected_state : Thrown
unexpected_state = error "Other" "unexpected state"

-- Whether a lease was there, with no time remaining.
abbrev pub ran_out : Option LeasedCheckpointValue → ℕ → Bool
ran_out none now = false
ran_out (some lease) now = diff_lease_expiry_from_now lease now == 0

-- `handle_checkpoint` with the token and the lease that it has read; its value is `abort`.
abbrev pub checkpoint_with :
    CheckpointInput → Option ℕ → Option LeasedCheckpointValue → Async Database Bool
checkpoint_with data_ none lease = throw not_found
checkpoint_with data_ (some token) lease = do
  now ← gets (λ d. d.now)
  if ran_out lease now && ltb data_.fencing_token token then throw expired else (do
    create_checkpoint data_.workflow_id (some data_.value) data_.position data_.idempotency_key
    pure (ltb data_.fencing_token token))

-- `handle_lease_checkpoint` where a checkpoint is there.
abbrev pub stored_reply :
    LeaseCheckpointInput → CheckpointValue → Async Database (Option LeaseReply)
stored_reply data_ row =
    if not (str_eq row.idempotency_key data_.idempotency_key)
    then throw non_deterministic
    else elim row.value [ none ↦ throw no_value | some v ↦ pure (some (checkpoint_value v)) ]

-- The part of it behind the check for a lease, with the token that it has read.
abbrev pub lease_by_token : LeaseCheckpointInput → Option ℕ → Async Database (Option LeaseReply)
lease_by_token data_ none = throw no_token
lease_by_token data_ (some token) =
    if ltb data_.fencing_token token
    then throw expired
    else if data_.fencing_token == token
    then (do lease_checkpoint data_.workflow_id data_.position data_.lease_timeout; pure none)
    else throw unexpected_state

-- The part behind the two reads, with what they have given.
abbrev pub lease_with :
    LeaseCheckpointInput
    → Option LeasedCheckpointValue
    → Option ℕ
    → Async Database (Option LeaseReply)
lease_with data_ none token = lease_by_token data_ token
lease_with data_ (some lease) token = do
  now ← gets (λ d. d.now)
  if ltb 0 (diff_lease_expiry_from_now lease now)
      then pure (some (remaining_lease_timeout (diff_lease_expiry_from_now lease now)))
      else lease_by_token data_ token

-- `create_durable_idempotency_key` where there is no checkpoint, with the token that it has read.
abbrev pub key_with : (String) → GenerateIdempotencyKeyInput → Option ℕ → Async Database String
key_with fresh data_ none = throw no_token
key_with fresh data_ (some token) = if ltb data_.fencing_token token then throw expired else (do
  modify (λ d. record d { uuids = d.uuids + 1 })
  create_checkpoint data_.workflow_id none data_.position fresh
  pure fresh)

module _ (lib : Libraries) where
  unfoldable pub handle_checkpoint : CheckpointInput → Async Database Bool
  handle_checkpoint data_ = do
    token ← get_workflow_fencing_token data_.workflow_id
    lease ← remove_leased_checkpoint lib data_.workflow_id data_.position
    checkpoint_with data_ token lease

  -- The reads of `handle_lease_checkpoint`. The lock in front of them, whose guard `let _ = …` drops at once,
  -- matters between requests only, and is in Server/Interleaving.antt.
  abbrev pub lease_reads :
      LeaseCheckpointInput → Async Database (Option LeasedCheckpointValue × Option ℕ)
  lease_reads data_ = do
    lease ← get_leased_checkpoint lib data_.workflow_id data_.position
    token ← get_workflow_fencing_token data_.workflow_id
    pure (lease, token)

  -- `handle_lease_checkpoint` with the checkpoint that it has found.
  abbrev pub lease_found :
      LeaseCheckpointInput → Option CheckpointValue → Async Database (Option LeaseReply)
  lease_found data_ (some row) = stored_reply data_ row
  lease_found data_ none = lease_reads data_ >>= λ (lease, token). lease_with data_ lease token

  unfoldable pub handle_lease_checkpoint : LeaseCheckpointInput → Async Database (Option LeaseReply)
  handle_lease_checkpoint data_ = do
    found ← get_checkpoint data_.workflow_id data_.position
    lease_found data_ found

  abbrev pub release_checkpoint : String → ℕ → Async Database (Unit {0})
  release_checkpoint id p = do remove_leased_checkpoint lib id p; pure tt

  -- `create_durable_idempotency_key` with the checkpoint that it has found.
  abbrev pub key_found :
      GenerateIdempotencyKeyInput → Option CheckpointValue → Async Database String
  key_found data_ (some row) = pure row.idempotency_key
  key_found data_ none = do
    token ← get_workflow_fencing_token data_.workflow_id
    fresh ← gets (λ d. lib.uuid d.uuids)
    key_with fresh data_ token

  unfoldable pub create_durable_idempotency_key :
      GenerateIdempotencyKeyInput → Async Database String
  create_durable_idempotency_key data_ = do
    found ← get_checkpoint data_.workflow_id data_.position
    key_found data_ found
