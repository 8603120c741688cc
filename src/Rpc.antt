-- ===== src/Rpc.antt =====
-- packages/core/base: the messages between a runner and the workflow server, the contract of an
-- adapter that carries them, the error codes, and the contract of a serializer.
use idempotent_transformer.Common.{ℕ, String, Bool, true, not, Option, List, str_eq}
use idempotent_transformer.Async.{Async}

-- `TSerialized`: a string, or the bytes of a `Uint8Array`.
pub data Serialized : Type 0 where
  text : String → Serialized
  bytes : List ℕ → Serialized

-- As a condition, the empty string is falsy, and an array of any length is truthy.
abbrev pub is_truthy : Serialized → Bool
is_truthy (text s) = not (str_eq s "")
is_truthy (bytes b) = true

pub data ErrCodes : Type 0 where
  fencing_token_expired fencing_token_not_found non_deterministic_checkpoint_found : ErrCodes

abbrev pub code_text : ErrCodes → String
code_text fencing_token_expired = "fencing_token_expired"
code_text fencing_token_not_found = "fencing_token_not_found"
code_text non_deterministic_checkpoint_found = "non_deterministic_checkpoint_found"

pub record StartWorkflowInput : Type 0 where
  pub workflow_id : String
  pub name : Option String

pub record StartWorkflowOutput : Type 0 where
  pub fencing_token : ℕ

pub record CheckpointInput : Type 0 where
  pub workflow_id : String
  pub value : Serialized
  pub fencing_token : ℕ
  pub position : ℕ
  pub idempotency_key : String

pub record CheckpointOutput : Type 0 where
  pub abort : Bool

pub record LeaseCheckpointInput : Type 0 where
  pub workflow_id : String
  pub fencing_token : ℕ
  pub lease_timeout : ℕ
  pub position : ℕ
  pub idempotency_key : String

pub record LeaseCheckpointOutput : Type 0 where
  pub value : Option Serialized
  pub remaining_lease_timeout : Option ℕ

pub record CompleteWorkflowInput : Type 0 where
  pub workflow_id : String
  pub fencing_token : ℕ
  pub expire_after : ℕ

pub record WorkflowStatusInput : Type 0 where
  pub workflow_id : String

pub record WorkflowStatusOutput : Type 0 where
  pub id : String
  pub status : ℕ
  pub expire_at : Option ℕ
  pub completed_at : Option ℕ

pub record ReleaseLeaseCheckpointInput : Type 0 where
  pub workflow_id : String
  pub position : ℕ

pub record GenerateIdempotencyKeyInput : Type 0 where
  pub workflow_id : String
  pub fencing_token : ℕ
  pub position : ℕ

pub record GenerateIdempotencyKeyOutput : Type 0 where
  pub idempotency_key : String

-- `IdempotentRpcAdapter`, over the state `E` of everything outside of the worker.
pub record RpcAdapter (E : Type 0) : Type 0 where
  pub start_workflow : StartWorkflowInput → Async E StartWorkflowOutput
  pub checkpoint : CheckpointInput → Async E CheckpointOutput
  pub lease_checkpoint : LeaseCheckpointInput → Async E LeaseCheckpointOutput
  pub complete_workflow : CompleteWorkflowInput → Async E (Unit {0})
  pub get_workflow_status : WorkflowStatusInput → Async E WorkflowStatusOutput
  pub release_lease_checkpoint : ReleaseLeaseCheckpointInput → Async E (Unit {0})
  pub generate_idempotency_key : GenerateIdempotencyKeyInput → Async E GenerateIdempotencyKeyOutput

-- `IdempotentSerializer`, over the type `R` of JavaScript values. Its `configure` is in the
-- module of the serializer that implements it.
pub record IdempotentSerializer (E R : Type 0) : Type 0 where
  pub serialize : R → Async E Serialized
  pub deserialize : Serialized → Async E R
