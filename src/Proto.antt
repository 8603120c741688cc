-- ===== src/Proto.antt =====
-- server/proto/workflow_service.proto: the messages between the adapter and the server.
use idempotent_transformer.Common.{ℕ, String, Bool, Option, List}
use idempotent_transformer.Rpc.{Serialized}

-- A field with no presence is empty or 0 until it is set.
pub record GenerateIdempotencyKeyRequest : Type 0 where
  pub workflow_id : String
  pub fencing_token : ℕ
  pub position : ℕ

pub record ReleaseCheckpointRequest : Type 0 where
  pub workflow_id : String
  pub position : ℕ

pub record WorkflowStatusRequest : Type 0 where
  pub workflow_id : String

pub record WorkflowStatusResponse : Type 0 where
  pub workflow_id : String
  pub status : ℕ
  pub expire_at : Option ℕ
  pub created_at : ℕ
  pub completed_at : Option ℕ

pub record WorkflowStartRequest : Type 0 where
  pub workflow_id : String
  pub context_name : Option String

pub record WorkflowStartResponse : Type 0 where
  pub fencing_token : ℕ

pub record CheckPointRequest : Type 0 where
  pub workflow_id : String
  pub value : Serialized
  pub fencing_token : ℕ
  pub position : ℕ
  pub idempotency_key : String
  pub task_name : Option String

pub record CheckPointResponse : Type 0 where
  pub abort : Bool

pub record LeaseCheckpointRequest : Type 0 where
  pub workflow_id : String
  pub fencing_token : ℕ
  pub lease_timeout : ℕ
  pub position : ℕ
  pub idempotency_key : String

-- The `oneof` of a lease's response.
pub data LeaseCheckpointResponse : Type 0 where
  unset : LeaseCheckpointResponse
  value : List ℕ → LeaseCheckpointResponse
  remaining_lease_timeout : ℕ → LeaseCheckpointResponse

pub record CompleteWorkflowRequest : Type 0 where
  pub workflow_id : String
  pub expire_after : ℕ
  pub fencing_token : ℕ
