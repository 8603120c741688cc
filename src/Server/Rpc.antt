-- ===== src/Server/Rpc.antt =====
-- server/src/rpc_server/server.rs: the service that the server offers, as the stub of a client sees it.
-- What the transport does is a parameter: the error that a client's stub makes of a status, and the bytes
-- that it sends for a serialized value.
pub mod Replay
pub mod Network
pub mod Once
pub mod Sample
use idempotent_transformer.Common.{
  ℕ, String, Bool, true, false, ◌||◌, Option, none, some, List, str_eq, if◌then◌else◌,
}
use idempotent_transformer.Async.{
  Thrown, error, non_error, Outcome, done, thrown, running, Async, gets, pure, throw,
}
use idempotent_transformer.Rpc.{Serialized}
use idempotent_transformer.Proto.{
  WorkflowStatusResponse, WorkflowStartResponse, CheckPointResponse, LeaseCheckpointResponse,
}
use idempotent_transformer.Grpc.{ServiceError, Callback, failed, responded, silent, Client}
use idempotent_transformer.Server.{WorkflowRow, WorkflowStatus, Database, Libraries}
use idempotent_transformer.Server.Checkpoints.{
  LeaseReply, handle_checkpoint, handle_lease_checkpoint, release_checkpoint,
  create_durable_idempotency_key,
}
use idempotent_transformer.Server.Workflows.{create_workflow, finish_workflow}

pub record Status : Type 0 where
  pub code : String
  pub message : String

abbrev pub is_abort : String → Bool
is_abort kind =
    str_eq kind "Interrupted" || (str_eq kind "InvalidData" || str_eq kind "InvalidInput")

unfoldable pub to_status : Thrown → Status
to_status (error kind message) = record {
  code = if is_abort kind then "ABORTED" else "INTERNAL";
  message = message;
}
to_status (non_error s) = record { code = "INTERNAL"; message = "Something went wrong." }

pub record Transport : Type 0 where
  pub stub_error : Status → ServiceError
  pub wire_bytes : Serialized → List ℕ

abbrev pub status_number : WorkflowStatus → ℕ
status_number WorkflowStatus.running = 0
status_number WorkflowStatus.completed = 1

abbrev pub lease_response : Option LeaseReply → LeaseCheckpointResponse
lease_response none = LeaseCheckpointResponse.unset
lease_response (some (LeaseReply.checkpoint_value v)) = LeaseCheckpointResponse.value v
lease_response (some (LeaseReply.remaining_lease_timeout n)) =
    LeaseCheckpointResponse.remaining_lease_timeout n

module _ (lib : Libraries) (transport : Transport) where
  abbrev pub reply : {A B : Type 0} → (A → B) → Outcome A → Callback B
  reply f (done a) = responded (f a)
  reply f (thrown err) = failed (transport.stub_error (to_status err))
  reply f running = silent

  abbrev pub respond :
      {A B : Type 0} → (A → B) → Async Database A → Database → Callback B × Database
  respond f m d = let (o, e) = m d in (reply f o, e)

  -- `workflow_status`, whose error is a status of its own.
  abbrev pub status_of : String → Option WorkflowRow → Callback WorkflowStatusResponse
  status_of id none =
      failed (transport.stub_error (record { code = "NOT_FOUND"; message = "workflow_not_found" }))
  status_of id (some row) = responded (record {
    workflow_id = id;
    status = status_number row.status;
    expire_at = row.expire_at;
    created_at = row.created_at;
    completed_at = row.completed_at;
  })

  -- `WorkflowService`, called over the transport.
  unfoldable pub service : Client Database
  service = record {
    workflow_start = λ m.
        respond (λ token. record { fencing_token = token })
          (create_workflow (record { workflow_id = m.workflow_id; name = m.context_name }));
    checkpoint = λ m.
        respond (λ abort. record { abort = abort })
          (handle_checkpoint lib (record {
            workflow_id = m.workflow_id;
            fencing_token = m.fencing_token;
            position = m.position;
            value = transport.wire_bytes m.value;
            idempotency_key = m.idempotency_key;
          }));
    lease_checkpoint = λ m. respond lease_response (
        handle_lease_checkpoint lib (record {
          workflow_id = m.workflow_id;
          fencing_token = m.fencing_token;
          lease_timeout = m.lease_timeout;
          position = m.position;
          idempotency_key = m.idempotency_key;
        }));
    complete_workflow = λ m.
        respond (λ x. x)
          (finish_workflow (record {
            workflow_id = m.workflow_id;
            fencing_token = m.fencing_token;
            expire_after = m.expire_after;
          }));
    workflow_status = λ m d. (status_of m.workflow_id (d.workflows m.workflow_id), d);
    release_checkpoint = λ m. respond (λ x. x) (release_checkpoint lib m.workflow_id m.position);
    generate_idempotency_key = λ m.
        respond (λ key. key)
          (create_durable_idempotency_key lib (record {
            workflow_id = m.workflow_id;
            fencing_token = m.fencing_token;
            position = m.position;
          }));
  }
