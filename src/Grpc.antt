-- ===== src/Grpc.antt =====
-- packages/grpc-adapter/src/grpc-adapter.ts: `GrpcAdapter`.
-- The client stub and the getters that are generated from the .proto file are parameters.
pub mod Replies
mod Tests
use idempotent_transformer.Common.{
  ℕ, String, Bool, false, not, ◌||◌, Option, none, some, List, [], ◌∷◌, map, str_eq, if◌then◌else◌,
}
use idempotent_transformer.Async.{Thrown, error, Outcome, done, thrown, running, Async}
use idempotent_transformer.Rpc.{
  Serialized, fencing_token_expired, fencing_token_not_found, non_deterministic_checkpoint_found,
  code_text, StartWorkflowInput, StartWorkflowOutput, CheckpointInput, CheckpointOutput,
  LeaseCheckpointInput, LeaseCheckpointOutput, CompleteWorkflowInput, WorkflowStatusInput,
  WorkflowStatusOutput, ReleaseLeaseCheckpointInput, GenerateIdempotencyKeyInput,
  GenerateIdempotencyKeyOutput, RpcAdapter,
}
use idempotent_transformer.Proto.{
  GenerateIdempotencyKeyRequest, ReleaseCheckpointRequest, WorkflowStatusRequest,
  WorkflowStatusResponse, WorkflowStartRequest, WorkflowStartResponse, CheckPointRequest,
  CheckPointResponse, LeaseCheckpointRequest, LeaseCheckpointResponse, CompleteWorkflowRequest,
}

-- What the adapter looks at in a `ServiceError`.
pub record ServiceError : Type 0 where
  pub name : String
  pub message : String
  pub details : String

-- How a call of the stub calls back, if it does.
pub data Callback (A : Type 0) : Type 0 where
  failed : ServiceError → Callback A
  responded : A → Callback A
  silent : Callback A

-- `WorkflowServiceImplClient`
pub record Client (E : Type 0) : Type 0 where
  pub workflow_start : WorkflowStartRequest → E → Callback WorkflowStartResponse × E
  pub checkpoint : CheckPointRequest → E → Callback CheckPointResponse × E
  pub lease_checkpoint : LeaseCheckpointRequest → E → Callback LeaseCheckpointResponse × E
  pub complete_workflow : CompleteWorkflowRequest → E → Callback (Unit {0}) × E
  pub workflow_status : WorkflowStatusRequest → E → Callback WorkflowStatusResponse × E
  pub release_checkpoint : ReleaseCheckpointRequest → E → Callback (Unit {0}) × E
  pub generate_idempotency_key : GenerateIdempotencyKeyRequest → E → Callback String × E

-- The generated getters of fields with presence.
pub record Getters : Type 0 where
  pub get_value : LeaseCheckpointResponse → Serialized
  pub get_remaining_lease_timeout : LeaseCheckpointResponse → ℕ
  pub get_expire_at : WorkflowStatusResponse → ℕ
  pub get_completed_at : WorkflowStatusResponse → ℕ

abbrev pub exceptions : List String
exceptions =
    map code_text
      (fencing_token_expired ∷ fencing_token_not_found ∷ non_deterministic_checkpoint_found ∷ [])

-- `array.find((x) => x === wanted)`
abbrev pub find : String → List String → Option String
find wanted [] = none
find wanted (x ∷ xs) = if str_eq x wanted then some x else find wanted xs

abbrev pub truthy_text : String → Bool
truthy_text s = not (str_eq s "")

abbrev pub truthy_found : Option String → Bool
truthy_found none = false
truthy_found (some s) = truthy_text s

unfoldable pub handle_error : ServiceError → Thrown
handle_error err =
    let code = err.details in
    if truthy_found (find code exceptions) || truthy_text code
    then error "Error" code
    else error err.name err.message

-- The promise around a call of the stub.
abbrev pub settle : {A B : Type 0} → (A → B) → Callback A → Outcome B
settle f (failed err) = thrown (handle_error err)
settle f (responded a) = done (f a)
settle f silent = running

abbrev pub promise : {E A B : Type 0} → (E → Callback A × E) → (A → B) → Async E B
promise call f e = let (c, e') = call e in (settle f c, e')

-- `if (input.name) request.setContextName(input.name)`
abbrev pub context_name_of : Option String → Option String
context_name_of none = none
context_name_of (some name) = if truthy_text name then some name else none

module _ {E : Type 0} (g : Getters) (client : Client E) where
  unfoldable pub generate_idempotency_key :
      GenerateIdempotencyKeyInput → Async E GenerateIdempotencyKeyOutput
  generate_idempotency_key input =
      promise
        (client.generate_idempotency_key (record {
          workflow_id = input.workflow_id;
          fencing_token = input.fencing_token;
          position = input.position;
        }))
        (λ response. record { idempotency_key = response })

  unfoldable pub start_workflow : StartWorkflowInput → Async E StartWorkflowOutput
  start_workflow input =
      promise
        (client.workflow_start
          (record { workflow_id = input.workflow_id; context_name = context_name_of input.name }))
        (λ response. record { fencing_token = response.fencing_token })

  unfoldable pub checkpoint : CheckpointInput → Async E CheckpointOutput
  checkpoint input =
      promise
        (client.checkpoint (record {
          workflow_id = input.workflow_id;
          value = input.value;
          fencing_token = input.fencing_token;
          position = input.position;
          idempotency_key = input.idempotency_key;
          task_name = none;
        }))
        (λ response. record { abort = response.abort })

  unfoldable pub lease_checkpoint : LeaseCheckpointInput → Async E LeaseCheckpointOutput
  lease_checkpoint input =
      promise
        (client.lease_checkpoint (record {
          workflow_id = input.workflow_id;
          fencing_token = input.fencing_token;
          lease_timeout = input.lease_timeout;
          position = input.position;
          idempotency_key = input.idempotency_key;
        }))
        (λ response. record {
          value = some (g.get_value response);
          remaining_lease_timeout = some (g.get_remaining_lease_timeout response);
        })

  unfoldable pub complete_workflow : CompleteWorkflowInput → Async E (Unit {0})
  complete_workflow input =
      promise
        (client.complete_workflow (record {
          workflow_id = input.workflow_id;
          expire_after = input.expire_after;
          fencing_token = input.fencing_token;
        }))
        (λ response. tt)

  unfoldable pub get_workflow_status : WorkflowStatusInput → Async E WorkflowStatusOutput
  get_workflow_status input =
      promise (client.workflow_status (record { workflow_id = input.workflow_id })) (λ response.
        record {
          id = response.workflow_id;
          status = response.status;
          expire_at = some (g.get_expire_at response);
          completed_at = some (g.get_completed_at response);
        })

  unfoldable pub release_lease_checkpoint : ReleaseLeaseCheckpointInput → Async E (Unit {0})
  release_lease_checkpoint input =
      promise
        (client.release_checkpoint
          (record { workflow_id = input.workflow_id; position = input.position }))
        (λ response. tt)

  -- The methods as the adapter of a host.
  abbrev pub grpc_adapter : RpcAdapter E
  grpc_adapter = record {
    start_workflow = start_workflow;
    checkpoint = checkpoint;
    lease_checkpoint = lease_checkpoint;
    complete_workflow = complete_workflow;
    get_workflow_status = get_workflow_status;
    release_lease_checkpoint = release_lease_checkpoint;
    generate_idempotency_key = generate_idempotency_key;
  }
