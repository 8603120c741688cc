-- ===== src/Payment/Failure.antt =====
-- The example's payment, over the adapter and the server.
mod Tests
use idempotent_transformer.Common.{
  ℕ, suc, String, ◌≡◌, refl, sym, ap, ◌∙◌, Bool, true, false, ◌&&◌, Option, none, some, List, [],
  ltb, ◌==◌, str_eq, if◌then◌else◌, arith,
}
use text.Mathlib.TextPositions.{eq_refl}
use idempotent_transformer.Async.{Outcome, done, thrown, error, Thrown, Async}
use idempotent_transformer.Loop.{loop}
use idempotent_transformer.Rpc.{
  Serialized, bytes, LeaseCheckpointInput, GenerateIdempotencyKeyInput, IdempotentSerializer,
}
use idempotent_transformer.Runner.{
  TaskOptions, Host, Workflow, Session, is_not_found, start_workflow, generate_idempotency_key,
}
use idempotent_transformer.Execute.{Task, lease_timeout_of, lease_round, lease_loop, execute}
use idempotent_transformer.Execute.Failures.{request, execute_refused}
use idempotent_transformer.Grpc.{
  ServiceError, Getters, handle_error, lease_checkpoint, grpc_adapter,
  start_workflow as adapter_start, generate_idempotency_key as adapter_generate,
}
use idempotent_transformer.Server.{CheckpointValue, Database, Libraries}
use idempotent_transformer.Server.Checkpoints.{
  no_value, key_with, key_found, handle_lease_checkpoint, create_durable_idempotency_key,
}
use idempotent_transformer.Server.Workflows.{create_workflow}
use idempotent_transformer.Server.Requests.Keys.{generated_key_blocks}
use idempotent_transformer.Server.Rpc.{Status, to_status, Transport, service}
use idempotent_transformer.Payment.{
  Value, PaymentData, Platform, pay, payment_options, handle_payment,
}

abbrev pub missing_value : Thrown
missing_value = error "Error" "checkpoint_value_not_found"

module _ {E : Type 0} (h : Host E Value) (platform : Platform E) where
  pay_refused :
      (fuel : ℕ) (payment : PaymentData) (w : Workflow) (key : String) (e e1 e2 : E) (err : Thrown)
      → generate_idempotency_key h w (record { position = 0; env = e })
        ≡ (done key, record { position = 0; env = e1 })
      → h.rpc_adapter.lease_checkpoint (request h w key none 0) e1 ≡ (thrown err, e2)
      → is_not_found err ≡ false
      → (pay h platform (suc fuel) payment w (record { position = 0; env = e })).0 ≡ thrown err
  unfolding pay
  pay_refused fuel payment w key e e1 e2 err made refused n =
      rw made (rw (execute_refused h w key none fuel 0 _ e1 e2 err refused n) refl)

-- The request for a key that a new runner makes.
abbrev key_request : Workflow → GenerateIdempotencyKeyInput
key_request w = record {
  workflow_id = w.workflow_id;
  fencing_token = w.fencing_token;
  position = 0;
}

module _ (lib : Libraries) (transport : Transport) (g : Getters)
    (details : (s : Status) → (transport.stub_error s).details ≡ s.message) where
  refused_as :
      (i : LeaseCheckpointInput) (d : Database)
      → (handle_lease_checkpoint lib i d).0 ≡ thrown no_value
      → (lease_checkpoint g (service lib transport) i d).0 ≡ thrown missing_value
  unfolding lease_checkpoint service to_status handle_error
  refused_as i d e = rw e (rw (details (to_status no_value)) refl)

  key_with-made :
      (fresh : String) (i : GenerateIdempotencyKeyInput) (d : Database)
      → (key_with fresh i (some i.fencing_token) d).0 ≡ done fresh
  key_with-made fresh i d = ground arith

  key_found-made :
      (i : GenerateIdempotencyKeyInput) (o : Option CheckpointValue) (d : Database)
      → o ≡ none
      → d.fencing_tokens i.workflow_id ≡ some i.fencing_token
      → (key_found lib i o d).0 ≡ done (lib.uuid d.uuids)
  key_found-made i none d n f = rw f (key_with-made (lib.uuid d.uuids) i d)
  key_found-made i (some row) d n f = cc

  module _ (serializer : IdempotentSerializer Database Value) (date_now : Async Database ℕ)
      (set_timeout : ℕ → Async Database (Unit {0})) (platform : Platform Database) where
    -- The example's host: the adapter over the server, with any serializer, clock and timers.
    abbrev pub payment_host : Host Database Value
    payment_host = record {
      rpc_adapter = grpc_adapter g (service lib transport);
      serializer = serializer;
      date_now = date_now;
      set_timeout = set_timeout;
    }

    generate_made :
        (w : Workflow) (d : Database) (key : String)
        → (create_durable_idempotency_key lib (key_request w) d).0 ≡ done key
        → generate_idempotency_key payment_host w (record { position = 0; env = d }) ≡ (
          done key,
          record { position = 0; env = (create_durable_idempotency_key lib (key_request w) d).1 },
        )
    unfolding generate_idempotency_key adapter_generate service
    generate_made w d key e = rw e refl

    key_is_made :
        (w : Workflow) (d : Database)
        → d.checkpoints w.workflow_id 0 ≡ none
        → d.fencing_tokens w.workflow_id ≡ some w.fencing_token
        → (create_durable_idempotency_key lib (key_request w) d).0 ≡ done (lib.uuid d.uuids)
    unfolding create_durable_idempotency_key
    key_is_made w d new token =
        key_found-made (key_request w) (d.checkpoints w.workflow_id 0) d new token

    pay_fails :
        (fuel : ℕ) (payment : PaymentData) (w : Workflow) (d : Database)
        → d.checkpoints w.workflow_id 0 ≡ none
        → d.fencing_tokens w.workflow_id ≡ some w.fencing_token
        → (pay payment_host platform (suc fuel) payment w (record { position = 0; env = d })).0
          ≡ thrown missing_value
    unfolding is_not_found
    pay_fails fuel payment w d new token =
        let key = lib.uuid d.uuids in
        let made = key_is_made w d new token in
        let e = (create_durable_idempotency_key lib (key_request w) d).1 in
        let i = request payment_host w key none 0 in
        let blocked : (handle_lease_checkpoint lib i e).0 ≡ thrown no_value =
          generated_key_blocks lib (key_request w) i key [] d new made refl refl
          ∙ rw (eq_refl key) refl in
        pay_refused payment_host platform fuel payment w key d e
          (lease_checkpoint g (service lib transport) i e).1 missing_value
          (generate_made w d key made)
          (ap (λ o. (o, (lease_checkpoint g (service lib transport) i e).1))
            (refused_as i e blocked))
          refl

    -- Over the server, and a transport that hands the message of a status on as the details of the error,
    -- the payment of an action whose first checkpoint is not there yet always fails: the key that is
    -- generated for its first task takes the checkpoint of that task, whose lease is then refused.
    pub handle_payment_fails :
        (fuel : ℕ) (action_id : String) (payment : PaymentData) (d : Database)
        → d.checkpoints action_id 0 ≡ none
        → (handle_payment payment_host platform (suc fuel) action_id payment d).0
          ≡ thrown missing_value
    unfolding handle_payment start_workflow adapter_start service create_workflow
    handle_payment_fails fuel action_id payment d new =
        pay_fails fuel payment _ _ new (rw (eq_refl action_id) refl)
