-- ===== src/Execute/Paths.antt =====
-- The ways through `execute`, each by the calls that the runner makes on it, with the world that is left.
use idempotent_transformer.Common.{
  ℕ, suc, ◌+◌, String, ◌≡◌, true, false, ltb, Option, none, some, truthy_number, arith,
}
use idempotent_transformer.Async.{Thrown, done, thrown, Async, pure}
use idempotent_transformer.Loop.{loop}
use idempotent_transformer.Rpc.{Serialized, LeaseCheckpointOutput}
use idempotent_transformer.Runner.{object, settled, TaskOptions, Host, Workflow}
use idempotent_transformer.Execute.{
  Task, truthy_value, lease_timeout_of, lease_round, lease_loop, run_task, persist_round,
  persist_loop, conclude, perform, execute,
}
use idempotent_transformer.Execute.Failures.{request}

-- An asynchronous function, called as a task: it returns a promise, an object.
abbrev pub async_task : {E R : Type 0} → R → Async E R → Task E R
async_task promise m = pure (object (some m) promise)

module _ {E R : Type 0} (h : Host E R) (w : Workflow) (key : String)
    (options : Option (TaskOptions E R)) where
  -- The server has a value, which is given back.
  pub execute_replays :
      (fuel p : ℕ) (task : Task E R) (e e1 e2 : E) (out : LeaseCheckpointOutput) (v : Serialized)
      (r : R)
      → h.rpc_adapter.lease_checkpoint (request h w key options p) e ≡ (done out, e1)
      → truthy_value out.value ≡ some v
      → h.serializer.deserialize v e1 ≡ (done r, e2)
      → execute h w (suc fuel) key task options (record { position = p; env = e })
        ≡ (done r, record { position = p + 1; env = e2 })
  unfolding execute lease_loop lease_round loop
  execute_replays fuel p task e e1 e2 out v r f given read = ground arith

  -- The server grants the lease, and the task is run.
  pub execute_granted :
      (fuel p now : ℕ) (task : Task E R) (e e1 e2 : E) (out : LeaseCheckpointOutput)
      → h.rpc_adapter.lease_checkpoint (request h w key options p) e ≡ (done out, e1)
      → truthy_value out.value ≡ none
      → truthy_number out.remaining_lease_timeout ≡ none
      → h.date_now e1 ≡ (done now, e2)
      → execute h w (suc fuel) key task options (record { position = p; env = e })
        ≡ perform h w (suc fuel) key task options now (record { position = p; env = e2 })
  unfolding execute lease_loop lease_round loop
  execute_granted fuel p now task e e1 e2 out f empty free read = ground arith

  -- The task succeeds and its result is stored before the lease ends.
  pub perform_stores :
      (fuel p before now : ℕ) (promise : R) (m : Async E R) (e e1 e2 e3 e4 : E) (r : R)
      (v : Serialized)
      → m e ≡ (done r, e1)
      → h.serializer.serialize r e1 ≡ (done v, e2)
      → h.date_now e2 ≡ (done now, e3)
      → ltb now (before + lease_timeout_of options) ≡ true
      → h.rpc_adapter.checkpoint
          (record {
            workflow_id = w.workflow_id;
            value = v;
            fencing_token = w.fencing_token;
            position = p;
            idempotency_key = key;
          })
          e3
        ≡ (done (record { abort = false }), e4)
      → perform h w
          (suc fuel)
          key
          (async_task promise m)
          options
          before
          (record { position = p; env = e })
        ≡ (done r, record { position = p + 1; env = e4 })
  unfolding perform run_task settled persist_loop persist_round loop conclude
  perform_stores fuel p before now promise m e e1 e2 e3 e4 r v ran written read early stored =
      ground arith

  -- The task is rejected, and its lease released.
  pub perform_rejected :
      (fuel p before : ℕ) (promise : R) (m : Async E R) (e e1 e2 : E) (err : Thrown)
      → m e ≡ (thrown err, e1)
      → h.rpc_adapter.release_lease_checkpoint
          (record { workflow_id = w.workflow_id; position = p })
          e1
        ≡ (done tt, e2)
      → perform h w fuel key
          (async_task promise m)
          options
          before
          (record { position = p; env = e })
        ≡ (thrown err, record { position = p; env = e2 })
  unfolding perform run_task settled
  perform_rejected fuel p before promise m e e1 e2 err rejected released = ground arith
