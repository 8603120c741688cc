-- ===== src/Execute/Failures.antt =====
-- How `execute` fails: errors of the lease and of the task, and a result that could not be persisted.
use idempotent_transformer.Common.{
  ℕ, suc, ◌+◌, ◌≤◌, String, ◌≡◌, ◌&&◌, ◌==◌, false, Option, none, if◌then◌else◌, arith,
}
use idempotent_transformer.Async.{Thrown, Outcome, done, thrown, running}
use idempotent_transformer.Loop.{loop}
use idempotent_transformer.Rpc.{Serialized, LeaseCheckpointInput}
use idempotent_transformer.Runner.{
  Returned, settled, TaskOptions, Host, Workflow, Session, is_not_found,
}
use idempotent_transformer.Execute.{
  Task, lease_timeout_of, on_abort_of, held, lease_round, lease_loop, run_task, persist_round,
  persist_loop, conclude, perform, execute,
}

-- How a call ends whose task was rejected with `err`, by how the release of its lease ended.
abbrev pub after_release : {A : Type 0} → Thrown → Outcome (Unit {0}) → Outcome A
after_release err (done _) = thrown err
after_release err (thrown err') = thrown err'
after_release err running = running

module _ {E R : Type 0} (h : Host E R) (w : Workflow) (key : String)
    (options : Option (TaskOptions E R)) where
  -- The request of a lease at a position.
  abbrev pub request : ℕ → LeaseCheckpointInput
  request p = record {
    workflow_id = w.workflow_id;
    fencing_token = w.fencing_token;
    lease_timeout = lease_timeout_of options;
    position = p;
    idempotency_key = key;
  }

  -- A failed lease ends the call with its error, in the world that it left behind, unless the server
  -- does not know the token and the runner stands at its first position. Then the call waits for 100
  -- milliseconds and leases once more; a second failure, of whatever kind, ends it.
  pub execute_lease_fails :
      (fuel p : ℕ) (task : Task E R) (e e1 e2 e3 : E) (err err' : Thrown)
      → h.rpc_adapter.lease_checkpoint (request p) e ≡ (thrown err, e1)
      → h.set_timeout 1000 e1 ≡ (done tt, e2)
      → h.rpc_adapter.lease_checkpoint (request p) e2 ≡ (thrown err', e3)
      → execute h w (suc (suc fuel)) key task options (record { position = p; env = e }) ≡ (
          if is_not_found err && (p == 0)
          then (thrown err', record { position = p; env = e3 })
          else (thrown err, record { position = p; env = e1 }))
  unfolding execute lease_loop lease_round loop
  execute_lease_fails fuel p task e e1 e2 e3 err err' f g k = ground arith

  -- The same for an error that is not about the token.
  pub execute_refused :
      (fuel p : ℕ) (task : Task E R) (e e1 : E) (err : Thrown)
      → h.rpc_adapter.lease_checkpoint (request p) e ≡ (thrown err, e1)
      → is_not_found err ≡ false
      → execute h w (suc fuel) key task options (record { position = p; env = e })
        ≡ (thrown err, record { position = p; env = e1 })
  unfolding execute lease_loop lease_round loop
  execute_refused fuel p task e e1 err f n = ground arith

  module _ (fuel : ℕ) (task : Task E R) (s : Session E) (before p : ℕ) (e : E)
      (leased : lease_loop h w key (lease_timeout_of options) (suc fuel) s
        ≡ (done (held before), record { position = p; env = e })) where
    -- A task that throws at once ends the call with its error, and its lease is kept: the world is as
    -- the task left it.
    pub execute_task_throws :
        (err : Thrown) (e1 : E)
        → task e ≡ (thrown err, e1)
        → execute h w (suc fuel) key task options s
          ≡ (thrown err, record { position = p; env = e1 })
    unfolding execute perform run_task
    execute_task_throws err e1 f = ground arith

    -- A task whose promise is rejected ends the call with its error after the lease is released, or
    -- with the error of the release.
    pub execute_task_rejects :
        (err : Thrown) (returned : Returned E R) (o : Outcome (Unit {0})) (e1 e2 e3 : E)
        → task e ≡ (done returned, e1)
        → settled returned e1 ≡ (thrown err, e2)
        → h.rpc_adapter.release_lease_checkpoint
            (record { workflow_id = w.workflow_id; position = p })
            e2
          ≡ (o, e3)
        → execute h w (suc fuel) key task options s
          ≡ (after_release err o, record { position = p; env = e3 })
    unfolding execute perform run_task
    execute_task_rejects err returned o e1 e2 e3 f g k = ground arith

    module _ (result : R) (p' : ℕ) (e1 e2 e3 : E) (v : Serialized) (now : ℕ)
        (ran : run_task h w task (record { position = p; env = e })
          ≡ (done result, record { position = p; env = e1 }))
        (serialized : h.serializer.serialize result e1 ≡ (done v, e2))
        (read : h.date_now e2 ≡ (done now, e3))
        (late : before + lease_timeout_of options ≤ now) where
      -- A task that took its whole lease, with no `onAbort`: the call returns the result of the task and
      -- moves on, and the server was not asked to store that result.
      pub execute_late :
          on_abort_of options ≡ none
          → execute h w (suc fuel) key task options s
            ≡ (done result, record { position = p + 1; env = e3 })
      unfolding execute perform persist_loop persist_round loop conclude
      execute_late none_given = ground arith
