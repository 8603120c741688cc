-- ===== src/Execute.antt =====
-- packages/core/idempotent-transformer/idempotent-transformer.ts: `execute` of a runner.
-- The two unbounded loops, which lease a checkpoint and persist its result, take fuel, and are
-- `running` when that runs out. Between the steps of one call, `position` is changed by that call
-- alone: a task that calls `execute` of its own runner is outside of the model.
pub mod Position
mod Options
pub mod Protocol
pub mod Requests
pub mod Failures
pub mod Paths
pub mod Rollback
mod Sample
mod Tests
mod Histories
mod Witnesses
pub mod Replay
pub mod Termination
pub mod Persisted
use idempotent_transformer.Common.{
  ℕ, zero, suc, ◌+◌, ◌*◌, String, Bool, true, false, ◌&&◌, Option, none, some, ltb, ◌==◌,
  if◌then◌else◌, nullish_or, truthy_number, or_default,
}
use idempotent_transformer.Async.{Thrown, Async, pure, throw, ◌>>=◌, ◌>>◌, try_catch}
use idempotent_transformer.Loop.{Round, stop, again, loop}
use idempotent_transformer.Rpc.{Serialized, is_truthy, CheckpointOutput, LeaseCheckpointOutput}
use idempotent_transformer.Runner.{
  Returned, settled, OnAbort, TaskOptions, Host, Workflow, Session, on_env, position_of,
  next_position, persisted_but_aborted, rolled_back, is_not_found, wait_for,
}

-- A task, as called: it throws at once, or returns a value or a promise.
abbrev pub Task : Type 0 → Type 0 → Type 0
Task E R = Async E (Returned E R)

-- How leasing ends: with the result of an earlier run, or with the lease and `beforeExecution`.
pub data Claim (R : Type 0) : Type 0 where
  replayed : R → Claim R
  held : ℕ → Claim R

-- `value` if that is truthy
abbrev pub truthy_value : Option Serialized → Option Serialized
truthy_value none = none
truthy_value (some v) = if is_truthy v then some v else none

-- `retryDelay` if it is a number, else 1000.
abbrev pub retry_delay_of : {E R : Type 0} → OnAbort E R → ℕ
retry_delay_of r = nullish_or r.retry_delay 1000

abbrev pub lease_timeout_of : {E R : Type 0} → Option (TaskOptions E R) → ℕ
lease_timeout_of none = 1000 * 30
lease_timeout_of (some o) = or_default o.lease_timeout (1000 * 30)

-- `taskOptions?.onAbort`
abbrev pub on_abort_of : {E R : Type 0} → Option (TaskOptions E R) → Option (OnAbort E R)
on_abort_of none = none
on_abort_of (some o) = o.on_abort

module _ {E R : Type 0} (h : Host E R) where
  -- What follows the reply to `leaseCheckpoint`: the value, or a wait, or the task to be run.
  after_reply : ℕ → Option Serialized → Option ℕ → Async (Session E) (Round ℕ (Claim R))
  unfolding wait_for
  after_reply errors (some v) remaining = do
    r ← on_env (h.serializer.deserialize v)
    next_position
    pure (stop (replayed r))
  after_reply errors none (some remaining) = do wait_for h remaining; pure (again errors)
  after_reply errors none none = do
    before_execution ← on_env h.date_now
    pure (stop (held before_execution))

  -- The `catch` of the leasing loop.
  recover : ℕ → Thrown → Async (Session E) (Round ℕ (Claim R))
  unfolding wait_for is_not_found
  recover errors err = do
    p ← position_of
    if is_not_found err && (p == 0 && ltb errors 1)
        then (do wait_for h (100 * 10); pure (again (errors + 1)))
        else throw err

  module _ (w : Workflow) where
    lease : String → ℕ → Async (Session E) LeaseCheckpointOutput
    lease key timeout = do
      p ← position_of
      on_env (
          h.rpc_adapter.lease_checkpoint (record {
            workflow_id = w.workflow_id;
            fencing_token = w.fencing_token;
            lease_timeout = timeout;
            position = p;
            idempotency_key = key;
          }))

    unfoldable pub lease_round : String → ℕ → ℕ → Async (Session E) (Round ℕ (Claim R))
    unfolding lease after_reply recover
    lease_round key timeout errors =
        try_catch
          (do
            checkpoint ← lease key timeout
            after_reply errors (truthy_value checkpoint.value)
                (truthy_number checkpoint.remaining_lease_timeout))
          (recover errors)

    -- The loop that leases the checkpoint; its variable is `errorCount`.
    unfoldable pub lease_loop : String → ℕ → ℕ → Async (Session E) (Claim R)
    lease_loop key timeout fuel = loop (lease_round key timeout) fuel 0

    release : Async (Session E) (Unit {0})
    release = do
      p ← position_of
      on_env (
          h.rpc_adapter.release_lease_checkpoint
            (record { workflow_id = w.workflow_id; position = p }))

    -- The call of the task stands in front of the `try`; a rejected promise releases the checkpoint.
    unfoldable pub run_task : Task E R → Async (Session E) R
    unfolding release settled
    run_task task = do
      intermediate_result ← on_env task
      try_catch (on_env (settled intermediate_result)) (λ err. release >> throw err)

    checkpoint : String → Serialized → Async (Session E) CheckpointOutput
    checkpoint key value = do
      p ← position_of
      on_env (
          h.rpc_adapter.checkpoint (record {
            workflow_id = w.workflow_id;
            value = value;
            fencing_token = w.fencing_token;
            position = p;
            idempotency_key = key;
          }))

    try_checkpoint : String → Serialized → Async (Session E) (Round (Unit {0}) (Option Bool))
    unfolding checkpoint
    try_checkpoint key value =
        try_catch (do out ← checkpoint key value; pure (stop (some out.abort)))
          (λ err. pure (again tt))

    unfoldable pub persist_round :
        String → Serialized → ℕ → Unit {0} → Async (Session E) (Round (Unit {0}) (Option Bool))
    unfolding try_checkpoint
    persist_round key value lease_expiry _ = do
      now ← on_env h.date_now
      if ltb now lease_expiry then try_checkpoint key value else pure (stop none)

    -- The loop that checkpoints the result; its value is that of `abort`.
    unfoldable pub persist_loop : String → Serialized → ℕ → ℕ → Async (Session E) (Option Bool)
    persist_loop key value lease_expiry fuel = loop (persist_round key value lease_expiry) fuel tt

  -- One try of `onAbort.function`: whether it went through.
  pub abortion : OnAbort E R → R → Async (Session E) Bool
  unfolding settled wait_for
  abortion r result =
      try_catch
        (do abortion_task ← on_env (r.function result); on_env (settled abortion_task); pure true)
        (λ err. wait_for h (retry_delay_of r * 10) >> pure false)

  -- The loop that calls `onAbort.function`, over the rounds that are left.
  pub roll_back : OnAbort E R → R → ℕ → Async (Session E) (Unit {0})
  roll_back r result zero = pure tt
  roll_back r result (suc left) =
      abortion r result >>= elim [ true ↦ pure tt | false ↦ roll_back r result left ]

  -- What follows the loop that checkpoints: `abort` and `taskOptions?.onAbort` decide.
  unfoldable pub conclude : Option Bool → Option (OnAbort E R) → R → Async (Session E) R
  conclude (some true) on_abort result = throw persisted_but_aborted
  conclude (some false) on_abort result = next_position >> pure result
  conclude none (some r) result =
      roll_back r result (or_default r.retry_count 3) >> throw rolled_back
  conclude none none result = next_position >> pure result

  module _ (w : Workflow) where
    -- `execute` once the checkpoint is leased.
    unfoldable pub perform :
        ℕ → String → Task E R → Option (TaskOptions E R) → ℕ → Async (Session E) R
    perform fuel key task options before_execution = do
      task_result ← run_task w task
      serialized_result ← on_env (h.serializer.serialize task_result)
      abort ←
          persist_loop w key serialized_result (before_execution + lease_timeout_of options) fuel
      conclude abort (on_abort_of options) task_result

    -- `execute`, each of its two unbounded loops with the same fuel.
    unfoldable pub execute : ℕ → String → Task E R → Option (TaskOptions E R) → Async (Session E) R
    execute fuel key task options = lease_loop w key (lease_timeout_of options) fuel >>= elim [
      | replayed r ↦ pure r
      | held before_execution ↦ perform fuel key task options before_execution
    ]
