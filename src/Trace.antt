-- ===== src/Trace.antt =====
-- A host that writes down each call that it receives, with how it ended: the runner over it does what
-- it does over the host itself, and leaves the history of its calls, the latest first.
use idempotent_transformer.Common.{ℕ, List, ◌∷◌, Option, none, some}
use idempotent_transformer.Async.{Outcome, done, thrown, running, Async}
use idempotent_transformer.Rpc.{
  Serialized, CheckpointInput, CheckpointOutput, LeaseCheckpointInput, LeaseCheckpointOutput,
  ReleaseLeaseCheckpointInput,
}
use idempotent_transformer.Runner.{
  Returned, null_value, primitive, object, function_value, OnAbort, TaskOptions, Host,
}

-- `invoke` is the call of a task and `settle` the `await` of its promise, `undo` and `undone` those
-- of `onAbort.function`.
pub data Event (R : Type 0) : Type 0 where
  lease : LeaseCheckpointInput → Outcome LeaseCheckpointOutput → Event R
  release : ReleaseLeaseCheckpointInput → Event R
  checkpoint : CheckpointInput → Outcome CheckpointOutput → Event R
  deserialize : Serialized → Outcome R → Event R
  serialize : R → Outcome Serialized → Event R
  clock : Outcome ℕ → Event R
  wait : ℕ → Outcome (Unit {0}) → Event R
  invoke settle undo undone : Outcome (Unit {0}) → Event R
  other : Event R

pub record Logged (E R : Type 0) : Type 0 where
  pub env : E
  pub log : List (Event R)

abbrev pub ended : {A : Type 0} → Outcome A → Outcome (Unit {0})
ended (done a) = done tt
ended (thrown err) = thrown err
ended running = running

module _ {E R : Type 0} where
  abbrev pub recorded : {A : Type 0} → (Outcome A → Event R) → Async E A → Async (Logged E R) A
  recorded event m s = let (o, e) = m s.env in (o, record { env = e; log = event o ∷ s.log })

  unfoldable pub recorded_return :
      {A : Type 0} → (Outcome (Unit {0}) → Event R) → Returned E A → Returned (Logged E R) A
  recorded_return event (null_value a) = null_value a
  recorded_return event (primitive a) = primitive a
  recorded_return event (object none a) = object none a
  recorded_return event (object (some then_) a) =
      object (some (recorded (λ o. event (ended o)) then_)) a
  recorded_return event (function_value a) = function_value a

  abbrev pub returned_as :
      {A B : Type 0} → (A → B) → Outcome A × Logged E R → Outcome B × Logged E R
  returned_as f (done a, s) = (done (f a), s)
  returned_as f (thrown err, s) = (thrown err, s)
  returned_as f (running, s) = (running, s)

  -- A call of a function of the user, and of the promise that it may return.
  unfoldable pub recorded_call :
      {A : Type 0}
      → (call await : Outcome (Unit {0}) → Event R) → Async E (Returned E A)
      → Async (Logged E R) (Returned (Logged E R) A)
  recorded_call call await m s =
      returned_as (recorded_return await) (recorded (λ o. call (ended o)) m s)

  abbrev pub logged_on_abort : OnAbort E R → OnAbort (Logged E R) R
  logged_on_abort r = record {
    function = λ result. recorded_call undo undone (r.function result);
    retry_count = r.retry_count;
    retry_delay = r.retry_delay;
  }

  abbrev pub logged_abort : Option (OnAbort E R) → Option (OnAbort (Logged E R) R)
  logged_abort none = none
  logged_abort (some r) = some (logged_on_abort r)

  abbrev pub logged_options : TaskOptions E R → TaskOptions (Logged E R) R
  logged_options o = record { lease_timeout = o.lease_timeout; on_abort = logged_abort o.on_abort }

  abbrev pub logged_task_options : Option (TaskOptions E R) → Option (TaskOptions (Logged E R) R)
  logged_task_options none = none
  logged_task_options (some o) = some (logged_options o)

  -- A task, with its call and the `await` of its promise written down.
  abbrev pub logged_task : Async E (Returned E R) → Async (Logged E R) (Returned (Logged E R) R)
  logged_task task = recorded_call invoke settle task

  abbrev pub logged : Host E R → Host (Logged E R) R
  logged h = record {
    rpc_adapter = record {
      start_workflow = λ i. recorded (λ o. other) (h.rpc_adapter.start_workflow i);
      checkpoint = λ i. recorded (checkpoint i) (h.rpc_adapter.checkpoint i);
      lease_checkpoint = λ i. recorded (lease i) (h.rpc_adapter.lease_checkpoint i);
      complete_workflow = λ i. recorded (λ o. other) (h.rpc_adapter.complete_workflow i);
      get_workflow_status = λ i. recorded (λ o. other) (h.rpc_adapter.get_workflow_status i);
      release_lease_checkpoint =
          λ i. recorded (λ o. release i) (h.rpc_adapter.release_lease_checkpoint i);
      generate_idempotency_key =
          λ i. recorded (λ o. other) (h.rpc_adapter.generate_idempotency_key i);
    };
    serializer = record {
      serialize = λ r. recorded (serialize r) (h.serializer.serialize r);
      deserialize = λ v. recorded (deserialize v) (h.serializer.deserialize v);
    };
    date_now = recorded clock h.date_now;
    set_timeout = λ tenths. recorded (wait tenths) (h.set_timeout tenths);
  }
