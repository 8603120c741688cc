-- ===== src/Runner.antt =====
-- packages/core/idempotent-transformer/idempotent-transformer.ts: `IdempotentTransformer`, and the
-- runner that its `startWorkflow` returns, except for the runner's `execute`.
-- A `Host` is what the runner was built with: the adapter, the serializer, the clock and the timers.
-- Its state `E` is the whole world outside of the runner, other workers and the server included.
-- Times are in milliseconds, and timers in tenths of one, since a lease is polled by a tenth of what
-- remains of it.
pub mod Requests
use idempotent_transformer.Common.{
  ℕ, ◌+◌, ◌*◌, String, Bool, true, false, Option, none, some, str_eq, or_default,
}
use idempotent_transformer.Async.{
  Thrown, error, non_error, Outcome, Async, pure, gets, modify, ◌>>=◌,
}
use idempotent_transformer.Rpc.{
  code_text, fencing_token_not_found, WorkflowStatusInput, WorkflowStatusOutput, RpcAdapter,
  IdempotentSerializer,
}

-- What a call returned, as far as `isPromise` looks at it: `null`, a primitive value, an object with
-- its method `then` if it has one, or a function.
pub data Returned (E A : Type 0) : Type 0 where
  null_value : A → Returned E A
  primitive : A → Returned E A
  object : Option (Async E A) → A → Returned E A
  function_value : A → Returned E A

unfoldable pub is_promise : {E A : Type 0} → Returned E A → Bool
is_promise (null_value a) = false
is_promise (primitive a) = false
is_promise (object none a) = false
is_promise (object (some settle) a) = true
is_promise (function_value a) = false

-- `isPromise(v) ? await v : v`
unfoldable pub settled : {E A : Type 0} → Returned E A → Async E A
settled (null_value a) = pure a
settled (primitive a) = pure a
settled (object none a) = pure a
settled (object (some settle) a) = settle
settled (function_value a) = pure a

-- `IIdempotentTaskOptions` and its `onAbort`. Calling a function may throw at once, or return a
-- promise that is rejected later.
pub record OnAbort (E R : Type 0) : Type 0 where
  pub function : R → Async E (Returned E (Unit {0}))
  pub retry_count : Option ℕ
  pub retry_delay : Option ℕ

pub record TaskOptions (E R : Type 0) : Type 0 where
  pub lease_timeout : Option ℕ
  pub on_abort : Option (OnAbort E R)

-- `IdempotentTransformerOptions`
pub record WorkflowOptions : Type 0 where
  pub completed_retention_time : Option ℕ
  pub name : Option String

pub record Host (E R : Type 0) : Type 0 where
  pub rpc_adapter : RpcAdapter E
  pub serializer : IdempotentSerializer E R
  pub date_now : Async E ℕ
  pub set_timeout : ℕ → Async E (Unit {0})

-- The constants that the functions of one runner close over, and the variable `position`.
pub record Workflow : Type 0 where
  pub workflow_id : String
  pub fencing_token : ℕ
  pub completed_retention_time : Option ℕ

pub record Session (E : Type 0) : Type 0 where
  pub position : ℕ
  pub env : E

abbrev pub on_env : {E A : Type 0} → Async E A → Async (Session E) A
on_env m s = let (o, e) = m s.env in (o, record s { env = e })

abbrev pub position_of : {E : Type 0} → Async (Session E) ℕ
position_of = gets (λ s. s.position)

abbrev pub next_position : {E : Type 0} → Async (Session E) (Unit {0})
next_position = modify (λ s. record s { position = s.position + 1 })

abbrev pub aborted : String → Thrown
aborted message = error "workflow_aborted" message

abbrev pub persisted_but_aborted : Thrown
persisted_but_aborted = aborted "Workflow task persisted but aborted by other worker."

abbrev pub rolled_back : Thrown
rolled_back = aborted "Workflow task rolled back and aborted."

-- `err instanceof Error && err.message === ErrCodes.FencingTokenNotFound`
unfoldable pub is_not_found : Thrown → Bool
is_not_found (error name message) = str_eq message (code_text fencing_token_not_found)
is_not_found (non_error s) = false

-- The constructor's destructuring leaves nothing to model but the parts that a `Host` holds.
module _ {E R : Type 0} (h : Host E R) where
  unfoldable pub wait_for : ℕ → Async (Session E) (Unit {0})
  wait_for tenths = on_env (h.set_timeout tenths)

  -- A new runner is at position 0.
  unfoldable pub start_workflow : String → WorkflowOptions → E → Outcome Workflow × Session E
  start_workflow id options e =
      (do
        leased ←
            on_env (h.rpc_adapter.start_workflow (record { workflow_id = id; name = options.name }))
        pure (record {
          workflow_id = id;
          fencing_token = leased.fencing_token;
          completed_retention_time = options.completed_retention_time;
        }))
        (record { position = 0; env = e })

  module _ (w : Workflow) where
    unfoldable pub complete : Async (Session E) (Unit {0})
    complete = on_env (
        h.rpc_adapter.complete_workflow (record {
          workflow_id = w.workflow_id;
          fencing_token = w.fencing_token;
          expire_after = or_default w.completed_retention_time (1000 * 60 * 60 * 24);
        }))

    unfoldable pub get_workflow_status :
        WorkflowStatusInput → Async (Session E) WorkflowStatusOutput
    get_workflow_status args = on_env (h.rpc_adapter.get_workflow_status args)

    unfoldable pub generate_idempotency_key : Async (Session E) String
    generate_idempotency_key = do
      p ← position_of
      out ← on_env (
          h.rpc_adapter.generate_idempotency_key
            (record { workflow_id = w.workflow_id; fencing_token = w.fencing_token; position = p }))
      pure out.idempotency_key
