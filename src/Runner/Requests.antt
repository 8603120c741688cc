-- ===== src/Runner/Requests.antt =====
-- A runner from its start to the completion of its workflow.
use idempotent_transformer.Common.{
  ℕ, zero, suc, ◌*◌, ◌<◌, String, ◌≡◌, refl, ◌⊎◌, inl, inr, Option, none, some, truthy_number,
  or_default, arith,
}
use idempotent_transformer.Async.{Outcome, done, thrown, running}
use idempotent_transformer.Rpc.{StartWorkflowOutput}
use idempotent_transformer.Runner.{
  WorkflowOptions, Host, Workflow, Session, on_env, start_workflow, complete,
}

-- The time for which a completed workflow is kept: what the options ask for, if that is more than 0,
-- and a day otherwise.
abbrev pub KeptFor : Option ℕ → ℕ → Type 0
KeptFor asked n =
    (truthy_number asked ≡ some n) ⊎ ((truthy_number asked ≡ none) × (n ≡ 1000 * 60 * 60 * 24))

or_default-KeptFor :
    (asked : Option ℕ)
    → KeptFor asked (or_default asked (1000 * 60 * 60 * 24))
      × (0 < or_default asked (1000 * 60 * 60 * 24))
or_default-KeptFor none = (inr (refl, refl), omega arith)
or_default-KeptFor (some zero) = (inr (refl, refl), omega arith)
or_default-KeptFor (some (suc n)) = (inl refl, omega arith)

-- What a new runner has of the reply to its start.
start_workflow-fields :
    {E R : Type 0} (h : Host E R) (id : String) (options : WorkflowOptions) (e : E) (w : Workflow)
    (s : Session E) (o : Outcome StartWorkflowOutput) (e' : E)
    → h.rpc_adapter.start_workflow (record { workflow_id = id; name = options.name }) e ≡ (o, e')
    → start_workflow h id options e ≡ (done w, s)
    → (out : StartWorkflowOutput) × (o ≡ done out)
      × (e' ≡ s.env)
      × (s.position ≡ 0)
      × (w ≡ record {
        workflow_id = id;
        fencing_token = out.fencing_token;
        completed_retention_time = options.completed_retention_time;
      })
unfolding start_workflow
start_workflow-fields h id options e w s (done out) e' r f =
    (out, refl, ground arith, ground arith, ground arith)
start_workflow-fields h id options e w s (thrown err) e' r f = absurd (ground arith)
start_workflow-fields h id options e w s running e' r f = absurd (ground arith)

-- A runner that was started for a workflow stands at position 0, in the world that the adapter's start of
-- that workflow left; it completes that workflow under the token of the adapter's reply, and asks for it to
-- be kept as long as the options say, never for 0 milliseconds.
pub complete-start_workflow :
    {E R : Type 0} (h : Host E R) (id : String) (options : WorkflowOptions) (e : E) (w : Workflow)
    (s : Session E)
    → start_workflow h id options e ≡ (done w, s)
    → (s.position ≡ 0)
      × (out : StartWorkflowOutput) × (h.rpc_adapter.start_workflow
            (record { workflow_id = id; name = options.name })
            e
          ≡ (done out, s.env))
      × (n : ℕ) × KeptFor options.completed_retention_time n
      × (0 < n)
      × (complete h w s
          ≡ on_env
              (h.rpc_adapter.complete_workflow
                (record { workflow_id = id; fencing_token = out.fencing_token; expire_after = n }))
              s)
unfolding complete
complete-start_workflow h id options e w s f =
    let r = h.rpc_adapter.start_workflow (record { workflow_id = id; name = options.name }) e in
    let (out, replied, same_env, at_start, same) =
      start_workflow-fields h id options e w s r.0 r.1 refl f in
    let (kept, positive) = or_default-KeptFor options.completed_retention_time in
    (
      at_start,
      out,
      rw (← replied, ← same_env) refl,
      or_default options.completed_retention_time (1000 * 60 * 60 * 24),
      kept,
      positive,
      rw same refl,
    )
