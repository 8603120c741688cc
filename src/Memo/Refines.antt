-- ===== src/Memo/Refines.antt =====
-- The runner of the library over the adapter, the server and `MessagePack` does what the promise says.
use idempotent_transformer.Common.{
  ℕ, ◌*◌, String, ◌≡◌, refl, ◌∙◌, Bool-cases, Option, none, some, ltb, inl, inr, or_default, arith,
  List,
}
use idempotent_transformer.Async.{Async}
use idempotent_transformer.Runner.{Workflow, WorkflowOptions, start_workflow, complete}
use idempotent_transformer.Grpc.{
  handle_error, context_name_of, start_workflow as adapter_start,
  complete_workflow as adapter_complete,
}
use idempotent_transformer.Server.{Database, with_row, incremented, named}
use idempotent_transformer.Server.Checkpoints.{not_found, expired}
use idempotent_transformer.Server.Workflows.{create_workflow, finish_workflow, finished}
use idempotent_transformer.Server.Rpc.{service, to_status}
use idempotent_transformer.Simulation.{Agrees, Simulates, SessionRel}
use idempotent_transformer.Memo.{
  Memo, Spec, retention, memo_at, memo_start, memo_execute, complete_by, memo_complete,
}
use idempotent_transformer.Memo.Executing.{at-Ends, Ends-Agrees}
use idempotent_transformer.Memo.Reflects.{Holds, Reflects}
use idempotent_transformer.Memo.World.{
  World, Platform, IsFaithful, world_start, world_execute, world_complete,
}

module _ (Mine : String → Type 0) {R : Type 0} (pack : R → List ℕ) (m : Memo R) (d : Database)
    (holds : Holds Mine pack m d) (id : String) (owner : Mine id) where
  started-Holds :
      (name : Option String)
      → Holds Mine pack
          (record m {
            tokens = with_row m.tokens id (some (incremented (m.tokens id) 1));
            rows = with_row m.rows id (some (named (m.rows id) name m.now));
          })
          (create_workflow (record { workflow_id = id; name = name }) d).1
  unfolding create_workflow
  started-Holds name = record {
    now = holds.now;
    tokens = λ other own.
        let same = holds.tokens other own in let here = holds.tokens id owner in ground (arith);
    rows = λ other own.
        let same = holds.rows other own in rw (holds.rows id owner, holds.now) (ground (arith));
    results = holds.results;
    leases = holds.leases;
  }

  finished-Holds :
      (expire_after : ℕ)
      → Holds Mine pack
          (record m { rows = with_row m.rows id (finished (m.rows id) m.now expire_after) })
          (record d {
            workflows = with_row d.workflows id (finished (d.workflows id) d.now expire_after);
          })
  finished-Holds expire_after = record {
    now = holds.now;
    tokens = holds.tokens;
    rows = λ other own.
        let same = holds.rows other own in rw (holds.rows id owner, holds.now) (ground (arith));
    results = holds.results;
    leases = holds.leases;
  }

module _ (Mine : String → Type 0) {R U : Type 0} (f : Platform R U) (law : IsFaithful f) where
  -- A runner of the library, over the adapter, the server and `MessagePack`, ends an execution as the
  -- promise says wherever the promise says how, for every task that does what its own promise says: with the
  -- same result or error, at the same position, and with tables that are again those of the promise.
  pub world_execute-Simulates :
      (w : Workflow) (owner : Mine w.workflow_id) (key : String) (task : Async (Spec R U) R)
      (task' : Async (World U) R) (timeout : Option ℕ)
      → Simulates (Reflects Mine f.pack) task task'
      → Simulates
          (SessionRel (Reflects Mine f.pack))
          (memo_execute w key task timeout)
          (world_execute f w key task' timeout)
  unfolding memo_execute
  world_execute-Simulates w owner key task task' timeout sim s t (e, rel) =
      let ends =
        at-Ends Mine f law w owner key task task' timeout s.position s.env t.env
          (s.env.memo.results w.workflow_id s.position) sim rel refl in
      rw e (
        Ends-Agrees Mine f law w owner key task task' timeout s.position
          (memo_at w key task (or_default timeout (1000 * 30)) s.position
            (s.env.memo.results w.workflow_id s.position) s.env).0
          (memo_at w key task (or_default timeout (1000 * 30)) s.position
            (s.env.memo.results w.workflow_id s.position) s.env).1
          _ ends)

  -- The same for a new runner.
  pub world_start-Simulates :
      (id : String) (owner : Mine id) (options : WorkflowOptions)
      → Simulates (Reflects Mine f.pack) (memo_start id options) (world_start f id options)
  unfolding memo_start world_start start_workflow adapter_start service create_workflow
  world_start-Simulates id owner options a e (holds, same) =
      let started =
        started-Holds Mine f.pack a.memo e.database holds id owner (context_name_of options.name) in
      (rw (holds.tokens id owner) refl, (started, same))

  completed-Agrees :
      (w : Workflow) (owner : Mine w.workflow_id) (a : Spec R U) (e : World U) (current : Option ℕ)
      → Reflects Mine f.pack a e
      → a.memo.tokens w.workflow_id ≡ current
      → Agrees
          (Reflects Mine f.pack)
          (complete_by w current a).0
          (complete_by w current a).1
          (world_complete f w e).0
          (world_complete f w e).1
  unfolding world_complete complete adapter_complete service finish_workflow handle_error to_status
  completed-Agrees w owner a e none (holds, same) there =
      rw (holds.tokens w.workflow_id owner ∙ there)
        (rw (law.details (to_status not_found)) (refl, (holds, same)))
  completed-Agrees w owner a e (some token) (holds, same) there =
      rw (holds.tokens w.workflow_id owner ∙ there) (elim (Bool-cases (ltb token w.fencing_token)) [
        | inl old ↦ rw old (rw (law.details (to_status expired)) (refl, (holds, same)))
        | inr young ↦ rw young (
          refl,
          (
            finished-Holds Mine f.pack a.memo e.database holds w.workflow_id owner (retention w),
            same,
          ),
        )
      ])

  -- The same for the completion of a workflow.
  pub world_complete-Simulates :
      (w : Workflow)
      → Mine w.workflow_id
      → Simulates (Reflects Mine f.pack) (memo_complete w) (world_complete f w)
  unfolding memo_complete
  world_complete-Simulates w owner a e rel =
      completed-Agrees w owner a e (a.memo.tokens w.workflow_id) rel refl
