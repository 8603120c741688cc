-- ===== src/Memo.antt =====
-- What the library promises of a workflow, without leases in a cache, encodings, adapters or loops: a
-- table of results by workflow and position, which a runner fills as it executes its tasks.
-- Where the library waits, or stores no result since the lease has run out, the promise is `running`:
-- it says nothing.
pub mod World
pub mod Reflects
pub mod Leasing
pub mod Performing
pub mod Executing
pub mod Refines
pub mod Journal
pub mod Rules
pub mod StartRules
use idempotent_transformer.Common.{
  ℕ, ◌+◌, ◌*◌, String, Bool, true, false, ◌&&◌, Option, none, some, ltb, ◌==◌, str_eq,
  if◌then◌else◌, or_default,
}
use idempotent_transformer.Async.{
  Thrown, error, Async, pure, throw, out_of_fuel, gets, modify, ◌>>=◌, ◌>>◌, try_catch,
}
use idempotent_transformer.Rpc.{
  code_text, fencing_token_expired, fencing_token_not_found, non_deterministic_checkpoint_found,
}
use idempotent_transformer.Runner.{
  Workflow, WorkflowOptions, Session, on_env, position_of, next_position,
}
use idempotent_transformer.Grpc.{context_name_of}
use idempotent_transformer.Server.{WorkflowRow, with_row, with_cell, incremented, named}
use idempotent_transformer.Server.Workflows.{finished}

-- The state over results of type `R`: each result is kept with its key.
pub record Memo (R : Type 0) : Type 0 where
  pub now : ℕ
  pub tokens : String → Option ℕ
  pub rows : String → Option WorkflowRow
  pub results : String → ℕ → Option (String × R)
  pub leased : String → ℕ → Bool

-- The state with what the program of the user changes.
pub record Spec (R U : Type 0) : Type 0 where
  pub memo : Memo R
  pub user : U

abbrev pub refused : String → Thrown
refused code = error "Error" code

-- The first result is kept.
abbrev pub first_of {ℓ} : {A : Type ℓ} → Option A → A → Option A
first_of none c = some c
first_of (some c) c' = some c

abbrev pub retention : Workflow → ℕ
retention w = or_default w.completed_retention_time (1000 * 60 * 60 * 24)

module _ {R U : Type 0} where
  abbrev pub modify_memo : (Memo R → Memo R) → Async (Spec R U) (Unit {0})
  modify_memo f = modify (λ a. record a { memo = f a.memo })

  abbrev set_leased : String → ℕ → Bool → Async (Spec R U) (Unit {0})
  set_leased id p b = modify_memo (λ m. record m { leased = with_cell m.leased id p b })

  abbrev pub store : String → ℕ → String → R → Async (Spec R U) (Unit {0})
  store id p key r = modify_memo (λ m. record m {
    results = with_cell m.results id p (first_of (m.results id p) (key, r));
    leased = with_cell m.leased id p false;
  })

  -- A runner of a workflow: its token is one more than the last.
  unfoldable pub memo_start : String → WorkflowOptions → Async (Spec R U) Workflow
  memo_start id options a =
      let token = incremented (a.memo.tokens id) 1 in
      (pure (record {
        workflow_id = id;
        fencing_token = token;
        completed_retention_time = options.completed_retention_time;
      }))
        (record a {
          memo = record a.memo {
            tokens = with_row a.memo.tokens id (some token);
            rows =
                with_row a.memo.rows id
                  (some (named (a.memo.rows id) (context_name_of options.name) a.memo.now));
          };
        })

  module _ (w : Workflow) where
    -- The end of an execution that has its result, by the token of the workflow.
    abbrev pub settle_result : String → ℕ → R → Option ℕ → Async (Spec R U) R
    settle_result key p r none = out_of_fuel
    settle_result key p r (some token) =
        if w.fencing_token == token then store w.workflow_id p key r >> pure r else out_of_fuel

    -- What follows the task: its result is stored, unless the lease has run out.
    abbrev pub memo_end : String → ℕ → ℕ → ℕ → R → Async (Spec R U) R
    memo_end key timeout p start r = do
      end ← gets (λ a. a.memo.now)
      token ← gets (λ a. a.memo.tokens w.workflow_id)
      if ltb end (start + timeout) then settle_result key p r token else out_of_fuel

    abbrev pub memo_release : ℕ → Thrown → Async (Spec R U) R
    memo_release p err = set_leased w.workflow_id p false >> throw err

    -- The task is run under a lease.
    abbrev pub memo_perform : String → Async (Spec R U) R → ℕ → ℕ → Async (Spec R U) R
    memo_perform key task timeout p = do
      start ← gets (λ a. a.memo.now)
      set_leased w.workflow_id p true
      r ← try_catch task (memo_release p)
      memo_end key timeout p start r

    abbrev pub memo_lease : String → Async (Spec R U) R → ℕ → ℕ → Option ℕ → Async (Spec R U) R
    memo_lease key task timeout p none = out_of_fuel
    memo_lease key task timeout p (some token) =
        if ltb w.fencing_token token
        then throw (refused (code_text fencing_token_expired))
        else if w.fencing_token == token
        then memo_perform key task timeout p
        else throw (refused "unexpected state")

    -- Execution at a position, by the result that is there.
    abbrev pub memo_at :
        String → Async (Spec R U) R → ℕ → ℕ → Option (String × R) → Async (Spec R U) R
    memo_at key task timeout p (some (k, r)) =
        if str_eq k key
        then pure r
        else throw (refused (code_text non_deterministic_checkpoint_found))
    memo_at key task timeout p none = do
      busy ← gets (λ a. a.memo.leased w.workflow_id p)
      token ← gets (λ a. a.memo.tokens w.workflow_id)
      if busy then out_of_fuel else memo_lease key task timeout p token

    -- `execute`: a result moves the runner on.
    unfoldable pub memo_execute :
        String → Async (Spec R U) R → Option ℕ → Async (Session (Spec R U)) R
    memo_execute key task timeout = do
      p ← position_of
      found ← on_env (gets (λ a. a.memo.results w.workflow_id p))
      r ← on_env (memo_at key task (or_default timeout (1000 * 30)) p found)
      next_position
      pure r

    abbrev pub complete_by : Option ℕ → Async (Spec R U) (Unit {0})
    complete_by none = throw (refused (code_text fencing_token_not_found))
    complete_by (some token) =
        if ltb token w.fencing_token
        then throw (refused (code_text fencing_token_expired))
        else modify_memo (λ m. record m {
          rows =
              with_row m.rows w.workflow_id (finished (m.rows w.workflow_id) m.now (retention w));
        })

    unfoldable pub memo_complete : Async (Spec R U) (Unit {0})
    memo_complete = do token ← gets (λ a. a.memo.tokens w.workflow_id); complete_by token
