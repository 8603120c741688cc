-- ===== src/Memo/StartRules.antt =====
-- How a start and a completion change the journal of a workflow, as rules for programs over the promise.
use idempotent_transformer.Common.{
  ℕ, String, ◌≡◌, refl, ◌∙◌, Bool, false, Option, some, List, ltb, arith,
}
use text.Mathlib.TextPositions.{eq_refl}
use idempotent_transformer.Runner.{Workflow, WorkflowOptions}
use idempotent_transformer.Server.{incremented}
use idempotent_transformer.Memo.{Spec, memo_start, memo_complete}
use idempotent_transformer.Memo.Journal.{Returns, returned, Stable, Journal}

-- The runner of a new start.
abbrev pub started_as : Option ℕ → String → WorkflowOptions → Workflow
started_as token id options = record {
  workflow_id = id;
  fencing_token = incremented token 1;
  completed_retention_time = options.completed_retention_time;
}

module _ {R U : Type 0} (Before : Spec R U → Type 0) (token : Option ℕ) (rs : List (String × R))
    (busy : Bool) (a : Spec R U) where
  pub memo_start_returns :
      (id : String) (options : WorkflowOptions)
      → Stable id Before
      → Journal id token rs busy a.memo
      → Before a
      → Returns
          (memo_start id options)
          a
          (started_as token id options)
          (λ b. Journal id (some (incremented token 1)) rs busy b.memo × Before b)
  unfolding memo_start
  memo_start_returns id options stable j before =
      let there = j.current in
      record {
        ended = rw there refl;
        after = (
          record { current = rw (eq_refl id, there) refl; entries = j.entries; lease = j.lease },
          stable a _
              (record {
                now = refl;
                tokens = λ other e. ground arith;
                results = λ other p e. refl;
                leased = λ other p e. refl;
              })
              before,
        );
      }

  -- A runner may complete its workflow unless its token is larger than the current one.
  pub memo_complete_returns :
      (w : Workflow) (current : ℕ)
      → Stable w.workflow_id Before
      → token ≡ some current
      → ltb current w.fencing_token ≡ false
      → Journal w.workflow_id token rs busy a.memo
      → Before a
      → Returns (memo_complete w) a tt (λ b. Journal w.workflow_id token rs busy b.memo × Before b)
  unfolding memo_complete
  memo_complete_returns w current stable here young j before = returned (memo_complete w) a (
      rw (j.current ∙ here) (
        rw young (
          refl,
          (
            record { current = j.current; entries = j.entries; lease = j.lease },
            stable a _
                (record {
                  now = refl;
                  tokens = λ other e. refl;
                  results = λ other p e. refl;
                  leased = λ other p e. refl;
                })
                before,
          ),
        )))
