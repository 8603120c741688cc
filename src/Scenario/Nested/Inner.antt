-- ===== src/Scenario/Nested/Inner.antt =====
-- The inner workflow of the scenario, which a task of the outer one runs.
use idempotent_transformer.Common.{
  ℕ, ◌+◌, String, ◌≡◌, ◌≢◌, refl, sym, ◌∙◌, true, false, Bool-cases, inl, inr, Option, none, some,
  List, [], ◌∷◌, str_eq, str_eq_iff,
}
use Prim.Native.String.{◌++◌ as append}
use text.Mathlib.TextLemmas.{append_cancel_left, append-nil, cons≢nil}
use idempotent_transformer.Async.{Thrown, error}
use idempotent_transformer.Runner.{Workflow, WorkflowOptions, Session}
use idempotent_transformer.Memo.{Spec}
use idempotent_transformer.Memo.Journal.{Returns, Throws, Journal, Stable, other-Journal}
use idempotent_transformer.Memo.Rules.{>>=-Returns, >>-Returns, >>=-Throws, throws->>=}
use idempotent_transformer.Memo.StartRules.{started_as}
use idempotent_transformer.Scenario.{promised, on_runner}
use idempotent_transformer.Scenario.Steps.{
  At, AtPosition, fail_step, complete_step, on_runner_fails, assign_at_step, pure_step, store_step,
  replay_step, start_step, on_runner_step,
}
use idempotent_transformer.Scenario.Nested.{Value, Variables, task5, task6, inner_run, task2, plus}

abbrev pub inner_id : String → String
inner_id id = append id "-task2"

inner_id-≢ : (id : String) → id ≢ inner_id id
inner_id-≢ id e = cons≢nil (append_cancel_left id _ _ (sym e ∙ sym (append-nil id)))

str_eq-≢ : (a b : String) → a ≢ b → str_eq a b ≡ false
str_eq-≢ a b differ = elim (Bool-cases (str_eq a b)) [
  | inl same ↦ absurd (differ ((str_eq_iff a b).0 same))
  | inr other ↦ other
]

pub inner_id-differs : (id : String) → str_eq id (inner_id id) ≡ false
inner_id-differs id = str_eq-≢ id (inner_id id) (inner_id-≢ id)

inner_id-differs_back : (id : String) → str_eq (inner_id id) id ≡ false
inner_id-differs_back id = str_eq-≢ (inner_id id) id (λ e. inner_id-≢ id (sym e))

abbrev pub vars : (retry_count n0 n1 n2 n3 n4 n5 n6 : ℕ) → Variables
vars retry_count n0 n1 n2 n3 n4 n5 n6 = record {
  retry_count = retry_count;
  execution0 = n0;
  execution1 = n1;
  execution2 = n2;
  execution3 = n3;
  execution4 = n4;
  execution5 = n5;
  execution6 = n6;
}

-- What is known while a task of the outer workflow runs: the variables, the journal, and the time.
abbrev Around : Workflow → List (String × Value) → ℕ → Variables → Spec Value Variables → Type 0
Around w rs n v a =
    (a.user ≡ v) × (Journal w.workflow_id (some w.fencing_token) rs true a.memo × (a.memo.now ≡ n))

module _ (w : Workflow) (rs : List (String × Value)) (n : ℕ) where
  abbrev id : String
  id = w.workflow_id

  Around-Stable : (v : Variables) → Stable (inner_id id) (Around w rs n v)
  Around-Stable v a m same (ran, (j, at)) = (
    ran,
    (
      other-Journal (inner_id id) id (some w.fencing_token) rs true a.memo m
          (inner_id-differs_back id) same j,
      same.now ∙ at,
    ),
  )

  module _ (assertion : Thrown) (input : String) (token : Option ℕ) where
    abbrev inner_options : WorkflowOptions
    inner_options = record {
      completed_retention_time = none;
      name = some "inner workflow with 3 tasks";
    }

    abbrev pub inner : Workflow
    inner = started_as token (inner_id id) inner_options

    abbrev pub failure : Thrown
    failure = error "Error" "Task 6 failed"

    abbrev pub inner1 : List (String × Value)
    inner1 = ("task5", some input) ∷ []

    abbrev inner2 : List (String × Value)
    inner2 = ("task5", some input) ∷ ("task6", some input) ∷ []

    abbrev pub inner3 : List (String × Value)
    inner3 = ("task5", some input) ∷ ("task6", some input) ∷ ("task7", some input) ∷ []

    abbrev pub total : Value
    total = plus (plus (some input) (some input)) (some input)

    inner_run_fails :
        (s : Session (Spec Value Variables))
        → AtPosition 0 inner [] (Around w rs n (vars 0 1 0 0 0 0 0 0)) s
        → Throws
            (inner_run promised assertion id input inner)
            s
            failure
            (AtPosition 1 inner inner1 (Around w rs n (vars 0 1 0 0 0 1 0 0)))
    inner_run_fails s at =
        >>=-Throws _
          (store_step inner "task5" _ none [] (Around w rs n (vars 0 1 0 0 0 0 0 0))
            (Around w rs n (vars 0 1 0 0 0 1 0 0)) (Around-Stable _) (Around-Stable _) (some input)
            (λ v. record v { execution4 = v.execution4 + 1 }) s
            (λ b (ran, rest). (refl, (rw ran refl, rest))) at)
          (λ s1 at1. throws->>= _ (
            fail_step inner "task6" (task6 promised assertion id input) none inner1
              (Around w rs n (vars 0 1 0 0 0 1 0 0)) (Around w rs n (vars 0 1 0 0 0 1 0 0))
              (Around-Stable _) (Around-Stable _) failure (λ v. v) s1
              (λ b (ran, rest). (rw ran refl, (ran, rest))) at1))

    inner_run_returns :
        (s : Session (Spec Value Variables))
        → AtPosition 0 inner inner1 (Around w rs n (vars 1 1 0 0 0 1 0 0)) s
        → Returns
            (inner_run promised assertion id input inner)
            s
            total
            (AtPosition 3 inner inner3 (Around w rs n (vars 1 1 1 0 0 1 1 1)))
    inner_run_returns s at =
        >>=-Returns _
          (replay_step inner "task5" (task5 promised assertion id input) none 0 inner1
            (Around w rs n (vars 1 1 0 0 0 1 0 0)) (some input) s refl at)
          (λ s1 at1.
            >>=-Returns _
              (store_step inner "task6" _ none inner1 (Around w rs n (vars 1 1 0 0 0 1 0 0))
                (Around w rs n (vars 1 1 0 0 0 1 1 0)) (Around-Stable _) (Around-Stable _)
                (some input) (λ v. record v { execution5 = v.execution5 + 1 }) s1
                (λ b (ran, rest). (rw ran refl, (rw ran refl, rest))) at1)
              (λ s2 at2.
                >>=-Returns _
                  (store_step inner "task7" _ none inner2 (Around w rs n (vars 1 1 0 0 0 1 1 0))
                    (Around w rs n (vars 1 1 0 0 0 1 1 1)) (Around-Stable _) (Around-Stable _)
                    (some input) (λ v. record v { execution6 = v.execution6 + 1 }) s2
                    (λ b (ran, rest). (refl, (rw ran refl, rest))) at2)
                  (λ s3 at3.
                    >>-Returns
                      (assign_at_step (Around w rs n (vars 1 1 0 0 0 1 1 1))
                        (λ v. record v { execution1 = v.execution1 + 1 })
                        (Around w rs n (vars 1 1 1 0 0 1 1 1)) inner 3 inner3 s3
                        (λ b (ran, rest). (rw ran refl, rest)) at3)
                      (λ s4 at4.
                        >>-Returns
                          (complete_step (Around w rs n (vars 1 1 1 0 0 1 1 1)) inner 3 inner3 s4
                            (Around-Stable _) at4)
                          (λ s5 at5. pure_step total s5 at5)))))

    -- The task of the outer workflow that runs the inner one, in the first run.
    pub task2_fails :
        (a : Spec Value Variables)
        → Journal (inner_id id) token [] false a.memo
        → Around w rs n (vars 0 1 0 0 0 0 0 0) a
        → Throws
            (task2 promised assertion id input)
            a
            failure
            (At inner inner1 (Around w rs n (vars 0 1 0 0 0 1 0 0)))
    task2_fails a j around =
        >>=-Throws (λ inner_runner. on_runner (inner_run promised assertion id input inner_runner))
          (start_step (Around w rs n (vars 0 1 0 0 0 0 0 0)) (inner_id id) inner_options token [] a
            (Around-Stable _) (j, around))
          (λ b at.
            on_runner_fails (Around w rs n (vars 0 1 0 0 0 0 0 0)) inner [] inner1 1
              (Around w rs n (vars 0 1 0 0 0 1 0 0)) at inner_run_fails)

    -- The same in the second run, where the inner workflow has the result of its first task.
    pub task2_returns :
        (a : Spec Value Variables)
        → Journal (inner_id id) token inner1 false a.memo
        → Around w rs n (vars 1 1 0 0 0 1 0 0) a
        → Returns
            (task2 promised assertion id input)
            a
            total
            (At inner inner3 (Around w rs n (vars 1 1 1 0 0 1 1 1)))
    task2_returns a j around =
        >>=-Returns (λ inner_runner. on_runner (inner_run promised assertion id input inner_runner))
          (start_step (Around w rs n (vars 1 1 0 0 0 1 0 0)) (inner_id id) inner_options token
            inner1 a (Around-Stable _) (j, around))
          (λ b at.
            on_runner_step (Around w rs n (vars 1 1 0 0 0 1 0 0)) inner inner1 inner3 3
              (Around w rs n (vars 1 1 1 0 0 1 1 1)) at inner_run_returns)
