-- ===== src/Scenario/Nested/Outer.antt =====
-- The calls of the outer runner, in the first run and in the retry.
use idempotent_transformer.Common.{
  ℕ, ◌+◌, String, ◌≡◌, refl, false, Option, none, some, List, [], ◌∷◌, ◌++◌, arith,
}
use idempotent_transformer.Async.{Thrown}
use idempotent_transformer.Runner.{Workflow, Session}
use idempotent_transformer.Server.{incremented}
use idempotent_transformer.Memo.{Spec}
use idempotent_transformer.Memo.Journal.{Returns, Throws, Journal, Stable, other-Journal}
use idempotent_transformer.Memo.Rules.{>>-Returns, >>-Throws, throws->>=, returns_as, throws_as}
use idempotent_transformer.Scenario.{promised}
use idempotent_transformer.Scenario.Steps.{
  AtPosition, fail_task_step, store_task_step, complete_step, store_step, replay_step,
}
use idempotent_transformer.Scenario.Nested.{Value, Variables, task1, task2, outer_run}
use idempotent_transformer.Scenario.Nested.Inner.{
  inner_id, inner_id-differs, vars, inner1, inner3, total, failure, task2_fails, task2_returns,
}

-- What is known between the calls of the outer runner: the variables, and the journal of the inner workflow.
abbrev pub And :
    String → Variables → Option ℕ → List (String × Value) → Spec Value Variables → Type 0
And id v token rs a = (a.user ≡ v) × Journal (inner_id id) token rs false a.memo

pub And-Stable :
    (id : String) (v : Variables) (token : Option ℕ) (rs : List (String × Value))
    → Stable id (And id v token rs)
And-Stable id v token rs a m same (ran, j) =
    (ran, other-Journal id (inner_id id) token rs false a.memo m (inner_id-differs id) same j)

module _ (assertion : Thrown) (input : String) (w : Workflow) (token : Option ℕ) where
  abbrev id : String
  id = w.workflow_id

  abbrev pub done1 : List (String × Value)
  done1 = ("task1", some input) ∷ []

  abbrev done2 : List (String × Value)
  done2 = ("task1", some input) ∷ ("task2", total w done1 0 assertion input token) ∷ []

  abbrev done4 : List (String × Value)
  done4 = done2 ++ (("task3", none) ∷ ("task4", some input) ∷ [])

  pub first_run_lem :
      (s : Session (Spec Value Variables))
      → AtPosition 0 w [] (And id (vars 0 0 0 0 0 0 0 0) token []) s
      → Throws
          (outer_run promised assertion id input w)
          s
          (failure w done1 0 assertion input token)
          (AtPosition 1 w done1 (
            And id
              (vars 0 1 0 0 0 1 0 0)
              (some (incremented token 1))
              (inner1 w done1 0 assertion input token)))
  first_run_lem s at =
      >>-Throws
        (store_step w "task1" _ none [] (And id (vars 0 0 0 0 0 0 0 0) token [])
          (And id (vars 0 1 0 0 0 0 0 0) token []) (And-Stable id _ _ _) (And-Stable id _ _ _)
          (some input) (λ v. record v { execution0 = v.execution0 + 1 }) s
          (λ b (ran, rest). (refl, (rw ran refl, rest))) at)
        (λ s1 at1. throws->>= _ (
          fail_task_step w "task2" (task2 promised assertion id input) none done1
            (And id (vars 0 1 0 0 0 0 0 0) token []) _ (And-Stable id _ _ _) (And-Stable id _ _ _)
            (failure w done1 0 assertion input token) s1
            (λ b j (ran, ji).
              throws_as (λ c (ji', (ran', (j', now))). (j', (ran', ji')))
                (task2_fails w done1 b.memo.now assertion input token b ji (ran, (j, refl))))
            at1))

  pub second_run_lem :
      (s : Session (Spec Value Variables))
      → AtPosition 0 w done1
          (And id (vars 1 1 0 0 0 1 0 0) token (inner1 w done1 0 assertion input token))
          s
      → Returns (outer_run promised assertion id input w) s tt (
          AtPosition 4 w done4 (
            And id
              (vars 1 1 1 1 1 1 1 1)
              (some (incremented token 1))
              (inner3 w done1 0 assertion input token)))
  second_run_lem s at =
      >>-Returns
        (replay_step w "task1" (task1 promised assertion id input) none 0 done1
          (And id (vars 1 1 0 0 0 1 0 0) token (inner1 w done1 0 assertion input token))
          (some input) s refl at)
        (λ s1 at1.
          >>-Returns
            (store_task_step w "task2" (task2 promised assertion id input) none done1
              (And id (vars 1 1 0 0 0 1 0 0) token (inner1 w done1 0 assertion input token))
              (And id (vars 1 1 1 0 0 1 1 1) (some (incremented token 1))
                (inner3 w done1 0 assertion input token))
              (And-Stable id _ _ _) (And-Stable id _ _ _) (total w done1 0 assertion input token) s1
              (λ b j (ran, ji).
                returns_as (λ c (ji', (ran', (j', now))). (j', ((ran', ji'), ground arith)))
                  (task2_returns w done1 b.memo.now assertion input token b ji (ran, (j, refl))))
              at1)
            (λ s2 at2.
              >>-Returns
                (store_step w "task3" _ none done2
                  (And id (vars 1 1 1 0 0 1 1 1) (some (incremented token 1))
                    (inner3 w done1 0 assertion input token))
                  (And id (vars 1 1 1 1 0 1 1 1) (some (incremented token 1))
                    (inner3 w done1 0 assertion input token))
                  (And-Stable id _ _ _) (And-Stable id _ _ _) none
                  (λ v. record v { execution2 = v.execution2 + 1 }) s2
                  (λ b (ran, rest). (refl, (rw ran refl, rest))) at2)
                (λ s3 at3.
                  >>-Returns
                    (store_step w "task4" _ none (done2 ++ (("task3", none) ∷ []))
                      (And id (vars 1 1 1 1 0 1 1 1) (some (incremented token 1))
                        (inner3 w done1 0 assertion input token))
                      (And id (vars 1 1 1 1 1 1 1 1) (some (incremented token 1))
                        (inner3 w done1 0 assertion input token))
                      (And-Stable id _ _ _) (And-Stable id _ _ _) (some input)
                      (λ v. record v { execution3 = v.execution3 + 1 }) s3
                      (λ b (ran, rest). (refl, (rw ran refl, rest))) at3)
                    (λ s4 at4.
                      complete_step
                        (And id (vars 1 1 1 1 1 1 1 1) (some (incremented token 1))
                          (inner3 w done1 0 assertion input token))
                        w 4 done4 s4 (And-Stable id _ _ _) at4))))
