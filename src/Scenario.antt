-- ===== src/Scenario.antt =====
-- bdd_tests/features: the acceptance tests, as programs over the transformer that they build. Each
-- scenario is one program, with its steps in the order of its feature file; what a step keeps in a
-- variable of its module is part of the state, or is handed to the steps that read it.
-- The expectations are those of chai: one that fails throws an error, a parameter.
pub mod Refinement
pub mod Steps
pub mod SingleTask
pub mod FourTasks
pub mod Nested
pub mod Contract
pub mod Expiry
pub mod Codec
pub mod Sample
mod Tests
use idempotent_transformer.Common.{
  ℕ, ◌+◌, String, Bool, true, false, Option, none, some, List, [], ◌∷◌, ◌==◌, str_eq, if◌then◌else◌,
}
use idempotent_transformer.Async.{
  Thrown, error, non_error, Async, pure, throw, gets, modify, ◌>>=◌, try_catch,
}
use idempotent_transformer.Runner.{WorkflowOptions, Workflow, Session}
use idempotent_transformer.Memo.{Memo, Spec, memo_start, memo_execute, memo_complete}
use idempotent_transformer.Memo.World.{World, Platform, world_start, world_execute, world_complete}

-- A transformer with its runners, the clock, and the variables `V` of the program that uses them.
pub record Transformer (E R V : Type 0) : Type 0 where
  pub start_workflow : String → WorkflowOptions → Async E Workflow
  pub execute : Workflow → String → Async E R → Option ℕ → Async (Session E) R
  pub complete : Workflow → Async E (Unit {0})
  pub now : E → ℕ
  pub after_wait : ℕ → E → E
  pub variables : E → V
  pub with_variables : (V → V) → E → E

-- The transformer of the library.
abbrev pub library : {R V : Type 0} → Platform R V → Transformer (World V) R V
library f = record {
  start_workflow = world_start f;
  execute = world_execute f;
  complete = world_complete f;
  now = λ e. e.database.now;
  after_wait = λ ms e. record e { database = record e.database { now = e.database.now + ms } };
  variables = λ e. e.user;
  with_variables = λ g e. record e { user = g e.user };
}

-- The one that is promised.
abbrev pub promised : {R V : Type 0} → Transformer (Spec R V) R V
promised = record {
  start_workflow = memo_start;
  execute = memo_execute;
  complete = memo_complete;
  now = λ a. a.memo.now;
  after_wait = λ ms a. record a { memo = record a.memo { now = a.memo.now + ms } };
  variables = λ a. a.user;
  with_variables = λ g a. record a { user = g a.user };
}

module _ {E R V : Type 0} (t : Transformer E R V) where
  abbrev pub read : {A : Type 0} → (V → A) → Async E A
  read g = gets (λ e. g (t.variables e))

  abbrev pub assign : (V → V) → Async E (Unit {0})
  assign g = modify (t.with_variables g)

  abbrev pub wait : ℕ → Async E (Unit {0})
  wait ms = modify (t.after_wait ms)

  -- `Date.now()`
  abbrev pub date_now : Async E ℕ
  date_now = gets t.now

-- What is done with a new runner.
abbrev pub on_runner : {E A : Type 0} → Async (Session E) A → Async E A
on_runner m e = let (o, s) = m (record { position = 0; env = e }) in (o, s.env)

-- `expect(…)` with a test that holds or does not.
abbrev pub expect : {E : Type 0} → Thrown → Bool → Async E (Unit {0})
expect assertion b = if b then pure tt else throw assertion

-- A `try` around a program, whose `catch` keeps the error in a variable.
abbrev pub caught : {E : Type 0} → Async E (Unit {0}) → Async E (Option Thrown)
caught m = try_catch (m >>= λ _. pure none) (λ err. pure (some err))

-- `expect(error).to.be.instanceOf(Error)`
abbrev pub is_error : Option Thrown → Bool
is_error none = false
is_error (some (error name message)) = true
is_error (some (non_error s)) = false

-- `map.get(key)`, compared with a value.
abbrev pub map_has : String → String → List (String × String) → Bool
map_has key value [] = false
map_has key value ((k, v) ∷ rest) = if str_eq k key then str_eq v value else map_has key value rest

abbrev pub set_has : ℕ → List ℕ → Bool
set_has n [] = false
set_has n (x ∷ xs) = if n == x then true else set_has n xs
