-- ===== src/Scenario/Contract/Passes.antt =====
-- How the scenario of the user-defined class goes, call by call, and how it ends.
use idempotent_transformer.Common.{
  ℕ, ◌+◌, String, ◌≡◌, refl, ap, ◌∙◌, true, false, Option, none, some, List, [], ◌∷◌, arith, ltb,
  ◌==◌,
}
use text.Mathlib.TextPositions.{eq_refl}
use idempotent_transformer.Async.{Thrown, done, Async}
use idempotent_transformer.Runner.{Workflow, WorkflowOptions}
use idempotent_transformer.Simulation.{Follows, >>=-Follows, >>-Follows, pure-Follows}
use idempotent_transformer.Serializer.{Decorations, serialize}
use idempotent_transformer.Serializer.Registry.{IsSound}
use idempotent_transformer.Memo.{Spec, memo_complete}
use idempotent_transformer.Memo.Journal.{Returns, Journal}
use idempotent_transformer.Memo.World.{World, Platform, IsFaithful}
use idempotent_transformer.Memo.Rules.{>>=-Returns, >>-Returns, returns_as}
use idempotent_transformer.Memo.StartRules.{started_as, memo_complete_returns}
use idempotent_transformer.Scenario.Steps.{
  At, store_step, replay_step, start_step, on_runner_step, expect_step, pure_step,
}
use idempotent_transformer.Scenario.{Transformer, promised, library, on_runner}
use idempotent_transformer.Scenario.Refinement.{
  Implements, IsFresh, blank, blank-Journal, library-Implements, library_returns, on_runner-Follows,
  expect-Follows, read-Follows, assign-Follows, start-Follows, execute-Follows, complete-Follows,
}
use idempotent_transformer.Scenario.Contract.{
  UserDefinedClass, UserDefinedJson, user_defined_class, decorated, configured, made,
  user_defined_class_task, execute_twice, is_decoded, serialize_a_user_defined_class,
}
use idempotent_transformer.Scenario.Contract.Configured.{configured-IsFaithful}

module _ {S T : Type 0} (Rel : S → T → Type 0) (Mine : String → Type 0)
    (abstract_ : Transformer S UserDefinedClass ℕ) (detailed : Transformer T UserDefinedClass ℕ)
    (law : Implements Rel Mine abstract_ detailed) (assertion : Thrown) (id : String)
    (owner : Mine id) (uuid : ℕ → String) (int date : ℕ → ℕ) where
  serialize_a-Follows :
      Follows Rel
        (serialize_a_user_defined_class abstract_ assertion id uuid int date)
        (serialize_a_user_defined_class detailed assertion id uuid int date)
  unfolding serialize_a_user_defined_class
  serialize_a-Follows =
      search
        (
          start-Follows law,
          on_runner-Follows,
          execute-Follows law,
          complete-Follows law,
          read-Follows law,
          assign-Follows law,
          expect-Follows,
          >>=-Follows,
          >>-Follows,
          pure-Follows,
          owner,
        )
        depth 40 fits 5000

module _ (assertion : Thrown) (id : String) (uuid : ℕ → String) (int date : ℕ → ℕ) where
  abbrev object : UserDefinedClass
  object = made promised assertion id uuid int date 0

  abbrev results : List (String × UserDefinedClass)
  results = ("user-defined-class", object) ∷ []

  abbrev task : Async (Spec UserDefinedClass ℕ) UserDefinedClass
  task = user_defined_class_task promised assertion id uuid int date

  -- The task has run so often.
  abbrev Ran : ℕ → Spec UserDefinedClass ℕ → Type 0
  Ran count a = a.user ≡ count

  abbrev options : WorkflowOptions
  options = record { completed_retention_time = none; name = some "user-defined-class" }

  is_decoded_lem : is_decoded promised assertion id uuid int date object object ≡ true
  is_decoded_lem =
      let same : (int 0 == int 0) ≡ true = ground arith in
      let at : (date 0 == date 0) ≡ true = ground arith in
      rw (eq_refl (uuid 0)) (rw same (rw at refl))

  first_lem :
      (w : Workflow) (a : Spec UserDefinedClass ℕ)
      → At w [] (Ran 0) a
      → Returns
          (on_runner (promised.execute w "user-defined-class" task none))
          a
          object
          (At w results (Ran 1))
  first_lem w a known = on_runner_step (Ran 0) w [] results 1 (Ran 1) known (λ s at.
      store_step w "user-defined-class" task none [] (Ran 0) (Ran 1) (λ a m e x. x) (λ a m e x. x)
        object (λ n. n + 1) s (λ b e. (rw e refl, ap (λ n. n + 1) e)) at)

  second_lem :
      (w : Workflow) (a : Spec UserDefinedClass ℕ)
      → At w results (Ran 1) a
      → Returns
          (on_runner (promised.execute w "user-defined-class" task none))
          a
          object
          (At w results (Ran 1))
  second_lem w a known =
      on_runner_step (Ran 1) w results results 1 (Ran 1) known
        (λ s at. replay_step w "user-defined-class" task none 0 results (Ran 1) object s refl at)

  -- The older runner completes the workflow.
  complete_lem :
      (token : Option ℕ) (a : Spec UserDefinedClass ℕ)
      → let w = started_as token id options in
        At (started_as (some w.fencing_token) id options) results (Ran 1) a
        → Returns (memo_complete w) a tt (Ran 1)
  complete_lem token a (j, ran) =
      let w = started_as token id options in
      let newer : ltb (w.fencing_token + 1) w.fencing_token ≡ false = ground arith in
      returns_as (λ b (j', ran'). ran')
        (memo_complete_returns (Ran 1) (some (w.fencing_token + 1)) results false a w
          (w.fencing_token + 1) (λ a m e x. x) refl newer j ran)

  execute_twice_lem :
      (token : Option ℕ) (a : Spec UserDefinedClass ℕ)
      → let w = started_as token id options in
        At w [] (Ran 0) a
        → Returns (execute_twice promised assertion id uuid int date w) a (object, object) (Ran 1)
  execute_twice_lem token a at =
      let w = started_as token id options in
      let w' = started_as (some w.fencing_token) id options in
      >>=-Returns _ (first_lem w a at) (λ b at1.
        >>=-Returns _
          (start_step (Ran 1) id options (some w.fencing_token) results b (λ a m e x. x) at1)
          (λ c at2. >>=-Returns _ (second_lem w' c at2) (λ d at3.
            >>-Returns (complete_lem token d at3) (λ e ran. pure_step (object, object) e ran))))

  passes_lem :
      (a : Spec UserDefinedClass ℕ) (token : Option ℕ)
      → Journal id token [] false a.memo
      → Ran 0 a
      → Returns (serialize_a_user_defined_class promised assertion id uuid int date) a tt (Ran 1)
  unfolding serialize_a_user_defined_class
  passes_lem a token j none_yet =
      >>=-Returns _ (start_step (Ran 0) id options token [] a (λ a m e x. x) (j, none_yet)) (λ b at.
        >>=-Returns _ (execute_twice_lem token b at) (λ c ran.
          expect_step (Ran 1) assertion
            (is_decoded promised assertion id uuid int date object object) c is_decoded_lem ran))

-- The scenario of the user-defined class passes on the library, over the adapter, the server, and
-- `MessagePack` as configured with the class, whatever faker and the clock give, if the decorator accepts the
-- class, over a sound registry, and the server has no result and no lease of the workflow: the expectations
-- on the two results hold, and the task runs once.
pub serialize_a_user_defined_class-passes :
    (f : Platform (Option String × UserDefinedJson) ℕ) (before : Decorations) (assertion : Thrown)
    (id : String) (uuid : ℕ → String) (int date : ℕ → ℕ) (e : World ℕ)
    → IsFaithful f
    → IsSound before
    → (serialize "UserDefinedClass" "toJSON" "fromJSON" user_defined_class before).0
      ≡ done user_defined_class
    → IsFresh (λ other. other ≡ id) e.database
    → e.user ≡ 0
    → let t = library (configured f (decorated before)) in
      ((serialize_a_user_defined_class t assertion id uuid int date e).0 ≡ done tt)
      × ((serialize_a_user_defined_class t assertion id uuid int date e).1.user ≡ 1)
serialize_a_user_defined_class-passes f before assertion id uuid int date e law sound succeeds fresh
      none_yet =
    let g = configured f (decorated before) in
    let a : Spec UserDefinedClass ℕ = record { memo = blank e.database; user = e.user } in
    let promise =
      passes_lem assertion id uuid int date a (e.database.fencing_tokens id)
        (blank-Journal e.database id) none_yet in
    let implements =
      library-Implements (λ other. other ≡ id) g
        (configured-IsFaithful f before law sound succeeds) in
    let (ended, reflects) =
      library_returns (λ other. other ≡ id) g.pack
        (serialize_a_user_defined_class promised assertion id uuid int date)
        (serialize_a_user_defined_class (library g) assertion id uuid int date) e tt
        (serialize_a-Follows _ _ _ _ implements assertion id refl uuid int date).simulates fresh
        promise.ended in
    (ended, reflects.1 ∙ promise.after)
