-- ===== src/Scenario/Tests.antt =====
-- The scenarios at a small server that has the workflow "w" of another program, and the refinement of the
-- runner at one execution.
use idempotent_transformer.Common.{ℕ, String, ◌≡◌, refl, Option, none, []}
use idempotent_transformer.Async.{Thrown, error, done, pure}
use idempotent_transformer.Runner.{Workflow, Session}
use idempotent_transformer.Server.Requests.Sample.{started}
use idempotent_transformer.Serializer.{Decorations, serialize, register, define_key}
use idempotent_transformer.Simulation.{Agrees, SessionRel}
use idempotent_transformer.Memo.{Spec, memo_execute}
use idempotent_transformer.Memo.Reflects.{Reflects}
use idempotent_transformer.Memo.Refines.{world_execute-Simulates}
use idempotent_transformer.Memo.World.{World, world_execute}
use idempotent_transformer.Scenario.{Transformer, library}
use idempotent_transformer.Scenario.Sample.{platform, platform-IsFaithful, world, started-IsFresh}
use idempotent_transformer.Scenario.Codec.{Codec, number, pair, list, option, by, text}
use idempotent_transformer.Scenario.Refinement.{blank}
use idempotent_transformer.Scenario.SingleTask.{TaskResult, successful_execution}
use idempotent_transformer.Scenario.SingleTask.Passes.{successful_execution-passes}
use idempotent_transformer.Scenario.FourTasks.{workflow_idempotency, initial}
use idempotent_transformer.Scenario.FourTasks.Passes.{workflow_idempotency-passes}
use idempotent_transformer.Scenario.Nested.{workflow_within_a_workflow}
use idempotent_transformer.Scenario.Nested.Inner.{vars}
use idempotent_transformer.Scenario.Nested.Passes.{workflow_within_a_workflow-passes}
use idempotent_transformer.Scenario.Contract.{
  UserDefinedClass, UserDefinedJson, user_defined_class, configured, decorated,
  serialize_a_user_defined_class,
}
use idempotent_transformer.Scenario.Contract.Passes.{serialize_a_user_defined_class-passes}
use idempotent_transformer.Scenario.Expiry.{persist_with_a_ttl, library_upkeep}
use idempotent_transformer.Scenario.Expiry.Outcomes.{persist_with_a_ttl-outcome}

abbrev assertion : Thrown
assertion = error "AssertionError" "expected"

abbrev task_result : Codec TaskResult
task_result =
    by (λ r. (r.c, (r.d, (r.e, (r.f, (r.g, r.h))))))
      (λ (c, (d, (e, (f, (g, h))))). record { c = c; d = d; e = e; f = f; g = g; h = h })
      (λ r. refl)
      (pair (list text) (
        pair (option text)
          (pair (option text) (pair (list (pair text text)) (pair (list number) number)))))

abbrev no_result : TaskResult
no_result = record { c = []; d = none; e = none; f = []; g = []; h = 0 }

successful_execution-passes_example :
    ((successful_execution
        (library (platform task_result no_result))
        assertion
        "w"
        "input"
        7
        (world 0)).0
      ≡ done tt)
    × ((successful_execution
          (library (platform task_result no_result))
          assertion
          "w"
          "input"
          7
          (world 0)).1.user
        ≡ 1)
successful_execution-passes_example =
    successful_execution-passes (platform task_result no_result) assertion "w" "input" 7 (world 0)
      (platform-IsFaithful task_result no_result) (started-IsFresh _) refl

workflow_idempotency-passes_example :
    ((workflow_idempotency
        (library (platform (option text) none))
        assertion
        "w"
        "input"
        (world initial)).0
      ≡ done tt)
    × ((workflow_idempotency
          (library (platform (option text) none))
          assertion
          "w"
          "input"
          (world initial)).1.user
        ≡ record {
          retry_count = 1;
          execution0 = 1;
          execution1 = 1;
          execution2 = 1;
          execution3 = 1;
        })
workflow_idempotency-passes_example =
    workflow_idempotency-passes (platform (option text) none) assertion "w" "input" (world initial)
      (platform-IsFaithful (option text) none) (started-IsFresh _) refl

workflow_within_a_workflow-passes_example :
    ((workflow_within_a_workflow
        (library (platform (option text) none))
        assertion
        "w"
        "input"
        (world (vars 0 0 0 0 0 0 0 0))).0
      ≡ done tt)
    × ((workflow_within_a_workflow
          (library (platform (option text) none))
          assertion
          "w"
          "input"
          (world (vars 0 0 0 0 0 0 0 0))).1.user
        ≡ vars 1 1 1 1 1 1 1 1)
workflow_within_a_workflow-passes_example =
    workflow_within_a_workflow-passes (platform (option text) none) assertion "w" "input"
      (world (vars 0 0 0 0 0 0 0 0)) (platform-IsFaithful (option text) none) (started-IsFresh _)
      refl

abbrev json : Codec UserDefinedJson
json =
    by (λ r. (r.a, (r.b, (r.c, (r.d, r.e)))))
      (λ (a, (b, (c, (d, e)))). record { a = a; b = b; c = c; d = d; e = e }) (λ r. refl)
      (pair text (pair number (pair (list (pair text text)) (pair (list number) number))))

abbrev no_json : Option String × UserDefinedJson
no_json = (none, record { a = ""; b = 0; c = []; d = []; e = 0 })

abbrev nothing_decorated : Decorations
nothing_decorated = record { serialize_key = λ c. none; decorated_models = [] }

decorates :
    (serialize "UserDefinedClass" "toJSON" "fromJSON" user_defined_class nothing_decorated).0
    ≡ done user_defined_class
unfolding serialize register define_key
decorates = refl

abbrev class_library : Transformer (World ℕ) UserDefinedClass ℕ
class_library =
    library (
      configured (platform {U = ℕ} (pair (option text) json) no_json) (decorated nothing_decorated))

serialize_a_user_defined_class-passes_example :
    ((serialize_a_user_defined_class class_library assertion "w"
        (λ n. "4b")
        (λ n. n)
        (λ n. n)
        (world 0)).0
      ≡ done tt)
    × ((serialize_a_user_defined_class class_library assertion "w"
          (λ n. "4b")
          (λ n. n)
          (λ n. n)
          (world 0)).1.user
        ≡ 1)
serialize_a_user_defined_class-passes_example =
    serialize_a_user_defined_class-passes (platform (pair (option text) json) no_json)
      nothing_decorated assertion "w" (λ n. "4b") (λ n. n) (λ n. n) (world 0)
      (platform-IsFaithful (pair (option text) json) no_json) tt decorates (started-IsFresh _) refl

persist_with_a_ttl-outcome_example :
    (persist_with_a_ttl
      (library (platform text ""))
      (library_upkeep (platform text ""))
      assertion
      "w"
      "sentence"
      9000
      (world tt)).0
    ≡ done tt
persist_with_a_ttl-outcome_example =
    persist_with_a_ttl-outcome (platform text "") assertion "w" "sentence" 9000 (world tt)
      (platform-IsFaithful text "") (started-IsFresh _)

abbrev runner : Workflow
runner = record { workflow_id = "w"; fencing_token = 2; completed_retention_time = none }

-- The promised and the real sessions at position 0.
abbrev spec_session : Session (Spec ℕ ℕ)
spec_session = record { position = 0; env = record { memo = blank started; user = 0 } }

abbrev world_session : Session (World ℕ)
world_session = record { position = 0; env = world 0 }

abbrev Related : Spec ℕ ℕ → World ℕ → Type 0
Related = Reflects (λ id. id ≡ "w") number.encode

blank-started : Related (record { memo = blank started; user = 0 }) (world 0)
blank-started = (
  record {
    now = refl;
    tokens = λ id own. refl;
    rows = λ id own. refl;
    results = λ id p own. refl;
    leases = λ id p own free. refl;
  },
  refl,
)

world_execute-Simulates_example :
    Agrees
      (SessionRel Related)
      (memo_execute runner "a" (pure 4) none spec_session).0
      (memo_execute runner "a" (pure 4) none spec_session).1
      (world_execute (platform number 0) runner "a" (pure 4) none world_session).0
      (world_execute (platform number 0) runner "a" (pure 4) none world_session).1
world_execute-Simulates_example =
    world_execute-Simulates (λ id. id ≡ "w") (platform number 0) (platform-IsFaithful number 0)
      runner refl "a" (pure 4) (pure 4) none (λ s t r. (refl, r)) spec_session world_session
      (refl, blank-started)

-- The promise says how this execution ends: the runner returns the result of the task.
promise_of_the_example : (memo_execute runner "a" (pure 4) none spec_session).0 ≡ done 4
unfolding memo_execute
promise_of_the_example = refl
