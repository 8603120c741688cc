-- ===== src/Scenario/Contract.antt =====
-- bdd_tests/features/step_definitions/contracted-based-serialization/01.ts: a task that returns an instance
-- of a decorated class, which `MessagePack` was configured with.
pub mod Configured
pub mod Passes
use idempotent_transformer.Common.{
  ℕ, zero, suc, ◌+◌, String, Bool, true, false, ◌&&◌, Option, none, some, List, [], ◌∷◌, ◌==◌,
  str_eq, if◌then◌else◌,
}
use idempotent_transformer.Async.{
  Thrown, error, Outcome, done, thrown, running, Async, pure, throw, ◌>>=◌, ◌>>◌,
}
use idempotent_transformer.Runner.{Workflow, WorkflowOptions, Session, on_env}
use idempotent_transformer.Serializer.{Class, DecoratedModel, Decorations, serialize}
use idempotent_transformer.MessagePack.{Objects, Extension, extension_of}
use idempotent_transformer.Memo.World.{Platform}
use idempotent_transformer.Scenario.{Transformer, read, assign, on_runner, expect, map_has, set_has}

-- The private fields. A `Map` is the list of its entries, a `Set` that of its elements, and a `Date` is its
-- time.
pub record UserDefinedClass : Type 0 where
  pub a : String
  pub b : ℕ
  pub c : List (String × String)
  pub d : List ℕ
  pub e : ℕ

-- What `toJSON` returns: a plain object.
pub record UserDefinedJson : Type 0 where
  pub a : String
  pub b : ℕ
  pub c : List (String × String)
  pub d : List ℕ
  pub e : ℕ

abbrev to_json : UserDefinedClass → UserDefinedJson
to_json this = record { a = this.a; b = this.b; c = this.c; d = this.d; e = this.e }

abbrev from_json : UserDefinedJson → UserDefinedClass
from_json data_ = record { a = data_.a; b = data_.b; c = data_.c; d = data_.d; e = data_.e }

abbrev sum : List ℕ → ℕ → ℕ
sum [] acc = acc
sum (curr ∷ rest) acc = sum rest (acc + curr)

abbrev sum_set : UserDefinedClass → ℕ
sum_set this = sum this.d 0

-- The class as the decorator sees it; getters are no methods.
abbrev pub user_defined_class : Class
user_defined_class = record {
  identity = 1;
  methods = "toJSON" ∷ "sumSet" ∷ [];
  statics = "fromJSON" ∷ [];
}

-- Its instances, with the calls by name that an extension makes: of its methods it calls `toJSON` only.
abbrev pub objects : Objects
objects = record {
  Object = UserDefinedClass;
  Value = UserDefinedJson;
  class_of = λ this. user_defined_class;
  call_method = λ this name. to_json this;
  call_static = λ target name data_.
      if str_eq name "fromJSON"
      then done (from_json data_)
      else thrown (error "TypeError" "is not a function");
}

abbrev pub model : DecoratedModel
model = record {
  class = user_defined_class;
  serialize_method_name = "toJSON";
  deserialize_method_name = "fromJSON";
}

-- The registry once the class is decorated.
abbrev pub decorated : Decorations → Decorations
decorated before = (serialize "UserDefinedClass" "toJSON" "fromJSON" user_defined_class before).1

module _ {E : Type 0} (t : Transformer E UserDefinedClass ℕ) (assertion : Thrown)
    (workflow_id : String) (uuid : ℕ → String) (int date : ℕ → ℕ) where
  -- Each call makes other values: those that faker and the clock give on that call.
  abbrev pub made : ℕ → UserDefinedClass
  made n = record { a = uuid n; b = int n; c = ("a", "b") ∷ []; d = 1 ∷ 2 ∷ 3 ∷ []; e = date n }

  abbrev pub user_defined_class_task : Async E UserDefinedClass
  user_defined_class_task = do
    n ← read t (λ calls. calls)
    assign t (λ calls. calls + 1)
    pure (made n)

  abbrev pub start : Async E Workflow
  start =
      t.start_workflow workflow_id
        (record { completed_retention_time = none; name = some "user-defined-class" })

  abbrev pub execute_twice : Workflow → Async E (UserDefinedClass × UserDefinedClass)
  execute_twice runner = do
    first_result ← on_runner (t.execute runner "user-defined-class" user_defined_class_task none)
    new_runner ← start
    second_result ←
        on_runner (t.execute new_runner "user-defined-class" user_defined_class_task none)
    t.complete runner
    pure (first_result, second_result)

  abbrev pub is_decoded : UserDefinedClass → UserDefinedClass → Bool
  is_decoded first_result second_result =
      sum_set second_result == 6
      && (str_eq first_result.a second_result.a
          && (first_result.b == second_result.b
              && (map_has "a" "b" first_result.c
                  && (set_has 3 first_result.d && first_result.e == second_result.e))))

  unfoldable pub serialize_a_user_defined_class : Async E (Unit {0})
  serialize_a_user_defined_class = do
    runner ← start
    (first_result, second_result) ← execute_twice runner
    expect assertion (is_decoded first_result second_result)

-- A platform whose serializer was configured with the decorated models, over one that packs plain values.
module _ {U : Type 0} (f : Platform (Option String × UserDefinedJson) U)
    (registry : Decorations) where
  abbrev user_extension : Extension objects
  user_extension = extension_of objects registry model

  abbrev pub read_by : Outcome (Option String × UserDefinedJson) → Outcome UserDefinedClass
  read_by (done v) = user_extension.read v
  read_by (thrown err) = thrown err
  read_by running = running

  abbrev pub configured : Platform UserDefinedClass U
  configured = record {
    libraries = f.libraries;
    transport = f.transport;
    getters = f.getters;
    pack = λ object. f.pack (user_extension.write object);
    unpack = λ buffer. read_by (f.unpack buffer);
    promise = from_json f.promise.1;
    set_timeout = f.set_timeout;
  }
