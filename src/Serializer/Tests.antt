-- ===== src/Serializer/Tests.antt =====
-- The decorator, applied to a class that a program could declare.
use idempotent_transformer.Common.{◌≡◌, refl, none, some, [], ◌∷◌, ◌==◌, if◌then◌else◌}
use idempotent_transformer.Async.{thrown}
use idempotent_transformer.Serializer.{
  Class, Decorations, no_static, redefined, define_key, register, set_model, serialize,
}
use idempotent_transformer.Serializer.Registry.{IsSound, model, serialize-IsSound}

abbrev user : Class
user = record { identity = 1; methods = "toJSON" ∷ []; statics = "from" ∷ [] }

abbrev order : Class
order = record { identity = 2; methods = "toJSON" ∷ []; statics = "of" ∷ [] }

abbrev nothing : Decorations
nothing = record { serialize_key = λ c. none; decorated_models = [] }

abbrev with_user : Decorations
with_user = record {
  serialize_key = λ c. (if c == 1 then some "User" else none);
  decorated_models = ("User", model "User" "toJSON" "from" user) ∷ [];
}

user_decorated :
    (serialize "User" "toJSON" "from" user nothing).1.decorated_models ≡ with_user.decorated_models
unfolding serialize register define_key set_model
user_decorated = refl

-- `static deserialize` is not there.
order_refused : (serialize "Order" "toJSON" "from" order with_user).0 ≡ thrown (no_static "from")
unfolding serialize
order_refused = refl

-- A second name for one class is refused.
second_name_refused : (serialize "Person" "toJSON" "from" user with_user).0 ≡ thrown redefined
unfolding serialize register define_key
second_name_refused = refl

with_user-IsSound : IsSound with_user
with_user-IsSound = (record { writes = refl; reads = refl; keyed = refl }, tt)

serialize-IsSound_example : IsSound (serialize "Order" "toJSON" "of" order with_user).1
serialize-IsSound_example =
    serialize-IsSound "Order" "toJSON" "of" order with_user with_user-IsSound
