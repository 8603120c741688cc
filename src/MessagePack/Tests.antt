-- ===== src/MessagePack/Tests.antt =====
-- The extensions of `MessagePack`, at a registry with one class.
use idempotent_transformer.Common.{ℕ, suc, ◌≡◌, refl, none, some, [], ◌∷◌, ◌==◌, if◌then◌else◌}
use idempotent_transformer.Async.{done, thrown}
use idempotent_transformer.Serializer.{Class, DecoratedModel, Decorations}
use idempotent_transformer.Serializer.Registry.{IsSound}
use idempotent_transformer.MessagePack.{Objects, not_decorated, extension_of, read_extension}
use idempotent_transformer.MessagePack.RoundTrip.{read-write}

abbrev user : Class
user = record { identity = 1; methods = "toJSON" ∷ []; statics = "from" ∷ [] }

abbrev user_model : DecoratedModel
user_model = record {
  class = user;
  serialize_method_name = "toJSON";
  deserialize_method_name = "from";
}

abbrev decorations : Decorations
decorations = record {
  serialize_key = λ c. (if c == 1 then some "User" else none);
  decorated_models = ("User", user_model) ∷ [];
}

decorations-IsSound : IsSound decorations
decorations-IsSound = (record { writes = refl; reads = refl; keyed = refl }, tt)

-- An object is a class with a number, and its methods give and take that number plus one.
abbrev objects : Objects
objects = record {
  Object = Class × ℕ;
  Value = ℕ;
  class_of = λ x. x.0;
  call_method = λ x name. suc x.1;
  call_static = λ c name v. done (c, v);
}

read-write_example :
    (extension_of objects decorations user_model).read
      ((extension_of objects decorations user_model).write (user, 6))
    ≡ objects.call_static user "from" (objects.call_method (user, 6) "toJSON")
read-write_example =
    read-write objects decorations "User" user_model user_model (user, 6) decorations-IsSound refl

-- A key that is not in the registry is refused.
unknown_key :
    read_extension objects decorations.decorated_models (some "Order", 6)
    ≡ thrown (not_decorated "Order")
unfolding read_extension
unknown_key = refl
