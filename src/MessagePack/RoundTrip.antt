-- ===== src/MessagePack/RoundTrip.antt =====
-- What `MessagePack` writes, it reads back.
use idempotent_transformer.Common.{
  ℕ, String, ◌≡◌, refl, Bool-cases, str_eq, str_eq_iff, inl, inr, Option, some, List, [], ◌∷◌,
}
use mathlib.Core.Path.{subst₂}
use idempotent_transformer.Async.{Outcome, done}
use idempotent_transformer.Rpc.{Serialized, bytes}
use idempotent_transformer.Serializer.{DecoratedModel, Decorations, get_model}
use idempotent_transformer.Serializer.Registry.{Fits, AllFit, IsSound}
use idempotent_transformer.MessagePack.{
  Objects, extension_of, read_extension, message_pack, serialize, deserialize,
}

-- In a sound registry, a model that is found under a name fits that name.
get_model-Fits :
    (keys : ℕ → Option String) (name : String) (m : DecoratedModel)
    (models : List (String × DecoratedModel))
    → AllFit keys models
    → get_model name models ≡ some m
    → Fits keys name m
get_model-Fits keys name m [] a e = cc
get_model-Fits keys name m ((k, n) ∷ models) (f, a) e = elim (Bool-cases (str_eq k name)) [
  | inl same ↦
      let there : some n ≡ some m = rw same at e in
      let same_model : n ≡ m = cc in subst₂ (Fits keys) ((str_eq_iff k name).0 same) same_model f
  | inr other ↦ get_model-Fits keys name m models a (rw other at e)
]

-- What the extension of a decorated class writes of an object, any extension that was configured with
-- the same registry reads: by the static method of that class, from what the object's own method gave.
-- It is never refused as not decorated.
pub read-write :
    (o : Objects) (d : Decorations) (name : String) (m n : DecoratedModel) (object : o.Object)
    → IsSound d
    → get_model name d.decorated_models ≡ some m
    → (extension_of o d n).read ((extension_of o d m).write object)
      ≡ o.call_static m.class m.deserialize_method_name
          (o.call_method object m.serialize_method_name)
unfolding extension_of read_extension
read-write o d name m n object s found =
    let fits = get_model-Fits d.serialize_key name m d.decorated_models s found in
    rw fits.keyed (rw found refl)

-- The value that `deserialize` gives for what `serialize` gave is the value itself, where msgpackr
-- unpacks what it packs. Neither touches the world outside.
pub deserialize-serialize :
    {E R : Type 0} (pack : R → List ℕ) (unpack : List ℕ → Outcome R)
    → ((value : R) → unpack (pack value) ≡ done value)
    → (value : R) (e : E)
    → (v : Serialized) × ((message_pack pack unpack).serialize value e ≡ (done v, e))
      × ((message_pack pack unpack).deserialize v e ≡ (done value, e))
unfolding serialize deserialize
deserialize-serialize pack unpack law value e = (bytes (pack value), refl, rw (law value) refl)
