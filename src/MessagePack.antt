-- ===== src/MessagePack.antt =====
-- packages/message-pack-adapter/message-pack.ts: `MessagePack`.
-- The library msgpackr is a parameter: its `pack`, `unpack` and `addExtension`.
pub mod RoundTrip
mod Tests
use idempotent_transformer.Common.{ℕ, String, Option, none, some, List, [], ◌∷◌}
use Prim.Native.String.{◌++◌}
use idempotent_transformer.Async.{Thrown, error, Outcome, done, thrown, Async, pure, throw}
use idempotent_transformer.Rpc.{Serialized, text, bytes, IdempotentSerializer}
use idempotent_transformer.Serializer.{Class, DecoratedModel, Decorations, get_model}

-- Objects of decorated classes with the calls of their methods, which the user has written, and plain
-- values.
pub record Objects : Type 1 where
  pub Object : Type 0
  pub Value : Type 0
  pub class_of : Object → Class
  pub call_method : Object → String → Value
  pub call_static : Class → String → Value → Outcome Object

abbrev pub not_decorated : String → Thrown
not_decorated name =
    error "ModelIsNotDecoratedException"
      (name ++ " is not decorated with @Serialize, please decorate it.")

module _ (o : Objects) where
  open o use {Object, Value, class_of, call_method, call_static}

  -- What is given to `addExtension`. The key that `write` reads off the class may be missing.
  pub record Extension : Type 0 where
    pub type_code : ℕ
    pub class : Class
    pub write : Object → Option String × Value
    pub read : Option String × Value → Outcome Object

  -- `read` of an extension: it looks the model up in all models that `configure` was given.
  unfoldable pub read_extension :
      List (String × DecoratedModel) → Option String × Value → Outcome Object
  read_extension models (none, value) = thrown (not_decorated "undefined")
  read_extension models (some key, value) = elim (get_model key models) [
    | none ↦ thrown (not_decorated key)
    | some m ↦ call_static m.class m.deserialize_method_name value
  ]

  unfoldable pub extension_of : Decorations → DecoratedModel → Extension
  unfolding read_extension
  extension_of d m = record {
    type_code = 1;
    class = m.class;
    write =
        λ object. (d.serialize_key m.class.identity, call_method object m.serialize_method_name);
    read = read_extension d.decorated_models;
  }

  -- `Array.from(models.values()).forEach(…)`, over the state `P` of msgpackr.
  unfoldable pub configure_models :
      {P : Type 0} → (Extension → P → P) → Decorations → List (String × DecoratedModel) → P → P
  unfolding extension_of
  configure_models add_extension d [] p = p
  configure_models add_extension d ((name, m) ∷ models) p =
      configure_models add_extension d models (add_extension (extension_of d m) p)

  unfoldable pub configure : {P : Type 0} → (Extension → P → P) → Decorations → P → P
  configure add_extension d p = configure_models add_extension d d.decorated_models p

-- What `deserialize` may be given: a `Blob`, a `Uint8Array`, or anything else.
pub data Input : Type 0 where
  blob : List ℕ → Input
  uint8_array : List ℕ → Input
  other_input : Input

-- A `TSerialized` as such an input.
abbrev pub input_of : Serialized → Input
input_of (text s) = other_input
input_of (bytes b) = uint8_array b

abbrev pub wrong_input : Thrown
wrong_input = error "Error" "Input data must be either a Blob or Uint8Array"

module _ {E R : Type 0} (pack : R → List ℕ) (unpack : List ℕ → Outcome R) where
  unfoldable pub serialize : R → Async E Serialized
  serialize value = pure (bytes (pack value))

  unfoldable pub deserialize : Input → Async E R
  deserialize (blob buffer) e = (unpack buffer, e)
  deserialize (uint8_array buffer) e = (unpack buffer, e)
  deserialize other_input e = (thrown wrong_input, e)

  -- The two methods as the serializer of a host.
  abbrev pub message_pack : IdempotentSerializer E R
  message_pack = record { serialize = serialize; deserialize = λ v. deserialize (input_of v) }
