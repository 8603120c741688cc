-- ===== src/Serializer.antt =====
-- packages/core/base/serializer: the decorator `Serialize` and the map `decoratedModels`.
-- A class is its identity with the names of its instance methods and of its static methods. The
-- property `serialize_key`, which the decorator defines on a class, is in the state beside the map.
pub mod Registry
mod Tests
use idempotent_transformer.Common.{
  ℕ, String, Bool, true, false, not, Option, none, some, List, [], ◌∷◌, ◌==◌, str_eq, if◌then◌else◌,
}
use Prim.Native.String.{◌++◌}
use idempotent_transformer.Async.{Thrown, error, Async, pure, throw, gets, modify, ◌>>=◌, ◌>>◌}

pub record Class : Type 0 where
  pub identity : ℕ
  pub methods : List String
  pub statics : List String

-- `TDecoratedModel`
pub record DecoratedModel : Type 0 where
  pub class : Class
  pub serialize_method_name : String
  pub deserialize_method_name : String

pub record Decorations : Type 0 where
  pub serialize_key : ℕ → Option String
  pub decorated_models : List (String × DecoratedModel)

abbrev pub has_name : String → List String → Bool
has_name wanted [] = false
has_name wanted (x ∷ xs) = if str_eq x wanted then true else has_name wanted xs

-- `map.get`
abbrev pub get_model : String → List (String × DecoratedModel) → Option DecoratedModel
get_model key [] = none
get_model key ((k, m) ∷ models) = if str_eq k key then some m else get_model key models

-- `map.set`, which keeps the place of a key that is there.
unfoldable pub set_model :
    String → DecoratedModel → List (String × DecoratedModel) → List (String × DecoratedModel)
set_model key m [] = (key, m) ∷ []
set_model key m ((k, n) ∷ models) =
    if str_eq k key then (k, m) ∷ models else (k, n) ∷ set_model key m models

abbrev pub violated : String → Thrown
violated message = error "SerializationContractViolatedException" message

abbrev pub no_method : String → Thrown
no_method name = violated (
    "Instance method \"" ++ name
    ++ "\" is not implemented. Please implement Serializable interface on your Model.")

abbrev pub no_static : String → Thrown
no_static name = violated (
    "Class static method \"" ++ name
    ++ "\" is not implemented. Please implement Deserializable interface on your Model and make sure this method is static.")

-- `throwIfTrue`
abbrev pub throw_if_true : {S : Type 0} → Bool → Thrown → Async S (Unit {0})
throw_if_true condition exception = if condition then throw exception else pure tt

abbrev with_key : (ℕ → Option String) → ℕ → String → ℕ → Option String
with_key keys c name d = if c == d then some name else keys d

abbrev redefined : Thrown
redefined = error "TypeError" "Cannot redefine property: serialize_key"

-- `Object.defineProperty` of a property that can be neither written nor configured again: it may be
-- defined once more with the same value only.
unfoldable pub define_key : Option String → ℕ → String → Async Decorations (Unit {0})
define_key none c name = modify (λ d. record d { serialize_key = with_key d.serialize_key c name })
define_key (some old) c name = if str_eq old name then pure tt else throw redefined

-- The decorator after its two checks, with the key that the class has.
unfoldable pub register :
    (name serialize_method_name deserialize_method_name : String)
    → Class
    → Option String
    → Async Decorations Class
register name ser deser target old = do
  define_key old target.identity name
  modify (λ d. record d {
    decorated_models =
        set_model name
          (record { class = target; serialize_method_name = ser; deserialize_method_name = deser })
          d.decorated_models;
  })
  pure target

-- The decorator, applied to a class.
unfoldable pub serialize :
    (name serialize_method_name deserialize_method_name : String) → Class → Async Decorations Class
serialize name ser deser target = do
  throw_if_true (not (has_name ser target.methods)) (no_method ser)
  throw_if_true (not (has_name deser target.statics)) (no_static deser)
  old ← gets (λ d. d.serialize_key target.identity)
  register name ser deser target old
