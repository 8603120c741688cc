-- ===== src/Serializer/Registry.antt =====
-- The registry of decorated classes stays sound.
use idempotent_transformer.Common.{
  ℕ, String, ◌≡◌, refl, ap, inl, inr, true, Bool-cases, Option, none, some, List, [], ◌∷◌, str_eq,
  str_eq_iff, if◌then◌else◌, arith,
}
use idempotent_transformer.Async.{Outcome, done, thrown, running}
use idempotent_transformer.Serializer.{
  Class, DecoratedModel, Decorations, has_name, get_model, set_model, define_key, with_key,
  register, serialize,
}

-- A model is kept under a name if its class has the two methods that it names, and if the class carries
-- that name as its key.
pub record Fits (keys : ℕ → Option String) (name : String) (m : DecoratedModel) : Type 0 where
  pub writes : has_name m.serialize_method_name m.class.methods ≡ true
  pub reads : has_name m.deserialize_method_name m.class.statics ≡ true
  pub keyed : keys m.class.identity ≡ some name

abbrev pub AllFit : (ℕ → Option String) → List (String × DecoratedModel) → Type 0
AllFit keys [] = Unit
AllFit keys ((name, m) ∷ models) = Fits keys name m × AllFit keys models

abbrev pub IsSound : Decorations → Type 0
IsSound d = AllFit d.serialize_key d.decorated_models

set_model-AllFit :
    (keys : ℕ → Option String) (name : String) (m : DecoratedModel)
    (models : List (String × DecoratedModel))
    → Fits keys name m
    → AllFit keys models
    → AllFit keys (set_model name m models)
unfolding set_model
set_model-AllFit keys name m [] f a = (f, tt)
set_model-AllFit keys name m ((k, n) ∷ models) f (g, a) = elim (Bool-cases (str_eq k name)) [
  | inl same ↦ rw same (rw (← (str_eq_iff k name).0 same) at f, a)
  | inr other ↦ rw other (g, set_model-AllFit keys name m models f a)
]

get-set_model :
    (name : String) (m : DecoratedModel) (key : String) (models : List (String × DecoratedModel))
    → get_model key (set_model name m models)
      ≡ (if str_eq name key then some m else get_model key models)
unfolding set_model
get-set_model name m key [] = refl
get-set_model name m key ((k, n) ∷ models) = ground (
  arith,
  str_eq_iff k name,
  str_eq_iff k key,
  str_eq_iff name key,
  get-set_model name m key models,
)

-- A key that a class did not have yet changes no model's key.
with_key-AllFit :
    (keys : ℕ → Option String) (c : ℕ) (name : String) (models : List (String × DecoratedModel))
    → keys c ≡ none
    → AllFit keys models
    → AllFit (with_key keys c name) models
with_key-AllFit keys c name [] fresh a = tt
with_key-AllFit keys c name ((k, m) ∷ models) fresh (f, a) =
    (ground arith, with_key-AllFit keys c name models fresh a)

-- What a class decorator does, on each branch: it registers the class under the name, and leaves what
-- is registered under other names; or it throws and changes nothing.
abbrev pub Registers : String → DecoratedModel → Decorations → Outcome Class → Decorations → Type 0
Registers name m d (done c) d' =
    (c ≡ m.class)
    × (d'.serialize_key m.class.identity ≡ some name)
    × ((key : String)
        → get_model key d'.decorated_models
          ≡ (if str_eq name key then some m else get_model key d.decorated_models))
Registers name m d (thrown err) d' = d' ≡ d
Registers name m d running d' = ⊥

module _ (name ser deser : String) (target : Class) where
  abbrev pub model : DecoratedModel
  model = record { class = target; serialize_method_name = ser; deserialize_method_name = deser }

  register-IsSound :
      (old : Option String) (d : Decorations)
      → has_name ser target.methods ≡ true
      → has_name deser target.statics ≡ true
      → d.serialize_key target.identity ≡ old
      → IsSound d
      → IsSound (register name ser deser target old d).1
  unfolding register define_key
  register-IsSound none d a b k s =
      set_model-AllFit (with_key d.serialize_key target.identity name) name model d.decorated_models
        (record { writes = a; reads = b; keyed = ground arith })
        (with_key-AllFit d.serialize_key target.identity name d.decorated_models k s)
  register-IsSound (some old) d a b k s = elim (Bool-cases (str_eq old name)) [
    | inl same ↦ rw same (
        set_model-AllFit d.serialize_key name model d.decorated_models
          (record { writes = a; reads = b; keyed = rw k (ap some ((str_eq_iff old name).0 same)) })
          s)
    | inr other ↦ rw other s
  ]

  -- Decorating a class keeps the registry sound, whether it succeeds or throws.
  pub serialize-IsSound :
      (d : Decorations) → IsSound d → IsSound (serialize name ser deser target d).1
  unfolding serialize
  serialize-IsSound d s = elim (Bool-cases (has_name ser target.methods)) [
    | inr a ↦ rw a s
    | inl a ↦ elim (Bool-cases (has_name deser target.statics)) [
      | inr b ↦ rw (a, b) s
      | inl b ↦ rw (a, b) (register-IsSound (d.serialize_key target.identity) d a b refl s)
    ]
  ]

  register-Registers :
      (old : Option String) (d : Decorations)
      → d.serialize_key target.identity ≡ old
      → let m = register name ser deser target old d in Registers name model d m.0 m.1
  unfolding register define_key
  register-Registers none d k =
      (refl, ground arith, λ key. get-set_model name model key d.decorated_models)
  register-Registers (some old) d k = elim (Bool-cases (str_eq old name)) [
    | inl same ↦ rw same (
      refl,
      rw k (ap some ((str_eq_iff old name).0 same)),
      λ key. get-set_model name model key d.decorated_models,
    )
    | inr other ↦ rw other refl
  ]

  -- Decorating a class registers it under its name, which is then its key, and leaves the other names
  -- as they are; or it throws and leaves everything as it is.
  pub serialize-Registers :
      (d : Decorations)
      → let m = serialize name ser deser target d in Registers name model d m.0 m.1
  unfolding serialize
  serialize-Registers d = elim (Bool-cases (has_name ser target.methods)) [
    | inr a ↦ rw a refl
    | inl a ↦ elim (Bool-cases (has_name deser target.statics)) [
      | inr b ↦ rw (a, b) refl
      | inl b ↦ rw (a, b) (register-Registers (d.serialize_key target.identity) d refl)
    ]
  ]
