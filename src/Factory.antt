-- ===== src/Factory.antt =====
-- packages/core/factory/idempotent-factory.ts and packages/nestjs/src/idempotent.module.ts: the
-- factory, and the module of the NestJS framework that builds a transformer from the user's options.
pub mod Laws
mod Tests
use idempotent_transformer.Common.{String, Option, none, some, List, [], ◌∷◌, nullish_or}

-- An option that may be missing, `null` or given.
pub data Optional (A : Type 0) : Type 0 where
  undefined null : Optional A
  given : A → Optional A

-- `IdempotentFactoryOptions`, over the types of adapters, loggers and serializers.
pub record FactoryOptions (A L S : Type 0) : Type 0 where
  pub rpc_adapter : A
  pub logger : Optional L
  pub serializer : S

-- `IdempotentTransformer`, by its fields: `logger` is `undefined` or a logger.
pub record Transformer (A L S : Type 0) : Type 0 where
  pub serializer : S
  pub logger : Option L
  pub rpc_adapter : A

-- The default of a parameter stands in for `undefined`, and not for `null`.
abbrev pub or_parameter_default : {A : Type 0} → Optional A → A → Optional A
or_parameter_default undefined d = given d
or_parameter_default null d = null
or_parameter_default (given a) d = given a

-- `logger ?? undefined`
abbrev pub nullish_to_undefined : {A : Type 0} → Optional A → Option A
nullish_to_undefined undefined = none
nullish_to_undefined null = none
nullish_to_undefined (given a) = some a

-- `getInstance` of the factory, and of `MessagePack`: the static field `instance` is made at the
-- first call, with what the constructor makes.
unfoldable pub get_instance : {I : Type 0} → (make : I) → Option I → I × Option I
get_instance make none = (make, some make)
get_instance make (some instance_) = (instance_, some instance_)

-- `build`
unfoldable pub build :
    {A L S : Type 0} → (console_logger : L) → FactoryOptions A L S → Transformer A L S
build console_logger options = record {
  serializer = options.serializer;
  logger = nullish_to_undefined (or_parameter_default options.logger console_logger);
  rpc_adapter = options.rpc_adapter;
}

-- A provider of the framework: the token that it provides, the tokens that it injects, and what it
-- makes out of their values.
pub record Provider (V W : Type 0) : Type 0 where
  pub provide : String
  pub use_factory : V → W
  pub inject : List String

pub record RegisterOptions (V W : Type 0) : Type 0 where
  pub use_factory : V → W
  pub inject : Option (List String)
  pub imports : Option (List String)

abbrev pub module_options_token : String
module_options_token = "IDEMPOTENT_MODULE_OPTIONS"

abbrev pub transformer_token : String
transformer_token = "IDEMPOTENT_TRANSFORMER"

-- The module that `registerAsync` returns. Its two providers stand in `providers`, and the second is
-- exported.
pub record DynamicModule (V A L S : Type 0) : Type 0 where
  pub imports : List String
  pub options_provider : Provider V (FactoryOptions A L S)
  pub transformer_provider : Provider (FactoryOptions A L S) (Transformer A L S)
  pub exports : Provider (FactoryOptions A L S) (Transformer A L S)

abbrev pub exported_provider :
    {A L S : Type 0} → L → Provider (FactoryOptions A L S) (Transformer A L S)
exported_provider console_logger = record {
  provide = transformer_token;
  use_factory = build console_logger;
  inject = module_options_token ∷ [];
}

module _ {V A L S : Type 0} where
  unfoldable pub register_async :
      L → RegisterOptions V (FactoryOptions A L S) → DynamicModule V A L S
  register_async console_logger opts = record {
    imports = nullish_or opts.imports [];
    options_provider = record {
      provide = module_options_token;
      use_factory = opts.use_factory;
      inject = nullish_or opts.inject [];
    };
    transformer_provider = exported_provider console_logger;
    exports = exported_provider console_logger;
  }
