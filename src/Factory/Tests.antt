-- ===== src/Factory/Tests.antt =====
-- The factory and the NestJS module, at options that a program could give.
use idempotent_transformer.Common.{ℕ, String, ◌≡◌, refl, none, some, [], ◌∷◌}
use idempotent_transformer.Factory.{
  undefined, null, given, FactoryOptions, get_instance, build, RegisterOptions, register_async,
}
use idempotent_transformer.Factory.Laws.{get_instance-again, build_lem}

abbrev silent_options : FactoryOptions ℕ String String
silent_options = record { rpc_adapter = 7; logger = null; serializer = "message-pack" }

abbrev default_options : FactoryOptions ℕ String String
default_options = record { rpc_adapter = 7; logger = undefined; serializer = "message-pack" }

console_by_default : (build "console" default_options).logger ≡ some "console"
unfolding build
console_by_default = refl

abbrev registration : RegisterOptions String (FactoryOptions ℕ String String)
registration = record {
  use_factory = λ v. record { rpc_adapter = 7; logger = given v; serializer = "message-pack" };
  inject = some ("LOGGER" ∷ []);
  imports = none;
}

same_instance : get_instance {I = ℕ} 2 (get_instance {I = ℕ} 1 none).1 ≡ get_instance {I = ℕ} 1 none
same_instance = get_instance-again {I = ℕ} 1 2 none

-- The transformer of a module that is registered with the user's logger.
user_logger :
    let m = register_async "console" registration in
    (m.exports.use_factory (m.options_provider.use_factory "winston")).logger ≡ some "winston"
unfolding register_async
user_logger = (build_lem "console" (registration.use_factory "winston")).0 "winston" refl

no_logger : (build "console" silent_options).logger ≡ none
no_logger = (build_lem "console" silent_options).2 refl
