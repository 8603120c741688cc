-- ===== src/Factory/Laws.antt =====
-- What the factory and the NestJS module give.
use idempotent_transformer.Common.{◌≡◌, refl, Option, none, some}
use idempotent_transformer.Factory.{undefined, null, given, FactoryOptions, get_instance, build}

-- After the first call of `getInstance`, every later call gives the same instance, whatever the
-- constructor would make.
pub get_instance-again :
    {I : Type 0} (make make' : I) (field : Option I)
    → get_instance make' (get_instance make field).1 ≡ get_instance make field
unfolding get_instance
get_instance-again make make' none = refl
get_instance-again make make' (some i) = refl

-- A transformer that is built has the user's logger where one is given, the default one where the option is
-- missing, and none where it is `null`; it has the serializer and the adapter of the options.
pub build_lem :
    {A L S : Type 0} (console_logger : L) (o : FactoryOptions A L S)
    → ((a : L) → o.logger ≡ given a → (build console_logger o).logger ≡ some a)
      × (o.logger ≡ undefined → (build console_logger o).logger ≡ some console_logger)
      × (o.logger ≡ null → (build console_logger o).logger ≡ none)
      × ((build console_logger o).serializer ≡ o.serializer)
      × ((build console_logger o).rpc_adapter ≡ o.rpc_adapter)
unfolding build
build_lem console_logger o = (λ a e. rw e refl, λ e. rw e refl, λ e. rw e refl, refl, refl)
