-- ===== src/Scenario/Contract/Configured.antt =====
-- A serializer that was configured with the decorated models unpacks what it packs.
use idempotent_transformer.Common.{String, ◌≡◌, ap, ◌∙◌, Option, some}
use idempotent_transformer.Async.{Outcome, done, thrown, running}
use idempotent_transformer.Serializer.{Class, Decorations, get_model, serialize}
use idempotent_transformer.Serializer.Registry.{
  IsSound, Registers, serialize-IsSound, serialize-Registers,
}
use idempotent_transformer.MessagePack.{extension_of}
use idempotent_transformer.MessagePack.RoundTrip.{read-write}
use idempotent_transformer.Memo.World.{Platform, IsFaithful}
use idempotent_transformer.Scenario.Contract.{
  UserDefinedJson, user_defined_class, objects, model, decorated, read_by, configured,
}

registered :
    (before after : Decorations) (o : Outcome Class)
    → Registers "UserDefinedClass" model before o after
    → o ≡ done user_defined_class
    → get_model "UserDefinedClass" after.decorated_models ≡ some model
registered before after (done c) (same, key, found) e = found "UserDefinedClass"
registered before after (thrown err) r e = cc
registered before after running r e = absurd r

pub configured-IsFaithful :
    {U : Type 0} (f : Platform (Option String × UserDefinedJson) U) (before : Decorations)
    → IsFaithful f
    → IsSound before
    → (serialize "UserDefinedClass" "toJSON" "fromJSON" user_defined_class before).0
      ≡ done user_defined_class
    → IsFaithful (configured f (decorated before))
configured-IsFaithful f before law sound succeeds =
    let found =
      registered before (decorated before)
        (serialize "UserDefinedClass" "toJSON" "fromJSON" user_defined_class before).0
        (serialize-Registers "UserDefinedClass" "toJSON" "fromJSON" user_defined_class before)
        succeeds in
    record {
      details = law.details;
      sent = law.sent;
      oneof = law.oneof;
      unpacks = λ object.
          ap (read_by f (decorated before))
            (law.unpacks ((extension_of objects (decorated before) model).write object))
          ∙ read-write objects (decorated before) "UserDefinedClass" model model object
              (serialize-IsSound "UserDefinedClass" "toJSON" "fromJSON" user_defined_class before
                sound)
              found;
    }
