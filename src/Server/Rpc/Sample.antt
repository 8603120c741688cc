-- ===== src/Server/Rpc/Sample.antt =====
-- A transport, getters and a serializer for the small server.
use idempotent_transformer.Common.{ℕ, refl, List, [], ◌∷◌}
use idempotent_transformer.Async.{done}
use idempotent_transformer.Rpc.{Serialized, text, bytes, IdempotentSerializer}
use idempotent_transformer.Proto.{LeaseCheckpointResponse}
use idempotent_transformer.Grpc.{Getters}
use idempotent_transformer.Grpc.Replies.{OneofGetters}
use idempotent_transformer.Server.{Database}
use idempotent_transformer.Server.Rpc.{Transport}

abbrev pub raw : Serialized → List ℕ
raw (text s) = []
raw (bytes b) = b

abbrev pub transport : Transport
transport = record {
  stub_error = λ s. record { name = "Error"; message = s.message; details = s.message };
  wire_bytes = raw;
}

abbrev pub value_getter : LeaseCheckpointResponse → Serialized
value_getter (LeaseCheckpointResponse.value b) = bytes b
value_getter _ = text ""

abbrev pub remaining_getter : LeaseCheckpointResponse → ℕ
remaining_getter (LeaseCheckpointResponse.remaining_lease_timeout n) = n
remaining_getter _ = 0

abbrev pub getters : Getters
getters = record {
  get_value = value_getter;
  get_remaining_lease_timeout = remaining_getter;
  get_expire_at = λ m. 0;
  get_completed_at = λ m. 0;
}

abbrev pub getters-OneofGetters : OneofGetters getters
getters-OneofGetters = record {
  value_of_value = λ b. refl;
  value_of_remaining = λ n. refl;
  value_of_unset = refl;
  remaining_of_value = λ b. refl;
  remaining_of_remaining = λ n. refl;
  remaining_of_unset = refl;
}

abbrev pub decode : List ℕ → ℕ
decode (b ∷ rest) = b
decode [] = 0

abbrev pub serializer : IdempotentSerializer Database ℕ
serializer = record {
  serialize = λ r d. (done (bytes (r ∷ [])), d);
  deserialize = λ v d. (done (decode (raw v)), d);
}
