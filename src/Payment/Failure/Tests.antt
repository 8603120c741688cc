-- ===== src/Payment/Failure/Tests.antt =====
-- A payment at the small server.
use idempotent_transformer.Common.{ℕ, ◌≡◌, refl, true, []}
use idempotent_transformer.Async.{done, thrown, Async}
use idempotent_transformer.Rpc.{text, bytes, IdempotentSerializer}
use idempotent_transformer.Grpc.{Getters}
use idempotent_transformer.Server.{Database}
use idempotent_transformer.Server.Requests.Sample.{libraries, started}
use idempotent_transformer.Server.Rpc.{Transport}
use idempotent_transformer.Payment.{Value, boolean, PaymentData, Platform, handle_payment}
use idempotent_transformer.Payment.Failure.{payment_host, missing_value, handle_payment_fails}

abbrev transport : Transport
transport = record {
  stub_error = λ s. record { name = "Error"; message = s.message; details = s.message };
  wire_bytes = elim [ text s ↦ [] | bytes b ↦ b ];
}

-- The theorem asks nothing of the getters.
abbrev getters : Getters
getters = record {
  get_value = λ m. text "";
  get_remaining_lease_timeout = λ m. 0;
  get_expire_at = λ m. 0;
  get_completed_at = λ m. 0;
}

abbrev serializer : IdempotentSerializer Database Value
serializer = record {
  serialize = λ r d. (done (bytes []), d);
  deserialize = λ v d. (done (boolean true), d);
}

abbrev platform : Platform Database
platform = record {
  append_file = λ path data_ d. (done tt, d);
  read_file = λ path d. (done "{}", d);
  random_name = λ d. (done "k3x", d);
  stringify = λ payment reference_id. "{}";
}

abbrev payment : PaymentData
payment = record { item_id = "42"; amount = 3 }

abbrev clock : Async Database ℕ
clock d = (done d.now, d)

abbrev timers : ℕ → Async Database (Unit {0})
timers tenths d = (done tt, d)

handle_payment_fails_example :
    (handle_payment
      (payment_host libraries transport getters (λ s. refl) serializer clock timers platform)
      platform
      2
      "w"
      payment
      started).0
    ≡ thrown missing_value
handle_payment_fails_example =
    handle_payment_fails libraries transport getters (λ s. refl) serializer clock timers platform 1
      "w" payment started refl
