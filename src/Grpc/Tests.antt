-- ===== src/Grpc/Tests.antt =====
-- The theorems on the adapter, at an error and at replies of a server.
use idempotent_transformer.Common.{ℕ, ◌≡◌, refl, [], ◌==◌, if◌then◌else◌}
use idempotent_transformer.Async.{error}
use idempotent_transformer.Rpc.{Serialized, text, bytes, LeaseCheckpointInput}
use idempotent_transformer.Proto.{LeaseCheckpointResponse, unset, value, remaining_lease_timeout}
use idempotent_transformer.Grpc.{
  ServiceError, failed, responded, silent, Client, Getters, handle_error, lease_checkpoint,
}
use idempotent_transformer.Grpc.Replies.{OneofGetters, Reads, lease_request, lease_checkpoint-Reads}

abbrev unknown_token : ServiceError
unknown_token = record {
  name = "Error";
  message = "13 INTERNAL: fencing_token_not_found";
  details = "fencing_token_not_found";
}

handled : handle_error unknown_token ≡ error "Error" "fencing_token_not_found"
unfolding handle_error
handled = refl

abbrev value_getter : LeaseCheckpointResponse → Serialized
value_getter unset = text ""
value_getter (value b) = bytes b
value_getter (remaining_lease_timeout n) = text ""

abbrev remaining_getter : LeaseCheckpointResponse → ℕ
remaining_getter unset = 0
remaining_getter (value b) = 0
remaining_getter (remaining_lease_timeout n) = n

abbrev getters : Getters
getters = record {
  get_value = value_getter;
  get_remaining_lease_timeout = remaining_getter;
  get_expire_at = λ m. 0;
  get_completed_at = λ m. 0;
}

getters-OneofGetters : OneofGetters getters
getters-OneofGetters = record {
  value_of_value = λ b. refl;
  value_of_remaining = λ n. refl;
  value_of_unset = refl;
  remaining_of_value = λ b. refl;
  remaining_of_remaining = λ n. refl;
  remaining_of_unset = refl;
}

-- A server that has an empty value at position 0, and a lease of 40 milliseconds at any other.
abbrev stub : Client ℕ
stub = record {
  workflow_start = λ m e. (responded (record { fencing_token = e }), e);
  checkpoint = λ m e. (silent, e);
  lease_checkpoint = λ m e.
      (if m.position == 0 then responded (value []) else responded (remaining_lease_timeout 40), e);
  complete_workflow = λ m e. (responded tt, e);
  workflow_status = λ m e. (failed unknown_token, e);
  release_checkpoint = λ m e. (responded tt, e);
  generate_idempotency_key = λ m e. (responded "key", e);
}

abbrev asked : LeaseCheckpointInput
asked = record {
  workflow_id = "w";
  fencing_token = 1;
  lease_timeout = 30000;
  position = 0;
  idempotency_key = "k";
}

lease_checkpoint-Reads_example :
    Reads
      (stub.lease_checkpoint (lease_request asked) 5).0
      (lease_checkpoint getters stub asked 5).0
lease_checkpoint-Reads_example = lease_checkpoint-Reads getters stub getters-OneofGetters asked 5
