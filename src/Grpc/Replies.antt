-- ===== src/Grpc/Replies.antt =====
-- The reply to a lease, from the message of the server to the three ways in which the runner reads it.
use idempotent_transformer.Common.{ℕ, ◌≡◌, refl, Option, none, some, truthy_number, List}
use idempotent_transformer.Async.{Outcome, done, thrown, running}
use idempotent_transformer.Rpc.{
  Serialized, text, bytes, LeaseCheckpointInput, LeaseCheckpointOutput,
}
use idempotent_transformer.Proto.{
  LeaseCheckpointRequest, LeaseCheckpointResponse, unset, value, remaining_lease_timeout,
}
use idempotent_transformer.Execute.{truthy_value}
use idempotent_transformer.Grpc.{
  Client, Callback, failed, responded, silent, Getters, handle_error, settle, lease_checkpoint,
}

-- What the documentation of the generated code says of the `oneof`: the getter of a member that is not
-- set gives the default of its type, the empty string for bytes and 0 for a number.
pub record OneofGetters (g : Getters) : Type 0 where
  pub value_of_value : (b : List ℕ) → g.get_value (value b) ≡ bytes b
  pub value_of_remaining : (n : ℕ) → g.get_value (remaining_lease_timeout n) ≡ text ""
  pub value_of_unset : g.get_value unset ≡ text ""
  pub remaining_of_value : (b : List ℕ) → g.get_remaining_lease_timeout (value b) ≡ 0
  pub remaining_of_remaining :
      (n : ℕ) → g.get_remaining_lease_timeout (remaining_lease_timeout n) ≡ n
  pub remaining_of_unset : g.get_remaining_lease_timeout unset ≡ 0

-- What the runner reads, of what the server has sent.
abbrev pub read_as : LeaseCheckpointResponse → Option Serialized × Option ℕ
read_as unset = (none, none)
read_as (value b) = (some (bytes b), none)
read_as (remaining_lease_timeout n) = (none, truthy_number (some n))

abbrev pub Reads : Callback LeaseCheckpointResponse → Outcome LeaseCheckpointOutput → Type 0
Reads (failed err) o = o ≡ thrown (handle_error err)
Reads (responded m) (done out) =
    (truthy_value out.value, truthy_number out.remaining_lease_timeout) ≡ read_as m
Reads (responded m) (thrown err) = ⊥
Reads (responded m) running = ⊥
Reads silent o = o ≡ running

-- The request that a lease makes.
abbrev pub lease_request : LeaseCheckpointInput → LeaseCheckpointRequest
lease_request i = record {
  workflow_id = i.workflow_id;
  fencing_token = i.fencing_token;
  lease_timeout = i.lease_timeout;
  position = i.position;
  idempotency_key = i.idempotency_key;
}

read-reply :
    (g : Getters)
    → OneofGetters g
    → (m : LeaseCheckpointResponse)
    → ◌≡◌ {A = Option Serialized × Option ℕ}
        (
          truthy_value (some (g.get_value m)),
          truthy_number (some (g.get_remaining_lease_timeout m)),
        )
        (read_as m)
read-reply g l unset = rw (l.value_of_unset, l.remaining_of_unset) refl
read-reply g l (value b) = rw (l.value_of_value, l.remaining_of_value) refl
read-reply g l (remaining_lease_timeout n) =
    rw (l.value_of_remaining, l.remaining_of_remaining) refl

settle-Reads :
    (g : Getters)
    → OneofGetters g
    → (c : Callback LeaseCheckpointResponse)
    → Reads c (
        settle
          (λ response. record {
            value = some (g.get_value response);
            remaining_lease_timeout = some (g.get_remaining_lease_timeout response);
          })
          c)
settle-Reads g l (failed err) = refl
settle-Reads g l (responded m) = read-reply g l m
settle-Reads g l silent = refl

-- A lease over the adapter sends its input unchanged, and the runner finds in the reply what the server
-- has put there: a value, also an empty one, as that value; a remaining time as that, unless it is 0;
-- and neither where none is set. A failure is thrown, as the adapter hands it on.
pub lease_checkpoint-Reads :
    {E : Type 0} (g : Getters) (client : Client E)
    → OneofGetters g
    → (i : LeaseCheckpointInput) (e : E)
    → Reads (client.lease_checkpoint (lease_request i) e).0 (lease_checkpoint g client i e).0
unfolding lease_checkpoint
lease_checkpoint-Reads g client l i e =
    settle-Reads g l (client.lease_checkpoint (lease_request i) e).0
