-- ===== src/Memo/Leasing.antt =====
-- What the adapter and the server reply to a lease, in the cases of the promise.
use idempotent_transformer.Common.{
  ℕ, String, ◌≡◌, refl, ap, ◌∙◌, true, false, Option, none, some, ltb, ◌==◌, str_eq, List,
  truthy_number, arith,
}
use text.Mathlib.TextPositions.{eq_refl}
use idempotent_transformer.Async.{Outcome, done, thrown}
use idempotent_transformer.Rpc.{
  bytes, code_text, fencing_token_expired, non_deterministic_checkpoint_found, LeaseCheckpointInput,
  LeaseCheckpointOutput,
}
use idempotent_transformer.Execute.{truthy_value}
use idempotent_transformer.Proto.{LeaseCheckpointResponse}
use idempotent_transformer.Grpc.{handle_error, lease_checkpoint as adapter_lease}
use idempotent_transformer.Server.{CheckpointValue, Database, Libraries, lease_checkpoint}
use idempotent_transformer.Server.Checkpoints.{
  expired, non_deterministic, unexpected_state, checkpoint_value, stored_reply, lease_by_token,
  lease_found, handle_lease_checkpoint,
}
use idempotent_transformer.Server.Requests.Durability.{content, replied}
use idempotent_transformer.Server.Rpc.{service, to_status}
use idempotent_transformer.Memo.{refused}
use idempotent_transformer.Memo.World.{World, Platform, IsFaithful, world_host}

pub content-none : (o : Option CheckpointValue) → content o ≡ none → o ≡ none
content-none none e = refl
content-none (some row) e = cc

stored_reply_lem :
    (i : LeaseCheckpointInput) (row : CheckpointValue) (d : Database)
    → stored_reply i row d ≡ (replied i.idempotency_key (row.idempotency_key, row.value), d)
stored_reply_lem i row d = ground arith

module _ (lib : Libraries) where
  found_some :
      (i : LeaseCheckpointInput) (o : Option CheckpointValue) (c : String × Option (List ℕ))
      (d : Database)
      → content o ≡ some c
      → lease_found lib i o d ≡ (replied i.idempotency_key c, d)
  found_some i none c d e = cc
  found_some i (some row) c d e =
      let same : (row.idempotency_key, row.value) ≡ c = cc in
      stored_reply_lem i row d ∙ ap (λ x. (replied i.idempotency_key x, d)) same

  found_none :
      (i : LeaseCheckpointInput) (o : Option CheckpointValue) (d : Database)
      → content o ≡ none
      → d.leases i.workflow_id i.position ≡ none
      → lease_found lib i o d ≡ lease_by_token i (d.fencing_tokens i.workflow_id) d
  found_none i none d e free = rw free refl
  found_none i (some row) d e free = cc

  handle-some :
      (i : LeaseCheckpointInput) (c : String × Option (List ℕ)) (d : Database)
      → content (d.checkpoints i.workflow_id i.position) ≡ some c
      → handle_lease_checkpoint lib i d ≡ (replied i.idempotency_key c, d)
  unfolding handle_lease_checkpoint
  handle-some i c d e = found_some i (d.checkpoints i.workflow_id i.position) c d e

  handle-none :
      (i : LeaseCheckpointInput) (d : Database)
      → content (d.checkpoints i.workflow_id i.position) ≡ none
      → d.leases i.workflow_id i.position ≡ none
      → handle_lease_checkpoint lib i d ≡ lease_by_token i (d.fencing_tokens i.workflow_id) d
  unfolding handle_lease_checkpoint
  handle-none i d e free = found_none i (d.checkpoints i.workflow_id i.position) d e free

module _ {R U : Type 0} (f : Platform R U) (law : IsFaithful f) (i : LeaseCheckpointInput)
    (e : World U) where
  abbrev pub reply : Outcome LeaseCheckpointOutput × World U
  reply = (world_host f).rpc_adapter.lease_checkpoint i e

  pub lease_gives :
      (v : List ℕ)
      → content (e.database.checkpoints i.workflow_id i.position) ≡ some (i.idempotency_key, some v)
      → (out : LeaseCheckpointOutput) × (reply ≡ (done out, e))
        × (truthy_value out.value ≡ some (bytes v))
  unfolding adapter_lease service
  lease_gives v there =
      let given : replied i.idempotency_key (i.idempotency_key, some v)
          ≡ done (some (checkpoint_value v)) =
        rw (eq_refl i.idempotency_key) refl in
      (
        record {
          value = some (f.getters.get_value (LeaseCheckpointResponse.value v));
          remaining_lease_timeout =
              some (f.getters.get_remaining_lease_timeout (LeaseCheckpointResponse.value v));
        },
        rw (handle-some f.libraries i (i.idempotency_key, some v) e.database there) (rw given refl),
        rw (law.oneof.value_of_value v) refl,
      )

  pub lease_differs :
      (k : String) (v : List ℕ)
      → content (e.database.checkpoints i.workflow_id i.position) ≡ some (k, some v)
      → str_eq k i.idempotency_key ≡ false
      → reply ≡ (thrown (refused (code_text non_deterministic_checkpoint_found)), e)
  unfolding adapter_lease service handle_error to_status
  lease_differs k v there other =
      rw (handle-some f.libraries i (k, some v) e.database there)
        (rw other (rw (law.details (to_status non_deterministic)) refl))

  module _ (absent : content (e.database.checkpoints i.workflow_id i.position) ≡ none)
      (free : e.database.leases i.workflow_id i.position ≡ none) (token : ℕ)
      (current : e.database.fencing_tokens i.workflow_id ≡ some token) where
    pub lease_granted :
        ltb i.fencing_token token ≡ false
        → (i.fencing_token == token) ≡ true
        → (out : LeaseCheckpointOutput) × (reply ≡ (
          done out,
          record e {
            database = (lease_checkpoint i.workflow_id i.position i.lease_timeout e.database).1;
          },
        ))
          × (truthy_value out.value ≡ none)
          × (truthy_number out.remaining_lease_timeout ≡ none)
    unfolding adapter_lease service
    lease_granted a b = (
      record {
        value = some (f.getters.get_value (LeaseCheckpointResponse.unset));
        remaining_lease_timeout =
            some (f.getters.get_remaining_lease_timeout (LeaseCheckpointResponse.unset));
      },
      rw (handle-none f.libraries i e.database absent free) (rw current (rw (a, b) refl)),
      rw law.oneof.value_of_unset refl,
      rw law.oneof.remaining_of_unset refl,
    )

    pub lease_expired :
        ltb i.fencing_token token ≡ true
        → reply ≡ (thrown (refused (code_text fencing_token_expired)), e)
    unfolding adapter_lease service handle_error to_status
    lease_expired a =
        rw (handle-none f.libraries i e.database absent free)
          (rw current (rw a (rw (law.details (to_status expired)) refl)))

    pub lease_unexpected :
        ltb i.fencing_token token ≡ false
        → (i.fencing_token == token) ≡ false
        → reply ≡ (thrown (refused "unexpected state"), e)
    unfolding adapter_lease service handle_error to_status
    lease_unexpected a b =
        rw (handle-none f.libraries i e.database absent free)
          (rw current (rw (a, b) (rw (law.details (to_status unexpected_state)) refl)))
