-- ===== src/Server/Requests/Keys.antt =====
-- A durable idempotency key, and the checkpoint that it takes.
use idempotent_transformer.Common.{
  ℕ, String, ◌≡◌, Option, none, some, List, str_eq, if◌then◌else◌, arith,
}
use text.Mathlib.TextPositions.{eq_refl}
use idempotent_transformer.Async.{done, thrown}
use idempotent_transformer.Rpc.{LeaseCheckpointInput, GenerateIdempotencyKeyInput}
use idempotent_transformer.Server.{CheckpointValue, Database, Libraries}
use idempotent_transformer.Server.Checkpoints.{
  key_with, key_found, create_durable_idempotency_key, handle_lease_checkpoint, no_value,
  non_deterministic,
}
use idempotent_transformer.Server.Requests.{Request, serve_all}
use idempotent_transformer.Server.Requests.Durability.{Stored, handle_lease_checkpoint-replied}

key_with-Stored_key :
    (fresh : String) (i : GenerateIdempotencyKeyInput) (token : Option ℕ) (d : Database)
    (key : String)
    → d.checkpoints i.workflow_id i.position ≡ none
    → (key_with fresh i token d).0 ≡ done key
    → Stored i.workflow_id i.position (key, none) (key_with fresh i token d).1
key_with-Stored_key fresh i none d key new e = ground arith
key_with-Stored_key fresh i (some token) d key new e = ground (arith, eq_refl i.workflow_id)

key_found-Stored_key :
    (lib : Libraries) (i : GenerateIdempotencyKeyInput) (o : Option CheckpointValue) (d : Database)
    (key : String)
    → o ≡ none
    → d.checkpoints i.workflow_id i.position ≡ none
    → (key_found lib i o d).0 ≡ done key
    → Stored i.workflow_id i.position (key, none) (key_found lib i o d).1
key_found-Stored_key lib i none d key n new e =
    key_with-Stored_key (lib.uuid d.uuids) i (d.fencing_tokens i.workflow_id) d key new e
key_found-Stored_key lib i (some row) d key n new e = cc

-- A key that was generated for a checkpoint that did not exist makes that checkpoint, without a value.
-- From then on every lease of the checkpoint fails, through all requests, attempts to store a value under
-- it included: with the generated key for want of a value, and with another key as non-deterministic.
pub generated_key_blocks :
    (lib : Libraries) (i : GenerateIdempotencyKeyInput) (j : LeaseCheckpointInput) (key : String)
    (rs : List Request) (d : Database)
    → d.checkpoints i.workflow_id i.position ≡ none
    → (create_durable_idempotency_key lib i d).0 ≡ done key
    → j.workflow_id ≡ i.workflow_id
    → j.position ≡ i.position
    → (handle_lease_checkpoint lib j
        (serve_all lib rs (create_durable_idempotency_key lib i d).1)).0
      ≡ (if str_eq key j.idempotency_key then thrown no_value else thrown non_deterministic)
unfolding create_durable_idempotency_key
generated_key_blocks lib i j key rs d new made a b =
    let found = key_found lib i (d.checkpoints i.workflow_id i.position) d in
    handle_lease_checkpoint-replied lib rs found.1 j (key, none)
      (rw (a, b)
        (key_found-Stored_key lib i (d.checkpoints i.workflow_id i.position) d key new new made))
