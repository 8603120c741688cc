-- ===== src/Server/Requests/Tests.antt =====
-- The theorems on the requests to the server, at the small server.
use idempotent_transformer.Common.{
  Bool, ◌+◌, ◌≤◌, ◌≡◌, ◌≢◌, refl, ◌↔◌, true, false, none, some, List, [], ◌∷◌, arith,
}
use idempotent_transformer.Async.{done, thrown}
use idempotent_transformer.Rpc.{
  StartWorkflowInput, GenerateIdempotencyKeyInput, CompleteWorkflowInput,
}
use idempotent_transformer.Server.Checkpoints.{
  CheckpointInput, handle_checkpoint, handle_lease_checkpoint, create_durable_idempotency_key,
  checkpoint_value, no_value, remaining_lease_timeout,
}
use idempotent_transformer.Server.Workflows.{
  create_workflow, finish_workflow, handle_workflow_cleanup,
}
use idempotent_transformer.Server.Requests.{Request, start, checkpoint, wait, serve, serve_all}
use idempotent_transformer.Server.Requests.Durability.{handle_lease_checkpoint-replied}
use idempotent_transformer.Server.Requests.Tokens.{old_token_refused}
use idempotent_transformer.Server.Requests.Leases.{lease_exclusive}
use idempotent_transformer.Server.Requests.Keys.{generated_key_blocks}
use idempotent_transformer.Server.Requests.Results.{first_result_kept}
use idempotent_transformer.Server.Requests.Races.{both_granted}
use idempotent_transformer.Server.Interleaving.{Shared, begun, ended, run}
use idempotent_transformer.Server.Requests.Retention.{finish_workflow-done, cleanup-retention}
use idempotent_transformer.Server.Requests.Sample.{
  libraries, libraries-Retains, running_row, started, with_result, lease_as,
}

server : Unit {0}
unfolding serve create_workflow finish_workflow handle_checkpoint handle_lease_checkpoint
    create_durable_idempotency_key
server = tt

abbrev late_result : CheckpointInput
late_result = record {
  workflow_id = "w";
  fencing_token = 2;
  position = 0;
  value = 9 ∷ [];
  idempotency_key = "a";
}

abbrev starting : StartWorkflowInput
starting = record { workflow_id = "w"; name = none }

-- A third runner starts, and another result comes for the position that has one.
abbrev requests : List Request
requests = start starting ∷ checkpoint late_result ∷ wait 10 ∷ []

handle_lease_checkpoint-replied_example :
    (handle_lease_checkpoint libraries
      (lease_as 3 "a")
      (serve_all libraries requests with_result)).0
    ≡ done (some (checkpoint_value (4 ∷ [])))
handle_lease_checkpoint-replied_example =
    handle_lease_checkpoint-replied libraries requests with_result (lease_as 3 "a")
      ("a", some (4 ∷ [])) refl

abbrev old_result : CheckpointInput
old_result = record late_result { fencing_token = 1 }

old_token_refused_example :
    ((handle_lease_checkpoint libraries (lease_as 1 "a") (serve_all libraries requests started)).0
      ≢ done none)
    × ((handle_checkpoint libraries old_result (serve_all libraries requests started)).0
        ≢ done false)
old_token_refused_example =
    old_token_refused libraries (lease_as 1 "a") old_result 2 requests started
      (2, refl, omega arith) (omega arith) refl refl

-- The first lease is granted, and the second has to wait for the rest of it.
leases :
    let m = handle_lease_checkpoint libraries (lease_as 2 "a") started in
    (m.0 ≡ done none)
    × ((handle_lease_checkpoint libraries
          (lease_as 2 "b")
          (serve_all libraries (start starting ∷ wait 10 ∷ []) m.1)).0
        ≡ done (some (remaining_lease_timeout 29990)))
unfolding server
leases = (refl, refl)

abbrev after_lease : List Request
after_lease = start starting ∷ wait 10 ∷ []

granted : (handle_lease_checkpoint libraries (lease_as 2 "a") started).0 ≡ done none
unfolding server
granted = refl

clock_after_lease :
    (serve_all libraries after_lease
      (handle_lease_checkpoint libraries (lease_as 2 "a") started).1).now
    ≡ 110
unfolding server
clock_after_lease = refl

lease_exclusive_example :
    (handle_lease_checkpoint libraries (lease_as 3 "b") (
      serve_all libraries after_lease
        (handle_lease_checkpoint libraries (lease_as 2 "a") started).1)).0
    ≢ done none
lease_exclusive_example =
    lease_exclusive libraries libraries-Retains (lease_as 2 "a") (lease_as 3 "b") after_lease
      started granted refl refl refl (rw clock_after_lease (omega arith, omega arith))

abbrev other_result : CheckpointInput
other_result = record late_result { value = 5 ∷ [] }

accepted : (handle_checkpoint libraries late_result started).0 ≡ done false
unfolding server
accepted = refl

first_result_kept_example :
    (handle_lease_checkpoint libraries (lease_as 2 "a") (
      serve_all libraries
        (checkpoint other_result ∷ [])
        (handle_checkpoint libraries late_result started).1)).0
    ≡ done (some (checkpoint_value (9 ∷ [])))
first_result_kept_example =
    first_result_kept libraries late_result (lease_as 2 "a") false (checkpoint other_result ∷ [])
      started refl accepted refl refl

abbrev key_request : GenerateIdempotencyKeyInput
key_request = record { workflow_id = "w"; fencing_token = 2; position = 0 }

made : (create_durable_idempotency_key libraries key_request started).0 ≡ done "2f1c"
unfolding server
made = refl

generated_key_blocks_example :
    (handle_lease_checkpoint libraries (lease_as 2 "2f1c") (
      serve_all libraries
        (checkpoint late_result ∷ [])
        (create_durable_idempotency_key libraries key_request started).1)).0
    ≡ thrown no_value
generated_key_blocks_example =
    generated_key_blocks libraries key_request (lease_as 2 "2f1c") "2f1c"
      (checkpoint late_result ∷ []) started refl made refl refl

abbrev unlocked_started : Shared
unlocked_started = record { database = started; locks = λ id p. false }

both_granted_example :
    (schedule : List Bool) × (let p =
        run libraries
          (lease_as 2 "a")
          (lease_as 2 "b")
          schedule
          (record { first = begun; second = begun; shared = unlocked_started }) in
      (p.first ≡ ended (done none)) × (p.second ≡ ended (done none)))
both_granted_example =
    both_granted libraries (lease_as 2 "a") (lease_as 2 "b") unlocked_started refl refl refl refl
      refl refl refl

abbrev completion : CompleteWorkflowInput
completion = record { workflow_id = "w"; fencing_token = 1; expire_after = 60000 }

finish_workflow-done_example : ((finish_workflow completion started).0 ≡ done tt) ↔ (1 ≤ 2)
finish_workflow-done_example = finish_workflow-done completion 2 started refl

cleanup-retention_example :
    (handle_workflow_cleanup true (record (finish_workflow completion with_result).1 {
      now = (finish_workflow completion with_result).1.now + 70000;
    })).checkpoints
      "w" 0
    ≡ none
cleanup-retention_example =
    cleanup-retention completion 2 70000 running_row with_result 0 refl (omega arith) refl
