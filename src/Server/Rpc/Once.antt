-- ===== src/Server/Rpc/Once.antt =====
-- A task whose result was returned is not leased again.
mod Tests
use idempotent_transformer.Common.{
  ℕ, suc, ◌+◌, String, ◌≡◌, ◌≢◌, refl, sym, ap, ◌∙◌, inl, inr, Bool-cases, Bool, true, false, ◌&&◌,
  not, Option, none, some, List, ltb, ◌==◌, str_eq, truthy_number, if◌then◌else◌, arith,
}
use mathlib.Core.Path.{subst}
use text.Mathlib.TextPositions.{eq_refl}
use idempotent_transformer.Async.{Outcome, done, thrown, running, Async}
use idempotent_transformer.Rpc.{
  Serialized, bytes, CheckpointInput, CheckpointOutput, LeaseCheckpointInput, LeaseCheckpointOutput,
  IdempotentSerializer,
}
use idempotent_transformer.Proto.{CheckPointResponse, LeaseCheckpointResponse}
use idempotent_transformer.Runner.{OnAbort, TaskOptions, Host, Workflow, Session}
use idempotent_transformer.Execute.{Task, truthy_value, on_abort_of, execute}
use idempotent_transformer.Execute.Persisted.{
  Shows, ResultShows, execute-ResultShows, returned-shows,
}
use idempotent_transformer.Grpc.{Getters, settle, grpc_adapter, lease_checkpoint, checkpoint}
use idempotent_transformer.Grpc.Replies.{OneofGetters}
use idempotent_transformer.Server.{
  CheckpointValue, LeasedCheckpointValue, Database, Libraries, cached, upserted, with_cell,
  remove_leased_checkpoint,
}
use idempotent_transformer.Server.Checkpoints.{
  CheckpointInput as ServerInput, LeaseReply, checkpoint_value, checkpoint_with, lease_by_token,
  lease_with, lease_found, stored_reply, handle_checkpoint, handle_lease_checkpoint,
}
use idempotent_transformer.Server.Requests.{Request, serve_all}
use idempotent_transformer.Server.Requests.Durability.{
  content, Stored, serve_all-Stored, replied, handle_lease_checkpoint-replied,
}
use idempotent_transformer.Server.Rpc.Replay.{lease_found-checkpoints}
use idempotent_transformer.Server.Rpc.{Transport, service, lease_response, reply}

-- Something is stored under a position.
abbrev pub Taken : String → ℕ → Database → Type 0
Taken id p d = (c : String × Option (List ℕ)) × Stored id p c d

replied-ne-none : (key : String) (c : String × Option (List ℕ)) → replied key c ≢ done none
replied-ne-none key (k, none) e = ground arith
replied-ne-none key (k, some v) e = ground arith

checkpoint_with-Taken :
    (i : ServerInput) (token : Option ℕ) (l : Option LeasedCheckpointValue) (d : Database)
    (abort : Bool)
    → (checkpoint_with i token l d).0 ≡ done abort
    → Taken i.workflow_id i.position (checkpoint_with i token l d).1
checkpoint_with-Taken i none l d abort e = ground arith
checkpoint_with-Taken i (some token) l d abort e =
    let row =
      upserted (d.checkpoints i.workflow_id i.position) i.idempotency_key (some i.value) d.now in
    let at : with_cell d.checkpoints i.workflow_id i.position (some row) i.workflow_id i.position
        ≡ some row =
      ground (arith, eq_refl i.workflow_id) in
    ((row.idempotency_key, row.value), ground arith)

handle_checkpoint-Taken :
    (lib : Libraries) (i : ServerInput) (d : Database) (abort : Bool)
    → (handle_checkpoint lib i d).0 ≡ done abort
    → Taken i.workflow_id i.position (handle_checkpoint lib i d).1
unfolding handle_checkpoint
handle_checkpoint-Taken lib i d abort e =
    checkpoint_with-Taken i (d.fencing_tokens i.workflow_id)
      (cached lib (d.leases i.workflow_id i.position) d.now)
      (remove_leased_checkpoint lib i.workflow_id i.position d).1 abort e

-- A lease replies with a value only where a checkpoint is there.
lease_by_token-value :
    (i : LeaseCheckpointInput) (token : Option ℕ) (d : Database) (v : List ℕ)
    → (lease_by_token i token d).0 ≢ done (some (checkpoint_value v))
lease_by_token-value i none d v e = ground arith
lease_by_token-value i (some token) d v e = ground arith

lease_with-value :
    (i : LeaseCheckpointInput) (l : Option LeasedCheckpointValue) (token : Option ℕ) (d : Database)
    (v : List ℕ)
    → (lease_with i l token d).0 ≢ done (some (checkpoint_value v))
lease_with-value i none token d v e = lease_by_token-value i token d v e
lease_with-value i (some l) token d v e = ground (arith, lease_by_token-value i token d v)

lease_found-value :
    (lib : Libraries) (i : LeaseCheckpointInput) (o : Option CheckpointValue) (d : Database)
    (v : List ℕ)
    → (lease_found lib i o d).0 ≡ done (some (checkpoint_value v))
    → (c : String × Option (List ℕ)) × (content o ≡ some c)
lease_found-value lib i none d v e = absurd (
    lease_with-value i (cached lib (d.leases i.workflow_id i.position) d.now)
      (d.fencing_tokens i.workflow_id) d v e)
lease_found-value lib i (some row) d v e = ((row.idempotency_key, row.value), refl)

module _ (lib : Libraries) (transport : Transport) (g : Getters) (l : OneofGetters g) where
  -- What the adapter makes of a reply of the server.
  abbrev as_output : Outcome (Option LeaseReply) → Outcome LeaseCheckpointOutput
  as_output o =
      settle
        (λ response. record {
          value = some (g.get_value response);
          remaining_lease_timeout = some (g.get_remaining_lease_timeout response);
        })
        (reply lib transport lease_response o)

  as_output-value :
      (o : Outcome (Option LeaseReply)) (out : LeaseCheckpointOutput) (v : Serialized)
      → as_output o ≡ done out
      → truthy_value out.value ≡ some v
      → (u : List ℕ) × (o ≡ done (some (checkpoint_value u)))
  as_output-value (done none) out v e f =
      let shown : some (g.get_value LeaseCheckpointResponse.unset) ≡ out.value = ground arith in
      let falsy : truthy_value (some (g.get_value LeaseCheckpointResponse.unset)) ≡ none =
        rw l.value_of_unset refl in
      absurd cc
  as_output-value (done (some (checkpoint_value u))) out v e f = (u, refl)
  as_output-value (done (some (LeaseReply.remaining_lease_timeout n))) out v e f =
      let shown : some (g.get_value (LeaseCheckpointResponse.remaining_lease_timeout n))
          ≡ out.value =
        ground arith in
      let falsy : truthy_value
            (some (g.get_value (LeaseCheckpointResponse.remaining_lease_timeout n)))
          ≡ none =
        rw (l.value_of_remaining n) refl in
      absurd cc
  as_output-value (thrown err) out v e f = ground arith
  as_output-value running out v e f = ground arith

  service_lease-Taken :
      (i : LeaseCheckpointInput) (d : Database) (out : LeaseCheckpointOutput) (v : Serialized)
      → (lease_checkpoint g (service lib transport) i d).0 ≡ done out
      → truthy_value out.value ≡ some v
      → Taken i.workflow_id i.position (lease_checkpoint g (service lib transport) i d).1
  unfolding lease_checkpoint service handle_lease_checkpoint
  service_lease-Taken i d out v e f =
      let o = d.checkpoints i.workflow_id i.position in
      let (u, given) = as_output-value (lease_found lib i o d).0 out v e f in
      let (c, there) = lease_found-value lib i o d u given in
      (c, ap content (lease_found-checkpoints lib i o d i.workflow_id i.position) ∙ there)

  as_abort-done :
      (o : Outcome Bool) (b : Bool)
      → settle {B = CheckpointOutput}
          (λ response. record { abort = response.abort })
          (reply lib transport {B = CheckPointResponse} (λ abort. record { abort = abort }) o)
        ≡ done (record { abort = b })
      → o ≡ done b
  as_abort-done (done a) b e = ground arith
  as_abort-done (thrown err) b e = ground arith
  as_abort-done running b e = ground arith

  service_checkpoint-Taken :
      (i : CheckpointInput) (d : Database) (b : Bool)
      → (checkpoint g (service lib transport) i d).0 ≡ done (record { abort = b })
      → Taken i.workflow_id i.position (checkpoint g (service lib transport) i d).1
  unfolding checkpoint service
  service_checkpoint-Taken i d b e =
      let sent : ServerInput = record {
        workflow_id = i.workflow_id;
        fencing_token = i.fencing_token;
        position = i.position;
        value = transport.wire_bytes i.value;
        idempotency_key = i.idempotency_key;
      } in
      handle_checkpoint-Taken lib sent d b (as_abort-done (handle_checkpoint lib sent d).0 b e)

  module _ {R : Type 0} (serializer : IdempotentSerializer Database R) (date_now : Async Database ℕ)
      (set_timeout : ℕ → Async Database (Unit {0}))
      (pure_read : (v : Serialized) (d : Database) → (serializer.deserialize v d).1 ≡ d) where
    -- The adapter over the server as the host of a runner, with any clock and timers.
    abbrev pub remote_host : Host Database R
    remote_host = record {
      rpc_adapter = grpc_adapter g (service lib transport);
      serializer = serializer;
      date_now = date_now;
      set_timeout = set_timeout;
    }

    remote_host-Shows : (id : String) (p : ℕ) → Shows remote_host id p (Taken id p)
    remote_host-Shows id p = record {
      by_lease = λ i d out v a b e f. rw (← a, ← b) (service_lease-Taken i d out v e f);
      by_checkpoint = λ i d a b e. rw (← a, ← b) (service_checkpoint-Taken i d false e);
      by_deserialize = λ v d k. rw (pure_read v d) k;
    }

    -- Over the server, with getters as documented and a serializer that reads without a request: once a
    -- call of `execute` that has an `onAbort` has returned a result, no request for a lease of its
    -- checkpoint is granted any more, through all requests from there on and with whatever token.
    pub returned_never_leased :
        (w : Workflow) (fuel : ℕ) (key : String) (task : Task Database R)
        (options : Option (TaskOptions Database R)) (r : OnAbort Database R) (s : Session Database)
        (result : R) (rs : List Request) (i : LeaseCheckpointInput)
        → on_abort_of options ≡ some r
        → (execute remote_host w fuel key task options s).0 ≡ done result
        → i.workflow_id ≡ w.workflow_id
        → i.position ≡ s.position
        → (handle_lease_checkpoint lib i
            (serve_all lib rs (execute remote_host w fuel key task options s).1.env)).0
          ≢ done none
    returned_never_leased w fuel key task options r s result rs i given returned a b e =
        let m = execute remote_host w fuel key task options s in
        let K = Taken w.workflow_id s.position in
        let k = remote_host-Shows w.workflow_id s.position in
        let shown =
          execute-ResultShows remote_host w s.position K k fuel key task options r s given refl in
        let (c, stored) : K m.1.env =
          returned-shows remote_host w s.position K k m.0 m.1 result returned shown in
        replied-ne-none i.idempotency_key c
          (sym (handle_lease_checkpoint-replied lib rs m.1.env i c (rw (a, b) stored)) ∙ e)
