-- ===== src/Server/Rpc/Network.antt =====
-- The adapter and the server over a network, on which each remote call takes a millisecond, as the host of
-- a runner that waits for a lease.
pub mod Handlers
mod Tests
use idempotent_transformer.Common.{
  ℕ, suc, ◌+◌, ◌-◌, ◌/◌, ◌≤◌, ◌<◌, String, ◌≡◌, refl, sym, ap, ◌∙◌, ◌⊎◌, inl, inr, Bool, true,
  false, Bool-cases, Option, none, some, List, ltb, ◌==◌, str_eq, truthy_number, if◌then◌else◌,
  arith,
}
use idempotent_transformer.Async.{Thrown, Outcome, done, thrown, running, Async}
use idempotent_transformer.Rpc.{
  Serialized, CheckpointInput, LeaseCheckpointInput, LeaseCheckpointOutput, CheckpointOutput,
  ReleaseLeaseCheckpointInput, IdempotentSerializer, RpcAdapter,
}
use idempotent_transformer.Runner.{Host}
use idempotent_transformer.Execute.{truthy_value}
use idempotent_transformer.Execute.Termination.{IsOver, Ends, Takes, IsGrant, Lively, Frees}
use idempotent_transformer.Grpc.{
  Callback, Getters, grpc_adapter, settle, checkpoint, lease_checkpoint, release_lease_checkpoint,
}
use idempotent_transformer.Grpc.Replies.{OneofGetters}
use idempotent_transformer.Proto.{LeaseCheckpointResponse, CheckPointResponse}
use idempotent_transformer.Server.{
  with_cell, CheckpointValue, LeasedCheckpointValue, Database, Libraries, cached,
}
use idempotent_transformer.Server.Checkpoints.{
  CheckpointInput as ServerInput, LeaseReply, checkpoint_value, remaining_lease_timeout,
  saturating_add, checkpoint_with, lease_by_token, lease_with, lease_found, stored_reply,
  handle_checkpoint, handle_lease_checkpoint,
}
use idempotent_transformer.Server.Rpc.{Transport, service, reply, lease_response}
use idempotent_transformer.Server.Rpc.Network.Handlers.{
  RunsOut, Leased, lease_found-Leased, lease_found-Steady, checkpoint_with-Steady, Steady,
}

-- What the adapter makes of how a handler ends.
abbrev answered :
    {A B C : Type 0} → Libraries → Transport → (A → B) → (B → C) → Outcome A → Outcome C
answered lib transport f g o = settle g (reply lib transport f o)

answered-IsOver :
    {A B C : Type 0} (lib : Libraries) (transport : Transport) (f : A → B) (g : B → C)
    (o : Outcome A)
    → IsOver o
    → IsOver (answered lib transport f g o)
answered-IsOver lib transport f g (done a) i = tt
answered-IsOver lib transport f g (thrown err) i = tt
answered-IsOver lib transport f g running i = absurd i

-- The reply to a lease, as the adapter gives it to the runner.
abbrev read : Getters → LeaseCheckpointResponse → LeaseCheckpointOutput
read g response = record {
  value = some (g.get_value response);
  remaining_lease_timeout = some (g.get_remaining_lease_timeout response);
}

-- A remote call: the reply arrives a millisecond after the server has acted.
abbrev pub delayed : {A : Type 0} → Async Database A → Async Database A
delayed m d = let (o, e) = m d in (o, record e { now = e.now + 1 })

abbrev pub network : RpcAdapter Database → RpcAdapter Database
network a = record {
  start_workflow = λ i. delayed (a.start_workflow i);
  checkpoint = λ i. delayed (a.checkpoint i);
  lease_checkpoint = λ i. delayed (a.lease_checkpoint i);
  complete_workflow = λ i. delayed (a.complete_workflow i);
  get_workflow_status = λ i. delayed (a.get_workflow_status i);
  release_lease_checkpoint = λ i. delayed (a.release_lease_checkpoint i);
  generate_idempotency_key = λ i. delayed (a.generate_idempotency_key i);
}

-- A serializer that ends, and leaves the server alone.
pub record IsLocal {R : Type 0} (serializer : IdempotentSerializer Database R) : Type 0 where
  pub serializes : (r : R) (d : Database) → IsOver (serializer.serialize r d).0
  pub serialize_keeps : (r : R) (d : Database) → (serializer.serialize r d).1 ≡ d
  pub deserializes : (v : Serialized) (d : Database) → IsOver (serializer.deserialize v d).0
  pub deserialize_keeps : (v : Serialized) (d : Database) → (serializer.deserialize v d).1 ≡ d

module _ (lib : Libraries) (transport : Transport) (g : Getters) (l : OneofGetters g) {R : Type 0}
    (serializer : IdempotentSerializer Database R) (local : IsLocal serializer) where
  -- The clock is that of the server, and a timer lasts for a tenth of its number at least.
  abbrev pub network_host : Host Database R
  network_host = record {
    rpc_adapter = network (grpc_adapter g (service lib transport));
    serializer = serializer;
    date_now = λ d. (done d.now, d);
    set_timeout = λ tenths d. (done tt, record d { now = d.now + suc (tenths / 10) });
  }

  lease-Ends :
      (i : LeaseCheckpointInput) → Ends (λ d. d.now) (network_host.rpc_adapter.lease_checkpoint i)
  unfolding lease_checkpoint service handle_lease_checkpoint
  lease-Ends i d =
      let (over, same) = lease_found-Steady lib i (d.checkpoints i.workflow_id i.position) d in
      (answered-IsOver lib transport lease_response (read g) _ over, omega arith)

  checkpoint-Takes :
      (i : CheckpointInput) → Takes (λ d. d.now) (network_host.rpc_adapter.checkpoint i)
  unfolding checkpoint service handle_checkpoint
  checkpoint-Takes i d =
      let (over, same) =
        checkpoint_with-Steady
          (record {
            workflow_id = i.workflow_id;
            fencing_token = i.fencing_token;
            position = i.position;
            value = transport.wire_bytes i.value;
            idempotency_key = i.idempotency_key;
          })
          (d.fencing_tokens i.workflow_id) (cached lib (d.leases i.workflow_id i.position) d.now)
          (record d { leases = with_cell d.leases i.workflow_id i.position none }) in
      (
        answered-IsOver lib transport (λ abort. record { abort = abort })
            (λ response. record { abort = response.abort }) _ over,
        omega arith,
      )

  pub network-Lively : Lively network_host (λ d. d.now)
  unfolding release_lease_checkpoint service
  network-Lively = record {
    now = λ d. refl;
    now_ends = λ d. (tt, omega arith);
    timer = λ k d. (tt, omega arith);
    checkpoint = checkpoint-Takes;
    lease = lease-Ends;
    release = λ i d. (tt, omega arith);
    serialize = λ r d. (local.serializes r d, rw (local.serialize_keeps r d) (omega arith));
    deserialize = λ v d. (local.deserializes v d, rw (local.deserialize_keeps v d) (omega arith));
  }

  -- A request ends, and how a reply that it gets leaves the world.
  Answer : LeaseCheckpointInput → ℕ → Outcome LeaseCheckpointOutput → Database → Type 0
  Answer i free o e =
      ((out : LeaseCheckpointOutput) (k : ℕ)
        → o ≡ done out
        → truthy_number out.remaining_lease_timeout ≡ some k
        → e.now < free)
      × (IsGrant o ⊎ RunsOut i free e)

  Leased-Answer :
      (i : LeaseCheckpointInput) (free : ℕ) (d e : Database) (o : Outcome (Option LeaseReply))
      → RunsOut i free d
      → Leased d free o e
      → Answer i free
          (answered lib transport lease_response (read g) o)
          (record e { now = e.now + 1 })
  unfolding Answer
  Leased-Answer i free d e (done none) out leased = (
    λ r k same wait. absurd (grind (arith, l.remaining_of_unset)),
    inl (rw l.value_of_unset refl, rw l.remaining_of_unset refl),
  )
  Leased-Answer i free d e (done (some (checkpoint_value v))) out leased = (
    λ r k same wait. absurd (grind (arith, l.remaining_of_value v)),
    inr (λ lease ttl there.
        out lease ttl (ap (λ x. x.leases i.workflow_id i.position) (sym leased) ∙ there)),
  )
  Leased-Answer i free d e (done (some (remaining_lease_timeout n))) out (same, soon) = (
    λ r k _ wait. rw same soon,
    inr (λ lease ttl there.
        out lease ttl (ap (λ x. x.leases i.workflow_id i.position) (sym same) ∙ there)),
  )
  Leased-Answer i free d e (thrown err) out leased = (
    λ r k same wait. absurd (cc same),
    inr (λ lease ttl there.
        out lease ttl (ap (λ x. x.leases i.workflow_id i.position) (sym leased) ∙ there)),
  )
  Leased-Answer i free d e running out leased = absurd leased

  lease-Answer :
      (i : LeaseCheckpointInput) (free : ℕ) (d : Database)
      → RunsOut i free d
      → let m = network_host.rpc_adapter.lease_checkpoint i d in Answer i free m.0 m.1
  unfolding lease_checkpoint service handle_lease_checkpoint
  lease-Answer i free d out =
      let m = lease_found lib i (d.checkpoints i.workflow_id i.position) d in
      Leased-Answer i free d m.1 m.0 out
        (lease_found-Leased lib i (d.checkpoints i.workflow_id i.position) free d out)

  -- The server frees a lease when that runs out.
  pub network-Frees :
      (i : LeaseCheckpointInput) (free : ℕ)
      → Frees network_host (λ d. d.now) (RunsOut i free) i free
  unfolding Answer
  network-Frees i free = record {
    contended = λ d r k out same wait. (lease-Answer i free d out).0 r k same wait;
    lease = λ d out. (lease-Answer i free d out).1;
    timer = λ k d out. out;
    deserialize = λ v d out. rw (local.deserialize_keeps v d) out;
  }
