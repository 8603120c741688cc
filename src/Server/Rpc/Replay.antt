-- ===== src/Server/Rpc/Replay.antt =====
-- A runner over the adapter and the server: what a worker that was restarted gets back.
mod Tests
use idempotent_transformer.Common.{
  ℕ, suc, ◌+◌, String, ◌≡◌, refl, sym, ap, ◌∙◌, Bool, true, false, Option, none, some, List, [],
  ◌∷◌, ltb, ◌==◌, not, str_eq, truthy_number, if◌then◌else◌, arith,
}
use text.Mathlib.TextPositions.{eq_refl}
use idempotent_transformer.Async.{Outcome, done, thrown, Async}
use idempotent_transformer.Rpc.{Serialized, bytes, LeaseCheckpointInput, IdempotentSerializer}
use idempotent_transformer.Runner.{Host, Workflow, WorkflowOptions, Session, start_workflow}
use idempotent_transformer.Execute.{truthy_value}
use idempotent_transformer.Execute.Replay.{
  HitReply, Durable, Call, run_calls, Recorded, run_calls-Recorded,
}
use idempotent_transformer.Grpc.{
  Getters, grpc_adapter, lease_checkpoint, start_workflow as adapter_start,
}
use idempotent_transformer.Grpc.Replies.{OneofGetters}
use idempotent_transformer.Server.{
  CheckpointValue, LeasedCheckpointValue, Database, Libraries, cached,
}
use idempotent_transformer.Server.Checkpoints.{
  LeaseReply, checkpoint_value, lease_by_token, lease_with, lease_found, stored_reply,
  handle_lease_checkpoint,
}
use idempotent_transformer.Server.Workflows.{create_workflow}
use idempotent_transformer.Server.Requests.{Request, serve_all}
use idempotent_transformer.Server.Requests.Durability.{
  content, Stored, serve_all-Stored, replied, handle_lease_checkpoint-replied,
}
use idempotent_transformer.Server.Rpc.{Transport, service, lease_response}

-- A lease changes no checkpoint.
lease_by_token-checkpoints :
    (i : LeaseCheckpointInput) (token : Option ℕ) (d : Database) (id : String) (p : ℕ)
    → (lease_by_token i token d).1.checkpoints id p ≡ d.checkpoints id p
lease_by_token-checkpoints i none d id p = refl
lease_by_token-checkpoints i (some token) d id p = ground arith

lease_with-checkpoints :
    (i : LeaseCheckpointInput) (l : Option LeasedCheckpointValue) (token : Option ℕ) (d : Database)
    (id : String) (p : ℕ)
    → (lease_with i l token d).1.checkpoints id p ≡ d.checkpoints id p
lease_with-checkpoints i none token d id p = lease_by_token-checkpoints i token d id p
lease_with-checkpoints i (some l) token d id p =
    ground (arith, lease_by_token-checkpoints i token d id p)

pub lease_found-checkpoints :
    (lib : Libraries) (i : LeaseCheckpointInput) (o : Option CheckpointValue) (d : Database)
    (id : String) (p : ℕ)
    → (lease_found lib i o d).1.checkpoints id p ≡ d.checkpoints id p
lease_found-checkpoints lib i none d id p =
    lease_with-checkpoints i (cached lib (d.leases i.workflow_id i.position) d.now)
      (d.fencing_tokens i.workflow_id) d id p
lease_found-checkpoints lib i (some row) d id p = ground arith

-- The key and the value of a checkpoint that has one.
abbrev pub valued : Option (String × Option (List ℕ)) → Option (String × List ℕ)
valued none = none
valued (some (key, none)) = none
valued (some (key, some v)) = some (key, v)

valued-content :
    (o : Option (String × Option (List ℕ))) (key : String) (v : List ℕ)
    → valued o ≡ some (key, v)
    → o ≡ some (key, some v)
valued-content none key v e = cc
valued-content (some (k, none)) key v e = cc
valued-content (some (k, some u)) key v e = ground arith

abbrev pub stored_in : Database → String → ℕ → Option (String × List ℕ)
stored_in d id p = valued (content (d.checkpoints id p))

module _ (lib : Libraries) (transport : Transport) (g : Getters) where
  pub service_hit :
      OneofGetters g
      → (i : LeaseCheckpointInput) (d : Database) (v : List ℕ)
      → stored_in d i.workflow_id i.position ≡ some (i.idempotency_key, v)
      → HitReply (bytes v) (lease_checkpoint g (service lib transport) i d).0
  unfolding lease_checkpoint service
  service_hit l i d v e =
      let s : Stored i.workflow_id i.position (i.idempotency_key, some v) d =
        valued-content (content (d.checkpoints i.workflow_id i.position)) i.idempotency_key v e in
      let found : (handle_lease_checkpoint lib i d).0 ≡ done (some (checkpoint_value v)) =
        handle_lease_checkpoint-replied lib [] d i (i.idempotency_key, some v) s
        ∙ rw (eq_refl i.idempotency_key) refl in
      rw found (rw (l.value_of_value v) refl)

  pub service_keeps :
      (i : LeaseCheckpointInput) (d : Database) (id : String) (p : ℕ)
      → stored_in (lease_checkpoint g (service lib transport) i d).1 id p ≡ stored_in d id p
  unfolding lease_checkpoint service handle_lease_checkpoint
  service_keeps i d id p =
      ap (λ o. valued (content o))
        (lease_found-checkpoints lib i (d.checkpoints i.workflow_id i.position) d id p)

  module _ {R : Type 0} (l : OneofGetters g) (serializer : IdempotentSerializer Database R)
      (decode : List ℕ → R) (set_timeout : ℕ → Async Database (Unit {0}))
      (decodes : (v : List ℕ) (d : Database)
        → serializer.deserialize (bytes v) d ≡ (done (decode v), d)) where
    -- The adapter over the server as the host of a runner, whose clock is that of the server.
    abbrev pub server_host : Host Database R
    server_host = record {
      rpc_adapter = grpc_adapter g (service lib transport);
      serializer = serializer;
      date_now = λ d. (done d.now, d);
      set_timeout = set_timeout;
    }

    -- The server is one that a runner can rely on when it runs again.
    abbrev pub server_Durable : Durable server_host
    server_Durable = record {
      stored = stored_in;
      decode = decode;
      hit = service_hit l;
      lease_keeps = service_keeps;
      decodes = λ v d. ap (λ x. x.0) (decodes v d);
      decode_keeps = λ v d id p. ap (λ x. stored_in x.1 id p) (decodes v d);
    }

    stored_in-kept :
        (rs : List Request) (d : Database) (id : String) (p : ℕ) (key : String) (v : List ℕ)
        → stored_in d id p ≡ some (key, v)
        → stored_in (serve_all lib rs d) id p ≡ some (key, v)
    stored_in-kept rs d id p key v e = ap valued (
        serve_all-Stored id p (key, some v) lib rs d
          (valued-content (content (d.checkpoints id p)) key v e))

    Recorded-kept :
        (w : Workflow) (d e : Database) (p : ℕ) (cs : List (Call Database R)) (results : List R)
        → ((q : ℕ) (key : String) (v : List ℕ)
            → stored_in d w.workflow_id q ≡ some (key, v)
            → stored_in e w.workflow_id q ≡ some (key, v))
        → Recorded server_host server_Durable w d p cs results
        → Recorded server_host server_Durable w e p cs results
    Recorded-kept w d e p [] [] k i = tt
    Recorded-kept w d e p [] (r ∷ rs) k i = i
    Recorded-kept w d e p (c ∷ cs) [] k i = i
    Recorded-kept w d e p (c ∷ cs) (r ∷ rs) k ((v, at, dec), rest) =
        ((v, k p c.key v at, dec), Recorded-kept w d e (p + 1) cs rs k rest)

    start_workflow-stored :
        (id : String) (options : WorkflowOptions) (d : Database) (w : Workflow)
        (s : Session Database)
        → start_workflow server_host id options d ≡ (done w, s)
        → (s.position ≡ 0) × ((q : ℕ) → stored_in s.env id q ≡ stored_in d id q)
    unfolding start_workflow adapter_start service create_workflow
    start_workflow-stored id options d w s e =
        (sym (ap (λ x. x.1.position) e), λ q. sym (ap (λ x. stored_in x.1.env id q) e))

    -- A workflow whose results the server has stored gives them back to a worker that starts it again, after
    -- whatever else the server was asked for since, by older runners of the workflow too, and whatever the
    -- tasks do by now.
    pub run_calls-restarted :
        (rs : List Request) (d : Database) (options : WorkflowOptions) (w : Workflow)
        (s : Session Database) (fuel : ℕ) (cs : List (Call Database R)) (results : List R)
        → Recorded server_host server_Durable w d 0 cs results
        → start_workflow server_host w.workflow_id options (serve_all lib rs d) ≡ (done w, s)
        → (run_calls server_host server_Durable w (suc fuel) cs s).0 ≡ done results
    run_calls-restarted rs d options w s fuel cs results i e =
        let (at_start, kept) =
          start_workflow-stored w.workflow_id options (serve_all lib rs d) w s e in
        let recorded =
          Recorded-kept w d s.env 0 cs results
            (λ q key v f. kept q ∙ stored_in-kept rs d w.workflow_id q key v f) i in
        (run_calls-Recorded server_host server_Durable w fuel cs results s (rw at_start recorded)).0
