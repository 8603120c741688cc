-- ===== src/Execute/Replay.antt =====
-- A workflow that is run again over what an earlier run has stored.
use idempotent_transformer.Common.{
  ℕ, suc, ◌+◌, String, ◌≡◌, refl, ◌∙◌, Option, some, length, List, [], ◌∷◌, arith,
}
use idempotent_transformer.Async.{Outcome, done, thrown, running, Async, pure, ◌>>=◌, >>=-done}
use idempotent_transformer.Loop.{loop}
use idempotent_transformer.Rpc.{Serialized, bytes, LeaseCheckpointInput, LeaseCheckpointOutput}
use idempotent_transformer.Runner.{TaskOptions, Host, Workflow, Session}
use idempotent_transformer.Execute.{
  Task, truthy_value, lease_timeout_of, lease_round, lease_loop, execute,
}

-- The reply to a lease of a checkpoint that is stored.
abbrev pub HitReply : Serialized → Outcome LeaseCheckpointOutput → Type 0
HitReply v (done out) = truthy_value out.value ≡ some v
HitReply v (thrown err) = ⊥
HitReply v running = ⊥

-- What the worker relies on when it runs again: a server that answers a lease with what it has stored
-- under the position, if the key is the same, and a serializer that decodes it. Neither changes what is
-- stored.
pub record Durable {E R : Type 0} (h : Host E R) : Type 0 where
  pub stored : E → (id : String) → (position : ℕ) → Option (String × List ℕ)
  pub decode : List ℕ → R
  pub hit :
      (i : LeaseCheckpointInput) (e : E) (v : List ℕ)
      → stored e i.workflow_id i.position ≡ some (i.idempotency_key, v)
      → HitReply (bytes v) (h.rpc_adapter.lease_checkpoint i e).0
  pub lease_keeps :
      (i : LeaseCheckpointInput) (e : E) (id : String) (p : ℕ)
      → stored (h.rpc_adapter.lease_checkpoint i e).1 id p ≡ stored e id p
  pub decodes : (v : List ℕ) (e : E) → (h.serializer.deserialize (bytes v) e).0 ≡ done (decode v)
  pub decode_keeps :
      (v : List ℕ) (e : E) (id : String) (p : ℕ)
      → stored (h.serializer.deserialize (bytes v) e).1 id p ≡ stored e id p

-- One call of `execute` in a workflow, and a workflow that makes such calls one after the other.
pub record Call (E R : Type 0) : Type 0 where
  pub key : String
  pub task : Task E R
  pub options : Option (TaskOptions E R)

module _ {E R : Type 0} (h : Host E R) (d : Durable h) (w : Workflow) where
  abbrev request : String → Option (TaskOptions E R) → Session E → LeaseCheckpointInput
  request key options s = record {
    workflow_id = w.workflow_id;
    fencing_token = w.fencing_token;
    lease_timeout = lease_timeout_of options;
    position = s.position;
    idempotency_key = key;
  }

  -- The world after the lease that is answered by a stored value.
  abbrev leased_env : String → Option (TaskOptions E R) → Session E → E
  leased_env key options s = (h.rpc_adapter.lease_checkpoint (request key options s) s.env).1

  -- A stored checkpoint is given back by the first round of the leasing loop, whatever the task is.
  execute_hit :
      (fuel : ℕ) (key : String) (task : Task E R) (options : Option (TaskOptions E R))
      (s : Session E) (v : List ℕ)
      → d.stored s.env w.workflow_id s.position ≡ some (key, v)
      → execute h w (suc fuel) key task options s ≡ (
        done (d.decode v),
        record {
          position = s.position + 1;
          env = (h.serializer.deserialize (bytes v) (leased_env key options s)).1;
        },
      )
  unfolding execute lease_loop lease_round loop
  execute_hit fuel key task options s v e =
      ground
        (arith, d.hit (request key options s) s.env v e, d.decodes v (leased_env key options s))

  hit_keeps :
      (key : String) (options : Option (TaskOptions E R)) (s : Session E) (v : List ℕ) (id : String)
      (p : ℕ)
      → d.stored (h.serializer.deserialize (bytes v) (leased_env key options s)).1 id p
        ≡ d.stored s.env id p
  hit_keeps key options s v id p =
      d.decode_keeps v (leased_env key options s) id p
      ∙ d.lease_keeps (request key options s) s.env id p

  -- A workflow: calls of `execute`, one after the other, and their results.
  abbrev pub run_calls : ℕ → List (Call E R) → Async (Session E) (List R)
  run_calls fuel [] = pure []
  run_calls fuel (c ∷ cs) = do
    r ← execute h w fuel c.key c.task c.options
    rs ← run_calls fuel cs
    pure (r ∷ rs)

  -- The results that are stored from a position on, under the keys of the calls.
  abbrev pub Recorded : E → ℕ → List (Call E R) → List R → Type 0
  Recorded e p [] [] = Unit
  Recorded e p [] (r ∷ rs) = ⊥
  Recorded e p (c ∷ cs) [] = ⊥
  Recorded e p (c ∷ cs) (r ∷ rs) =
      ((v : List ℕ) × (d.stored e w.workflow_id p ≡ some (c.key, v)) × (d.decode v ≡ r))
      × Recorded e (p + 1) cs rs

  Recorded-keeps :
      (cs : List (Call E R)) (rs : List R) (e e' : E) (p : ℕ)
      → ((q : ℕ) → d.stored e' w.workflow_id q ≡ d.stored e w.workflow_id q)
      → Recorded e p cs rs
      → Recorded e' p cs rs
  Recorded-keeps [] [] e e' p same i = tt
  Recorded-keeps [] (r ∷ rs) e e' p same i = i
  Recorded-keeps (c ∷ cs) [] e e' p same i = i
  Recorded-keeps (c ∷ cs) (r ∷ rs) e e' p same ((v, at, dec), rest) =
      ((v, same p ∙ at, dec), Recorded-keeps cs rs e e' (p + 1) same rest)

  -- A workflow whose results are stored gives them back, whatever its tasks are by now: they may throw
  -- or never end. The runner ends behind the last of them, and what is stored is as it was.
  pub run_calls-Recorded :
      (fuel : ℕ) (cs : List (Call E R)) (rs : List R) (s : Session E)
      → Recorded s.env s.position cs rs
      → let m = run_calls (suc fuel) cs s in
        (m.0 ≡ done rs)
        × (m.1.position ≡ s.position + length cs)
        × ((id : String) (q : ℕ) → d.stored m.1.env id q ≡ d.stored s.env id q)
  run_calls-Recorded fuel [] [] s i = (refl, omega arith, λ id q. refl)
  run_calls-Recorded fuel [] (r ∷ rs) s i = absurd i
  run_calls-Recorded fuel (c ∷ cs) [] s i = absurd i
  run_calls-Recorded fuel (c ∷ cs) (r ∷ rs) s ((v, at, dec), rest) =
      let u : Session E = record {
        position = s.position + 1;
        env = (h.serializer.deserialize (bytes v) (leased_env c.key c.options s)).1;
      } in
      let (returned, moved, kept) = run_calls-Recorded fuel cs rs u (
        Recorded-keeps cs rs s.env u.env (s.position + 1)
          (λ q. hit_keeps c.key c.options s v w.workflow_id q) rest) in
      rw (execute_hit fuel c.key c.task c.options s v at) (
        rw (>>=-done (λ rs'. pure (d.decode v ∷ rs')) (run_calls (suc fuel) cs) u rs returned)
          (rw dec refl, omega arith, λ id q. kept id q ∙ hit_keeps c.key c.options s v id q))
