-- ===== src/Execute/Termination.antt =====
-- `execute` ends: the two loops that have no bound in their code, and the fuel that is enough for them.
use idempotent_transformer.Common.{
  ℕ, zero, suc, ◌+◌, ◌-◌, ◌≤◌, ◌<◌, String, ◌≡◌, refl, ◌⊎◌, Bool, true, false, Option, none, some,
  truthy_number, or_default, arith,
}
use idempotent_transformer.Async.{Outcome, done, thrown, running, Async, >>=_rule}
use idempotent_transformer.Loop.{loop_total, AfterRound}
use idempotent_transformer.Rpc.{
  Serialized, CheckpointInput, LeaseCheckpointInput, LeaseCheckpointOutput,
  ReleaseLeaseCheckpointInput,
}
use idempotent_transformer.Runner.{
  Returned, settled, OnAbort, TaskOptions, Host, Workflow, Session, on_env,
}
use idempotent_transformer.Execute.{
  Task, lease_timeout_of, on_abort_of, truthy_value, Claim, replayed, held, lease_round, lease_loop,
  run_task, persist_round, persist_loop, abortion, roll_back, conclude, perform, execute,
}

abbrev pub IsOver : {A : Type 0} → Outcome A → Type 0
IsOver (done a) = Unit
IsOver (thrown err) = Unit
IsOver running = ⊥

-- A call ends, and the clock does not go back meanwhile.
abbrev pub Ends : {E A : Type 0} → (E → ℕ) → Async E A → Type 0
Ends {E} time m = (e : E) → IsOver (m e).0 × (time e ≤ time (m e).1)

-- A call ends, and takes a millisecond at least.
abbrev pub Takes : {E A : Type 0} → (E → ℕ) → Async E A → Type 0
Takes {E} time m = (e : E) → IsOver (m e).0 × (time e < time (m e).1)

-- Whether a reply is a lease: it has neither a value nor a time to wait for.
abbrev pub IsGrant : Outcome LeaseCheckpointOutput → Type 0
IsGrant (done out) =
    (truthy_value out.value ≡ none) × (truthy_number out.remaining_lease_timeout ≡ none)
IsGrant (thrown err) = ⊥
IsGrant running = ⊥

-- A host whose calls end. Its clock shows `time`; a timer and a remote call of `checkpoint` take time.
pub record Lively {E R : Type 0} (h : Host E R) (time : E → ℕ) : Type 0 where
  pub now : (e : E) → (h.date_now e).0 ≡ done (time e)
  pub now_ends : Ends time h.date_now
  pub timer : (k : ℕ) → Takes time (h.set_timeout k)
  pub checkpoint : (i : CheckpointInput) → Takes time (h.rpc_adapter.checkpoint i)
  pub lease : (i : LeaseCheckpointInput) → Ends time (h.rpc_adapter.lease_checkpoint i)
  pub release :
      (i : ReleaseLeaseCheckpointInput) → Ends time (h.rpc_adapter.release_lease_checkpoint i)
  pub serialize : (r : R) → Ends time (h.serializer.serialize r)
  pub deserialize : (v : Serialized) → Ends time (h.serializer.deserialize v)

-- The worlds in which one request for a lease waits, until it is granted: no other worker holds the lease
-- from the time `free` on.
pub record Frees {E R : Type 0} (h : Host E R) (time : E → ℕ) (Waits : E → Type 0)
    (i : LeaseCheckpointInput) (free : ℕ) : Type 0 where
  pub contended :
      (e : E) (out : LeaseCheckpointOutput) (k : ℕ)
      → Waits e
      → (h.rpc_adapter.lease_checkpoint i e).0 ≡ done out
      → truthy_number out.remaining_lease_timeout ≡ some k
      → time (h.rpc_adapter.lease_checkpoint i e).1 < free
  pub lease :
      (e : E)
      → Waits e
      → IsGrant (h.rpc_adapter.lease_checkpoint i e).0
        ⊎ Waits (h.rpc_adapter.lease_checkpoint i e).1
  pub timer : (k : ℕ) (e : E) → Waits e → Waits (h.set_timeout k e).1
  pub deserialize : (v : Serialized) (e : E) → Waits e → Waits (h.serializer.deserialize v e).1

-- A function of the user whose call ends, and whose promise is settled.
pub record Answers {E A : Type 0} (time : E → ℕ) (m : Async E (Returned E A)) : Type 0 where
  pub call : Ends time m
  pub await : (e : E) (r : Returned E A) → (m e).0 ≡ done r → Ends time (settled r)

abbrev pub AbortAnswers : {E R : Type 0} → (E → ℕ) → Option (OnAbort E R) → Type 0
AbortAnswers time none = Unit
AbortAnswers {R} time (some r) = (result : R) → Answers time (r.function result)

-- The request for a lease that a call of `execute` makes.
abbrev pub request :
    {E R : Type 0} → Workflow → String → Option (TaskOptions E R) → ℕ → LeaseCheckpointInput
request w key options position = record {
  workflow_id = w.workflow_id;
  fencing_token = w.fencing_token;
  lease_timeout = lease_timeout_of options;
  position = position;
  idempotency_key = key;
}

module _ {E R : Type 0} (h : Host E R) (time : E → ℕ) (l : Lively h time) (w : Workflow) where
  abbrev Over : {A : Type 0} → ℕ → Outcome A → Session E → Type 0
  Over since (done a) s = since ≤ time s.env
  Over since (thrown err) s = Unit
  Over since running s = ⊥

  persist_round-left :
      (key : String) (v : Serialized) (expiry : ℕ) (s : Session E)
      → let m = persist_round h w key v expiry tt s in
        AfterRound
          (λ _ t. Unit {0} × (expiry - time t.env < expiry - time s.env))
          (λ o t. IsOver o)
          m.0
          m.1
  unfolding persist_round
  persist_round-left key v expiry s = grind (arith, l.now, l.now_ends, l.checkpoint)

  persist_loop-IsOver :
      (key : String) (v : Serialized) (expiry fuel : ℕ) (s : Session E)
      → expiry - time s.env < fuel
      → IsOver (persist_loop h w key v expiry fuel s).0
  unfolding persist_loop
  persist_loop-IsOver key v expiry fuel s enough =
      loop_total (λ _ _. Unit {0}) (λ o t. IsOver o) (persist_round h w key v expiry)
        (λ _ t. expiry - time t.env) (λ _ t _. persist_round-left key v expiry t) fuel tt s enough
        tt

  run_task-Over :
      (task : Task E R) (s : Session E)
      → Answers time task
      → let m = run_task h w task s in Over (time s.env) m.0 m.1
  unfolding run_task
  run_task-Over task s a = grind (arith, a.call, a.await, l.release)

  serialize-Over :
      (r : R) (since : ℕ) (s : Session E)
      → since ≤ time s.env
      → let m = on_env (h.serializer.serialize r) s in Over since m.0 m.1
  serialize-Over r since s i = ground (arith, l.serialize r s.env)

  abortion-IsOver :
      (r : OnAbort E R) (result : R) (s : Session E)
      → Answers time (r.function result)
      → IsOver (abortion h r result s).0
  unfolding abortion
  abortion-IsOver r result s a = grind (arith, a.call, a.await, l.timer)

  roll_back-IsOver :
      (r : OnAbort E R) (result : R) (n : ℕ) (s : Session E)
      → Answers time (r.function result)
      → IsOver (roll_back h r result n s).0
  unfolding roll_back
  roll_back-IsOver r result zero s a = tt
  roll_back-IsOver r result (suc n) s a =
      ground (
        arith,
        abortion-IsOver r result s a,
        roll_back-IsOver r result n (abortion h r result s).1 a,
      )

  conclude-IsOver :
      (abort : Option Bool) (r : Option (OnAbort E R)) (result : R) (s : Session E)
      → AbortAnswers time r
      → IsOver (conclude h abort r result s).0
  unfolding conclude
  conclude-IsOver (some true) r result s a = tt
  conclude-IsOver (some false) r result s a = tt
  conclude-IsOver none none result s a = tt
  conclude-IsOver none (some r) result s a =
      ground (arith, roll_back-IsOver r result (or_default r.retry_count 3) s (a result))

  perform-IsOver :
      (fuel : ℕ) (key : String) (task : Task E R) (options : Option (TaskOptions E R)) (before : ℕ)
      (s : Session E)
      → before ≤ time s.env
      → lease_timeout_of options < fuel
      → Answers time task
      → AbortAnswers time (on_abort_of options)
      → IsOver (perform h w fuel key task options before s).0
  unfolding perform
  perform-IsOver fuel key task options before s since enough a b =
      let expiry = before + lease_timeout_of options in
      >>=_rule _ (Over (time s.env)) (λ o t. IsOver o) (run_task h w task) s
        (run_task-Over task s a)
        (λ r t i.
          >>=_rule _ (Over before) (λ o u. IsOver o) (on_env (h.serializer.serialize r)) t
            (serialize-Over r before t (omega arith))
            (λ v u j.
              >>=_rule _ (λ o x. IsOver o) (λ o x. IsOver o) (persist_loop h w key v expiry fuel) u
                (persist_loop-IsOver key v expiry fuel u (omega arith))
                (λ abort x k. conclude-IsOver abort (on_abort_of options) r x b) (λ err x k. k)
                (λ x k. k))
            (λ err u j. j) (λ u j. j))
        (λ err t i. i) (λ t i. i)

module _ {E R : Type 0} (h : Host E R) (time : E → ℕ) (l : Lively h time) (w : Workflow)
    (key : String) (options : Option (TaskOptions E R)) (p : ℕ) (Waits : E → Type 0) (free : ℕ)
    (f : Frees h time Waits (request w key options p) free) where
  abbrev Leased : Outcome (Claim R) → Session E → Type 0
  Leased (done (replayed r)) s = Unit
  Leased (done (held t)) s = t ≤ time s.env
  Leased (thrown err) s = Unit
  Leased running s = ⊥

  abbrev left : ℕ → Session E → ℕ
  left errors s = (free - time s.env) + (1 - errors)

  -- The runner stands at the position of its request, in a world that waits.
  abbrev Asking : Session E → Type 0
  Asking s = (s.position ≡ p) × Waits s.env

  lease_round-left :
      (errors : ℕ) (e : E)
      → Waits e
      → let s : Session E = record { position = p; env = e } in
        let m = lease_round h w key (lease_timeout_of options) errors s in
        AfterRound (λ n t. Asking t × (left n t < left errors s)) Leased m.0 m.1
  unfolding lease_round
  lease_round-left errors e waits = grind (
    arith,
    l.now,
    l.now_ends,
    l.timer,
    f.timer,
    l.lease,
    f.lease e waits,
    f.contended e,
    l.deserialize,
    f.deserialize,
  )

  lease_loop-Leased :
      (fuel : ℕ) (s : Session E)
      → (free - time s.env) + 1 < fuel
      → Asking s
      → let m = lease_loop h w key (lease_timeout_of options) fuel s in Leased m.0 m.1
  unfolding lease_loop
  lease_loop-Leased fuel s enough asking =
      loop_total (λ _ t. Asking t) Leased (lease_round h w key (lease_timeout_of options)) left
        (λ n t (at, waits). rw at (lease_round-left n t.env waits)) fuel 0 s enough asking

  -- On a host whose calls all end, where a timer and a `checkpoint` take a millisecond at least, and in a
  -- world where no other worker holds the lease that is asked for from some time on, `execute` ends if the
  -- task and `onAbort.function` do. Fuel above the length of the lease, and two above what is left until that
  -- time, is enough.
  pub execute-IsOver :
      (fuel : ℕ) (task : Task E R) (e : E)
      → Waits e
      → (free - time e) + 1 < fuel
      → lease_timeout_of options < fuel
      → Answers time task
      → AbortAnswers time (on_abort_of options)
      → IsOver (execute h w fuel key task options (record { position = p; env = e })).0
  unfolding execute
  execute-IsOver fuel task e waits enough enough' a b =
      >>=_rule _ Leased (λ o t. IsOver o) (lease_loop h w key (lease_timeout_of options) fuel)
        (record { position = p; env = e })
        (lease_loop-Leased fuel (record { position = p; env = e }) enough (refl, waits))
        (elim [
          | replayed r ↦ λ t i. tt
          | held before ↦
              λ t i. perform-IsOver h time l w fuel key task options before t i enough' a b
        ])
        (λ err t i. i) (λ t i. i)
