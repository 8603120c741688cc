-- ===== src/Execute/Persisted.antt =====
-- What a result that `execute` returns says of the world, if there is an `onAbort`.
use idempotent_transformer.Common.{
  ℕ, ◌+◌, String, ◌≡◌, ◌∙◌, Bool, true, false, Option, none, some, arith,
}
use idempotent_transformer.Async.{Outcome, done, thrown, running, >>=_rule}
use idempotent_transformer.Loop.{Round, stop, again, loop_inv}
use idempotent_transformer.Rpc.{
  Serialized, CheckpointInput, LeaseCheckpointInput, LeaseCheckpointOutput,
}
use idempotent_transformer.Runner.{OnAbort, TaskOptions, Host, Workflow, Session, on_env}
use idempotent_transformer.Execute.{
  Task, truthy_value, lease_timeout_of, on_abort_of, Claim, replayed, held, lease_round, lease_loop,
  run_task, persist_round, persist_loop, conclude, perform, execute,
}
use idempotent_transformer.Execute.Position.{run_task-keeps}

-- A property of the world that holds once a checkpoint of a workflow is stored: a reply to a lease that
-- carries a value shows it, and so does a checkpoint that was taken without an abort.
pub record Shows {E R : Type 0} (h : Host E R) (id : String) (p : ℕ) (K : E → Type 0) : Type 0 where
  pub by_lease :
      (i : LeaseCheckpointInput) (e : E) (out : LeaseCheckpointOutput) (v : Serialized)
      → i.workflow_id ≡ id
      → i.position ≡ p
      → (h.rpc_adapter.lease_checkpoint i e).0 ≡ done out
      → truthy_value out.value ≡ some v
      → K (h.rpc_adapter.lease_checkpoint i e).1
  pub by_checkpoint :
      (i : CheckpointInput) (e : E)
      → i.workflow_id ≡ id
      → i.position ≡ p
      → (h.rpc_adapter.checkpoint i e).0 ≡ done (record { abort = false })
      → K (h.rpc_adapter.checkpoint i e).1
  pub by_deserialize : (v : Serialized) (e : E) → K e → K (h.serializer.deserialize v e).1

module _ {E R : Type 0} (h : Host E R) (w : Workflow) (p : ℕ) (K : E → Type 0)
    (k : Shows h w.workflow_id p K) where
  abbrev RoundShows : Outcome (Round ℕ (Claim R)) → Session E → Type 0
  RoundShows (done (stop (replayed r))) s = K s.env
  RoundShows (done (stop (held t))) s = s.position ≡ p
  RoundShows (done (again n)) s = s.position ≡ p
  RoundShows _ s = Unit

  abbrev ClaimShows : Outcome (Claim R) → Session E → Type 0
  ClaimShows (done (replayed r)) s = K s.env
  ClaimShows (done (held t)) s = s.position ≡ p
  ClaimShows _ s = Unit

  abbrev pub ResultShows : Outcome R → Session E → Type 0
  ResultShows (done r) s = K s.env
  ResultShows _ s = Unit

  lease_round-RoundShows :
      (key : String) (timeout errors : ℕ) (s : Session E)
      → s.position ≡ p
      → let (o, t) = lease_round h w key timeout errors s in RoundShows o t
  unfolding lease_round
  lease_round-RoundShows key timeout errors s e = grind (arith, k.by_lease, k.by_deserialize)

  abbrev PersistShows : Outcome (Option Bool) → Session E → Type 0
  PersistShows (done (some false)) s = K s.env
  PersistShows _ s = Unit

  abbrev PersistRoundShows : Outcome (Round (Unit {0}) (Option Bool)) → Session E → Type 0
  PersistRoundShows (done (stop (some false))) s = K s.env
  PersistRoundShows (done (again n)) s = s.position ≡ p
  PersistRoundShows _ s = Unit

  persist_round-PersistRoundShows :
      (key : String) (v : Serialized) (expiry : ℕ) (s : Session E)
      → s.position ≡ p
      → let (o, t) = persist_round h w key v expiry tt s in PersistRoundShows o t
  unfolding persist_round
  persist_round-PersistRoundShows key v expiry s e = grind (arith, k.by_checkpoint)

  lease_loop-ClaimShows :
      (key : String) (timeout fuel : ℕ) (s : Session E)
      → s.position ≡ p
      → let (o, t) = lease_loop h w key timeout fuel s in ClaimShows o t
  unfolding lease_loop
  lease_loop-ClaimShows key timeout fuel s =
      loop_inv (λ _ t. t.position ≡ p) ClaimShows (lease_round h w key timeout)
        (λ errors t i. ground (arith, lease_round-RoundShows key timeout errors t i)) (λ _ t i. tt)
        fuel 0 s

  persist_loop-PersistShows :
      (key : String) (v : Serialized) (expiry fuel : ℕ) (s : Session E)
      → s.position ≡ p
      → let (o, t) = persist_loop h w key v expiry fuel s in PersistShows o t
  unfolding persist_loop
  persist_loop-PersistShows key v expiry fuel s =
      loop_inv (λ _ t. t.position ≡ p) PersistShows (persist_round h w key v expiry)
        (λ _ t i. ground (arith, persist_round-PersistRoundShows key v expiry t i)) (λ _ t i. tt)
        fuel tt s

  conclude-ResultShows :
      (abort : Option Bool) (r : OnAbort E R) (result : R) (s : Session E)
      → PersistShows (done abort) s
      → let (o, t) = conclude h abort (some r) result s in ResultShows o t
  unfolding conclude
  conclude-ResultShows none r result s i = ground arith
  conclude-ResultShows (some true) r result s i = tt
  conclude-ResultShows (some false) r result s i = i

  perform-ResultShows :
      (fuel : ℕ) (key : String) (task : Task E R) (options : Option (TaskOptions E R))
      (r : OnAbort E R) (before : ℕ) (s : Session E)
      → on_abort_of options ≡ some r
      → s.position ≡ p
      → let (o, t) = perform h w fuel key task options before s in ResultShows o t
  unfolding perform
  perform-ResultShows fuel key task options r before s given i =
      >>=_rule _ (λ _ t. t.position ≡ p) ResultShows (run_task h w task) s
        (run_task-keeps h w task s ∙ i)
        (λ result t j.
          >>=_rule _ (λ _ u. u.position ≡ p) ResultShows (on_env (h.serializer.serialize result)) t
            j
            (λ v u l.
              >>=_rule _ PersistShows ResultShows
                (persist_loop h w key v (before + lease_timeout_of options) fuel) u
                (persist_loop-PersistShows key v (before + lease_timeout_of options) fuel u l)
                (λ abort x m. rw given (conclude-ResultShows abort r result x m)) (λ err x m. tt)
                (λ x m. tt))
            (λ err u l. tt) (λ u l. tt))
        (λ err t j. tt) (λ t j. tt)

  -- If there is an `onAbort`, a call of `execute` returns only where the server has given a stored value or
  -- has taken the result without an abort: what either of the two shows of the world holds at the end.
  pub execute-ResultShows :
      (fuel : ℕ) (key : String) (task : Task E R) (options : Option (TaskOptions E R))
      (r : OnAbort E R) (s : Session E)
      → on_abort_of options ≡ some r
      → s.position ≡ p
      → let (o, t) = execute h w fuel key task options s in ResultShows o t
  unfolding execute
  execute-ResultShows fuel key task options r s given i =
      >>=_rule _ ClaimShows ResultShows (lease_loop h w key (lease_timeout_of options) fuel) s
        (lease_loop-ClaimShows key (lease_timeout_of options) fuel s i)
        (elim [
          | replayed result ↦ λ t j. j
          | held before ↦ λ t j. perform-ResultShows fuel key task options r before t given j
        ])
        (λ err t j. tt) (λ t j. tt)

  pub returned-shows :
      (o : Outcome R) (s : Session E) (result : R) → o ≡ done result → ResultShows o s → K s.env
  returned-shows (done r) s result e i = i
  returned-shows (thrown err) s result e i = absurd (ground arith)
  returned-shows running s result e i = absurd (ground arith)
