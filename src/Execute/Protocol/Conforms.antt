-- ===== src/Execute/Protocol/Conforms.antt =====
-- `execute` follows its protocol, over any host.
use idempotent_transformer.Common.{
  ℕ, ◌+◌, String, ◌≡◌, refl, sym, ap, ◌∙◌, Option, List, [], ◌∷◌, arith,
}
use idempotent_transformer.Async.{Thrown, done, thrown, ◌>>=◌, >>=_rule}
use idempotent_transformer.Rpc.{Serialized}
use idempotent_transformer.Runner.{TaskOptions, Host, Workflow, Session, on_env}
use idempotent_transformer.Trace.{
  Event, deserialize, Logged, logged, logged_task_options, logged_task,
}
use idempotent_transformer.Execute.{
  Task, lease_timeout_of, on_abort_of, replayed, held, lease_loop, run_task, persist_loop, conclude,
  perform, execute,
}
use idempotent_transformer.Execute.Options.{timeout-logged, abort-logged}
use idempotent_transformer.Execute.Protocol.{Phase, holding, persisting, served, phase_of}
use idempotent_transformer.Execute.Protocol.Meaning.{Latest}
use idempotent_transformer.Execute.Protocol.Stages.{
  Fits, Ended, Ended-Fits, Ended-≢, phase, InPhase, Claimed, lease_loop-Claimed, Ran, run_task-Ran,
  Serialised, serialize-Serialised, Persisted, persist_loop-Persisted, conclude-Ended,
}

module _ {E R : Type 0} (h : Host E R) (w : Workflow) (p : ℕ)
    (options : Option (TaskOptions E R)) where
  abbrev phase' : Session (Logged E R) → Phase
  phase' s = phase h w p (lease_timeout_of options) s

  persist-Ended :
      (key : String) (v : Serialized) (expiry fuel : ℕ) (result : R) (s : Session (Logged E R))
      → InPhase h w p (lease_timeout_of options) (persisting expiry) s
      → let m =
          (persist_loop (logged h) w key v expiry fuel >>= λ abort.
          conclude (logged h) abort (on_abort_of (logged_task_options options)) result)
            s in
        Ended m.0 (phase' m.1)
  persist-Ended key v expiry fuel result s i =
      >>=_rule _ (Persisted h w p (lease_timeout_of options)) (λ o t. Ended o (phase' t))
        (persist_loop (logged h) w key v expiry fuel) s
        (persist_loop-Persisted h w p (lease_timeout_of options) key v expiry fuel s i)
        (λ abort t j.
          rw (abort-logged options) (
            conclude-Ended h w p (lease_timeout_of options) abort (on_abort_of options) result t j))
        (λ err t j. ground arith) (λ t j. j)

  perform-Ended :
      (fuel : ℕ) (key : String) (task : Task E R) (before : ℕ) (s : Session (Logged E R))
      → InPhase h w p (lease_timeout_of options) (holding (before + lease_timeout_of options)) s
      → let m =
          perform (logged h) w fuel key (logged_task task) (logged_task_options options) before s in
        Ended m.0 (phase' m.1)
  unfolding perform
  perform-Ended fuel key task before s i =
      >>=_rule _ (Ran h w p (lease_timeout_of options) (before + lease_timeout_of options))
        (λ o t. Ended o (phase' t)) (run_task (logged h) w (logged_task task)) s
        (run_task-Ran h w p (lease_timeout_of options) task _ s i)
        (λ r t j.
          >>=_rule _
            (Serialised h w p (lease_timeout_of options) (before + lease_timeout_of options))
            (λ o u. Ended o (phase' u)) (on_env ((logged h).serializer.serialize r)) t
            (serialize-Serialised h w p (lease_timeout_of options) r _ t j)
            (λ v u k. rw (timeout-logged options) (persist-Ended key v _ fuel r u k))
            (λ err u k. ground arith) (λ u k. ground arith))
        (λ err t j. ground arith) (λ t j. j)

Latest-unique : {R : Type 0} (a b : R) (log : List (Event R)) → Latest a log → Latest b log → a ≡ b
Latest-unique a b (deserialize v (done r) ∷ log) x y = sym x ∙ y
Latest-unique a b [] x y = absurd x
Latest-unique a b (_ ∷ log) x y = absurd x

Fits-served : (A : Type 0) (err : Thrown) → Fits {A = A} (thrown err) served → ⊥
Fits-served A err f = f

-- One call of `execute`, over a host that writes its calls down and with nothing written yet, makes
-- its calls in the order and under the conditions of the protocol, and stands at its end in a phase
-- that fits how it ended.
pub execute-Fits :
    {E R : Type 0} (h : Host E R) (w : Workflow) (fuel : ℕ) (key : String) (task : Task E R)
    (options : Option (TaskOptions E R)) (s : Session (Logged E R))
    → s.env.log ≡ []
    → let (o, t) =
        execute (logged h) w fuel key (logged_task task) (logged_task_options options) s in
      Fits o (phase_of s.position (lease_timeout_of options) t.env.log)
unfolding execute
execute-Fits h w fuel key task options s e =
    >>=_rule _ (Claimed h w s.position (lease_timeout_of options))
      (λ o t. Fits o (phase h w s.position (lease_timeout_of options) t))
      (lease_loop (logged h) w key (lease_timeout_of (logged_task_options options)) fuel) s
      (rw (timeout-logged options) (
        lease_loop-Claimed h w s.position (lease_timeout_of options) key fuel s
          (record { phase_is = rw e refl; position_is = refl })))
      (elim [
        | replayed r ↦ λ t i. ground arith
        | held before ↦
            λ t i. Ended-Fits _ _ (perform-Ended h w s.position options fuel key task before t i)
      ])
      (λ err t i. i) (λ t i. i)

-- The same for the result: if the latest call gave back a stored one, that is returned.
pub execute-Latest :
    {E R : Type 0} (h : Host E R) (w : Workflow) (fuel : ℕ) (key : String) (task : Task E R)
    (options : Option (TaskOptions E R)) (s : Session (Logged E R)) (r : R)
    → s.env.log ≡ []
    → let (o, t) =
        execute (logged h) w fuel key (logged_task task) (logged_task_options options) s in
      phase_of s.position (lease_timeout_of options) t.env.log ≡ served
      → Latest r t.env.log
      → o ≡ done r
unfolding execute
execute-Latest {E} {R} h w fuel key task options s r e =
    >>=_rule _ (Claimed h w s.position (lease_timeout_of options))
      (λ o t.
        phase h w s.position (lease_timeout_of options) t ≡ served
        → Latest r t.env.log
        → o ≡ done r)
      (lease_loop (logged h) w key (lease_timeout_of (logged_task_options options)) fuel) s
      (rw (timeout-logged options) (
        lease_loop-Claimed h w s.position (lease_timeout_of options) key fuel s
          (record { phase_is = rw e refl; position_is = refl })))
      (elim [
        | replayed r' ↦
            λ t (at, latest) _ latest'. ap done (Latest-unique r' r t.env.log latest latest')
        | held before ↦ λ t i at _.
            absurd (Ended-≢ _ (perform-Ended h w s.position options fuel key task before t i) at)
      ])
      (λ err t i at _. absurd (Fits-served R err (rw at at i))) (λ t i at _. absurd (rw at at i))
