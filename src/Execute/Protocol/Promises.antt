-- ===== src/Execute/Protocol/Promises.antt =====
-- What one call of `execute` promises of its calls, over any host: the protocol's consequences.
use idempotent_transformer.Common.{ℕ, ◌≤◌, String, ◌≡◌, ◌≢◌, refl, Option, [], arith}
use idempotent_transformer.Async.{Outcome, done, thrown, running}
use idempotent_transformer.Runner.{TaskOptions, Host, Workflow, Session}
use idempotent_transformer.Trace.{Logged, logged, logged_task_options, logged_task}
use idempotent_transformer.Execute.{Task, lease_timeout_of, execute}
use idempotent_transformer.Execute.Protocol.{Phase, rejected, violation, phase_of}
use idempotent_transformer.Execute.Protocol.Stages.{Fits}
use idempotent_transformer.Execute.Protocol.Conforms.{execute-Fits, execute-Latest}
use idempotent_transformer.Execute.Protocol.Meaning.{
  invocations, HasServed, invocations-le-one, served_not_called, Timely, phase_of-Timely,
}
use idempotent_transformer.Execute.Protocol.Releases.{
  releases, rejections, pending, releases-pending,
}

Fits-ne-violation : {A : Type 0} (o : Outcome A) {q : Phase} → Fits o q → q ≢ violation
Fits-ne-violation (done a) f e = ground arith
Fits-ne-violation (thrown err) f e = ground arith
Fits-ne-violation running f e = ground arith

Fits-ne-rejected : {A : Type 0} (o : Outcome A) {q : Phase} → Fits o q → q ≢ rejected
Fits-ne-rejected (done a) f e = ground arith
Fits-ne-rejected (thrown err) f e = ground arith
Fits-ne-rejected running f e = ground arith

pending-zero : (q : Phase) → q ≢ rejected → pending q ≡ 0
pending-zero rejected n = absurd (n refl)
pending-zero _ n = refl

module _ {E R : Type 0} (h : Host E R) (w : Workflow) (fuel : ℕ) (key : String) (task : Task E R)
    (options : Option (TaskOptions E R)) (s : Session (Logged E R)) (new : s.env.log ≡ []) where
  abbrev run : Outcome R × Session (Logged E R)
  run = execute (logged h) w fuel key (logged_task task) (logged_task_options options) s

  lawful : phase_of s.position (lease_timeout_of options) run.1.env.log ≢ violation
  lawful = Fits-ne-violation run.0 (execute-Fits h w fuel key task options s new)

  -- One call of `execute` calls its task once at most, however the lease, the task, the serializer
  -- and the checkpoints end.
  pub execute_at_most_once : invocations run.1.env.log ≤ 1
  execute_at_most_once =
      invocations-le-one s.position (lease_timeout_of options) run.1.env.log lawful

  -- If `execute` has got back the result of an earlier run at any time, it returns that result, and has
  -- not called the task at all.
  pub execute_served :
      (r : R) → HasServed r run.1.env.log → (run.0 ≡ done r) × (invocations run.1.env.log ≡ 0)
  execute_served r served_ =
      let (ended, latest, uncalled) =
        served_not_called s.position (lease_timeout_of options) r run.1.env.log lawful served_ in
      (execute-Latest h w fuel key task options s r new ended latest, uncalled)

  -- Each call of `checkpoint` comes right after a reading of the clock that lies before the end of
  -- the lease, as counted by the lease's length from the reading before the task was called.
  pub execute-Timely : Timely (lease_timeout_of options) run.1.env.log
  execute-Timely = phase_of-Timely (lease_timeout_of options) s.position run.1.env.log lawful

  -- `execute` gives its lease back exactly as often as the promise of its task is rejected: so not
  -- after a result, and not where the task throws before it has returned a promise.
  pub execute-releases : releases run.1.env.log ≡ rejections run.1.env.log
  execute-releases = omega (
    arith,
    releases-pending s.position (lease_timeout_of options) run.1.env.log lawful,
    pending-zero _ (Fits-ne-rejected run.0 (execute-Fits h w fuel key task options s new)),
  )
