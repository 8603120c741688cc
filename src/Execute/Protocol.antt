-- ===== src/Execute/Protocol.antt =====
-- The protocol of one call of `execute`: an automaton that reads the history of its calls. It says in
-- which order the lease, the task, the serializer and the checkpoint are called, and under which
-- condition each.
pub mod Stages
pub mod Conforms
pub mod Meaning
pub mod Releases
pub mod Promises
use idempotent_transformer.Common.{
  ℕ, zero, suc, ◌+◌, ◌*◌, Bool, true, false, ◌&&◌, Option, none, some, List, [], ◌∷◌, ltb, ◌==◌,
  if◌then◌else◌, truthy_number,
}
use idempotent_transformer.Async.{Thrown, Outcome, done, thrown, running}
use idempotent_transformer.Rpc.{Serialized}
use idempotent_transformer.Runner.{is_not_found}
use idempotent_transformer.Trace.{
  Event, lease, release, checkpoint, deserialize, serialize, clock, wait, invoke, settle, undo,
  undone, other,
}
use idempotent_transformer.Execute.{truthy_value}

-- The first numbers of the phases up to `failing` count the errors that were retried; that of
-- `holding` and what follows it is the time at which the lease expires.
pub data Phase : Type 0 where
  asking received granted : ℕ → Phase
  busy : (errors tenths : ℕ) → Phase
  failing : ℕ → Thrown → Phase
  holding started computed persisting in_time : ℕ → Phase
  rejected served expired undoing : Phase
  persisted : Bool → Phase
  gave_up hung violation : Phase

-- The phase after a reply that has the value, or the wait, or neither.
abbrev pub reply : ℕ → Option Serialized → Option ℕ → Phase
reply errors (some v) remaining = received errors
reply errors none (some tenths) = busy errors tenths
reply errors none none = granted errors

module _ {R : Type 0} (position timeout : ℕ) where
  -- The phase after one more call, for a runner at `position` whose leases last for `timeout`.
  pub step : Phase → Event R → Phase
  step (asking n) (lease i (done out)) =
      reply n (truthy_value out.value) (truthy_number out.remaining_lease_timeout)
  step (asking n) (lease i (thrown err)) = failing n err
  step (asking n) (lease i running) = hung
  step (received n) (deserialize v (done r)) = served
  step (received n) (deserialize v (thrown err)) = failing n err
  step (received n) (deserialize v running) = hung
  step (busy n tenths) (wait t (done _)) = if t == tenths then asking n else violation
  step (busy n tenths) (wait t (thrown err)) = failing n err
  step (busy n tenths) (wait t running) = hung
  step (granted n) (clock (done now)) = holding (now + timeout)
  step (granted n) (clock (thrown err)) = failing n err
  step (granted n) (clock running) = hung
  step (failing n err) (wait t o) =
      if is_not_found err && (position == 0 && ltb n 1)
      then elim o [ done _ ↦ asking (n + 1) | thrown _ ↦ gave_up | running ↦ hung ]
      else violation
  step (holding expiry) (invoke (done _)) = started expiry
  step (holding expiry) (invoke (thrown err)) = gave_up
  step (holding expiry) (invoke running) = hung
  step (started expiry) (settle (done _)) = computed expiry
  step (started expiry) (settle (thrown err)) = rejected
  step (started expiry) (settle running) = hung
  step (started expiry) (serialize r (done v)) = persisting expiry
  step (started expiry) (serialize r (thrown err)) = gave_up
  step (started expiry) (serialize r running) = hung
  step (computed expiry) (serialize r (done v)) = persisting expiry
  step (computed expiry) (serialize r (thrown err)) = gave_up
  step (computed expiry) (serialize r running) = hung
  step rejected (release i) = gave_up
  step (persisting expiry) (clock (done now)) = if ltb now expiry then in_time expiry else expired
  step (persisting expiry) (clock (thrown err)) = gave_up
  step (persisting expiry) (clock running) = hung
  step (in_time expiry) (checkpoint i (done out)) = persisted out.abort
  step (in_time expiry) (checkpoint i (thrown err)) = persisting expiry
  step (in_time expiry) (checkpoint i running) = hung
  step expired (undo o) = undoing
  step undoing (undo o) = undoing
  step undoing (undone o) = undoing
  step undoing (wait t o) = undoing
  step _ _ = violation

  abbrev pub phase_of : List (Event R) → Phase
  phase_of [] = asking 0
  phase_of (event ∷ log) = step (phase_of log) event
