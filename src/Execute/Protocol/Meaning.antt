-- ===== src/Execute/Protocol/Meaning.antt =====
-- What a history that follows the protocol shows, said without the automaton: how often the task was
-- called, and when its result was checkpointed.
use idempotent_transformer.Common.{
  ℕ, ◌+◌, ◌≤◌, ◌<◌, ◌≡◌, ◌≢◌, refl, ◌⊎◌, inl, inr, Option, none, some, Bool-cases, ltb, ltb→lt,
  List, [], ◌∷◌, arith,
}
use idempotent_transformer.Async.{done, thrown}
use idempotent_transformer.Rpc.{Serialized}
use idempotent_transformer.Trace.{Event, checkpoint, deserialize, serialize, clock, invoke, settle}
use idempotent_transformer.Execute.Protocol.{
  Phase, asking, received, granted, busy, failing, holding, started, computed, persisting, in_time,
  served, violation, step, phase_of,
}

module _ {R : Type 0} where
  abbrev calls : Event R → ℕ
  calls (invoke o) = 1
  calls _ = 0

  -- How often the task has been called.
  abbrev pub invocations : List (Event R) → ℕ
  invocations [] = 0
  invocations (event ∷ log) = calls event + invocations log

  -- A call that gives back a stored result.
  abbrev pub Serves : R → Event R → Type 0
  Serves r (deserialize v (done r')) = r' ≡ r
  Serves r _ = ⊥

  -- The latest call gave back this result.
  abbrev pub Latest : R → List (Event R) → Type 0
  Latest r [] = ⊥
  Latest r (event ∷ log) = Serves r event

  -- Some call gave back this result.
  abbrev pub HasServed : R → List (Event R) → Type 0
  HasServed r [] = ⊥
  HasServed r (event ∷ log) = Serves r event ⊎ HasServed r log

-- The most calls of the task before a phase.
abbrev bound : Phase → ℕ
bound (asking n) = 0
bound (received n) = 0
bound (granted n) = 0
bound (busy n t) = 0
bound (failing n err) = 0
bound (holding x) = 0
bound served = 0
bound _ = 1

bound-le-one : (q : Phase) → bound q ≤ 1
bound-le-one (asking n) = omega arith
bound-le-one _ = omega arith

module _ {R : Type 0} (position timeout : ℕ) where
  step-bound :
      (q : Phase) (event : Event R)
      → step position timeout q event ≢ violation
      → calls event + bound q ≤ bound (step position timeout q event)
  unfolding step
  step-bound (asking n) event h = ground arith
  step-bound (received n) event h = ground arith
  step-bound _ event h = ground arith

  pub step_violation : (event : Event R) → step position timeout violation event ≡ violation
  unfolding step
  step_violation event = ground arith

  invocations-le-bound :
      (log : List (Event R))
      → phase_of position timeout log ≢ violation
      → invocations log ≤ bound (phase_of position timeout log)
  invocations-le-bound [] h = omega arith
  invocations-le-bound (event ∷ log) h = ground (
    arith,
    step-bound (phase_of position timeout log) event h,
    step_violation event,
    invocations-le-bound log,
  )

  step-deserialize :
      (q : Phase) (v : Serialized) (r : R)
      → step position timeout q (deserialize v (done r)) ≢ violation
      → step position timeout q (deserialize v (done r)) ≡ served
  unfolding step
  step-deserialize (received n) v r h = refl
  step-deserialize (asking n) v r h = ground arith
  step-deserialize _ v r h = ground arith

  -- A history within the protocol calls the task once at most.
  pub invocations-le-one :
      (log : List (Event R)) → phase_of position timeout log ≢ violation → invocations log ≤ 1
  invocations-le-one log h =
      omega (arith, bound-le-one (phase_of position timeout log), invocations-le-bound log h)

  step_served : (event : Event R) → step position timeout served event ≡ violation
  unfolding step
  step_served event = ground arith

  step-Serves :
      (q : Phase) (r : R) (event : Event R)
      → step position timeout q event ≢ violation
      → Serves r event
      → step position timeout q event ≡ served
  step-Serves q r (deserialize v (done r')) h same = step-deserialize q v r' h
  step-Serves q r _ h same = absurd same

  -- Once a result of an earlier run was given back, no further call is within the protocol.
  served_last :
      (r : R) (log : List (Event R))
      → phase_of position timeout log ≢ violation
      → HasServed r log
      → (phase_of position timeout log ≡ served) × Latest r log
  served_last r [] h none_yet = absurd none_yet
  served_last r (event ∷ log) h (inl now) =
      (step-Serves (phase_of position timeout log) r event h now, now)
  served_last r (event ∷ log) h (inr earlier) =
      let lawful : phase_of position timeout log ≢ violation =
        λ e. h (rw e (step_violation event)) in
      let (ended, _) = served_last r log lawful earlier in absurd (h (rw ended (step_served event)))

  pub served_not_called :
      (r : R) (log : List (Event R))
      → phase_of position timeout log ≢ violation
      → HasServed r log
      → (phase_of position timeout log ≡ served) × Latest r log × (invocations log ≡ 0)
  served_not_called r log h served_ =
      let (ended, latest) = served_last r log h served_ in
      (ended, latest, ground (arith, invocations-le-bound log h))

module _ {R : Type 0} where
  -- The latest call, if that read the clock.
  abbrev pub reading : List (Event R) → Option ℕ
  reading (clock (done t) ∷ log) = some t
  reading _ = none

  -- The reading of the clock that stands right before the call of the task: `beforeExecution`.
  abbrev pub held_at : List (Event R) → Option ℕ
  held_at [] = none
  held_at (invoke o ∷ log) = reading log
  held_at (_ ∷ log) = held_at log

module _ {R : Type 0} (timeout : ℕ) where
  abbrev pub TimelyAt : Event R → List (Event R) → Type 0
  TimelyAt (checkpoint i o) log =
      (now t : ℕ) × (reading log ≡ some now) × (held_at log ≡ some t) × (now < t + timeout)
  TimelyAt _ log = Unit

  -- Right before each call of `checkpoint` the clock was read, and it stood before the end of the
  -- lease as counted from the reading before the task was called.
  abbrev pub Timely : List (Event R) → Type 0
  Timely [] = Unit
  Timely (event ∷ log) = TimelyAt event log × Timely log

  abbrev Known : Phase → List (Event R) → Type 0
  Known (holding x) log = (t : ℕ) × (reading log ≡ some t) × (x ≡ t + timeout)
  Known (started x) log = (t : ℕ) × (held_at log ≡ some t) × (x ≡ t + timeout)
  Known (computed x) log = (t : ℕ) × (held_at log ≡ some t) × (x ≡ t + timeout)
  Known (persisting x) log = (t : ℕ) × (held_at log ≡ some t) × (x ≡ t + timeout)
  Known (in_time x) log =
      (now t : ℕ) × (reading log ≡ some now)
      × (held_at log ≡ some t)
      × (x ≡ t + timeout)
      × (now < x)
  Known _ log = Unit

  module _ (position : ℕ) where
    step-Known :
        (q : Phase) (event : Event R) (log : List (Event R))
        → Known q log
        → step position timeout q event ≢ violation
        → Known (step position timeout q event) (event ∷ log) × TimelyAt event log
    unfolding step
    step-Known (asking n) event log k h = ground arith
    step-Known (received n) event log k h = ground arith
    step-Known (granted n) (clock (done now)) log k h = ((now, refl, refl), tt)
    step-Known (holding x) (invoke (done _)) log k h = (k, tt)
    step-Known (started x) (serialize r (done v)) log k h = (k, tt)
    step-Known (started x) (settle (done _)) log k h = (k, tt)
    step-Known (computed x) (serialize r (done v)) log k h = (k, tt)
    step-Known (in_time x) (checkpoint i (thrown err)) log k h =
        ((k.1, k.3, k.4), (k.0, k.1, k.2, k.3, rw k.4 at k.5))
    step-Known (persisting x) (clock (done now)) log k h = elim (Bool-cases (ltb now x)) [
      | inl early ↦ rw early ((now, k.0, refl, k.1, k.2, ltb→lt now x early), tt)
      | inr late ↦ rw late (tt, tt)
    ]
    step-Known _ event log k h = ground arith

    phase_of-Known :
        (log : List (Event R))
        → phase_of position timeout log ≢ violation
        → Known (phase_of position timeout log) log × Timely log
    phase_of-Known [] h = (tt, tt)
    phase_of-Known (event ∷ log) h =
        let earlier = phase_of-Known log (λ e. h (rw e (step_violation position timeout event))) in
        let now = step-Known (phase_of position timeout log) event log earlier.0 h in
        (now.0, (now.1, earlier.1))

    pub phase_of-Timely :
        (log : List (Event R)) → phase_of position timeout log ≢ violation → Timely log
    phase_of-Timely log h = (phase_of-Known log h).1
