-- ===== src/Execute/Protocol/Stages.antt =====
-- The parts of `execute` and its protocol: how each takes the automaton from phase to phase.
use idempotent_transformer.Common.{
  ℕ, zero, suc, ◌+◌, String, ◌≡◌, ◌≢◌, ◌⊎◌, Bool, true, false, Option, none, some, or_default,
  arith,
}
use idempotent_transformer.Async.{Outcome, done, thrown, running}
use idempotent_transformer.Loop.{Round, stop, again, loop_inv}
use idempotent_transformer.Rpc.{Serialized}
use idempotent_transformer.Runner.{OnAbort, Host, Workflow, Session, on_env}
use idempotent_transformer.Trace.{
  Logged, logged, logged_on_abort, logged_abort, logged_task, recorded_return, recorded_call,
}
use idempotent_transformer.Execute.{
  Task, Claim, replayed, held, lease_round, lease_loop, run_task, persist_round, persist_loop,
  abortion, roll_back, conclude,
}
use idempotent_transformer.Execute.Protocol.{
  Phase, asking, failing, holding, started, computed, persisting, served, expired, undoing,
  persisted, gave_up, hung, step, phase_of,
}
use idempotent_transformer.Execute.Protocol.Meaning.{Latest}

-- The phases in which a call may end, by how it ends. Where the fuel of a loop runs out, the next
-- round stands before its first call.
abbrev pub Fits : {A : Type 0} → Outcome A → Phase → Type 0
Fits (done a) served = Unit
Fits (done a) (persisted false) = Unit
Fits (done a) expired = Unit
Fits (thrown err) (failing n err') = err' ≡ err
Fits (thrown err) gave_up = Unit
Fits (thrown err) (persisted true) = Unit
Fits (thrown err) expired = Unit
Fits (thrown err) undoing = Unit
Fits running hung = Unit
Fits running gave_up = Unit
Fits running undoing = Unit
Fits running (asking n) = Unit
Fits running (persisting expiry) = Unit
Fits _ _ = ⊥

-- The same for a call that has its lease: it gives back no stored result.
abbrev pub Ended : {A : Type 0} → Outcome A → Phase → Type 0
Ended (done a) (persisted false) = Unit
Ended (done a) expired = Unit
Ended (thrown err) gave_up = Unit
Ended (thrown err) (persisted true) = Unit
Ended (thrown err) expired = Unit
Ended (thrown err) undoing = Unit
Ended running hung = Unit
Ended running gave_up = Unit
Ended running undoing = Unit
Ended running (asking n) = Unit
Ended running (persisting expiry) = Unit
Ended _ _ = ⊥

pub Ended-Fits : {A : Type 0} (o : Outcome A) (q : Phase) → Ended o q → Fits o q
Ended-Fits (done a) q e = ground arith
Ended-Fits (thrown err) q e = ground arith
Ended-Fits running q e = ground arith

pub Ended-≢ : {A : Type 0} (o : Outcome A) {q : Phase} → Ended o q → q ≢ served
Ended-≢ (done a) e same = ground arith
Ended-≢ (thrown err) e same = ground arith
Ended-≢ running e same = ground arith

module _ {E R : Type 0} (h : Host E R) (w : Workflow) (p timeout : ℕ) where
  abbrev pub phase : Session (Logged E R) → Phase
  phase s = phase_of p timeout s.env.log

  pub record InPhase (q : Phase) (s : Session (Logged E R)) : Type 0 where
    pub phase_is : phase s ≡ q
    pub position_is : s.position ≡ p

  abbrev pub LeaseRound : Outcome (Round ℕ (Claim R)) → Session (Logged E R) → Type 0
  LeaseRound (done (stop (replayed r))) s = (phase s ≡ served) × Latest r s.env.log
  LeaseRound (done (stop (held t))) s = InPhase (holding (t + timeout)) s
  LeaseRound (done (again n)) s = InPhase (asking n) s
  LeaseRound (thrown err) s = Fits {A = R} (thrown err) (phase s)
  LeaseRound running s = Fits {A = R} running (phase s)

  lease_round-LeaseRound :
      (key : String) (n : ℕ) (s : Session (Logged E R))
      → InPhase (asking n) s
      → LeaseRound
          (lease_round (logged h) w key timeout n s).0
          (lease_round (logged h) w key timeout n s).1
  unfolding lease_round step
  lease_round-LeaseRound key n s i = ground arith

  abbrev pub Claimed : Outcome (Claim R) → Session (Logged E R) → Type 0
  Claimed (done (replayed r)) s = (phase s ≡ served) × Latest r s.env.log
  Claimed (done (held t)) s = InPhase (holding (t + timeout)) s
  Claimed (thrown err) s = Fits {A = R} (thrown err) (phase s)
  Claimed running s = Fits {A = R} running (phase s)

  pub lease_loop-Claimed :
      (key : String) (fuel : ℕ) (s : Session (Logged E R))
      → InPhase (asking 0) s
      → Claimed
          (lease_loop (logged h) w key timeout fuel s).0
          (lease_loop (logged h) w key timeout fuel s).1
  unfolding lease_loop
  lease_loop-Claimed key fuel s i =
      loop_inv (λ n. InPhase (asking n)) Claimed (lease_round (logged h) w key timeout)
        (λ n t j. ground (arith, lease_round-LeaseRound key n t j)) (λ n t j. ground arith) fuel 0 s
        i

  abbrev pub Ran : ℕ → Outcome R → Session (Logged E R) → Type 0
  Ran expiry (done r) s =
      (s.position ≡ p) × ((phase s ≡ started expiry) ⊎ (phase s ≡ computed expiry))
  Ran expiry (thrown err) s = phase s ≡ gave_up
  Ran expiry running s = Fits {A = R} running (phase s)

  pub run_task-Ran :
      (task : Task E R) (expiry : ℕ) (s : Session (Logged E R))
      → InPhase (holding expiry) s
      → let m = run_task (logged h) w (logged_task task) s in Ran expiry m.0 m.1
  unfolding run_task step recorded_call recorded_return
  run_task-Ran task expiry s i = ground arith

  abbrev pub Serialised : ℕ → Outcome Serialized → Session (Logged E R) → Type 0
  Serialised expiry (done v) s = InPhase (persisting expiry) s
  Serialised expiry (thrown err) s = phase s ≡ gave_up
  Serialised expiry running s = phase s ≡ hung

  pub serialize-Serialised :
      (r : R) (expiry : ℕ) (s : Session (Logged E R))
      → Ran expiry (done r) s
      → let m = on_env ((logged h).serializer.serialize r) s in Serialised expiry m.0 m.1
  unfolding step
  serialize-Serialised r expiry s i = ground arith

  abbrev pub Persisted : Outcome (Option Bool) → Session (Logged E R) → Type 0
  Persisted (done none) s = InPhase expired s
  Persisted (done (some abort)) s = InPhase (persisted abort) s
  Persisted (thrown err) s = phase s ≡ gave_up
  Persisted running s = Fits {A = R} running (phase s)

  abbrev PersistRound : ℕ → Outcome (Round (Unit {0}) (Option Bool)) → Session (Logged E R) → Type 0
  PersistRound expiry (done (stop abort)) s = Persisted (done abort) s
  PersistRound expiry (done (again _)) s = InPhase (persisting expiry) s
  PersistRound expiry (thrown err) s = phase s ≡ gave_up
  PersistRound expiry running s = Fits {A = R} running (phase s)

  persist_round-PersistRound :
      (key : String) (v : Serialized) (expiry : ℕ) (s : Session (Logged E R))
      → InPhase (persisting expiry) s
      → let m = persist_round (logged h) w key v expiry tt s in PersistRound expiry m.0 m.1
  unfolding persist_round step
  persist_round-PersistRound key v expiry s i = ground arith

  pub persist_loop-Persisted :
      (key : String) (v : Serialized) (expiry fuel : ℕ) (s : Session (Logged E R))
      → InPhase (persisting expiry) s
      → let m = persist_loop (logged h) w key v expiry fuel s in Persisted m.0 m.1
  unfolding persist_loop
  persist_loop-Persisted key v expiry fuel s i =
      loop_inv (λ _. InPhase (persisting expiry)) Persisted
        (persist_round (logged h) w key v expiry)
        (λ _ t j. ground (arith, persist_round-PersistRound key v expiry t j))
        (λ _ t j. ground arith) fuel tt s i

  -- `undoing`, or `expired` before the first try.
  abbrev pub Undoing : Session (Logged E R) → Type 0
  Undoing s = (phase s ≡ expired) ⊎ (phase s ≡ undoing)

  abortion-Undoing :
      (r : OnAbort E R) (result : R) (s : Session (Logged E R))
      → Undoing s
      → phase (abortion (logged h) (logged_on_abort r) result s).1 ≡ undoing
  unfolding abortion step recorded_call recorded_return
  abortion-Undoing r result s i = ground arith

  pub roll_back-Undoing :
      (r : OnAbort E R) (result : R) (left : ℕ) (s : Session (Logged E R))
      → Undoing s
      → let m = roll_back (logged h) (logged_on_abort r) result left s in
        Undoing m.1 × (running ≡ m.0 → phase m.1 ≡ undoing)
  unfolding roll_back
  roll_back-Undoing r result zero s i = (i, λ e. cc)
  roll_back-Undoing r result (suc left) s i = ground (
    arith,
    abortion-Undoing r result s i,
    roll_back-Undoing r result left (abortion (logged h) (logged_on_abort r) result s).1,
  )

  pub conclude-Ended :
      (abort : Option Bool) (r : Option (OnAbort E R)) (result : R) (s : Session (Logged E R))
      → Persisted (done abort) s
      → let m = conclude (logged h) abort (logged_abort r) result s in Ended m.0 (phase m.1)
  unfolding conclude
  conclude-Ended (some true) r result s i = ground arith
  conclude-Ended (some false) r result s i = ground arith
  conclude-Ended none none result s i = ground arith
  conclude-Ended none (some r) result s i =
      ground (arith, roll_back-Undoing r result (or_default r.retry_count 3) s)
