-- ===== src/Execute/Requests.antt =====
-- What `execute` sends: every call of the server is about the runner's workflow, its fencing token and
-- the position at which the call of `execute` began, with its idempotency key.
use idempotent_transformer.Common.{
  ℕ, zero, suc, ◌+◌, String, ◌≡◌, refl, Bool, true, false, Option, none, some, or_default, List, [],
  ◌∷◌, arith,
}
use idempotent_transformer.Async.{Outcome, done, thrown, running, Async, ◌>>=◌, >>=_rule}
use idempotent_transformer.Loop.{Round, stop, again, loop_inv}
use idempotent_transformer.Rpc.{Serialized}
use idempotent_transformer.Runner.{OnAbort, TaskOptions, Host, Workflow, Session, on_env}
use idempotent_transformer.Trace.{
  Event, lease, release, checkpoint, other, Logged, logged, logged_on_abort, logged_abort,
  logged_task_options, logged_task, recorded_return, recorded_call,
}
use idempotent_transformer.Execute.{
  Task, lease_timeout_of, on_abort_of, Claim, replayed, held, lease_round, lease_loop, run_task,
  persist_round, persist_loop, abortion, roll_back, conclude, perform, execute,
}
use idempotent_transformer.Execute.Options.{timeout-logged, abort-logged}

-- The identity of a request: the workflow, the token (which a release does not carry), the position
-- and the key.
abbrev pub Own : {R : Type 0} → Workflow → ℕ → String → ℕ → Event R → Type 0
Own w p key timeout (lease i o) = i ≡ record {
  workflow_id = w.workflow_id;
  fencing_token = w.fencing_token;
  lease_timeout = timeout;
  position = p;
  idempotency_key = key;
}
Own w p key timeout (checkpoint i o) = i ≡ record {
  workflow_id = w.workflow_id;
  value = i.value;
  fencing_token = w.fencing_token;
  position = p;
  idempotency_key = key;
}
Own w p key timeout (release i) = i ≡ record { workflow_id = w.workflow_id; position = p }
Own w p key timeout other = ⊥
Own w p key timeout _ = Unit

abbrev pub AllOwn : {R : Type 0} → Workflow → ℕ → String → ℕ → List (Event R) → Type 0
AllOwn w p key timeout [] = Unit
AllOwn w p key timeout (event ∷ log) = Own w p key timeout event × AllOwn w p key timeout log

module _ {E R : Type 0} (h : Host E R) (w : Workflow) (key : String) (p timeout : ℕ) where
  record At (s : Session (Logged E R)) : Type 0 where
    position_is : s.position ≡ p
    own : AllOwn w p key timeout s.env.log

  abbrev Kept : {A : Type 0} → Outcome A → Session (Logged E R) → Type 0
  Kept (done a) s = At s
  Kept (thrown err) s = AllOwn w p key timeout s.env.log
  Kept running s = AllOwn w p key timeout s.env.log

  abbrev LeaseRound : Outcome (Round ℕ (Claim R)) → Session (Logged E R) → Type 0
  LeaseRound (done (stop (replayed r))) s = AllOwn w p key timeout s.env.log
  LeaseRound (done (stop (held t))) s = At s
  LeaseRound (done (again n)) s = At s
  LeaseRound (thrown err) s = AllOwn w p key timeout s.env.log
  LeaseRound running s = AllOwn w p key timeout s.env.log

  abbrev Claimed : Outcome (Claim R) → Session (Logged E R) → Type 0
  Claimed (done (replayed r)) s = AllOwn w p key timeout s.env.log
  Claimed (done (held t)) s = At s
  Claimed (thrown err) s = AllOwn w p key timeout s.env.log
  Claimed running s = AllOwn w p key timeout s.env.log

  lease_round-LeaseRound :
      (n : ℕ) (s : Session (Logged E R))
      → At s
      → LeaseRound
          (lease_round (logged h) w key timeout n s).0
          (lease_round (logged h) w key timeout n s).1
  unfolding lease_round
  lease_round-LeaseRound n s i = ground arith

  run_task-Kept :
      (task : Task E R) (s : Session (Logged E R))
      → At s
      → let m = run_task (logged h) w (logged_task task) s in Kept m.0 m.1
  unfolding run_task recorded_call recorded_return
  run_task-Kept task s i = ground arith

  persist_round-Kept :
      (v : Serialized) (expiry : ℕ) (s : Session (Logged E R))
      → At s
      → let m = persist_round (logged h) w key v expiry tt s in Kept m.0 m.1
  unfolding persist_round
  persist_round-Kept v expiry s i = ground arith

  abortion-own :
      (r : OnAbort E R) (result : R) (s : Session (Logged E R))
      → AllOwn w p key timeout s.env.log
      → AllOwn w p key timeout (abortion (logged h) (logged_on_abort r) result s).1.env.log
  unfolding abortion recorded_call recorded_return
  abortion-own r result s i = ground arith

  lease_loop-Claimed :
      (fuel : ℕ) (s : Session (Logged E R))
      → At s
      → let m = lease_loop (logged h) w key timeout fuel s in Claimed m.0 m.1
  unfolding lease_loop
  lease_loop-Claimed fuel s i =
      loop_inv (λ n. At) Claimed (lease_round (logged h) w key timeout)
        (λ n t j. ground (arith, lease_round-LeaseRound n t j)) (λ n t j. j.own) fuel 0 s i

  persist_loop-Kept :
      (v : Serialized) (expiry fuel : ℕ) (s : Session (Logged E R))
      → At s
      → let m = persist_loop (logged h) w key v expiry fuel s in Kept m.0 m.1
  unfolding persist_loop
  persist_loop-Kept v expiry fuel s i =
      loop_inv (λ _. At) Kept (persist_round (logged h) w key v expiry)
        (λ _ t j. ground (arith, persist_round-Kept v expiry t j)) (λ _ t j. j.own) fuel tt s i

  roll_back-own :
      (r : OnAbort E R) (result : R) (left : ℕ) (s : Session (Logged E R))
      → AllOwn w p key timeout s.env.log
      → AllOwn w p key timeout (roll_back (logged h) (logged_on_abort r) result left s).1.env.log
  unfolding roll_back
  roll_back-own r result zero s i = i
  roll_back-own r result (suc left) s i = ground (
    arith,
    abortion-own r result s i,
    roll_back-own r result left (abortion (logged h) (logged_on_abort r) result s).1,
  )

  conclude-own :
      (abort : Option Bool) (r : Option (OnAbort E R)) (result : R) (s : Session (Logged E R))
      → AllOwn w p key timeout s.env.log
      → AllOwn w p key timeout (conclude (logged h) abort (logged_abort r) result s).1.env.log
  unfolding conclude
  conclude-own (some true) r result s i = i
  conclude-own (some false) r result s i = i
  conclude-own none none result s i = i
  conclude-own none (some r) result s i =
      ground (arith, roll_back-own r result (or_default r.retry_count 3) s i)

  record Sent {A : Type 0} (o : Outcome A) (s : Session (Logged E R)) : Type 0 where
    sent : AllOwn w p key timeout s.env.log

  -- A step after which the runner is where it was, with a continuation that sends its own requests.
  after-Kept :
      {A B : Type 0} (m : Async (Session (Logged E R)) A) (f : A → Async (Session (Logged E R)) B)
      (s : Session (Logged E R))
      → Kept (m s).0 (m s).1
      → ((a : A) (t : Session (Logged E R)) → At t → Sent (f a t).0 (f a t).1)
      → Sent (◌>>=◌ m f s).0 (◌>>=◌ m f s).1
  after-Kept m f s kept k =
      >>=_rule f Kept Sent m s kept k (λ err t i. record { sent = i }) (λ t i. record { sent = i })

module _ {E R : Type 0} (h : Host E R) (w : Workflow) (p : ℕ)
    (options : Option (TaskOptions E R)) where
  perform-Sent :
      (fuel : ℕ) (key : String) (task : Task E R) (before : ℕ) (s : Session (Logged E R))
      → At h w key p (lease_timeout_of options) s
      → let m =
          perform (logged h) w fuel key (logged_task task) (logged_task_options options) before s in
        Sent h w key p (lease_timeout_of options) m.0 m.1
  unfolding perform
  perform-Sent fuel key task before s i =
      let timeout = lease_timeout_of options in
      let expiry = before + lease_timeout_of (logged_task_options options) in
      after-Kept h w key p timeout (run_task (logged h) w (logged_task task)) _ s
        (run_task-Kept h w key p timeout task s i)
        λ r t j.
          after-Kept h w key p timeout (on_env ((logged h).serializer.serialize r)) _ t
            (ground arith)
            λ v u k.
              after-Kept h w key p timeout (persist_loop (logged h) w key v expiry fuel) _ u
                (persist_loop-Kept h w key p timeout v expiry fuel u k)
                λ abort x l. record {
                  sent =
                      rw (abort-logged options)
                        (conclude-own h w key p timeout abort (on_abort_of options) r x l.own);
                }

-- Every request of one call of `execute` names the workflow of the runner and the position at which
-- the call began; a lease and a checkpoint name its fencing token and the key of the call as well,
-- and a lease the length that the options ask for. No other remote call is made.
pub execute-AllOwn :
    {E R : Type 0} (h : Host E R) (w : Workflow) (fuel : ℕ) (key : String) (task : Task E R)
    (options : Option (TaskOptions E R)) (s : Session (Logged E R))
    → s.env.log ≡ []
    → AllOwn w s.position key
        (lease_timeout_of options)
        (execute (logged h) w fuel key (logged_task task) (logged_task_options options) s).1.env.log
unfolding execute
execute-AllOwn h w fuel key task options s e =
    let timeout = lease_timeout_of options in
    >>=_rule _ (Claimed h w key s.position timeout)
      (λ o t. AllOwn w s.position key timeout t.env.log)
      (lease_loop (logged h) w key (lease_timeout_of (logged_task_options options)) fuel) s
      (rw (timeout-logged options) (
        lease_loop-Claimed h w key s.position timeout fuel s
          (record { position_is = refl; own = rw e tt })))
      (elim [
        | replayed r ↦ λ t i. i
        | held before ↦ λ t i. (perform-Sent h w s.position options fuel key task before t i).sent
      ])
      (λ err t i. i) (λ t i. i)
