-- ===== src/Execute/Position.antt =====
-- `execute` and the variable `position`.
use idempotent_transformer.Common.{
  ℕ, zero, suc, ◌+◌, String, ◌≡◌, refl, ◌∙◌, Bool, true, false, Option, none, some, or_default,
  arith,
}
use idempotent_transformer.Async.{Outcome, done, thrown, running, Async, ◌>>=◌, >>=_rule}
use idempotent_transformer.Loop.{Round, stop, again, loop_inv}
use idempotent_transformer.Rpc.{Serialized}
use idempotent_transformer.Runner.{OnAbort, TaskOptions, Host, Workflow, Session, on_env}
use idempotent_transformer.Execute.{
  Task, lease_timeout_of, on_abort_of, Claim, replayed, held, lease_round, lease_loop, run_task,
  persist_round, persist_loop, abortion, roll_back, conclude, perform, execute,
}

-- `position` has moved by one exactly where the call returned a value.
abbrev pub Advanced : {A : Type 0} → ℕ → Outcome A → ℕ → Type 0
Advanced p (done a) q = q ≡ p + 1
Advanced p (thrown t) q = q ≡ p
Advanced p running q = q ≡ p

abbrev RoundAt : {R : Type 0} → ℕ → Outcome (Round ℕ (Claim R)) → ℕ → Type 0
RoundAt p (done (stop (replayed r))) q = q ≡ p + 1
RoundAt p (done (stop (held t))) q = q ≡ p
RoundAt p (done (again n)) q = q ≡ p
RoundAt p (thrown t) q = q ≡ p
RoundAt p running q = q ≡ p

abbrev ClaimAt : {R : Type 0} → ℕ → Outcome (Claim R) → ℕ → Type 0
ClaimAt p (done (replayed r)) q = q ≡ p + 1
ClaimAt p (done (held t)) q = q ≡ p
ClaimAt p (thrown t) q = q ≡ p
ClaimAt p running q = q ≡ p

module _ {E R : Type 0} (h : Host E R) (w : Workflow) where
  lease_round-RoundAt :
      (key : String) (timeout errors : ℕ) (s : Session E)
      → let (o, t) = lease_round h w key timeout errors s in RoundAt s.position o t.position
  unfolding lease_round
  lease_round-RoundAt key timeout errors s = ground arith

  lease_loop-ClaimAt :
      (key : String) (timeout fuel : ℕ) (s : Session E)
      → let (o, t) = lease_loop h w key timeout fuel s in ClaimAt s.position o t.position
  unfolding lease_loop
  lease_loop-ClaimAt key timeout fuel s =
      loop_inv (λ _ t. t.position ≡ s.position) (λ o t. ClaimAt s.position o t.position)
        (lease_round h w key timeout)
        (λ errors t i. ground (arith, lease_round-RoundAt key timeout errors t)) (λ _ t i. i) fuel 0
        s refl

  pub run_task-keeps :
      (task : Task E R) (s : Session E) → (run_task h w task s).1.position ≡ s.position
  unfolding run_task
  run_task-keeps task s = ground arith

  persist_round-keeps :
      (key : String) (v : Serialized) (expiry : ℕ) (s : Session E)
      → (persist_round h w key v expiry tt s).1.position ≡ s.position
  unfolding persist_round
  persist_round-keeps key v expiry s = ground arith

  persist_loop-keeps :
      (key : String) (v : Serialized) (expiry fuel : ℕ) (s : Session E)
      → (persist_loop h w key v expiry fuel s).1.position ≡ s.position
  unfolding persist_loop
  persist_loop-keeps key v expiry fuel s =
      loop_inv (λ _ t. t.position ≡ s.position) (λ o t. t.position ≡ s.position)
        (persist_round h w key v expiry)
        (λ _ t i. ground (arith, persist_round-keeps key v expiry t)) (λ _ t i. i) fuel tt s refl

abortion-keeps :
    {E R : Type 0} (h : Host E R) (r : OnAbort E R) (result : R) (s : Session E)
    → (abortion h r result s).1.position ≡ s.position
unfolding abortion
abortion-keeps h r result s = ground arith

roll_back-keeps :
    {E R : Type 0} (h : Host E R) (r : OnAbort E R) (result : R) (left : ℕ) (s : Session E)
    → (roll_back h r result left s).1.position ≡ s.position
unfolding roll_back
roll_back-keeps h r result zero s = refl
roll_back-keeps h r result (suc left) s =
    ground (
      arith,
      abortion-keeps h r result s,
      roll_back-keeps h r result left (abortion h r result s).1,
    )

conclude-Advanced :
    {E R : Type 0} (h : Host E R) (abort : Option Bool) (on_abort : Option (OnAbort E R))
    (result : R) (s : Session E)
    → let (o, t) = conclude h abort on_abort result s in Advanced s.position o t.position
unfolding conclude
conclude-Advanced h (some true) on_abort result s = refl
conclude-Advanced h (some false) on_abort result s = refl
conclude-Advanced h none none result s = refl
conclude-Advanced h none (some r) result s =
    ground (arith, roll_back-keeps h r result (or_default r.retry_count 3) s)

-- A step that leaves `position` alone, with a continuation that moves it as `Advanced` says.
after_keeping :
    {E A B : Type 0} (m : Async (Session E) A) (f : A → Async (Session E) B) (p : ℕ) (s : Session E)
    → (m s).1.position ≡ p
    → ((a : A) (t : Session E) → t.position ≡ p → Advanced p (f a t).0 (f a t).1.position)
    → Advanced p (◌>>=◌ m f s).0 (◌>>=◌ m f s).1.position
after_keeping m f p s kept k =
    >>=_rule f (λ o t. t.position ≡ p) (λ o t. Advanced p o t.position) m s kept k (λ err t i. i)
      (λ t i. i)

module _ {E R : Type 0} (h : Host E R) (w : Workflow) where
  perform-Advanced :
      (fuel : ℕ) (key : String) (task : Task E R) (options : Option (TaskOptions E R)) (before : ℕ)
      (s : Session E)
      → let (o, t) = perform h w fuel key task options before s in Advanced s.position o t.position
  unfolding perform
  perform-Advanced fuel key task options before s =
      after_keeping (run_task h w task) _ s.position s (run_task-keeps h w task s) λ r t i.
        after_keeping (on_env (h.serializer.serialize r)) _ s.position t i λ v u j.
          after_keeping (persist_loop h w key v (before + lease_timeout_of options) fuel) _
            s.position u
            (persist_loop-keeps h w key v (before + lease_timeout_of options) fuel u ∙ j)
            λ abort x k. rw (← k) (conclude-Advanced h abort (on_abort_of options) r x)

  -- A call of `execute` that returns a value moves the runner to the next position, whether the value
  -- came from the server or from the task; a call that throws leaves the position as it was. So does
  -- one that is still looping when its fuel has run out.
  pub execute-Advanced :
      (fuel : ℕ) (key : String) (task : Task E R) (options : Option (TaskOptions E R))
      (s : Session E)
      → let (o, t) = execute h w fuel key task options s in Advanced s.position o t.position
  unfolding execute
  execute-Advanced fuel key task options s =
      >>=_rule _ (λ o t. ClaimAt s.position o t.position) (λ o t. Advanced s.position o t.position)
        (lease_loop h w key (lease_timeout_of options) fuel) s
        (lease_loop-ClaimAt h w key (lease_timeout_of options) fuel s)
        (elim [
          | replayed r ↦ λ t i. i
          | held before ↦ λ t i. rw (← i) (perform-Advanced fuel key task options before t)
        ])
        (λ err t i. i) (λ t i. i)
