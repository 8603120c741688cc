-- ===== src/Execute/Rollback.antt =====
-- A result that was not persisted, with `onAbort`: how often its function is tried, and how the call
-- ends.
use idempotent_transformer.Common.{
  ℕ, zero, suc, ◌+◌, ◌≤◌, ◌<◌, ◌≡◌, refl, false, Option, none, some, or_default, List, [], ◌∷◌,
  arith,
}
use idempotent_transformer.Async.{Thrown, Outcome, done, thrown}
use idempotent_transformer.Runner.{OnAbort, Host, Session, rolled_back}
use idempotent_transformer.Trace.{
  Event, undo, Logged, logged, logged_on_abort, recorded_call, recorded_return,
}
use idempotent_transformer.Execute.{abortion, roll_back, conclude}

module _ {R : Type 0} where
  abbrev trying : Event R → ℕ
  trying (undo o) = 1
  trying _ = 0

  -- How often `onAbort.function` has been called.
  abbrev pub tries : List (Event R) → ℕ
  tries [] = 0
  tries (event ∷ log) = trying event + tries log

abbrev pub IsReturn : {A : Type 0} → Outcome A → Type 0
IsReturn (done a) = Unit
IsReturn _ = ⊥

or_default_pos : (o : Option ℕ) → 0 < or_default o 3
or_default_pos none = omega arith
or_default_pos (some zero) = omega arith
or_default_pos (some (suc n)) = omega arith

module _ {E R : Type 0} (h : Host E R) (r : OnAbort E R) (result : R) where
  abortion-tries :
      (s : Session (Logged E R))
      → let m = abortion (logged h) (logged_on_abort r) result s in
        (tries m.1.env.log ≡ tries s.env.log + 1) × (m.1.position ≡ s.position)
  unfolding abortion recorded_call recorded_return
  abortion-tries s = ground arith

  -- Once where the first call goes through, and `left` times at most.
  roll_back-tries :
      (left : ℕ) (s : Session (Logged E R))
      → let m = roll_back (logged h) (logged_on_abort r) result left s in
        (tries s.env.log ≤ tries m.1.env.log)
        × (0 < left → tries s.env.log < tries m.1.env.log)
        × (tries m.1.env.log ≤ tries s.env.log + left)
        × (m.1.position ≡ s.position)
  unfolding roll_back
  roll_back-tries zero s = omega arith
  roll_back-tries (suc left) s = ground (
    arith,
    abortion-tries s,
    roll_back-tries left (abortion (logged h) (logged_on_abort r) result s).1,
  )

  -- A call whose result was not persisted never returns that result if there is an `onAbort`. Its
  -- function is called once at least, and at most `retryCount` times in all, which is 3 where that is
  -- missing or 0. The position stays as it was.
  pub conclude-tries :
      (s : Session (Logged E R))
      → let m = conclude (logged h) none (some (logged_on_abort r)) result s in
        (¬ IsReturn m.0)
        × (tries s.env.log < tries m.1.env.log)
        × (tries m.1.env.log ≤ tries s.env.log + or_default r.retry_count 3)
        × (m.1.position ≡ s.position)
  unfolding conclude
  conclude-tries s =
      ground (arith, roll_back-tries (or_default r.retry_count 3) s, or_default_pos r.retry_count)

  module _ (timers : (k : ℕ) (e : E) → (h.set_timeout k e).0 ≡ done tt) (failure : Thrown)
      (fails : (e : E) → (r.function result e).0 ≡ thrown failure) where
    abortion_fails :
        (s : Session (Logged E R))
        → (abortion (logged h) (logged_on_abort r) result s).0 ≡ done false
    unfolding abortion recorded_call recorded_return
    abortion_fails s = grind (arith, timers, fails)

    roll_back_fails :
        (left : ℕ) (s : Session (Logged E R))
        → let m = roll_back (logged h) (logged_on_abort r) result left s in
          (m.0 ≡ done tt) × (tries m.1.env.log ≡ tries s.env.log + left)
    unfolding roll_back
    roll_back_fails zero s = (refl, omega arith)
    roll_back_fails (suc left) s = ground (
      arith,
      abortion_fails s,
      abortion-tries s,
      roll_back_fails left (abortion (logged h) (logged_on_abort r) result s).1,
    )

    -- Where each try of `onAbort.function` throws at once, it is called `retryCount` times in all, the first
    -- call included, and 3 times where that is missing or 0; and the call still ends with the error that says
    -- that the task was rolled back.
    pub conclude_all_fail :
        (s : Session (Logged E R))
        → let m = conclude (logged h) none (some (logged_on_abort r)) result s in
          (m.0 ≡ thrown rolled_back)
          × (tries m.1.env.log ≡ tries s.env.log + or_default r.retry_count 3)
    unfolding conclude
    conclude_all_fail s = ground (arith, roll_back_fails (or_default r.retry_count 3) s)
