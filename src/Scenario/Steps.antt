-- ===== src/Scenario/Steps.antt =====
-- Rules for the programs of the scenarios over the promised transformer: what each call of a runner does to
-- the journal of its workflow, in steps that follow each other.
use idempotent_transformer.Common.{
  ℕ, zero, suc, ◌+◌, ◌*◌, ◌<◌, String, ◌≡◌, refl, Bool, true, false, Option, none, some, List, [],
  ◌∷◌, ◌++◌, length, or_default, arith, ltb,
}
use idempotent_transformer.Async.{Thrown, done, thrown, Async, pure, try_catch, ◌>>=◌}
use idempotent_transformer.Runner.{Workflow, WorkflowOptions, Session, on_env}
use idempotent_transformer.Memo.{Spec, memo_start, memo_execute, memo_complete}
use idempotent_transformer.Memo.Journal.{nth, Returns, Throws, returned, threw, Stable, Journal}
use idempotent_transformer.Memo.Rules.{
  memo_execute_replays, memo_execute_fails, memo_execute_stores,
}
use idempotent_transformer.Memo.StartRules.{memo_start_returns, memo_complete_returns, started_as}
use idempotent_transformer.Scenario.{promised, read, assign, on_runner, expect, caught}

lease_time-pos : (timeout : Option ℕ) → 0 < or_default timeout (1000 * 30)
lease_time-pos none = omega arith
lease_time-pos (some zero) = omega arith
lease_time-pos (some (suc n)) = omega arith

module _ {R U : Type 0} where
  -- The journal of a workflow under the token of a runner, and what else is known.
  abbrev pub At : Workflow → List (String × R) → (Spec R U → Type 0) → Spec R U → Type 0
  At w rs P a = Journal w.workflow_id (some w.fencing_token) rs false a.memo × P a

  -- The same in a session, at a position.
  abbrev pub AtPosition :
      ℕ → Workflow → List (String × R) → (Spec R U → Type 0) → Session (Spec R U) → Type 0
  AtPosition p w rs P s = (s.position ≡ p) × At w rs P s.env

  module _ (w : Workflow) (key : String) (task : Async (Spec R U) R) (timeout : Option ℕ) where
    pub replay_step :
        (p : ℕ) (rs : List (String × R)) (P : Spec R U → Type 0) (r : R) (s : Session (Spec R U))
        → nth rs p ≡ some (key, r)
        → AtPosition p w rs P s
        → Returns (memo_execute w key task timeout) s r (AtPosition (suc p) w rs P)
    replay_step p rs P r s there (at, (j, known)) = returned (memo_execute w key task timeout) s (
        rw (memo_execute_replays w key task timeout rs s false r j (rw at there))
          (refl, (ground arith, (j, known))))

    module _ (rs : List (String × R)) (P Q : Spec R U → Type 0) (stable : Stable w.workflow_id P)
        (kept : Stable w.workflow_id Q) where
      store-At :
          (r : R) (p : ℕ) (a : Spec R U)
          → p ≡ length rs
          → ((b : Spec R U)
              → Journal w.workflow_id (some w.fencing_token) rs true b.memo
              → P b
              → Returns task b r (λ c.
                Journal w.workflow_id (some w.fencing_token) rs true c.memo
                × (Q c × (c.memo.now < b.memo.now + or_default timeout (1000 * 30)))))
          → At w rs P a
          → Returns
              (memo_execute w key task timeout)
              (record { position = p; env = a })
              r
              (AtPosition (suc (length rs)) w (rs ++ (key, r) ∷ []) Q)
      store-At r p a at run (j, known) =
          rw at (memo_execute_stores w key task timeout rs P Q stable kept a j known r run)

      -- A task that only changes the variables of the program is run, and its result stored.
      pub store_step :
          (r : R) (g : U → U) (s : Session (Spec R U))
          → ((b : Spec R U)
              → P b
              → (task b ≡ (done r, record b { user = g b.user }))
                × Q (record b { user = g b.user }))
          → AtPosition (length rs) w rs P s
          → Returns
              (memo_execute w key task timeout)
              s
              r
              (AtPosition (suc (length rs)) w (rs ++ (key, r) ∷ []) Q)
      store_step r g s run (at, known) =
          store-At r s.position s.env at
            (λ b j p.
              let (e, q) = run b p in
              let soon = lease_time-pos timeout in
              returned task b (rw e (refl, (j, (q, ground arith)))))
            known

      -- The same for a task of any kind, that ends before its lease does.
      pub store_task_step :
          (r : R) (s : Session (Spec R U))
          → ((b : Spec R U)
              → Journal w.workflow_id (some w.fencing_token) rs true b.memo
              → P b
              → Returns task b r (λ c.
                Journal w.workflow_id (some w.fencing_token) rs true c.memo
                × (Q c × (c.memo.now < b.memo.now + or_default timeout (1000 * 30)))))
          → AtPosition (length rs) w rs P s
          → Returns
              (memo_execute w key task timeout)
              s
              r
              (AtPosition (suc (length rs)) w (rs ++ (key, r) ∷ []) Q)
      store_task_step r s run (at, known) = store-At r s.position s.env at run known

      -- A task that also takes some time, less than its lease.
      pub store_after_step :
          (r : R) (g : U → U) (ms : ℕ) (s : Session (Spec R U))
          → ms < or_default timeout (1000 * 30)
          → ((b : Spec R U)
              → P b
              → let c : Spec R U = record {
                memo = record b.memo { now = b.memo.now + ms };
                user = g b.user;
              } in
                (task b ≡ (done r, c)) × Q c)
          → AtPosition (length rs) w rs P s
          → Returns
              (memo_execute w key task timeout)
              s
              r
              (AtPosition (suc (length rs)) w (rs ++ (key, r) ∷ []) Q)
      store_after_step r g ms s soon run (at, known) =
          store-At r s.position s.env at
            (λ b j p.
              let (e, q) = run b p in
              returned task b (
                rw e (
                  refl,
                  (
                    record { current = j.current; entries = j.entries; lease = j.lease },
                    (q, ground arith),
                  ),
                )))
            known

      fail-At :
          (err : Thrown) (p : ℕ) (a : Spec R U)
          → p ≡ length rs
          → ((b : Spec R U)
              → Journal w.workflow_id (some w.fencing_token) rs true b.memo
              → P b
              → Throws task b err
                  (λ c. Journal w.workflow_id (some w.fencing_token) rs true c.memo × Q c))
          → At w rs P a
          → Throws
              (memo_execute w key task timeout)
              (record { position = p; env = a })
              err
              (AtPosition (length rs) w rs Q)
      fail-At err p a at run (j, known) =
          rw at (memo_execute_fails w key task timeout rs P Q stable kept a j known err run)

      pub fail_task_step :
          (err : Thrown) (s : Session (Spec R U))
          → ((b : Spec R U)
              → Journal w.workflow_id (some w.fencing_token) rs true b.memo
              → P b
              → Throws task b err
                  (λ c. Journal w.workflow_id (some w.fencing_token) rs true c.memo × Q c))
          → AtPosition (length rs) w rs P s
          → Throws (memo_execute w key task timeout) s err (AtPosition (length rs) w rs Q)
      fail_task_step err s run (at, known) = fail-At err s.position s.env at run known

      pub fail_step :
          (err : Thrown) (g : U → U) (s : Session (Spec R U))
          → ((b : Spec R U)
              → P b
              → (task b ≡ (thrown err, record b { user = g b.user }))
                × Q (record b { user = g b.user }))
          → AtPosition (length rs) w rs P s
          → Throws (memo_execute w key task timeout) s err (AtPosition (length rs) w rs Q)
      fail_step err g s run (at, known) =
          fail-At err s.position s.env at
            (λ b j p. let (e, q) = run b p in threw task b (rw e (refl, (j, q)))) known

  module _ (P : Spec R U → Type 0) where
    -- A runner that is new stands at the start of the journal.
    pub start_step :
        (id : String) (options : WorkflowOptions) (token : Option ℕ) (rs : List (String × R))
        (a : Spec R U)
        → Stable id P
        → Journal id token rs false a.memo × P a
        → Returns
            (memo_start id options)
            a
            (started_as token id options)
            (At (started_as token id options) rs P)
    start_step id options token rs a stable (j, known) =
        memo_start_returns P token rs false a id options stable j known

    pub on_runner_step :
        {A : Type 0} {m : Async (Session (Spec R U)) A} {r : A} {a : Spec R U} (w : Workflow)
        (rs rs' : List (String × R)) (p : ℕ) (Q : Spec R U → Type 0)
        → At w rs P a
        → ((s : Session (Spec R U)) → AtPosition 0 w rs P s → Returns m s r (AtPosition p w rs' Q))
        → Returns (on_runner m) a r (At w rs' Q)
    on_runner_step {A} {m} {r} {a} w rs rs' p Q known run =
        let ended = run (record { position = 0; env = a }) (refl, known) in
        returned (on_runner m) a (ended.ended, ended.after.1)

    pub expect_step :
        (assertion : Thrown) (b : Bool) (a : Spec R U)
        → b ≡ true
        → P a
        → Returns (expect assertion b) a tt P
    expect_step assertion b a holds known = returned (expect assertion b) a (rw holds (refl, known))

    -- An expectation on the variables of the program.
    pub expect_variables_step :
        {A : Type 0} (assertion : Thrown) (g : U → A) (test : A → Bool) (a : Spec R U)
        → test (g a.user) ≡ true
        → P a
        → Returns (read promised g >>= λ v. expect assertion (test v)) a tt P
    expect_variables_step assertion g test a holds known =
        returned (read promised g >>= λ v. expect assertion (test v)) a (rw holds (refl, known))

    pub assign_step :
        (g : U → U) (Q : Spec R U → Type 0) (a : Spec R U)
        → Q (record a { user = g a.user })
        → Returns (assign promised g) a tt Q
    assign_step g Q a known = returned (assign promised g) a (refl, known)

    pub assign_at_step :
        (g : U → U) (Q : Spec R U → Type 0) (w : Workflow) (p : ℕ) (rs : List (String × R))
        (s : Session (Spec R U))
        → ((a : Spec R U) → P a → Q (record a { user = g a.user }))
        → AtPosition p w rs P s
        → Returns (on_env (assign promised g)) s tt (AtPosition p w rs Q)
    assign_at_step g Q w p rs s change (at, (j, known)) =
        returned (on_env (assign promised g)) s (refl, (at, (j, change s.env known)))

    -- The holder of the latest token completes its workflow.
    pub complete_step :
        (w : Workflow) (p : ℕ) (rs : List (String × R)) (s : Session (Spec R U))
        → Stable w.workflow_id P
        → AtPosition p w rs P s
        → Returns (on_env (memo_complete w)) s tt (AtPosition p w rs P)
    complete_step w p rs s stable (at, (j, known)) =
        let young : ltb w.fencing_token w.fencing_token ≡ false = ground arith in
        let ended =
          memo_complete_returns P (some w.fencing_token) rs false s.env w w.fencing_token stable
            refl young j known in
        returned (on_env (memo_complete w)) s (ended.ended, (at, ended.after))

    pub on_runner_fails :
        {A : Type 0} {m : Async (Session (Spec R U)) A} {err : Thrown} {a : Spec R U} (w : Workflow)
        (rs rs' : List (String × R)) (p : ℕ) (Q : Spec R U → Type 0)
        → At w rs P a
        → ((s : Session (Spec R U)) → AtPosition 0 w rs P s → Throws m s err (AtPosition p w rs' Q))
        → Throws (on_runner m) a err (At w rs' Q)
    on_runner_fails {A} {m} {err} {a} w rs rs' p Q known run =
        let ended = run (record { position = 0; env = a }) (refl, known) in
        threw (on_runner m) a (ended.ended, ended.after.1)

    pub caught_step :
        {m : Async (Spec R U) (Unit {0})} {err : Thrown} {a : Spec R U}
        → Throws m a err P
        → Returns (caught m) a (some err) P
    caught_step {m} {err} {a} run = returned (caught m) a (rw run.ended (refl, run.after))

pub pure_step : {S A : Type 0} {P : S → Type 0} (a : A) (s : S) → P s → Returns (pure a) s a P
pure_step a s known = returned (pure a) s (refl, known)

-- A `try` whose body returns.
pub try_step :
    {S A : Type 0} {m : Async S A} {s : S} {a : A} {P : S → Type 0} (f : Thrown → Async S A)
    → Returns m s a P
    → Returns (try_catch m f) s a P
try_step {S} {A} {m} {s} f run = returned (try_catch m f) s (rw run.ended (refl, run.after))
