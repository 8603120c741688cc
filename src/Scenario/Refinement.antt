-- ===== src/Scenario/Refinement.antt =====
-- The library is a transformer that implements the promised one, and what programs over the two have in
-- common.
use idempotent_transformer.Common.{
  ℕ, ◌+◌, String, ◌≡◌, refl, ap, ◌∙◌, Bool, true, false, Option, none, List, [], arith,
}
use idempotent_transformer.Async.{Thrown, Outcome, done, thrown, running, Async, ◌>>=◌}
use idempotent_transformer.Runner.{WorkflowOptions, Workflow, Session}
use idempotent_transformer.Simulation.{
  Agrees, Simulates, SessionRel, Follows, >>=-Simulates, pure-Follows, throw-Follows,
}
use idempotent_transformer.Server.{Database}
use idempotent_transformer.Server.Requests.Durability.{content}
use idempotent_transformer.Memo.{Memo, Spec, memo_start}
use idempotent_transformer.Memo.Journal.{Journal}
use idempotent_transformer.Memo.Reflects.{Holds, Reflects}
use idempotent_transformer.Memo.Refines.{
  world_start-Simulates, world_execute-Simulates, world_complete-Simulates,
}
use idempotent_transformer.Memo.World.{World, Platform, IsFaithful}
use idempotent_transformer.Scenario.{
  Transformer, library, promised, read, assign, wait, date_now, on_runner, expect,
}

-- The second transformer does what the first one says, for the workflows of `Mine`.
pub record Implements {S T R V : Type 0} (Rel : S → T → Type 0) (Mine : String → Type 0)
    (abstract_ : Transformer S R V) (detailed : Transformer T R V) : Type 0 where
  pub start_workflow :
      (id : String)
      → Mine id
      → (options : WorkflowOptions)
      → Simulates Rel (abstract_.start_workflow id options) (detailed.start_workflow id options)
  pub names :
      (id : String) (options : WorkflowOptions) (s : S) (w : Workflow)
      → (abstract_.start_workflow id options s).0 ≡ done w
      → w.workflow_id ≡ id
  pub execute :
      (w : Workflow)
      → Mine w.workflow_id
      → (key : String) (m : Async S R) (n : Async T R) (timeout : Option ℕ) → Simulates Rel m n
      → Simulates
          (SessionRel Rel)
          (abstract_.execute w key m timeout)
          (detailed.execute w key n timeout)
  pub complete :
      (w : Workflow)
      → Mine w.workflow_id
      → Simulates Rel (abstract_.complete w) (detailed.complete w)
  pub now : (s : S) (t : T) → Rel s t → detailed.now t ≡ abstract_.now s
  pub after_wait :
      (ms : ℕ) (s : S) (t : T)
      → Rel s t
      → Rel (abstract_.after_wait ms s) (detailed.after_wait ms t)
  pub variables : (s : S) (t : T) → Rel s t → detailed.variables t ≡ abstract_.variables s
  pub with_variables :
      (g : V → V) (s : S) (t : T)
      → Rel s t
      → Rel (abstract_.with_variables g s) (detailed.with_variables g t)

memo_start_names :
    {R U : Type 0} (id : String) (options : WorkflowOptions) (a : Spec R U) (w : Workflow)
    → (memo_start id options a).0 ≡ done w
    → w.workflow_id ≡ id
unfolding memo_start
memo_start_names id options a w e = ground arith

wait-Holds :
    (Mine : String → Type 0) {R : Type 0} (pack : R → List ℕ) (m : Memo R) (d : Database) (ms : ℕ)
    → Holds Mine pack m d
    → Holds Mine pack (record m { now = m.now + ms }) (record d { now = d.now + ms })
wait-Holds Mine pack m d ms holds = record {
  now = ap (λ n. n + ms) holds.now;
  tokens = holds.tokens;
  rows = holds.rows;
  results = holds.results;
  leases = holds.leases;
}

-- The runners of the library, over the adapter, the server and `MessagePack`, implement the promise: every
-- start, execution and completion ends as the promise says where that says how, in tables that are again
-- those of the promise.
pub library-Implements :
    (Mine : String → Type 0) {R V : Type 0} (f : Platform R V)
    → IsFaithful f
    → Implements (Reflects Mine f.pack) Mine promised (library f)
library-Implements Mine f law = record {
  start_workflow = world_start-Simulates Mine f law;
  names = memo_start_names;
  execute = world_execute-Simulates Mine f law;
  complete = world_complete-Simulates Mine f law;
  now = λ a e rel. rel.0.now;
  after_wait = λ ms a e rel. (wait-Holds Mine f.pack a.memo e.database ms rel.0, rel.1);
  variables = λ a e rel. rel.1;
  with_variables = λ g a e rel. (rel.0, ap g rel.1);
}

module _ {S T : Type 0} where
  left-Agrees :
      (Rel : S → T → Type 0) {A : Type 0} (o : Outcome A) (s : Session S) (o' : Outcome A)
      (t : Session T)
      → Agrees (SessionRel Rel) o s o' t
      → Agrees Rel o s.env o' t.env
  left-Agrees Rel running s o' t r = tt
  left-Agrees Rel (done a) s o' t (e, (p, r)) = (e, r)
  left-Agrees Rel (thrown err) s o' t (e, (p, r)) = (e, r)

module _ {S T : Type 0} {Rel : S → T → Type 0} where
  pub on_runner-Follows :
      {A : Type 0} {m : Async (Session S) A} {n : Async (Session T) A}
      → Follows (SessionRel Rel) m n
      → Follows Rel (on_runner m) (on_runner n)
  on_runner-Follows {A} {m} {n} sim = record {
    simulates = λ s t r.
        let s0 : Session S = record { position = 0; env = s } in
        let t0 : Session T = record { position = 0; env = t } in
        left-Agrees Rel (m s0).0 (m s0).1 (n t0).0 (n t0).1 (sim.simulates s0 t0 (refl, r));
  }

  pub expect-Follows :
      (assertion : Thrown) (b : Bool) → Follows Rel (expect assertion b) (expect assertion b)
  expect-Follows assertion true = pure-Follows tt
  expect-Follows assertion false = throw-Follows assertion

  module _ {R V : Type 0} {Mine : String → Type 0} {abstract_ : Transformer S R V}
      {detailed : Transformer T R V} (law : Implements Rel Mine abstract_ detailed) where
    pub read-Follows : {A : Type 0} (g : V → A) → Follows Rel (read abstract_ g) (read detailed g)
    read-Follows g = record { simulates = λ s t r. (ap (λ v. done (g v)) (law.variables s t r), r) }

    pub assign-Follows : (g : V → V) → Follows Rel (assign abstract_ g) (assign detailed g)
    assign-Follows g = record { simulates = λ s t r. (refl, law.with_variables g s t r) }

    pub date_now-Follows : Follows Rel (date_now abstract_) (date_now detailed)
    date_now-Follows = record { simulates = λ s t r. (ap (λ n. done n) (law.now s t r), r) }

    pub wait-Follows : (ms : ℕ) → Follows Rel (wait abstract_ ms) (wait detailed ms)
    wait-Follows ms = record { simulates = λ s t r. (refl, law.after_wait ms s t r) }

    -- What is done with a new runner may use whose it is.
    pub start-Follows :
        {B : Type 0} {f : Workflow → Async S B} {g : Workflow → Async T B} (id : String)
        (options : WorkflowOptions)
        → Mine id
        → ((w : Workflow) → Mine w.workflow_id → Follows Rel (f w) (g w))
        → Follows Rel
            (abstract_.start_workflow id options >>= f)
            (detailed.start_workflow id options >>= g)
    start-Follows {B} {f} {g} id options own sims = record {
      simulates =
          >>=-Simulates Rel (λ w. Mine w.workflow_id) (abstract_.start_workflow id options)
            (detailed.start_workflow id options) f g (λ s w e. rw (law.names id options s w e) own)
            (law.start_workflow id own options) (λ w own'. (sims w own').simulates);
    }

    pub execute-Follows :
        (w : Workflow) (key : String) (timeout : Option ℕ) {m : Async S R} {n : Async T R}
        → Mine w.workflow_id
        → Follows Rel m n
        → Follows
            (SessionRel Rel)
            (abstract_.execute w key m timeout)
            (detailed.execute w key n timeout)
    execute-Follows w key timeout {m} {n} own sim = record {
      simulates = law.execute w own key m n timeout sim.simulates;
    }

    pub complete-Follows :
        (w : Workflow)
        → Mine w.workflow_id
        → Follows Rel (abstract_.complete w) (detailed.complete w)
    complete-Follows w own = record { simulates = law.complete w own }

-- The server has no result and no lease of these workflows.
pub record IsFresh (Mine : String → Type 0) (d : Database) : Type 0 where
  pub checkpoints : (id : String) (p : ℕ) → Mine id → d.checkpoints id p ≡ none
  pub leases : (id : String) (p : ℕ) → Mine id → d.leases id p ≡ none

-- The promised state of such a server.
abbrev pub blank : {R : Type 0} → Database → Memo R
blank d = record {
  now = d.now;
  tokens = d.fencing_tokens;
  rows = d.workflows;
  results = λ id p. none;
  leased = λ id p. false;
}

pub blank-Journal :
    {R : Type 0} (d : Database) (id : String)
    → Journal {R = R} id (d.fencing_tokens id) [] false (blank d)
blank-Journal d id = record { current = refl; entries = λ p. refl; lease = λ p. refl }

blank-Holds :
    (Mine : String → Type 0) {R : Type 0} (pack : R → List ℕ) (d : Database)
    → IsFresh Mine d
    → Holds Mine pack (blank d) d
blank-Holds Mine pack d fresh = record {
  now = refl;
  tokens = λ id own. refl;
  rows = λ id own. refl;
  results = λ id p own. ap content (fresh.checkpoints id p own);
  leases = λ id p own e. fresh.leases id p own;
}

module _ {R V A : Type 0} (Mine : String → Type 0) (pack : R → List ℕ) (m : Async (Spec R V) A)
    (n : Async (World V) A) (e : World V) (a : A) where
  returned-Agrees :
      (o : Outcome A) (s : Spec R V) (o' : Outcome A) (t : World V)
      → Agrees (Reflects Mine pack) o s o' t
      → o ≡ done a
      → (o' ≡ done a) × Reflects Mine pack s t
  returned-Agrees running s o' t r end = cc
  returned-Agrees (done b) s o' t (same, r) end = (same ∙ end, r)
  returned-Agrees (thrown err) s o' t r end = cc

  thrown-Agrees :
      (err : Thrown) (o : Outcome A) (s : Spec R V) (o' : Outcome A) (t : World V)
      → Agrees (Reflects Mine pack) o s o' t
      → o ≡ thrown err
      → o' ≡ thrown err
  thrown-Agrees err running s o' t r end = cc
  thrown-Agrees err (done b) s o' t r end = cc
  thrown-Agrees err (thrown err') s o' t (same, r) end = same ∙ end

  -- What a program throws over the promise, it throws over the library.
  pub library_throws :
      (err : Thrown)
      → Simulates (Reflects Mine pack) m n
      → IsFresh Mine e.database
      → (m (record { memo = blank e.database; user = e.user })).0 ≡ thrown err
      → (n e).0 ≡ thrown err
  library_throws err sim fresh end =
      let s : Spec R V = record { memo = blank e.database; user = e.user } in
      thrown-Agrees err (m s).0 (m s).1 (n e).0 (n e).1
        (sim s e (blank-Holds Mine pack e.database fresh, refl)) end

  -- What a program returns over the promise, it returns over the library.
  pub library_returns :
      Simulates (Reflects Mine pack) m n
      → IsFresh Mine e.database
      → (m (record { memo = blank e.database; user = e.user })).0 ≡ done a
      → ((n e).0 ≡ done a)
        × Reflects Mine pack (m (record { memo = blank e.database; user = e.user })).1 (n e).1
  library_returns sim fresh end =
      let s : Spec R V = record { memo = blank e.database; user = e.user } in
      returned-Agrees (m s).0 (m s).1 (n e).0 (n e).1
        (sim s e (blank-Holds Mine pack e.database fresh, refl)) end
