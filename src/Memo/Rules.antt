-- ===== src/Memo/Rules.antt =====
-- How an execution changes the journal of its workflow, as rules for programs over the promise.
use idempotent_transformer.Common.{
  ℕ, suc, ◌+◌, ◌*◌, ◌<◌, String, ◌≡◌, refl, ◌∙◌, Bool, true, false, Option, some, List, [], ◌∷◌,
  ◌++◌, length, ltb, ◌==◌, or_default, arith,
}
use text.Mathlib.TextPositions.{eq_refl}
use idempotent_transformer.Async.{Thrown, done, Async, ◌>>=◌, ◌>>◌, pure}
use idempotent_transformer.Runner.{Workflow, Session, next_position, on_env}
use idempotent_transformer.Server.{with_cell}
use idempotent_transformer.Memo.{Spec, first_of, memo_execute, memo_perform}
use idempotent_transformer.Memo.Journal.{
  nth, nth-length, Returns, Throws, returned, threw, Elsewhere, Stable, Journal, busy-Journal,
  stored-Journal,
}

module _ {S A : Type 0} {m : Async S A} {s : S} {P Q : S → Type 0}
    (imply : (t : S) → P t → Q t) where
  pub returns_as : {a : A} → Returns m s a P → Returns m s a Q
  returns_as run = record { ended = run.ended; after = imply (m s).1 run.after }

  pub throws_as : {err : Thrown} → Throws m s err P → Throws m s err Q
  throws_as run = record { ended = run.ended; after = imply (m s).1 run.after }

module _ {S A B : Type 0} {m : Async S A} {s : S} where
  pub >>-Returns :
      {k : Async S B} {a : A} {b : B} {Mid After : S → Type 0}
      → Returns m s a Mid
      → ((t : S) → Mid t → Returns k t b After)
      → Returns (m >> k) s b After
  >>-Returns {k} run next =
      let rest = next (m s).1 run.after in
      returned (m >> k) s (rw run.ended (rest.ended, rest.after))

  pub >>-Throws :
      {k : Async S B} {a : A} {err : Thrown} {Mid After : S → Type 0}
      → Returns m s a Mid
      → ((t : S) → Mid t → Throws k t err After)
      → Throws (m >> k) s err After
  >>-Throws {k} run next =
      let rest = next (m s).1 run.after in threw (m >> k) s (rw run.ended (rest.ended, rest.after))

module _ {S A B : Type 0} {m : Async S A} (f : A → Async S B) {s : S} where
  pub >>=-Returns :
      {a : A} {b : B} {Mid After : S → Type 0}
      → Returns m s a Mid
      → ((t : S) → Mid t → Returns (f a) t b After)
      → Returns (m >>= f) s b After
  >>=-Returns run next =
      let rest = next (m s).1 run.after in
      returned (m >>= f) s (rw run.ended (rest.ended, rest.after))

  pub >>=-Throws :
      {a : A} {err : Thrown} {Mid After : S → Type 0}
      → Returns m s a Mid
      → ((t : S) → Mid t → Throws (f a) t err After)
      → Throws (m >>= f) s err After
  >>=-Throws run next =
      let rest = next (m s).1 run.after in threw (m >>= f) s (rw run.ended (rest.ended, rest.after))

  pub throws->>= :
      {err : Thrown} {After : S → Type 0} → Throws m s err After → Throws (m >>= f) s err After
  throws->>= run = threw (m >>= f) s (rw run.ended (refl, run.after))

module _ {R U : Type 0} (w : Workflow) (key : String) (task : Async (Spec R U) R)
    (timeout : Option ℕ) (rs : List (String × R)) where
  -- A result that is in the journal is given back, and the task is not run.
  pub memo_execute_replays :
      (s : Session (Spec R U)) (busy : Bool) (r : R)
      → Journal w.workflow_id (some w.fencing_token) rs busy s.env.memo
      → nth rs s.position ≡ some (key, r)
      → memo_execute w key task timeout s ≡ (done r, record s { position = s.position + 1 })
  unfolding memo_execute
  memo_execute_replays s busy r j there = rw (j.entries s.position ∙ there) (rw (eq_refl key) refl)

  -- The states in which a task starts.
  abbrev begun : Spec R U → Spec R U
  begun a = record a {
    memo = record a.memo { leased = with_cell a.memo.leased w.workflow_id (length rs) true };
  }

  abbrev pub lease_time : ℕ
  lease_time = or_default timeout (1000 * 30)

  abbrev at_end : Spec R U → Session (Spec R U)
  at_end a = record { position = length rs; env = a }

  -- At the end of the journal the task is run.
  pub memo_execute_lem :
      (a : Spec R U)
      → Journal w.workflow_id (some w.fencing_token) rs false a.memo
      → memo_execute w key task timeout (at_end a)
        ≡ (on_env (memo_perform w key task lease_time (length rs)) >>= λ r. next_position >> pure r)
            (at_end a)
  unfolding memo_execute
  memo_execute_lem a j =
      let old : ltb w.fencing_token w.fencing_token ≡ false = ground arith in
      let same : (w.fencing_token == w.fencing_token) ≡ true = ground arith in
      rw (j.entries (length rs) ∙ nth-length rs, j.lease (length rs))
        (rw j.current (rw (old, same) refl))

  module _ (Before After : Spec R U → Type 0) (stable : Stable w.workflow_id Before)
      (kept : Stable w.workflow_id After) (a : Spec R U)
      (j : Journal w.workflow_id (some w.fencing_token) rs false a.memo) (before : Before a) where
    begun-Elsewhere : Elsewhere w.workflow_id a.memo (begun a).memo
    begun-Elsewhere = record {
      now = refl;
      tokens = λ other e. refl;
      results = λ other p e. refl;
      leased = λ other p e. ground arith;
    }

    released-Elsewhere :
        (b : Spec R U)
        → Elsewhere w.workflow_id b.memo
            (record b.memo { leased = with_cell b.memo.leased w.workflow_id (length rs) false })
    released-Elsewhere b = record {
      now = refl;
      tokens = λ other e. refl;
      results = λ other p e. refl;
      leased = λ other p e. ground arith;
    }

    stored-Elsewhere :
        (b : Spec R U) (r : R)
        → Elsewhere w.workflow_id b.memo (record b.memo {
          results =
              with_cell b.memo.results w.workflow_id
                (length rs)
                (first_of (b.memo.results w.workflow_id (length rs)) (key, r));
          leased = with_cell b.memo.leased w.workflow_id (length rs) false;
        })
    stored-Elsewhere b r = record {
      now = refl;
      tokens = λ other e. refl;
      results = λ other p e. ground arith;
      leased = λ other p e. ground arith;
    }

    -- What a rule asks of the task: in a state with its lease it ends in such a state.
    begun-Journal : Journal w.workflow_id (some w.fencing_token) rs true (begun a).memo
    begun-Journal = busy-Journal w.workflow_id (some w.fencing_token) rs a.memo false j true

    begun_lem : Before (begun a)
    begun_lem = stable a (begun a).memo begun-Elsewhere before

    pub memo_execute_fails :
        (err : Thrown)
        → ((b : Spec R U)
            → Journal w.workflow_id (some w.fencing_token) rs true b.memo
            → Before b
            → Throws task b err
                (λ c. Journal w.workflow_id (some w.fencing_token) rs true c.memo × After c))
        → Throws (memo_execute w key task timeout) (at_end a) err (λ t.
          (t.position ≡ length rs)
          × (Journal w.workflow_id (some w.fencing_token) rs false t.env.memo × After t.env))
    memo_execute_fails err run =
        let record { ended = threw_err; after = (j', after) } =
          run (begun a) begun-Journal begun_lem in
        let b = (task (begun a)).1 in
        threw (memo_execute w key task timeout) (at_end a) (
          rw (memo_execute_lem a j) (
            rw threw_err (
              refl,
              (
                refl,
                (
                  busy-Journal w.workflow_id (some w.fencing_token) rs b.memo true j' false,
                  kept b _ (released-Elsewhere b) after,
                ),
              ),
            )))

    pub memo_execute_stores :
        (r : R)
        → ((b : Spec R U)
            → Journal w.workflow_id (some w.fencing_token) rs true b.memo
            → Before b
            → Returns task b r (λ c.
              Journal w.workflow_id (some w.fencing_token) rs true c.memo
              × (After c × (c.memo.now < b.memo.now + lease_time))))
        → Returns (memo_execute w key task timeout) (at_end a) r (λ t.
          (t.position ≡ suc (length rs))
          × (Journal w.workflow_id (some w.fencing_token) (rs ++ (key, r) ∷ []) false t.env.memo
              × After t.env))
    memo_execute_stores r run =
        let record { ended = ended_r; after = (j', (after, early)) } =
          run (begun a) begun-Journal begun_lem in
        let b = (task (begun a)).1 in
        let soon : ltb b.memo.now (a.memo.now + lease_time) ≡ true = ground arith in
        let same : (w.fencing_token == w.fencing_token) ≡ true = ground arith in
        returned (memo_execute w key task timeout) (at_end a) (
          rw (memo_execute_lem a j) (
            rw ended_r (
              rw (soon, j'.current)
                (rw same (
                  refl,
                  (
                    ground arith,
                    (
                      stored-Journal w.workflow_id (some w.fencing_token) rs b.memo key r j',
                      kept b _ (stored-Elsewhere b r) after,
                    ),
                  ),
                )))))
