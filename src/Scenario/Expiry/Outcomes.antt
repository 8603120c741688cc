-- ===== src/Scenario/Expiry/Outcomes.antt =====
-- How the scenario of the expiry ends, by when the server cleans up.
use idempotent_transformer.Common.{
  ℕ, ◌+◌, ◌-◌, String, ◌≡◌, refl, ◌∙◌, Bool, true, false, Bool-cases, inl, inr, Option, none, some,
  [], arith, ltb, ◌==◌, if◌then◌else◌,
}
use text.Mathlib.TextPositions.{eq_refl}
use idempotent_transformer.Async.{Thrown, done, thrown, pure}
use idempotent_transformer.Rpc.{WorkflowStatusInput}
use idempotent_transformer.Runner.{Workflow, WorkflowOptions}
use idempotent_transformer.Grpc.{Getters}
use idempotent_transformer.Server.{WorkflowRow, named, incremented}
use idempotent_transformer.Server.Workflows.{finished}
use idempotent_transformer.Simulation.{
  Follows, >>=-Follows, >>-Follows, pure-Follows, try_catch-Follows, if-Follows,
}
use idempotent_transformer.Memo.{Spec, memo_start, memo_execute, memo_complete}
use idempotent_transformer.Memo.Journal.{Returns, returned, Journal}
use idempotent_transformer.Memo.Reflects.{Reflects}
use idempotent_transformer.Memo.World.{World, Platform, IsFaithful}
use idempotent_transformer.Memo.Rules.{memo_execute_lem}
use idempotent_transformer.Memo.StartRules.{started_as}
use idempotent_transformer.Scenario.{Transformer, promised, library}
use idempotent_transformer.Scenario.Refinement.{
  Implements, IsFresh, blank, blank-Journal, library-Implements, library_returns, library_throws,
  on_runner-Follows, expect-Follows, wait-Follows, start-Follows, execute-Follows, complete-Follows,
}
use idempotent_transformer.Scenario.Expiry.{
  Upkeep, library_upkeep, promised_upkeep, configure_a_ttl, execute_and_complete, must_not_be_found,
  wait_12000, persist_with_a_ttl,
}
use idempotent_transformer.Scenario.Expiry.Cleanup.{status-Follows, clean_up-Follows}

module _ {S T : Type 0} (Rel : S → T → Type 0) (Mine : String → Type 0)
    (abstract_ : Transformer S String (Unit {0})) (detailed : Transformer T String (Unit {0}))
    (u : Upkeep S) (u' : Upkeep T) (law : Implements Rel Mine abstract_ detailed)
    (status : (w : Workflow) (i : WorkflowStatusInput)
      → Mine i.workflow_id
      → Follows Rel (u.get_workflow_status w i) (u'.get_workflow_status w i))
    (clean : Follows Rel u.clean_up u'.clean_up) (assertion : Thrown) (id task_result : String)
    (owner : Mine id) where
  wait_12000-Follows :
      (ms : ℕ)
      → Follows Rel
          (wait_12000 abstract_ u assertion id task_result ms)
          (wait_12000 detailed u' assertion id task_result ms)
  wait_12000-Follows ms = >>-Follows (wait-Follows law ms) (
      >>-Follows clean (
        if-Follows (ltb 2000 ms) (wait-Follows law (12000 - ms))
          (>>-Follows (wait-Follows law 10000) (>>-Follows clean (wait-Follows law (2000 - ms))))))

  persist-Follows :
      (ms : ℕ)
      → Follows Rel
          (persist_with_a_ttl abstract_ u assertion id task_result ms)
          (persist_with_a_ttl detailed u' assertion id task_result ms)
  unfolding persist_with_a_ttl
  persist-Follows ms =
      search
        (
          start-Follows law,
          on_runner-Follows,
          execute-Follows law,
          complete-Follows law,
          wait_12000-Follows,
          status,
          expect-Follows,
          try_catch-Follows,
          >>=-Follows,
          >>-Follows,
          pure-Follows,
          owner,
        )
        depth 40 fits 5000

-- Whether a clean-up of the wait, of which the first is at a time, comes when the workflow has expired.
abbrev is_gone : ℕ → Bool
is_gone ms = if ltb 2000 ms then ltb 3000 ms else true

module _ (g : Getters) (assertion : Thrown) (id task_result : String) where
  abbrev options : WorkflowOptions
  options = record { completed_retention_time = some 3000; name = some "expiry-test" }

  -- A row of the workflow, at a time.
  abbrev HasRow : ℕ → WorkflowRow → Spec String (Unit {0}) → Type 0
  HasRow n row a = (a.memo.rows id ≡ some row) × (a.memo.now ≡ n)

  start_lem :
      (a : Spec String (Unit {0})) (token : Option ℕ)
      → Journal id token [] false a.memo
      → Returns
          (configure_a_ttl promised (promised_upkeep g) assertion id task_result)
          a
          (started_as token id options)
          (λ b.
            Journal id (some (incremented token 1)) [] false b.memo
            × HasRow a.memo.now (named (a.memo.rows id) (some "expiry-test") a.memo.now) b)
  unfolding memo_start
  start_lem a token j = returned (memo_start id options) a (
    rw (j.current) refl,
    (
      record { current = rw (eq_refl id, j.current) refl; entries = j.entries; lease = j.lease },
      (rw (eq_refl id) refl, refl),
    ),
  )

  complete_lem :
      (a : Spec String (Unit {0})) (token n : ℕ) (row : WorkflowRow)
      → let w : Workflow = record {
        workflow_id = id;
        fencing_token = token;
        completed_retention_time = some 3000;
      } in
        Journal id (some token) [] false a.memo
        → HasRow n row a
        → Returns
            (execute_and_complete promised (promised_upkeep g) assertion id task_result w)
            a
            tt
            (λ b. (b.memo.rows id ≡ finished (some row) n 3000) × (b.memo.now ≡ n))
  unfolding memo_complete memo_execute
  complete_lem a token n row j (there, at) =
      let w : Workflow = record {
        workflow_id = id;
        fencing_token = token;
        completed_retention_time = some 3000;
      } in
      let soon : ltb a.memo.now (a.memo.now + 30000) ≡ true = ground arith in
      let same : (token == token) ≡ true = ground arith in
      let young : ltb token token ≡ false = ground arith in
      let run = memo_execute_lem w "task" (pure task_result) none [] a j in
      returned _ a (
        rw run (
          rw (soon, j.current)
            (rw same (rw j.current (rw young (refl, (rw (eq_refl id, there, at) refl, at)))))))

  must_not_be_found_lem :
      (w : Workflow) (a : Spec String (Unit {0})) (n ms : ℕ) (row : WorkflowRow)
      → a.memo.rows id ≡ finished (some row) n 3000
      → a.memo.now ≡ n
      → (must_not_be_found promised (promised_upkeep g) assertion id task_result w ms a).0
        ≡ (if is_gone ms then done tt else thrown assertion)
  must_not_be_found_lem w a n ms row there at = elim (Bool-cases (ltb 2000 ms)) [
    | inl once ↦
        let same : ltb (n + 3000) (n + ms) ≡ ltb 3000 ms = ground arith in
        rw (there, at, eq_refl id, once)
          (rw (there, same)
            (elim (Bool-cases (ltb 3000 ms)) [ inl late ↦ rw late refl | inr soon ↦ rw soon refl ]))
    | inr twice ↦
        let kept : ltb (n + 3000) (n + ms) ≡ false = ground arith in
        let gone : ltb (n + 3000) (n + ms + 10000) ≡ true = ground arith in
        rw (there, at, eq_refl id, twice) (rw (there, kept) (rw gone refl))
  ]

  outcome_lem :
      (a : Spec String (Unit {0})) (token : Option ℕ) (ms : ℕ)
      → Journal id token [] false a.memo
      → (persist_with_a_ttl promised (promised_upkeep g) assertion id task_result ms a).0
        ≡ (if is_gone ms then done tt else thrown assertion)
  unfolding persist_with_a_ttl
  outcome_lem a token ms j =
      let w = started_as token id options in
      let row = named (a.memo.rows id) (some "expiry-test") a.memo.now in
      let first = start_lem a token j in
      let b = (configure_a_ttl promised (promised_upkeep g) assertion id task_result a).1 in
      let second =
        complete_lem b (incremented token 1) a.memo.now row first.after.0 first.after.1 in
      let c = (execute_and_complete promised (promised_upkeep g) assertion id task_result w b).1 in
      rw first.ended (
        rw second.ended (must_not_be_found_lem w c a.memo.now ms row second.after.0 second.after.1))

-- The scenario of the expiry ends on the library, over the adapter and the server, by the time at which the
-- server first cleans up within the wait, if it has no result and no lease of the workflow at first: it
-- passes, so that the workflow is found before the wait and not after it, but in one case, in which an
-- expectation fails: the clean-up comes more than two and at most three seconds after the completion.
pub persist_with_a_ttl-outcome :
    (f : Platform String (Unit {0})) (assertion : Thrown) (id task_result : String) (ms : ℕ)
    (e : World (Unit {0}))
    → IsFaithful f
    → IsFresh (λ other. other ≡ id) e.database
    → (persist_with_a_ttl (library f) (library_upkeep f) assertion id task_result ms e).0
      ≡ (if is_gone ms then done tt else thrown assertion)
persist_with_a_ttl-outcome f assertion id task_result ms e law fresh =
    let Mine : String → Type 0 = λ other. other ≡ id in
    let a : Spec String (Unit {0}) = record { memo = blank e.database; user = e.user } in
    let promise =
      outcome_lem f.getters assertion id task_result a (e.database.fencing_tokens id) ms
        (blank-Journal e.database id) in
    let sim =
      (persist-Follows (Reflects Mine f.pack) Mine promised (library f) (promised_upkeep f.getters)
        (library_upkeep f) (library-Implements Mine f law) (status-Follows Mine f law)
        (clean_up-Follows Mine f law) assertion id task_result refl ms).simulates in
    let m = persist_with_a_ttl promised (promised_upkeep f.getters) assertion id task_result ms in
    let n = persist_with_a_ttl (library f) (library_upkeep f) assertion id task_result ms in
    elim (Bool-cases (is_gone ms)) [
      | inl late ↦
          rw late (library_returns Mine f.pack m n e tt sim fresh (promise ∙ rw late refl)).0
      | inr soon ↦
          rw soon (library_throws Mine f.pack m n e tt assertion sim fresh (promise ∙ rw soon refl))
    ]
