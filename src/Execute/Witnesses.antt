-- ===== src/Execute/Witnesses.antt =====
-- The theorems on `execute`, at runs in the small world.
use idempotent_transformer.Common.{
  ℕ, String, ◌<◌, ◌≤◌, ◌≡◌, refl, Option, none, some, ◌==◌, if◌then◌else◌, List, [], ◌∷◌, arith,
}
use text.Mathlib.TextPositions.{eq_refl}
use idempotent_transformer.Async.{done, thrown}
use idempotent_transformer.Loop.{loop}
use idempotent_transformer.Rpc.{StartWorkflowOutput, bytes}
use idempotent_transformer.Runner.{
  Workflow, on_env, start_workflow, complete, settled, is_not_found, object, rolled_back,
}
use idempotent_transformer.Runner.Requests.{KeptFor, complete-start_workflow}
use idempotent_transformer.Trace.{logged, logged_on_abort}
use idempotent_transformer.Execute.{execute, lease_loop, held, lease_round, run_task, conclude}
use idempotent_transformer.Execute.Sample.{
  World, nothing, code_error, decode, lease_of, host, forgetful, workflow, seven, rejecting,
  throwing, slow, failure, undoing, session, fresh,
}
use idempotent_transformer.Execute.Position.{Advanced, execute-Advanced}
use idempotent_transformer.Execute.Replay.{HitReply, Durable, Call, run_calls, run_calls-Recorded}
use idempotent_transformer.Execute.Failures.{
  execute_lease_fails, execute_task_throws, execute_task_rejects, execute_late,
}
use idempotent_transformer.Execute.Rollback.{tries, IsReturn, conclude-tries, conclude_all_fail}

abbrev sixty : Workflow
sixty = record { workflow_id = "w"; fencing_token = 1; completed_retention_time = some 60000 }

execute-Advanced_example :
    let m = execute host workflow 3 "k" seven none (session nothing) in Advanced 0 m.0 m.1.position
execute-Advanced_example = execute-Advanced host workflow 3 "k" seven none (session nothing)

lease_of-hit :
    (o : Option (String × List ℕ)) (key : String) (v : List ℕ)
    → o ≡ some (key, v)
    → HitReply (bytes v) (lease_of o key)
lease_of-hit o key v e = rw e (rw (eq_refl key) refl)

abbrev host-Durable : Durable host
host-Durable = record {
  stored = λ e id p. e.stored p;
  decode = decode;
  hit = λ i e v f. lease_of-hit (e.stored i.position) i.idempotency_key v f;
  lease_keeps = λ i e id p. refl;
  decodes = λ v e. refl;
  decode_keeps = λ v e id p. refl;
}

abbrev calls : List (Call World ℕ)
calls =
    record { key = "a"; task = throwing; options = none }
    ∷ record { key = "b"; task = rejecting; options = none }
    ∷ []

abbrev recorded : World
recorded = record {
  clock = 5;
  stored = λ p. if p == 0 then some ("a", 4 ∷ []) else some ("b", 6 ∷ []);
}

run_calls-Recorded_example :
    let m = run_calls host host-Durable workflow 3 calls (session recorded) in
    (m.0 ≡ done (4 ∷ 6 ∷ []))
    × (m.1.position ≡ 2)
    × ((id : String) (q : ℕ) → m.1.env.stored q ≡ recorded.stored q)
run_calls-Recorded_example =
    run_calls-Recorded host host-Durable workflow 2 calls (4 ∷ 6 ∷ []) (session recorded)
      ((4 ∷ [], refl, refl), ((6 ∷ [], refl, refl), tt))

execute_lease_fails_example :
    execute forgetful workflow 3 "k" seven none (session nothing)
    ≡ (thrown (code_error "fencing_token_not_found"), session (record nothing { clock = 1 }))
unfolding is_not_found
execute_lease_fails_example =
    execute_lease_fails forgetful workflow "k" none 1 0 seven nothing nothing
      (record nothing { clock = 1 }) (record nothing { clock = 1 })
      (code_error "fencing_token_not_found") (code_error "fencing_token_not_found") refl refl refl

leased_first :
    lease_loop host workflow "k" 30000 3 (session nothing) ≡ (done (held 0), session nothing)
unfolding lease_loop lease_round loop
leased_first = refl

execute_task_throws_example :
    execute host workflow 3 "k" throwing none (session nothing) ≡ (thrown failure, session nothing)
execute_task_throws_example =
    execute_task_throws host workflow "k" none 2 throwing (session nothing) 0 0 nothing leased_first
      failure nothing refl

execute_task_rejects_example :
    execute host workflow 3 "k" rejecting none (session nothing) ≡ (thrown failure, session nothing)
unfolding settled
execute_task_rejects_example =
    execute_task_rejects host workflow "k" none 2 rejecting (session nothing) 0 0 nothing
      leased_first failure (object (some (λ e'. (thrown failure, e'))) 0) (done tt) nothing nothing
      nothing refl refl refl

abbrev later : World
later = record nothing { clock = 60000 }

slow_ran : run_task host workflow slow (session nothing) ≡ (done 9, session later)
unfolding run_task
slow_ran = refl

execute_late_example :
    execute host workflow 3 "k" slow none (session nothing)
    ≡ (done 9, record { position = 1; env = later })
execute_late_example =
    execute_late host workflow "k" none 2 slow (session nothing) 0 0 nothing leased_first 9 0 later
      later later (bytes (9 ∷ [])) 60000 slow_ran refl refl (omega arith) refl

conclude-tries_example :
    let m = conclude (logged host) none (some (logged_on_abort undoing)) 9 fresh in
    (¬ IsReturn m.0) × (0 < tries m.1.env.log) × (tries m.1.env.log ≤ 2) × (m.1.position ≡ 0)
conclude-tries_example = conclude-tries host undoing 9 fresh

conclude_all_fail_example :
    let m = conclude (logged host) none (some (logged_on_abort undoing)) 9 fresh in
    (m.0 ≡ thrown rolled_back) × (tries m.1.env.log ≡ 2)
conclude_all_fail_example = conclude_all_fail host undoing 9 (λ k e. refl) failure (λ e. refl) fresh

complete-start_workflow_example :
    (◌≡◌ {A = ℕ} 0 0)
    × (out : StartWorkflowOutput) × (host.rpc_adapter.start_workflow
          (record { workflow_id = "w"; name = none })
          nothing
        ≡ (done out, nothing))
    × (n : ℕ) × KeptFor (some 60000) n
    × (0 < n)
    × (complete host sixty (session nothing)
        ≡ on_env
            (host.rpc_adapter.complete_workflow
              (record { workflow_id = "w"; fencing_token = out.fencing_token; expire_after = n }))
            (session nothing))
unfolding start_workflow
complete-start_workflow_example =
    complete-start_workflow host "w" (record { completed_retention_time = some 60000; name = none })
      nothing sixty (session nothing) refl
