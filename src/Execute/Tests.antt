-- ===== src/Execute/Tests.antt =====
-- Runs of `execute` in the small world.
use idempotent_transformer.Common.{◌≡◌, refl, none, some, [], ◌∷◌}
use idempotent_transformer.Async.{done, thrown}
use idempotent_transformer.Loop.{loop}
use idempotent_transformer.Runner.{rolled_back}
use idempotent_transformer.Execute.{
  execute, lease_loop, lease_round, perform, run_task, persist_loop, persist_round, conclude,
  roll_back, abortion,
}
use idempotent_transformer.Execute.Sample.{
  nothing, host, workflow, seven, rejecting, throwing, slow, failure, short_lease, session,
}

runner : Unit {0}
unfolding execute lease_loop lease_round perform run_task persist_loop persist_round conclude
    roll_back abortion loop
runner = tt

-- The task runs once: its result is stored, and a second run gives it back though its task throws.
run_and_replay :
    let m = execute host workflow 3 "k" seven none (session nothing) in
    (m.0 ≡ done 7)
    × (m.1.env.stored 0 ≡ some ("k", 7 ∷ []))
    × ((execute host workflow 3 "k" throwing none (session m.1.env)).0 ≡ done 7)
unfolding runner
run_and_replay = (refl, refl, refl)

-- A task that outlives its lease: without `onAbort` its result is returned and not stored.
outlived_lease :
    let m = execute host workflow 3 "k" slow none (session nothing) in
    (m.0 ≡ done 9)
    × (m.1.env.stored 0 ≡ none)
    × ((execute host workflow 3 "k" slow short_lease (session nothing)).0 ≡ thrown rolled_back)
    × ((execute host workflow 3 "k" rejecting none (session nothing)).0 ≡ thrown failure)
unfolding runner
outlived_lease = (refl, refl, refl, refl)
