-- ===== src/Execute/Histories.antt =====
-- The theorems on the history of one call of `execute`, at runs in the small world.
use idempotent_transformer.Common.{ℕ, ◌≤◌, ◌≡◌, refl, inl, none, some, [], ◌∷◌}
use idempotent_transformer.Async.{Outcome, done}
use idempotent_transformer.Loop.{loop}
use idempotent_transformer.Rpc.{bytes}
use idempotent_transformer.Runner.{Session}
use idempotent_transformer.Trace.{
  Logged, Event, logged, logged_task_options, logged_task, deserialize,
}
use idempotent_transformer.Execute.{execute, lease_loop, lease_round}
use idempotent_transformer.Execute.Sample.{World, host, workflow, seven, short_lease, fresh}
use idempotent_transformer.Execute.Protocol.{phase_of}
use idempotent_transformer.Execute.Protocol.Stages.{Fits}
use idempotent_transformer.Execute.Protocol.Conforms.{execute-Fits}
use idempotent_transformer.Execute.Protocol.Meaning.{HasServed, invocations, Timely}
use idempotent_transformer.Execute.Protocol.Releases.{releases, rejections}
use idempotent_transformer.Execute.Protocol.Promises.{
  execute_at_most_once, execute_served, execute-Timely, execute-releases,
}
use idempotent_transformer.Execute.Requests.{AllOwn, execute-AllOwn}

abbrev run_of_seven : Outcome ℕ × Session (Logged World ℕ)
run_of_seven =
    execute (logged host) workflow 3 "k" (logged_task seven) (logged_task_options short_lease) fresh

execute-Fits_example : Fits run_of_seven.0 (phase_of 0 10 run_of_seven.1.env.log)
execute-Fits_example = execute-Fits host workflow 3 "k" seven short_lease fresh refl

execute_at_most_once_example : invocations run_of_seven.1.env.log ≤ 1
execute_at_most_once_example = execute_at_most_once host workflow 3 "k" seven short_lease fresh refl

-- The runner in a world that has the result 4 for position 0.
abbrev later : Session (Logged World ℕ)
later = record {
  position = 0;
  env = record { env = record { clock = 5; stored = λ p. some ("k", 4 ∷ []) }; log = [] };
}

abbrev run_again : Outcome ℕ × Session (Logged World ℕ)
run_again =
    execute (logged host) workflow 3 "k" (logged_task seven) (logged_task_options short_lease) later

abbrev first_lease : Event ℕ
first_lease =
    Event.lease
      (record {
        workflow_id = "w";
        fencing_token = 1;
        lease_timeout = 10;
        position = 0;
        idempotency_key = "k";
      })
      (done (record { value = some (bytes (4 ∷ [])); remaining_lease_timeout = none }))

run_again-log : run_again.1.env.log ≡ deserialize (bytes (4 ∷ [])) (done 4) ∷ first_lease ∷ []
unfolding execute lease_loop lease_round loop
run_again-log = refl

run_again-HasServed : HasServed 4 run_again.1.env.log
run_again-HasServed = rw run_again-log (inl refl)

execute_served_example : (run_again.0 ≡ done 4) × (invocations run_again.1.env.log ≡ 0)
execute_served_example =
    execute_served host workflow 3 "k" seven short_lease later refl 4 run_again-HasServed

execute-Timely_example : Timely 10 run_of_seven.1.env.log
execute-Timely_example = execute-Timely host workflow 3 "k" seven short_lease fresh refl

execute-releases_example : releases run_of_seven.1.env.log ≡ rejections run_of_seven.1.env.log
execute-releases_example = execute-releases host workflow 3 "k" seven short_lease fresh refl

execute-AllOwn_example : AllOwn workflow 0 "k" 10 run_of_seven.1.env.log
execute-AllOwn_example = execute-AllOwn host workflow 3 "k" seven short_lease fresh refl
