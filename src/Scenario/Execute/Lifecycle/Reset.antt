-- ===== src/Scenario/Execute/Lifecycle/Reset.antt =====
-- The transition of `_reset_run`, and what starting a run does to the table of runs.
use ot_engineering_demonstra.Base.{
  String, ℕ, none, List, [], ◌∷◌, ok, >>=-eq-ok, ok-injective, inr, ◌≡◌, refl, sym, ap, ◌∙◌,
}
use ot_engineering_demonstra.Domain.{reset_run}
use ot_engineering_demonstra.Domain.Config.{LoadedConfiguration}
use ot_engineering_demonstra.Telemetry.{TelemetryPoint}
use ot_engineering_demonstra.Scenario.{
  RunContext, ScenarioCommandRequest, CommandResult, OperationalEvent,
}
use ot_engineering_demonstra.Scenario.Store.{
  Store, insert_run, put_telemetry, insert_derived_snapshots, insert_events,
}
use ot_engineering_demonstra.Scenario.Store.Runs.{insert_derived_snapshots-runs, insert_events-runs}
use ot_engineering_demonstra.Scenario.Store.Found.{IsStoredRun, same_runs-found, insert_run-found}
use ot_engineering_demonstra.Scenario.Events.{events_from_specs, initial_specs}
use ot_engineering_demonstra.Scenario.Derive.{derive}
use ot_engineering_demonstra.Scenario.Snapshot.{Coordinator, State, assemble_snapshot}
use ot_engineering_demonstra.Scenario.Execute.{
  new_run, normal_telemetry, put_all, close_run, start_run, reset_run_command,
}
use ot_engineering_demonstra.Scenario.Execute.Lifecycle.{restarted, Answered, accepted-Answered}

pub put_all-runs : (s : Store) (id : ℕ) (ps : List TelemetryPoint) → (put_all s id ps).runs ≡ s.runs
unfolding put_all put_telemetry
put_all-runs s id [] = refl
put_all-runs s id (p ∷ ps) = put_all-runs (put_telemetry s id p) id ps

module _ (K : Coordinator) where
  start_run-found :
      (s t : State) (loaded : LoadedConfiguration) (run : RunContext) (command_id : ℕ)
      (actor : String) (events : List OperationalEvent)
      → start_run K s loaded run command_id actor ≡ ok (events, t)
      → IsStoredRun t.store run
  unfolding start_run
  start_run-found s t loaded run command_id actor events h =
      let (s1, e1, h1) = >>=-eq-ok (insert_run s.store run) _ h in
      let s2 = put_all s1 run.scenario_run_id (normal_telemetry loaded run) in
      let (derived, e2, h2) =
        >>=-eq-ok (derive K.libraries loaded run (normal_telemetry loaded run) none) _ h1 in
      let (s3, e3, h3) =
        >>=-eq-ok (insert_derived_snapshots s2 run.scenario_run_id 0 derived.0 derived.1) _ h2 in
      let new = events_from_specs K.uuids s3 run command_id actor s.drawn (initial_specs run) in
      let (s4, e4, h4) = >>=-eq-ok (insert_events s3 new) _ h3 in
      let same : t.store.runs ≡ s1.runs =
        ap (λ p. p.1.store.runs) (sym (ok-injective h4))
        ∙ insert_events-runs s3 s4 new e4
        ∙ insert_derived_snapshots-runs s2 s3 run.scenario_run_id 0 derived.0 derived.1 e3
        ∙ put_all-runs s1 run.scenario_run_id (normal_telemetry loaded run) in
      same_runs-found s1 t.store _ _ same (insert_run-found s.store s1 run e1)

  pub reset_run_command-Answered :
      (loaded : LoadedConfiguration) (s : State) (run : RunContext)
      (request : ScenarioCommandRequest) (a : CommandResult × State)
      → reset_run_command K loaded s run request ≡ ok a
      → Answered K loaded request reset_run run a
  unfolding reset_run_command new_run
  reset_run_command-Answered loaded s run request a h =
      let (closing, e1, h1) =
        >>=-eq-ok (close_run K s run request.command_id request.actor request.scenario_time) _ h in
      let (u, e2, h2) = >>=-eq-ok (K.failure_hook "AFTER_PRIMARY_MUTATION") _ h1 in
      let (starting, e3, h3) =
        >>=-eq-ok (start_run K _ loaded _ request.command_id request.actor) _ h2 in
      let (v, e4, h4) = >>=-eq-ok (K.failure_hook "BEFORE_COMMIT") _ h3 in
      let (snapshot, e5, h5) = >>=-eq-ok (assemble_snapshot K loaded starting.1 _) _ h4 in
      accepted-Answered K loaded request starting.1 run _ reset_run run.scenario_run_id snapshot _ a
        (restarted refl refl refl)
        (start_run-found _ starting.1 loaded _ request.command_id request.actor starting.0 e3)
        (inr refl) e5 refl refl h5
