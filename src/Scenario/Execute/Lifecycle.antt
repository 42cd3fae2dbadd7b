-- ===== src/Scenario/Execute/Lifecycle.antt =====
-- What an executed command does to the run: the transitions of N0 to N5, and the stored result.
pub mod Fault
pub mod Restoration
pub mod Reset
use ot_engineering_demonstra.Base.{
  String, ℕ, suc, Bool, true, false, not, ◌&&◌, ◌||◌, Option, none, some, List, [], ◌∷◌, ◌++◌, find,
  any, nat_eq, nat_eq_iff, Result, ok, guard, guard-eq-ok, ◌>>=◌, >>=-eq-ok, ok-injective,
  integrity_error, if◌then◌else◌, Bool-cases, ◌⊎◌, inl, inr, ◌≡◌, refl, sym, ap, ◌∙◌, subst, arith,
  map, length,
}
use ot_engineering_demonstra.Domain.{
  NetworkStateLabel, n0, n1, n2, n3, n4, n5, ScenarioCommandType, initiate_fault, acknowledge_alarm,
  operate_isolation_device, restore_normal_source, assess_restoration, execute_restoration,
  reset_run,
}
use ot_engineering_demonstra.Domain.Config.{LoadedConfiguration}
use ot_engineering_demonstra.Scenario.{
  RunContext, ScenarioCommandRequest, ScenarioSnapshot, CommandResult, EventSpec,
}
use ot_engineering_demonstra.Scenario.Store.{
  Store, CommandRow, insert_events, insert_command_result, get_command_result, get_outage_snapshot,
  list_telemetry,
}
use ot_engineering_demonstra.Scenario.Store.Runs.{insert_command_result-found, insert_events-runs}
use ot_engineering_demonstra.Scenario.Store.Found.{IsStoredRun, same_runs-found}
use ot_engineering_demonstra.Scenario.Events.{events_from_specs}
use ot_engineering_demonstra.Scenario.Derive.{derive}
use ot_engineering_demonstra.Scenario.Actions.{allowed_actions}
use ot_engineering_demonstra.Scenario.Snapshot.{
  Coordinator, State, current_executable, assemble_snapshot, record_result, reject,
  complete_accepted,
}

-- The run may go from `before` to `after` by an accepted command.
pub data Transition (before : RunContext) : ScenarioCommandType → RunContext → Type 0 where
  faulted :
      {after : RunContext}
      → before.network_state_label ≡ n0
      → before.fault_active ≡ false
      → after.network_state_label ≡ n1
      → after.fault_active ≡ true
      → after.state_revision ≡ suc before.state_revision
      → Transition before initiate_fault after
  noticed :
      {after : RunContext}
      → after.network_state_label ≡ before.network_state_label
      → after.state_revision ≡ before.state_revision
      → Transition before acknowledge_alarm after
  operated :
      {after : RunContext}
      → before.network_state_label ≡ n1
      → (after.network_state_label ≡ n1) ⊎ (after.network_state_label ≡ n2)
      → after.state_revision ≡ suc before.state_revision
      → Transition before operate_isolation_device after
  reclosed :
      {after : RunContext}
      → before.network_state_label ≡ n2
      → after.network_state_label ≡ n3
      → after.state_revision ≡ suc before.state_revision
      → Transition before restore_normal_source after
  assessed :
      {after : RunContext}
      → (before.network_state_label ≡ n2)
        ⊎ ((before.network_state_label ≡ n3) ⊎ (before.network_state_label ≡ n4))
      → after.network_state_label ≡ n4
      → after.state_revision ≡ before.state_revision
      → Transition before assess_restoration after
  executed :
      {after : RunContext}
      → before.network_state_label ≡ n4
      → after.network_state_label ≡ n5
      → after.state_revision ≡ suc before.state_revision
      → Transition before execute_restoration after
  restarted :
      {after : RunContext}
      → after.network_state_label ≡ n0
      → after.fault_active ≡ false
      → after.state_revision ≡ 0
      → Transition before reset_run after

pub assemble_snapshot-run :
    (K : Coordinator) (loaded : LoadedConfiguration) (s : State) (run : RunContext)
    (snapshot : ScenarioSnapshot)
    → assemble_snapshot K loaded s run ≡ ok snapshot
    → snapshot.run ≡ run
unfolding assemble_snapshot
assemble_snapshot-run K loaded s run snapshot h =
    let telemetry = list_telemetry s.store run.scenario_run_id in
    let (derived, e1, h1) = >>=-eq-ok (derive K.libraries loaded run telemetry none) _ h in
    let (outage, e2, h2) =
      >>=-eq-ok (get_outage_snapshot s.store run.scenario_run_id run.state_revision) _ h1 in
    let (executable, e3, h3) = >>=-eq-ok (current_executable K loaded s run telemetry _ _) _ h2 in
    let (actions, e4, h4) =
      >>=-eq-ok
        (allowed_actions K.libraries loaded K.definition run derived.0 telemetry _ _ executable _) _
        h3 in
    ap (λ v. v.run) (sym (ok-injective h4))

module _ (K : Coordinator) (loaded : LoadedConfiguration) (request : ScenarioCommandRequest) where
  -- The result stands in the table under the command's identity, with the request's digest.
  abbrev pub Recorded : CommandResult → State → Type 0
  Recorded r t =
      (row : CommandRow) × (get_command_result t.store request.command_id ≡ some row)
      × (row.request_sha256 ≡ K.request_sha request)
      × (row.result ≡ r)

  -- The command was refused; or it was accepted, the run made a transition, and it is now the one
  -- stored under its identity, which only a reset changes.
  abbrev pub Concluded : ScenarioCommandType → RunContext → CommandResult → State → Type 0
  Concluded type before r t =
      (r.accepted ≡ false)
      ⊎ ((r.accepted ≡ true)
          × Transition before type r.snapshot.run
          × IsStoredRun t.store r.snapshot.run
          × ((r.snapshot.run.scenario_run_id ≡ before.scenario_run_id) ⊎ (type ≡ reset_run)))

  abbrev pub Answered : ScenarioCommandType → RunContext → CommandResult × State → Type 0
  Answered type before (r, t) = Recorded r t × Concluded type before r t

  pub record_result-Recorded :
      (s : State) (run_id : ℕ) (result : CommandResult) (a : CommandResult × State)
      → record_result K loaded s run_id request result ≡ ok a
      → (a.0 ≡ result) × Recorded a.0 a.1
  unfolding record_result
  record_result-Recorded s run_id result a h =
      let row : CommandRow = record {
        command_id = request.command_id;
        scenario_run_id = run_id;
        request_sha256 = K.request_sha request;
        result = result;
      } in
      let (store, e, h1) = >>=-eq-ok (insert_command_result s.store row) _ h in
      let found = (insert_command_result-found s.store store row e).0 in
      subst (λ b. (b.0 ≡ result) × Recorded b.0 b.1) (ok-injective h1)
        (refl, (row, found, refl, refl))

  pub record_result-runs :
      (s : State) (run_id : ℕ) (result : CommandResult) (a : CommandResult × State)
      → record_result K loaded s run_id request result ≡ ok a
      → a.1.store.runs ≡ s.store.runs
  unfolding record_result
  record_result-runs s run_id result a h =
      let (store, e, h1) = >>=-eq-ok (insert_command_result s.store _) _ h in
      ap (λ b. b.1.store.runs) (sym (ok-injective h1))
      ∙ (insert_command_result-found s.store store _ e).1

  -- An accepted result with the snapshot of a stored run, once that run is a transition.
  pub accepted-Answered :
      (s : State) (before after : RunContext) (type : ScenarioCommandType) (run_id : ℕ)
      (snapshot : ScenarioSnapshot) (result : CommandResult) (a : CommandResult × State)
      → Transition before type after
      → IsStoredRun s.store after
      → (after.scenario_run_id ≡ before.scenario_run_id) ⊎ (type ≡ reset_run)
      → assemble_snapshot K loaded s after ≡ ok snapshot
      → result.accepted ≡ true
      → result.snapshot ≡ snapshot
      → record_result K loaded s run_id request result ≡ ok a
      → Answered type before a
  accepted-Answered s before after type run_id snapshot result a step stored identity e acc snap h =
      let (same, recorded) = record_result-Recorded s run_id result a h in
      let run : a.0.snapshot.run ≡ after =
        ap (λ r. r.snapshot.run) same
        ∙ ap (λ v. v.run) snap
        ∙ assemble_snapshot-run K loaded s after snapshot e in
      let stored' =
        same_runs-found s.store a.1.store _ _ (record_result-runs s run_id result a h) stored in
      let (moved, kept, named) =
        subst
          (λ q.
            Transition before type q
            × IsStoredRun a.1.store q
            × ((q.scenario_run_id ≡ before.scenario_run_id) ⊎ (type ≡ reset_run)))
          (sym run) (step, stored', identity) in
      (recorded, inr (ap (λ r. r.accepted) same ∙ acc, moved, kept, named))

  pub reject-Answered :
      (s : State) (run before : RunContext) (type : ScenarioCommandType) (code : String)
      (ids : List ℕ) (a : CommandResult × State)
      → reject K loaded s run request code ids ≡ ok a
      → Answered type before a
  unfolding reject
  reject-Answered s run before type code ids a h =
      let (snapshot, e, h1) = >>=-eq-ok (assemble_snapshot K loaded s run) _ h in
      let (same, recorded) = record_result-Recorded s run.scenario_run_id _ a h1 in
      (recorded, inl (ap (λ r. r.accepted) same))

  -- An accepted command is answered once its updated run is stored and a transition.
  pub complete_accepted-Answered :
      (s : State) (before after : RunContext) (type : ScenarioCommandType) (code : String)
      (specs : List EventSpec) (ids : List ℕ) (a : CommandResult × State)
      → Transition before type after
      → IsStoredRun s.store after
      → after.scenario_run_id ≡ before.scenario_run_id
      → complete_accepted K loaded s before after request code specs ids ≡ ok a
      → Answered type before a
  unfolding complete_accepted
  complete_accepted-Answered s before after type code specs ids a step stored identity h =
      let events =
        events_from_specs K.uuids s.store after request.command_id request.actor s.drawn specs in
      let (store, e1, h1) = >>=-eq-ok (insert_events s.store events) _ h in
      let (u, e2, h2) = >>=-eq-ok (K.failure_hook "BEFORE_COMMIT") _ h1 in
      let (snapshot, e3, h3) = >>=-eq-ok (assemble_snapshot K loaded _ after) _ h2 in
      accepted-Answered _ before after type before.scenario_run_id snapshot _ a step
        (same_runs-found s.store store _ _ (insert_events-runs s.store store events e1) stored)
        (inl identity) e3 refl refl h3
