-- ===== src/Scenario/Execute.antt =====
-- application/scenario_coordinator.py: `execute`, `_reset_run`, and what a new run starts with.
-- A transaction that raises leaves the state that it started from: an error carries no state.
pub mod Lifecycle
pub mod Refusals
pub mod Preserved
use ot_engineering_demonstra.Base.{
  String, ◌==◌, ℕ, suc, ◌+◌, Bool, true, false, not, ◌&&◌, Option, none, some, List, [], ◌∷◌, ◌++◌,
  map, length, get_last?, ltb, nat_eq, if◌then◌else◌, Result, ok, err, ◌>>=◌, ◌>>◌,
  command_conflict,
}
use ot_engineering_demonstra.Base.Sort.{sort_on}
use ot_engineering_demonstra.Domain.{
  ScenarioMode, formal, exploration, EvidenceClass, formal_evidence, exploratory, initialised,
  closed_run, normal, n0, good, scenario_control, scenario_reset, ScenarioCommandType,
  initiate_fault, acknowledge_alarm, operate_isolation_device, restore_normal_source,
  assess_restoration, execute_restoration, reset_run,
}
use ot_engineering_demonstra.Domain.Config.{LoadedConfiguration}
use ot_engineering_demonstra.Telemetry.{TelemetryPoint}
use ot_engineering_demonstra.Topology.Calculate.{normal_inputs}
use ot_engineering_demonstra.Restoration.{RestorationAssessment}
use ot_engineering_demonstra.Scenario.{
  RunContext, ScenarioCommandRequest, CommandResult, EventSpec, OperationalEvent, is_closed_run,
}
use ot_engineering_demonstra.Scenario.Store.{
  Store, get_run, update_run, insert_run, put_telemetry, insert_derived_snapshots, list_assessments,
  list_assessment_invalidations, insert_events, insert_assessment_invalidation, get_command_result,
  CommandRow,
}
use ot_engineering_demonstra.Scenario.Events.{events_from_specs, initial_specs}
use ot_engineering_demonstra.Scenario.Derive.{derive}
use ot_engineering_demonstra.Scenario.Snapshot.{
  Coordinator, State, reject, assemble_snapshot, record_result, is_invalidated,
}
use ot_engineering_demonstra.Scenario.Replay.{answered_or}
use ot_engineering_demonstra.Scenario.Operations.{
  spec, initiate_fault_command, acknowledge_alarm_command, operate_isolation_device_command,
}
use ot_engineering_demonstra.Scenario.Restoring.{
  invalidation_spec, restore_normal_source_command, assess_restoration_command,
  execute_restoration_command,
}

abbrev evidence_class_of : ScenarioMode → EvidenceClass
evidence_class_of formal = formal_evidence
evidence_class_of exploration = exploratory

-- `_new_run`, under the identity drawn for it
unfoldable pub new_run : ℕ → LoadedConfiguration → ℕ → String → ScenarioMode → String → RunContext
unfolding normal_inputs
new_run id loaded time build mode fault = record {
  scenario_run_id = id;
  mode = mode;
  configuration_id = loaded.configuration_id;
  configuration_version = loaded.version;
  fault_section_id = fault;
  initial_scenario_time = time;
  scenario_time = time;
  state_revision = 0;
  workflow_stage = normal;
  network_state_label = n0;
  evidence_class = evidence_class_of mode;
  application_build_id = build;
  status = initialised;
  fault_active = false;
  source_availability = (normal_inputs loaded.config).source_availability;
}

-- `_normal_telemetry`
unfoldable pub normal_telemetry : LoadedConfiguration → RunContext → List TelemetryPoint
normal_telemetry loaded run =
    map
      (λ d. record {
        point_id = d.entity_id;
        entity_id = d.entity_id;
        value = d.normal_state;
        quality = good;
        last_update_scenario_time = run.initial_scenario_time;
        revision = 0;
      })
      (sort_on (λ d. d.entity_id) loaded.config.switching_devices)

unfoldable pub put_all : Store → ℕ → List TelemetryPoint → Store
put_all s id [] = s
put_all s id (p ∷ ps) = put_all (put_telemetry s id p) id ps

abbrev reset_spec : EventSpec
reset_spec = spec scenario_control scenario_reset none

-- The last assessment, unless it is invalidated already.
unfoldable pub current_assessment : Store → ℕ → Option RestorationAssessment
current_assessment s id = elim (get_last? (list_assessments s id)) [
  | none ↦ none
  | some a ↦ if is_invalidated (list_assessment_invalidations s id) a then none else some a
]

abbrev reset_specs : Option RestorationAssessment → List EventSpec
reset_specs none = reset_spec ∷ []
reset_specs (some a) = invalidation_spec a ∷ reset_spec ∷ []

-- The reason for which `execute` refuses any command, if there is one.
unfoldable pub refusal : RunContext → ScenarioCommandRequest → Option String
refusal run request =
    if not (nat_eq request.expected_revision run.state_revision)
    then some "STALE_EXPECTED_REVISION"
    else if ltb request.scenario_time run.scenario_time
    then some "SCENARIO_TIME_BEFORE_CURRENT"
    else if is_closed_run run.status
    then some "RUN_CLOSED"
    else none

module _ (K : Coordinator) where
  -- The invalidation that belongs to the first of the reset events.
  unfoldable pub invalidate_current :
      State → RunContext → ℕ → Option RestorationAssessment → List OperationalEvent → Result State
  invalidate_current s run time none events = ok s
  invalidate_current s run time (some a) [] = ok s
  invalidate_current s run time (some a) (first ∷ events) = do
    store ← insert_assessment_invalidation s.store (record {
      invalidation_id = K.uuids s.drawn;
      assessment_id = a.assessment_id;
      scenario_run_id = run.scenario_run_id;
      superseding_state_revision = run.state_revision;
      superseding_scenario_time = time;
      reason_code = "SCENARIO_RESET";
      event_id = first.event_id;
    })
    ok (record s { store = store; drawn = suc s.drawn })

  -- `_close_run_and_preserve_history`
  unfoldable pub close_run :
      State → RunContext → ℕ → String → ℕ → Result (List OperationalEvent × State)
  close_run s run command_id actor time = do
    let closed : RunContext = record run { scenario_time = time; status = closed_run }
    s1 ← update_run s.store closed
    let current = current_assessment s1 run.scenario_run_id
    let events = events_from_specs K.uuids s1 closed command_id actor s.drawn (reset_specs current)
    s2 ← insert_events s1 events
    t ←
        invalidate_current (record s { store = s2; drawn = s.drawn + length (reset_specs current) })
          run time current events
    ok (events, t)

  -- The part that starts a run: its row, telemetry, snapshots at revision 0 and first events.
  unfoldable pub start_run :
      State → LoadedConfiguration → RunContext → ℕ → String → Result (List OperationalEvent × State)
  start_run s loaded run command_id actor = do
    s1 ← insert_run s.store run
    let telemetry = normal_telemetry loaded run
    let s2 = put_all s1 run.scenario_run_id telemetry
    derived ← derive K.libraries loaded run telemetry none
    s3 ← insert_derived_snapshots s2 run.scenario_run_id 0 derived.0 derived.1
    let specs = initial_specs run
    let events = events_from_specs K.uuids s3 run command_id actor s.drawn specs
    s4 ← insert_events s3 events
    ok (events, record s { store = s4; drawn = s.drawn + length specs })

  -- `_reset_run`
  unfoldable pub reset_run_command :
      LoadedConfiguration
      → State
      → RunContext
      → ScenarioCommandRequest
      → Result (CommandResult × State)
  reset_run_command loaded s run request = do
    closing ← close_run s run request.command_id request.actor request.scenario_time
    K.failure_hook "AFTER_PRIMARY_MUTATION"
    let t = closing.1
    let fresh =
        new_run (K.uuids t.drawn) loaded run.initial_scenario_time run.application_build_id run.mode
          run.fault_section_id
    starting ←
        start_run (record t { drawn = suc t.drawn }) loaded fresh request.command_id request.actor
    K.failure_hook "BEFORE_COMMIT"
    snapshot ← assemble_snapshot K loaded starting.1 fresh
    record_result K loaded starting.1 run.scenario_run_id request (record {
      command_id = request.command_id;
      accepted = true;
      reason_code = "RUN_RESET";
      prior_revision = run.state_revision;
      current_revision = 0;
      run_status = fresh.status;
      new_event_ids = map (λ e. e.event_id) (closing.0 ++ starting.0);
      new_assessment_ids = [];
      snapshot = snapshot;
    })

  -- The handler of a command's type.
  unfoldable pub dispatch :
      ScenarioCommandType
      → LoadedConfiguration
      → State
      → RunContext
      → ScenarioCommandRequest
      → Result (CommandResult × State)
  dispatch initiate_fault = initiate_fault_command K
  dispatch acknowledge_alarm = acknowledge_alarm_command K
  dispatch operate_isolation_device = operate_isolation_device_command K
  dispatch restore_normal_source = restore_normal_source_command K
  dispatch assess_restoration = assess_restoration_command K
  dispatch execute_restoration = execute_restoration_command K
  dispatch reset_run = reset_run_command

  unfoldable pub execute_new : State → ScenarioCommandRequest → Result (CommandResult × State)
  execute_new s request = do
    run ← get_run s.store request.scenario_run_id
    loaded ← K.load run.configuration_version
    elim (refusal run request) [
      | some reason_code ↦ reject K loaded s run request reason_code []
      | none ↦ dispatch request.command_type loaded s run request
    ]

  unfoldable pub execute : State → ℕ → ScenarioCommandRequest → Result (CommandResult × State)
  execute s run_id request = elim (nat_eq request.scenario_run_id run_id) [
    | false ↦ err command_conflict
    | true ↦ answered_or K s request.command_id (K.request_sha request) (execute_new s request)
  ]
