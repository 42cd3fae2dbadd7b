-- ===== src/Scenario/Operations.antt =====
-- application/scenario_coordinator.py: `_initiate_fault`, `_acknowledge_alarm` and
-- `_operate_isolation_device`.
use ot_engineering_demonstra.Base.{
  Bool, String, ℕ, suc, true, false, not, ◌&&◌, Option, none, some, List, [], ◌∷◌, ◌++◌, find,
  insert, nat_eq, if◌then◌else◌, Result, ◌>>=◌, ◌>>◌,
}
use ot_engineering_demonstra.Domain.{
  SwitchState, opened, closed, is_closed, acknowledged, unacknowledged, active, post_fault,
  isolating, fault_isolated, n1, n2, OperationalEventSource, scenario_control, scada, operator,
  OperationalEventType, fault_initiated, telemetry_updated, device_state_change, alarm_generated,
  alarm_acknowledged, switching_action,
}
use ot_engineering_demonstra.Domain.Config.{LoadedConfiguration}
use ot_engineering_demonstra.Telemetry.{TelemetryPoint, AlarmRecord, is_acknowledged}
use ot_engineering_demonstra.Topology.Models.{TopologyResult}
use ot_engineering_demonstra.Outage.{OutageResult}
use ot_engineering_demonstra.Restoration.Candidate.{item}
use ot_engineering_demonstra.Restoration.Permissives.{proof_isolated}
use ot_engineering_demonstra.Scenario.{
  RunContext, ScenarioCommandRequest, CommandResult, EventSpec, is_n0,
}
use ot_engineering_demonstra.Scenario.Store.{
  Store, update_run, put_telemetry, insert_alarm, update_alarm, insert_derived_snapshots,
  get_outage_snapshot, list_telemetry, list_alarms,
}
use ot_engineering_demonstra.Scenario.Events.{derived_event_specs}
use ot_engineering_demonstra.Scenario.Derive.{
  derive, gate_topology, affected_feeder, telemetry_map, values, switched,
}
use ot_engineering_demonstra.Scenario.Actions.{isolation_gate}
use ot_engineering_demonstra.Scenario.Snapshot.{Coordinator, State, reject, complete_accepted}

abbrev pub state_value : SwitchState → String
state_value opened = "OPEN"
state_value closed = "CLOSED"

abbrev pub spec : OperationalEventSource → OperationalEventType → Option String → EventSpec
spec source type entity = record {
  source = source;
  event_type = type;
  affected_entity_id = entity;
  previous_value = none;
  new_value = none;
  alarm_id = none;
  assessment_id = none;
}

abbrev pub change_spec :
    OperationalEventSource
    → OperationalEventType
    → TelemetryPoint
    → TelemetryPoint
    → String
    → Option ℕ
    → EventSpec
change_spec source type previous changed entity assessment_id =
    record (spec source type (some entity)) {
      previous_value = some (state_value previous.value);
      new_value = some (state_value changed.value);
      assessment_id = assessment_id;
    }

-- The telemetry and device events of an operation.
abbrev pub operation_specs : TelemetryPoint → TelemetryPoint → String → Option ℕ → List EventSpec
operation_specs previous changed entity assessment_id =
    change_spec scada telemetry_updated previous changed entity assessment_id
    ∷ change_spec scada device_state_change previous changed entity assessment_id
    ∷ []

abbrev pub requested_open : Option SwitchState → Option String → (String → Bool) → Option String
requested_open (some opened) (some target) available =
    if available target then some target else none
requested_open (some opened) none available = none
requested_open (some closed) target available = none
requested_open none target available = none

module _ (K : Coordinator) (loaded : LoadedConfiguration) where
  -- The topology and the outage after an operation, from the points with one replaced and the
  -- outage stored for the prior revision.
  unfoldable pub derive_after :
      Store
      → RunContext
      → RunContext
      → String
      → TelemetryPoint
      → Result (TopologyResult × OutageResult)
  derive_after store prior updated entity changed = do
    previous ← get_outage_snapshot store prior.scenario_run_id prior.state_revision
    derive K.libraries loaded updated
        (values
          (insert entity changed (telemetry_map (list_telemetry store prior.scenario_run_id))))
        (some previous)

  unfoldable pub initiate_fault_at :
      State
      → RunContext
      → ScenarioCommandRequest
      → String
      → TelemetryPoint
      → Result (CommandResult × State)
  initiate_fault_at s run request breaker_id previous = do
    let next_revision = suc run.state_revision
    let changed = switched previous opened request.scenario_time next_revision
    let alarm : AlarmRecord = record {
      alarm_id = K.uuids s.drawn;
      scenario_run_id = run.scenario_run_id;
      entity_id = breaker_id;
      active = true;
      acknowledgement_state = unacknowledged;
      generated_scenario_time = request.scenario_time;
      acknowledged_scenario_time = none;
      acknowledged_by = none;
    }
    let updated : RunContext = record run {
      scenario_time = request.scenario_time;
      state_revision = next_revision;
      workflow_stage = post_fault;
      network_state_label = n1;
      status = active;
      fault_active = true;
    }
    s1 ← update_run s.store updated
    s2 ← insert_alarm (put_telemetry s1 run.scenario_run_id changed) alarm
    K.failure_hook "AFTER_PRIMARY_MUTATION"
    derived ← derive_after s.store run updated breaker_id changed
    s3 ← insert_derived_snapshots s2 run.scenario_run_id next_revision derived.0 derived.1
    complete_accepted K loaded (record s { store = s3; drawn = suc s.drawn }) run updated request
        "FAULT_INITIATED"
        (record (spec scenario_control fault_initiated (some run.fault_section_id)) {
          previous_value = some "NOT_FAULTED";
          new_value = some "FAULTED";
        }
            ∷ operation_specs previous changed breaker_id none
          ++ (record (spec scada alarm_generated (some breaker_id)) {
            alarm_id = some alarm.alarm_id;
          }
              ∷ derived_event_specs none))
        []

  -- `_initiate_fault`
  unfoldable pub initiate_fault_command :
      State → RunContext → ScenarioCommandRequest → Result (CommandResult × State)
  initiate_fault_command s run request =
      elim (is_n0 run.network_state_label && not run.fault_active) [
        | false ↦ reject K loaded s run request "FAULT_INITIATION_UNAVAILABLE" []
        | true ↦ (do
          feeder ← affected_feeder loaded run
          previous ←
              item feeder.source_breaker_id
                (telemetry_map (list_telemetry s.store run.scenario_run_id))
          elim (is_closed previous.value) [
            | false ↦ reject K loaded s run request "AFFECTED_BREAKER_NOT_CLOSED" []
            | true ↦ initiate_fault_at s run request feeder.source_breaker_id previous
          ])
      ]

  abbrev pub requested_alarm : State → RunContext → Option ℕ → Option AlarmRecord
  requested_alarm s run none = none
  requested_alarm s run (some id) =
      find (λ a. nat_eq a.alarm_id id) (list_alarms s.store run.scenario_run_id)

  unfoldable pub acknowledge :
      State → RunContext → ScenarioCommandRequest → AlarmRecord → Result (CommandResult × State)
  acknowledge s run request alarm = do
    s1 ← update_alarm s.store (record alarm {
      acknowledgement_state = acknowledged;
      acknowledged_scenario_time = some request.scenario_time;
      acknowledged_by = some request.actor;
    })
    let updated : RunContext = record run { scenario_time = request.scenario_time }
    s2 ← update_run s1 updated
    K.failure_hook "AFTER_PRIMARY_MUTATION"
    complete_accepted K loaded (record s { store = s2 }) run updated request "ALARM_ACKNOWLEDGED"
        (record (spec operator alarm_acknowledged (some alarm.entity_id)) {
          previous_value = some "UNACKNOWLEDGED";
          new_value = some "ACKNOWLEDGED";
          alarm_id = some alarm.alarm_id;
        }
          ∷ [])
        []

  -- `_acknowledge_alarm`
  unfoldable pub acknowledge_alarm_command :
      State → RunContext → ScenarioCommandRequest → Result (CommandResult × State)
  acknowledge_alarm_command s run request = elim (requested_alarm s run request.alarm_id) [
    | none ↦ reject K loaded s run request "ALARM_ACKNOWLEDGEMENT_UNAVAILABLE" []
    | some alarm ↦ elim (alarm.active && not (is_acknowledged alarm.acknowledgement_state)) [
      | false ↦ reject K loaded s run request "ALARM_ACKNOWLEDGEMENT_UNAVAILABLE" []
      | true ↦ acknowledge s run request alarm
    ]
  ]

  unfoldable pub operate_at :
      State → RunContext → ScenarioCommandRequest → String → Result (CommandResult × State)
  operate_at s run request target = do
    previous ← item target (telemetry_map (list_telemetry s.store run.scenario_run_id))
    let next_revision = suc run.state_revision
    let changed = switched previous opened request.scenario_time next_revision
    let provisional : RunContext = record run {
      scenario_time = request.scenario_time;
      state_revision = next_revision;
      workflow_stage = isolating;
      status = active;
    }
    K.failure_hook "AFTER_PRIMARY_MUTATION"
    derived ← derive_after s.store run provisional target changed
    let isolated = proof_isolated derived.0.isolation_proof
    let updated : RunContext = record provisional {
      workflow_stage = if isolated then fault_isolated else isolating;
      network_state_label = if isolated then n2 else n1;
    }
    s1 ← update_run (put_telemetry s.store run.scenario_run_id changed) updated
    s2 ← insert_derived_snapshots s1 run.scenario_run_id next_revision derived.0 derived.1
    complete_accepted K loaded (record s { store = s2 }) run updated request
        (if isolated then "FAULT_ISOLATED" else "ISOLATION_ACTION_ACCEPTED")
        (change_spec operator switching_action previous changed target none
            ∷ operation_specs previous changed target none
          ++ derived_event_specs none)
        []

  -- The target, where the request is an OPEN of an available one. Every switching request that its
  -- validator lets through names a target.
  abbrev pub open_target : RunContext → TopologyResult → ScenarioCommandRequest → Option String
  open_target run topology request =
      requested_open request.requested_state request.target_entity_id
        (isolation_gate K.definition run topology)

  -- `_operate_isolation_device`
  unfoldable pub operate_isolation_device_command :
      State → RunContext → ScenarioCommandRequest → Result (CommandResult × State)
  operate_isolation_device_command s run request = do
    topology ←
        gate_topology K.libraries loaded run (list_telemetry s.store run.scenario_run_id)
          request.scenario_time
    elim (open_target run topology request) [
      | none ↦ reject K loaded s run request "ISOLATION_ACTION_UNAVAILABLE" []
      | some target ↦ operate_at s run request target
    ]
