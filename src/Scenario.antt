-- ===== src/Scenario.antt =====
-- app/backend/ot_demo/modules/scenario and modules/events: the run, its events, and the commands.
-- UUIDs are numbers; the texts for a reader (`description`, `reason`) are left out, and so is the
-- single fault and alarm type.
pub mod Store
pub mod Events
pub mod Derive
pub mod Gates
pub mod Actions
pub mod Snapshot
pub mod Replay
pub mod Operations
pub mod Restoring
pub mod Execute
pub mod Initialise
use ot_engineering_demonstra.Base.{
  String, ℕ, Bool, true, false, Option, none, some, List, [], ◌∷◌, ◌&&◌, Dict, is_some,
}
use ot_engineering_demonstra.Telemetry.{TelemetryPoint, TelemetryValidity, AlarmRecord}
use ot_engineering_demonstra.Topology.Models.{TopologyResult}
use ot_engineering_demonstra.Outage.{OutageResult}
use ot_engineering_demonstra.Restoration.{RestorationAssessment, AssessmentInvalidation}
use ot_engineering_demonstra.Domain.{
  EvidenceClass, NetworkStateLabel, OperationalEventSource, OperationalEventType,
  ScenarioCommandType, ScenarioMode, ScenarioRunStatus, SourceAvailability, SwitchState,
  WorkflowStage, acknowledge_alarm, active, assess_restoration, closed_run, execute_restoration,
  exploration, formal, initialised, initiate_fault, n0, n1, n2, n3, n4, n5,
  operate_isolation_device, reset_run, restore_normal_source, run_complete,
}

pub record RunContext : Type 0 where
  pub scenario_run_id : ℕ
  pub mode : ScenarioMode
  pub configuration_id : String
  pub configuration_version : String
  pub fault_section_id : String
  pub initial_scenario_time : ℕ
  pub scenario_time : ℕ
  pub state_revision : ℕ
  pub workflow_stage : WorkflowStage
  pub network_state_label : NetworkStateLabel
  pub evidence_class : EvidenceClass
  pub application_build_id : String
  pub status : ScenarioRunStatus
  pub fault_active : Bool
  pub source_availability : Dict SourceAvailability

pub record ScenarioCommandRequest : Type 0 where
  pub command_id : ℕ
  pub scenario_run_id : ℕ
  pub actor : String
  pub expected_revision : ℕ
  pub command_type : ScenarioCommandType
  pub scenario_time : ℕ
  pub target_entity_id : Option String
  pub requested_state : Option SwitchState
  pub alarm_id : Option ℕ
  pub assessment_id : Option ℕ

pub record InitialiseRunRequest : Type 0 where
  pub command_id : ℕ
  pub actor : String
  pub expected_revision : ℕ
  pub mode : ScenarioMode
  pub configuration_version : String
  pub fault_section_id : Option String
  pub scenario_time : ℕ

pub record OperationalEvent : Type 0 where
  pub event_id : ℕ
  pub scenario_run_id : ℕ
  pub event_sequence : ℕ
  pub scenario_time : ℕ
  pub state_revision : ℕ
  pub source : OperationalEventSource
  pub event_type : OperationalEventType
  pub affected_entity_id : Option String
  pub actor : String
  pub previous_value : Option String
  pub new_value : Option String
  pub command_id : ℕ
  pub alarm_id : Option ℕ
  pub assessment_id : Option ℕ

-- `_EventSpec`
pub record EventSpec : Type 0 where
  pub source : OperationalEventSource
  pub event_type : OperationalEventType
  pub affected_entity_id : Option String
  pub previous_value : Option String
  pub new_value : Option String
  pub alarm_id : Option ℕ
  pub assessment_id : Option ℕ

pub record FormalScenarioDefinition : Type 0 where
  pub fault_section_id : String
  pub isolation_device_sequence : List String

abbrev pub formal_n0_n3_definition : FormalScenarioDefinition
formal_n0_n3_definition = record {
  fault_section_id = "SEC-A2";
  isolation_device_sequence = "SW-A12" ∷ "SW-A23" ∷ [];
}

abbrev pub is_closed_run : ScenarioRunStatus → Bool
is_closed_run closed_run = true
is_closed_run _ = false

abbrev pub is_exploration : ScenarioMode → Bool
is_exploration exploration = true
is_exploration formal = false

abbrev pub is_n1 : NetworkStateLabel → Bool
is_n1 n1 = true
is_n1 _ = false

abbrev switches : ScenarioCommandType → Bool
switches operate_isolation_device = true
switches restore_normal_source = true
switches _ = false

abbrev acknowledges : ScenarioCommandType → Bool
acknowledges acknowledge_alarm = true
acknowledges _ = false

abbrev executes : ScenarioCommandType → Bool
executes execute_restoration = true
executes _ = false

abbrev same : Bool → Bool → Bool
same true b = b
same false true = false
same false false = true

-- `ScenarioCommandRequest.validate_target_shape`
unfoldable pub target_shape_valid : ScenarioCommandRequest → Bool
target_shape_valid r =
    same (switches r.command_type) (is_some r.target_entity_id)
    && same (switches r.command_type) (is_some r.requested_state)
    && same (acknowledges r.command_type) (is_some r.alarm_id)
    && same (executes r.command_type) (is_some r.assessment_id)

pub record AllowedAction : Type 0 where
  pub command_type : ScenarioCommandType
  pub target_entity_id : Option String
  pub requested_state : Option SwitchState
  pub alarm_id : Option ℕ
  pub assessment_id : Option ℕ
  pub available : Bool
  pub reason_code : String

pub record ScenarioSnapshot : Type 0 where
  pub run : RunContext
  pub telemetry : List TelemetryPoint
  pub telemetry_validity : List TelemetryValidity
  pub alarms : List AlarmRecord
  pub topology : TopologyResult
  pub outage : OutageResult
  pub events : List OperationalEvent
  pub restoration_assessments : List RestorationAssessment
  pub restoration_invalidations : List AssessmentInvalidation
  pub allowed_actions : List AllowedAction

pub record CommandResult : Type 0 where
  pub command_id : ℕ
  pub accepted : Bool
  pub reason_code : String
  pub prior_revision : ℕ
  pub current_revision : ℕ
  pub run_status : ScenarioRunStatus
  pub new_event_ids : List ℕ
  pub new_assessment_ids : List ℕ
  pub snapshot : ScenarioSnapshot

abbrev pub is_n0 : NetworkStateLabel → Bool
is_n0 n0 = true
is_n0 _ = false

abbrev pub is_n2 : NetworkStateLabel → Bool
is_n2 n2 = true
is_n2 _ = false

abbrev pub is_n3 : NetworkStateLabel → Bool
is_n3 n3 = true
is_n3 _ = false

abbrev pub is_n4 : NetworkStateLabel → Bool
is_n4 n4 = true
is_n4 _ = false
