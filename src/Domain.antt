-- ===== src/Domain.antt =====
-- app/backend/ot_demo/domain/enums.py: the controlled values of the operational model, and the
-- identity tests (`is`) that the services make on them.
pub mod Config
pub mod Validate
pub mod Assurance
pub mod Composite
use ot_engineering_demonstra.Base.{Bool, true, false}

pub data SourceAvailability : Type 0 where
  available unavailable : SourceAvailability

-- `open` is a keyword here.
pub data SwitchState : Type 0 where
  opened closed : SwitchState

pub data SwitchingDeviceType : Type 0 where
  feeder_source_breaker sectionalising_switch tie_switch : SwitchingDeviceType

pub data TelemetryQuality : Type 0 where
  good uncertain bad : TelemetryQuality

pub data FreshnessStatus : Type 0 where
  fresh stale invalid_timestamp : FreshnessStatus

pub data BoundaryEvidenceCondition : Type 0 where
  trustworthy_open trustworthy_closed untrustworthy_or_absent : BoundaryEvidenceCondition

pub data BoundaryProofStatus : Type 0 where
  proven_open proven_closed unproven : BoundaryProofStatus

pub data BoundaryOperationNeed : Type 0 where
  none_satisfied open_required evidence_required : BoundaryOperationNeed

pub data RadialityStatus : Type 0 where
  radial unintended_loop : RadialityStatus

pub data ScenarioMode : Type 0 where
  formal exploration : ScenarioMode

pub data EvidenceClass : Type 0 where
  formal_evidence exploratory : EvidenceClass

pub data ScenarioRunStatus : Type 0 where
  initialised active run_complete closed_run : ScenarioRunStatus

pub data WorkflowStage : Type 0 where
  normal post_fault isolating fault_isolated upstream_restored : WorkflowStage
  restoration_assessed restoration_executed : WorkflowStage

pub data NetworkStateLabel : Type 0 where
  n0 n1 n2 n3 n4 n5 : NetworkStateLabel

pub data AlarmAcknowledgementState : Type 0 where
  unacknowledged acknowledged : AlarmAcknowledgementState

pub data ScenarioCommandType : Type 0 where
  initiate_fault acknowledge_alarm operate_isolation_device : ScenarioCommandType
  restore_normal_source assess_restoration execute_restoration reset_run : ScenarioCommandType

pub data RestorationOutcome : Type 0 where
  no_candidate blocked rejected permitted : RestorationOutcome

pub data PermissiveStatus : Type 0 where
  pass fail insufficient : PermissiveStatus

pub data RestorationCriterion : Type 0 where
  fault_isolation alternate_source radial_topology telemetry_validity capacity :
      RestorationCriterion

pub data OperationalEventType : Type 0 where
  scenario_initialised configuration_selected fault_initiated : OperationalEventType
  telemetry_updated device_state_change alarm_generated alarm_acknowledged : OperationalEventType
  switching_action topology_recalculated outage_updated : OperationalEventType
  restoration_candidate_identified restoration_no_candidate : OperationalEventType
  restoration_assessed_event restoration_assessment_invalidated : OperationalEventType
  scenario_reset : OperationalEventType

pub data OperationalEventSource : Type 0 where
  scenario_control gis scada operator adms_topology oms adms_restoration : OperationalEventSource

abbrev pub is_available : SourceAvailability → Bool
is_available available = true
is_available unavailable = false

abbrev pub is_closed : SwitchState → Bool
is_closed closed = true
is_closed opened = false

abbrev pub is_tie : SwitchingDeviceType → Bool
is_tie tie_switch = true
is_tie _ = false

abbrev pub is_breaker : SwitchingDeviceType → Bool
is_breaker feeder_source_breaker = true
is_breaker _ = false

abbrev pub is_sectionalising : SwitchingDeviceType → Bool
is_sectionalising sectionalising_switch = true
is_sectionalising _ = false

abbrev pub is_good : TelemetryQuality → Bool
is_good good = true
is_good _ = false

abbrev pub is_fresh : FreshnessStatus → Bool
is_fresh fresh = true
is_fresh _ = false

abbrev pub is_invalid_timestamp : FreshnessStatus → Bool
is_invalid_timestamp invalid_timestamp = true
is_invalid_timestamp _ = false

abbrev pub is_proven_open : BoundaryProofStatus → Bool
is_proven_open proven_open = true
is_proven_open _ = false

abbrev pub is_radial : RadialityStatus → Bool
is_radial radial = true
is_radial unintended_loop = false

abbrev pub is_pass : PermissiveStatus → Bool
is_pass pass = true
is_pass _ = false

abbrev pub is_fail : PermissiveStatus → Bool
is_fail fail = true
is_fail _ = false

abbrev pub is_insufficient : PermissiveStatus → Bool
is_insufficient insufficient = true
is_insufficient _ = false
