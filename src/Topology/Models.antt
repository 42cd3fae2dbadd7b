-- ===== src/Topology/Models.antt =====
-- app/backend/ot_demo/modules/topology/models.py
use ot_engineering_demonstra.Base.{
  String, ◌==◌, ℕ, Bool, true, ◌&&◌, Option, none, some, List, Dict, all, contains,
}
use ot_engineering_demonstra.Domain.{
  SwitchState, SourceAvailability, TelemetryQuality, FreshnessStatus, BoundaryEvidenceCondition,
  BoundaryProofStatus, BoundaryOperationNeed, RadialityStatus,
}

pub record BoundaryObservation : Type 0 where
  pub device_id : String
  pub observed_state : Option SwitchState
  pub quality : Option TelemetryQuality
  pub freshness_status : Option FreshnessStatus

pub record TopologyInputs : Type 0 where
  pub device_states : Dict SwitchState
  pub source_availability : Dict SourceAvailability
  pub faulted_section_ids : List String
  pub active_fault_section_id : Option String
  pub boundary_observations : Dict BoundaryObservation

abbrev fault_listed : Option String → List String → Bool
fault_listed none ids = true
fault_listed (some id) ids = contains ids id

-- `TopologyInputs.active_fault_is_faulted`
unfoldable pub inputs_consistent : TopologyInputs → Bool
inputs_consistent i =
    fault_listed i.active_fault_section_id i.faulted_section_ids
    && all (λ e. e.0 == e.1.device_id) i.boundary_observations

pub record SourcePath : Type 0 where
  pub source_id : String
  pub source_feeder_id : String
  pub source_breaker_id : String
  pub target_section_id : String
  pub node_ids : List String
  pub edge_ids : List String

pub record SectionDerivedState : Type 0 where
  pub section_id : String
  pub energised : Bool
  pub faulted : Bool
  pub source_feeder_ids : List String
  pub source_paths : List SourcePath

pub record DerivedFeederLoad : Type 0 where
  pub feeder_id : String
  pub configured_normal_load_kw : ℕ
  pub currently_supplied_load_kw : Option ℕ
  pub supplied_section_ids : List String
  pub multiply_supplied_section_ids : List String
  pub load_attribution_complete : Bool

pub record BoundaryEvaluation : Type 0 where
  pub boundary_device_id : String
  pub observed_state : Option SwitchState
  pub quality : Option TelemetryQuality
  pub freshness_status : Option FreshnessStatus
  pub evidence_condition : BoundaryEvidenceCondition
  pub proof_status : BoundaryProofStatus
  pub operation_need : BoundaryOperationNeed
  pub reason_codes : List String

pub record IsolationProof : Type 0 where
  pub fault_section_id : String
  pub incident_boundary_device_ids : List String
  pub boundary_evaluations : List BoundaryEvaluation
  pub evaluated_source_feeder_ids : List String
  pub active_source_paths : List SourcePath
  pub all_boundaries_proven_open : Bool
  pub zero_active_source_paths : Bool
  pub isolated : Bool
  pub reason_codes : List String

pub record TopologyResult : Type 0 where
  pub configuration_id : String
  pub configured_edge_ids : List String
  pub active_edge_ids : List String
  pub available_source_ids : List String
  pub available_source_feeder_ids : List String
  pub active_source_feeder_ids : List String
  pub radiality_status : RadialityStatus
  pub unintended_loop_component_section_ids : List (List String)
  pub sections : List SectionDerivedState
  pub feeder_loads : List DerivedFeederLoad
  pub isolation_proof : Option IsolationProof
