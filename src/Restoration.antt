-- ===== src/Restoration.antt =====
-- app/backend/ot_demo/modules/restoration: the models, and the libraries that identifiers and
-- digests come from.
pub mod Candidate
pub mod Capacity
pub mod Permissives
pub mod Assess
use ot_engineering_demonstra.Base.{String, ℕ, Bool, Option, List, Dict}
use ot_engineering_demonstra.Base.Int.{ℤ}
use ot_engineering_demonstra.Domain.{
  SwitchState, SourceAvailability, TelemetryQuality, FreshnessStatus, PermissiveStatus,
  RestorationCriterion, RestorationOutcome,
}
use ot_engineering_demonstra.Telemetry.{TelemetryPoint, TelemetryValidity}
use ot_engineering_demonstra.Topology.Models.{TopologyResult}
use ot_engineering_demonstra.Topology.Graph.{GraphLibrary}
use ot_engineering_demonstra.Outage.{OutageResult}

-- networkx, `uuid5(NAMESPACE_URL, name)`, and the SHA-256 of the canonical JSON of what is given.
pub record Libraries : Type 1 where
  pub graph_library : GraphLibrary
  pub uuid5 : String → ℕ
  pub sha256_points : List TelemetryPoint → String
  pub sha256_sources : Dict SourceAvailability → String

pub record RestorationCandidate : Type 0 where
  pub candidate_id : ℕ
  pub affected_feeder_id : String
  pub alternate_feeder_id : String
  pub alternate_source_id : String
  pub alternate_source_breaker_id : String
  pub tie_device_id : String
  pub requested_tie_state : SwitchState
  pub proposed_section_ids : List String
  pub proposed_path_edge_ids : List String
  pub transferable_load_kw : ℕ
  pub proposed_restored_customer_count : ℕ

pub record RestorationTelemetryEvidence : Type 0 where
  pub point_id : String
  pub entity_id : String
  pub value : SwitchState
  pub quality : TelemetryQuality
  pub timestamp : ℕ
  pub revision : ℕ
  pub age_ms : ℤ
  pub freshness : FreshnessStatus
  pub overall_valid : Bool
  pub reason_codes : List String

-- The percentage, which has one decimal place, in tenths.
pub record RestorationCalculation : Type 0 where
  pub alternate_feeder_id : String
  pub existing_supplied_load_kw : ℕ
  pub transferable_load_kw : ℕ
  pub resulting_load_kw : ℕ
  pub feeder_capacity_kw : ℕ
  pub resulting_loading_percent_tenths : ℕ
  pub capacity_pass : Bool

pub record PermissiveResult : Type 0 where
  pub criterion : RestorationCriterion
  pub status : PermissiveStatus
  pub reason_codes : List String
  pub evidence_point_ids : List String

pub record RestorationAssessment : Type 0 where
  pub assessment_id : ℕ
  pub assessment_sequence : ℕ
  pub scenario_run_id : ℕ
  pub configuration_id : String
  pub state_revision : ℕ
  pub scenario_time : ℕ
  pub candidate : Option RestorationCandidate
  pub telemetry_snapshot_sha256 : String
  pub source_availability_sha256 : String
  pub telemetry_evidence : List RestorationTelemetryEvidence
  pub source_availability : Dict SourceAvailability
  pub permissives : List PermissiveResult
  pub calculation : Option RestorationCalculation
  pub outcome : RestorationOutcome
  pub reason_codes : List String

pub record AssessmentInvalidation : Type 0 where
  pub invalidation_id : ℕ
  pub assessment_id : ℕ
  pub scenario_run_id : ℕ
  pub superseding_state_revision : ℕ
  pub superseding_scenario_time : ℕ
  pub reason_code : String
  pub event_id : ℕ

pub record RestorationExecutionBinding : Type 0 where
  pub assessment_id : ℕ
  pub scenario_run_id : ℕ
  pub configuration_id : String
  pub candidate_id : ℕ
  pub state_revision : ℕ
  pub telemetry_snapshot_sha256 : String
  pub source_availability_sha256 : String
  pub tie_device_id : String
  pub requested_tie_state : SwitchState

pub record RestorationAssessmentInputs : Type 0 where
  pub assessment_id : ℕ
  pub assessment_sequence : ℕ
  pub scenario_run_id : ℕ
  pub state_revision : ℕ
  pub scenario_time : ℕ
  pub fault_section_id : String
  pub telemetry : List TelemetryPoint
  pub telemetry_validity : List TelemetryValidity
  pub source_availability : Dict SourceAvailability
  pub current_topology : TopologyResult
  pub current_outage : OutageResult
