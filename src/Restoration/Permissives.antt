-- ===== src/Restoration/Permissives.antt =====
-- restoration/service.py: the five permissives of `assess`, and the outcome that follows from them.
use ot_engineering_demonstra.Base.{
  String, ◌==◌, ℕ, Bool, true, false, not, ◌&&◌, Option, none, some, List, [], ◌∷◌, ◌++◌, map,
  filter, find, any, contains, concat_map, if◌then◌else◌, Result, ok, ◌>>=◌, or_raise,
  stop_iteration,
}
use ot_engineering_demonstra.Domain.{
  is_closed, is_available, is_radial, is_fail, is_insufficient, pass, fail, insufficient,
  PermissiveStatus, RestorationOutcome, blocked, rejected, permitted, fault_isolation,
  alternate_source, radial_topology, telemetry_validity, capacity,
}
use ot_engineering_demonstra.Domain.Config.{Feeder, LoadedConfiguration}
use ot_engineering_demonstra.Topology.Models.{TopologyResult, IsolationProof, DerivedFeederLoad}
use ot_engineering_demonstra.Restoration.{
  RestorationCandidate, RestorationTelemetryEvidence, RestorationCalculation, PermissiveResult,
  RestorationAssessmentInputs,
}
use ot_engineering_demonstra.Restoration.Candidate.{item, point_states}
use ot_engineering_demonstra.Restoration.Capacity.{calculate_capacity}

abbrev pub pass_if : Bool → PermissiveStatus
pass_if true = pass
pass_if false = fail

abbrev evidence_ids : List RestorationTelemetryEvidence → List String
evidence_ids = map λ e. e.point_id

unfoldable pub telemetry_permissive : List RestorationTelemetryEvidence → PermissiveResult
telemetry_permissive evidence =
    let invalid = any (λ e. not e.overall_valid) evidence in
    record {
      criterion = telemetry_validity;
      status = if invalid then insufficient else pass;
      reason_codes =
          (if invalid then "REQUIRED_TELEMETRY_UNTRUSTWORTHY" else "REQUIRED_TELEMETRY_TRUSTWORTHY")
          ∷ [];
      evidence_point_ids = evidence_ids evidence;
    }

abbrev pub proof_isolated : Option IsolationProof → Bool
proof_isolated none = false
proof_isolated (some p) = p.isolated

abbrev proof_boundaries : Option IsolationProof → List String
proof_boundaries none = []
proof_boundaries (some p) = p.incident_boundary_device_ids

unfoldable pub isolation_permissive : Option IsolationProof → PermissiveResult
isolation_permissive proof = record {
  criterion = fault_isolation;
  status = pass_if (proof_isolated proof);
  reason_codes =
      (if proof_isolated proof then "FAULT_ISOLATION_PROVEN" else "FAULT_ISOLATION_NOT_PROVEN")
      ∷ [];
  evidence_point_ids = proof_boundaries proof;
}

-- `all` over the sections, which stops at the first that the feeder does not reach.
unfoldable pub all_supplied : TopologyResult → String → List String → Result Bool
all_supplied proposed feeder [] = ok true
all_supplied proposed feeder (id ∷ ids) = do
  section ← or_raise (find (λ s. s.section_id == id) proposed.sections) stop_iteration
  elim (contains section.source_feeder_ids feeder) [
    | true ↦ all_supplied proposed feeder ids
    | false ↦ ok false
  ]

abbrev unless : Bool → String → List String
unless true code = []
unless false code = code ∷ []

abbrev or_proven : List String → List String
or_proven [] = "ALTERNATE_SOURCE_AND_PATH_PROVEN" ∷ []
or_proven (r ∷ rs) = r ∷ rs

unfoldable pub alternate_result : RestorationCandidate → Bool → Bool → Bool → PermissiveResult
alternate_result candidate source_available breaker_closed supplied = record {
  criterion = alternate_source;
  status = pass_if (source_available && breaker_closed && supplied);
  reason_codes = or_proven (
      unless source_available "ALTERNATE_SOURCE_AVAILABLE"
      ++ (unless breaker_closed "ALTERNATE_BREAKER_CLOSED"
          ++ unless supplied "ALTERNATE_SOURCE_PATH_PROVEN"));
  evidence_point_ids = candidate.alternate_source_breaker_id ∷ [];
}

unfoldable pub alternate_permissive :
    RestorationAssessmentInputs → TopologyResult → RestorationCandidate → Result PermissiveResult
alternate_permissive inputs proposed candidate = do
  availability ← item candidate.alternate_source_id inputs.source_availability
  breaker ← item candidate.alternate_source_breaker_id (point_states inputs)
  supplied ← all_supplied proposed candidate.alternate_feeder_id candidate.proposed_section_ids
  ok (alternate_result candidate (is_available availability) (is_closed breaker) supplied)

-- `evaluate_radiality`
unfoldable pub evaluate_radiality : TopologyResult → List String → PermissiveResult
evaluate_radiality proposed evidence = record {
  criterion = radial_topology;
  status = pass_if (is_radial proposed.radiality_status);
  reason_codes =
      (if is_radial proposed.radiality_status
        then "PROPOSED_TOPOLOGY_RADIAL"
        else "PROPOSED_TOPOLOGY_UNINTENDED_LOOP")
      ∷ [];
  evidence_point_ids = evidence;
}

abbrev pub attributed : DerivedFeederLoad → Option ℕ
attributed load = if load.load_attribution_complete then load.currently_supplied_load_kw else none

unfoldable pub capacity_result : RestorationCalculation → PermissiveResult
capacity_result calculation = record {
  criterion = capacity;
  status = pass_if calculation.capacity_pass;
  reason_codes =
      (if calculation.capacity_pass
        then "RESULTING_LOAD_WITHIN_CAPACITY"
        else "RESULTING_LOAD_EXCEEDS_CAPACITY")
      ∷ [];
  evidence_point_ids = [];
}

-- The calculation and the permissive, by the load that can be attributed to the feeder.
unfoldable pub capacity_of :
    Feeder
    → RestorationCandidate
    → Option ℕ
    → Result (Option RestorationCalculation × PermissiveResult)
capacity_of feeder candidate none = ok (
  none,
  record {
    criterion = capacity;
    status = insufficient;
    reason_codes = "CURRENT_FEEDER_LOAD_UNATTRIBUTABLE" ∷ [];
    evidence_point_ids = [];
  },
)
capacity_of feeder candidate (some existing) = do
  calculation ←
      calculate_capacity feeder.entity_id existing candidate.transferable_load_kw feeder.capacity_kw
  ok (some calculation, capacity_result calculation)

unfoldable pub capacity_permissive :
    LoadedConfiguration
    → TopologyResult
    → RestorationCandidate
    → Result (Option RestorationCalculation × PermissiveResult)
capacity_permissive loaded current candidate = do
  load ←
      or_raise (find (λ l. l.feeder_id == candidate.alternate_feeder_id) current.feeder_loads)
        stop_iteration
  feeder ←
      or_raise (find (λ f. f.entity_id == candidate.alternate_feeder_id) loaded.config.feeders)
        stop_iteration
  capacity_of feeder candidate (attributed load)

abbrev reasons_of : (PermissiveStatus → Bool) → List PermissiveResult → List String
reasons_of test ps = concat_map (λ p. p.reason_codes) (filter (λ p. test p.status) ps)

-- The outcome and its reasons.
unfoldable pub conclude : List PermissiveResult → RestorationOutcome × List String
conclude permissives =
    if any (λ p. is_insufficient p.status) permissives
    then (
      blocked,
      "INSUFFICIENT_OR_UNRELIABLE_INFORMATION" ∷ reasons_of is_insufficient permissives,
    )
    else if any (λ p. is_fail p.status) permissives
    then (rejected, reasons_of is_fail permissives)
    else (permitted, "ALL_RESTORATION_PERMISSIVES_PASS" ∷ [])
