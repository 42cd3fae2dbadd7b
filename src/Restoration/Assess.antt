-- ===== src/Restoration/Assess.antt =====
-- restoration/service.py: `assess`.
pub mod Safety
pub mod Outcome
use ot_engineering_demonstra.Base.{
  String, ◌==◌, ℕ, Bool, Option, none, some, List, [], ◌∷◌, map, filter, contains, by_id, Dict,
  Result, ok, ◌>>=◌, map_m,
}
use ot_engineering_demonstra.Base.Sort.{sort_on}
use ot_engineering_demonstra.Domain.{no_candidate, RestorationOutcome}
use ot_engineering_demonstra.Domain.Config.{LoadedConfiguration}
use ot_engineering_demonstra.Telemetry.{TelemetryPoint, TelemetryValidity}
use ot_engineering_demonstra.Restoration.{
  Libraries, RestorationCandidate, RestorationTelemetryEvidence, RestorationCalculation,
  PermissiveResult, RestorationAssessment, RestorationAssessmentInputs,
}
use ot_engineering_demonstra.Restoration.Candidate.{item, discover_candidate, proposed_topology}
use ot_engineering_demonstra.Restoration.Permissives.{
  telemetry_permissive, isolation_permissive, alternate_permissive, evaluate_radiality,
  capacity_permissive, conclude,
}

-- `_required_evidence_points`
unfoldable pub required_evidence_points :
    LoadedConfiguration → List TelemetryPoint → List TelemetryPoint
required_evidence_points loaded telemetry =
    sort_on (λ p. p.point_id)
      (filter
        (λ p.
          contains
            (map (λ d. d.entity_id) (filter (λ d. d.monitored) loaded.config.switching_devices))
            p.entity_id)
        telemetry)

-- `_evidence`
unfoldable pub evidence_of : TelemetryPoint → TelemetryValidity → RestorationTelemetryEvidence
evidence_of point validity = record {
  point_id = point.point_id;
  entity_id = point.entity_id;
  value = point.value;
  quality = point.quality;
  timestamp = point.last_update_scenario_time;
  revision = point.revision;
  age_ms = validity.age_ms;
  freshness = validity.freshness;
  overall_valid = validity.overall_valid;
  reason_codes = validity.reason_codes;
}

unfoldable pub evidence_list :
    RestorationAssessmentInputs → List TelemetryPoint → Result (List RestorationTelemetryEvidence)
evidence_list inputs points =
    map_m
      (λ p. do
        validity ← item p.point_id (by_id (λ v. v.point_id) inputs.telemetry_validity)
        ok (evidence_of p validity))
      points

module _ (L : Libraries) (loaded : LoadedConfiguration) (inputs : RestorationAssessmentInputs) where
  -- The assessment with everything that depends on the candidate left open.
  unfoldable pub assessment_of :
      Option RestorationCandidate
      → List TelemetryPoint
      → List RestorationTelemetryEvidence
      → List PermissiveResult
      → Option RestorationCalculation
      → RestorationOutcome × List String
      → RestorationAssessment
  assessment_of candidate points evidence permissives calculation conclusion = record {
    assessment_id = inputs.assessment_id;
    assessment_sequence = inputs.assessment_sequence;
    scenario_run_id = inputs.scenario_run_id;
    configuration_id = loaded.configuration_id;
    state_revision = inputs.state_revision;
    scenario_time = inputs.scenario_time;
    candidate = candidate;
    telemetry_snapshot_sha256 = L.sha256_points (sort_on (λ p. p.point_id) points);
    source_availability_sha256 = L.sha256_sources (sort_on (λ s. s.0) inputs.source_availability);
    telemetry_evidence = evidence;
    source_availability = inputs.source_availability;
    permissives = permissives;
    calculation = calculation;
    outcome = conclusion.0;
    reason_codes = conclusion.1;
  }

  unfoldable pub assess_candidate :
      List TelemetryPoint
      → List RestorationTelemetryEvidence
      → RestorationCandidate
      → Result RestorationAssessment
  assess_candidate points evidence candidate = do
    proposed ← proposed_topology L loaded inputs candidate
    alternate ← alternate_permissive inputs proposed candidate
    capacity ← capacity_permissive loaded inputs.current_topology candidate
    let permissives =
        isolation_permissive inputs.current_topology.isolation_proof
        ∷ alternate
        ∷ evaluate_radiality proposed (map (λ e. e.point_id) evidence)
        ∷ telemetry_permissive evidence
        ∷ capacity.1
        ∷ []
    ok (
        assessment_of (some candidate) points evidence permissives capacity.0
          (conclude permissives))

  unfoldable pub assess : Result RestorationAssessment
  assess = do
    candidate ← discover_candidate L loaded inputs
    let points = required_evidence_points loaded inputs.telemetry
    evidence ← evidence_list inputs points
    elim candidate [
      | none ↦ ok (
          assessment_of none points evidence [] none
            (no_candidate, "NO_RESTORATION_CANDIDATE" ∷ []))
      | some c ↦ assess_candidate points evidence c
    ]
