-- ===== src/Tests/Restoration.antt =====
-- The restoration theorems at the isolated fault, where the tie to FDR-B can be closed.
use ot_engineering_demonstra.Base.{
  ◌≡◌, ◌≢◌, ◌↔◌, ◌⊎◌, arith, refl, ℕ, Bool, false, Result, ok, err, division_error,
  invalid_operation, Option, none, some, true, [], ◌∷◌, map, any, str_leb,
}
use ot_engineering_demonstra.Base.Sort.{sort_by, tuple_leb}
use ot_engineering_demonstra.Base.Int.{◌-ℤ◌, ◌+ℤ◌, ◌*ℤ◌}
use ot_engineering_demonstra.Domain.{
  RestorationOutcome, available, no_candidate, blocked, rejected, permitted, is_fail,
  is_insufficient,
}
use ot_engineering_demonstra.Telemetry.{classify, instant_to_epoch_ms, split_delta}
use ot_engineering_demonstra.Topology.Graph.EdgeList.{edge_list}
use ot_engineering_demonstra.Topology.Boundary.{
  boundary_device, incident_boundaries, derive_isolation_proof, evaluate_boundary, isolation_of,
}
use ot_engineering_demonstra.Topology.Paths.{
  source_side_edge_ids, source_edge, build_graph, path_edges, source_path, section_paths,
  feeder_paths, derive_source_paths, paths_of,
}
use ot_engineering_demonstra.Topology.Supply.{
  injection_breakers, invalid_component, invalid_components, radiality_of, derive_radiality,
  feeder_load, derive_feeder_loads,
}
use ot_engineering_demonstra.Topology.Calculate.{
  calculate, validate_inputs, active_edges, distribution_edges, available_sources,
  available_feeders, active_feeders, section_state, isolation_for,
}
use ot_engineering_demonstra.Restoration.{
  RestorationAssessment, RestorationAssessmentInputs, RestorationCalculation,
}
use ot_engineering_demonstra.Restoration.Candidate.{
  adjacent_sections, affected_sides, restorable, alternate_paths, structural_topology, candidate_of,
  tie_candidate, try_tie, search_ties, discover_candidate, proposed_topology,
}
use ot_engineering_demonstra.Restoration.Capacity.{calculate_capacity}
use ot_engineering_demonstra.Restoration.Permissives.{
  telemetry_permissive, isolation_permissive, all_supplied, alternate_result, alternate_permissive,
  evaluate_radiality, capacity_result, capacity_of, capacity_permissive, conclude,
}
use ot_engineering_demonstra.Restoration.Assess.{
  assess, assess_candidate, assessment_of, evidence_list, evidence_of, required_evidence_points,
}
use ot_engineering_demonstra.Restoration.Assess.Outcome.{
  assess-outcome, conclude-outcome, AllPass, NoCandidate, Decided,
}
use ot_engineering_demonstra.Restoration.Assess.Safety.{assess-IsSafe, IsSafe}
use ot_engineering_demonstra.Tests.Network.{corrected_v11}
use ot_engineering_demonstra.Tests.Fault.{
  libraries, at_second, points_with, isolation_switches, isolated_topology,
}

abbrev inputs : RestorationAssessmentInputs
inputs = record {
  assessment_id = 1;
  assessment_sequence = 1;
  scenario_run_id = 2;
  state_revision = 4;
  scenario_time = at_second 50;
  fault_section_id = "SEC-A2";
  telemetry = points_with ("TS-01" ∷ isolation_switches) (at_second 40);
  telemetry_validity =
      map (λ p. classify p (at_second 50))
        (points_with ("TS-01" ∷ isolation_switches) (at_second 40));
  source_availability = ("ZS-01", available) ∷ [];
  current_topology = isolated_topology;
  current_outage = record {
    configuration_id = "network-configuration-v1.1";
    de_energised_section_ids = "SEC-A2" ∷ "SEC-A3" ∷ "SEC-A4" ∷ [];
    affected_customer_zones = [];
    affected_customer_count = 0;
    restored_customer_delta = 0;
  };
}

abbrev passes_with : RestorationOutcome → Bool
passes_with permitted = true
passes_with _ = false

abbrev is_permitted : Result RestorationAssessment → Bool
is_permitted (ok a) = passes_with a.outcome
is_permitted (err e) = false

permitted_of :
    (m : Result RestorationAssessment)
    → is_permitted m ≡ true
    → (a : RestorationAssessment) × (m ≡ ok a) × (a.outcome ≡ permitted)
permitted_of (ok a) h = (a, refl, ground arith)
permitted_of (err e) h = cc

abbrev assess_run :
    (a : RestorationAssessment) × (assess libraries corrected_v11 inputs ≡ ok a)
    × (a.outcome ≡ permitted)
unfolding edge_list sort_by str_leb tuple_leb evaluate_boundary boundary_device incident_boundaries
    isolation_of derive_isolation_proof source_side_edge_ids source_edge build_graph path_edges
    source_path section_paths feeder_paths derive_source_paths paths_of injection_breakers
    invalid_component invalid_components radiality_of derive_radiality feeder_load
    derive_feeder_loads validate_inputs active_edges distribution_edges available_sources
    available_feeders active_feeders section_state isolation_for calculate adjacent_sections
    affected_sides restorable alternate_paths structural_topology candidate_of tie_candidate try_tie
    search_ties discover_candidate proposed_topology calculate_capacity telemetry_permissive
    isolation_permissive all_supplied alternate_result alternate_permissive evaluate_radiality
    capacity_result capacity_of capacity_permissive conclude assess assess_candidate assessment_of
    evidence_list evidence_of required_evidence_points classify instant_to_epoch_ms split_delta ◌-ℤ◌
    ◌+ℤ◌ ◌*ℤ◌
assess_run = permitted_of (assess libraries corrected_v11 inputs) refl

assess-IsSafe_example : IsSafe libraries corrected_v11 inputs assess_run.0
assess-IsSafe_example =
    assess-IsSafe libraries corrected_v11 inputs assess_run.0 assess_run.1 assess_run.2

assess-outcome_example :
    (discover_candidate libraries corrected_v11 inputs ≡ ok assess_run.0.candidate)
    × (NoCandidate libraries corrected_v11 inputs assess_run.0
        ⊎ ((assess_run.0.candidate ≢ none) × Decided assess_run.0))
assess-outcome_example = assess-outcome libraries corrected_v11 inputs assess_run.0 assess_run.1

conclude-outcome_example :
    let ps = assess_run.0.permissives in
    (((conclude ps).0 ≡ blocked) ↔ (any (λ p. is_insufficient p.status) ps ≡ true))
    × (((conclude ps).0 ≡ rejected) ↔ (
        (any (λ p. is_insufficient p.status) ps ≡ false) × (any (λ p. is_fail p.status) ps ≡ true)))
    × (((conclude ps).0 ≡ permitted) ↔ AllPass ps)
    × ((conclude ps).0 ≢ no_candidate)
conclude-outcome_example = conclude-outcome assess_run.0.permissives

abbrev safe : IsSafe libraries corrected_v11 inputs assess_run.0
safe = assess-IsSafe libraries corrected_v11 inputs assess_run.0 assess_run.1 assess_run.2

abbrev tenths_of : Result RestorationCalculation → Option ℕ
tenths_of (ok r) = some r.resulting_loading_percent_tenths
tenths_of (err failure) = none

-- 5700 kW over 5900 kW is 96.6 percent, and 1 kW over 2000 kW rounds up to 0.1 percent.
capacity_tenths : tenths_of (calculate_capacity "FDR-B" 4200 1500 5900) ≡ some 966
unfolding calculate_capacity
capacity_tenths = refl

capacity_half_up : tenths_of (calculate_capacity "FDR-B" 1 0 2000) ≡ some 1
unfolding calculate_capacity
capacity_half_up = refl

-- 10^27 kW over 1 kW has too many digits, and 0 kW over 0 kW is not a number.
capacity_too_large :
    calculate_capacity "FDR-B" 1000000000000000000000000000 0 1 ≡ err invalid_operation
unfolding calculate_capacity
capacity_too_large = refl

capacity_undefined : calculate_capacity "FDR-B" 0 0 0 ≡ err invalid_operation
unfolding calculate_capacity
capacity_undefined = refl

capacity_by_zero : calculate_capacity "FDR-B" 1 0 0 ≡ err division_error
unfolding calculate_capacity
capacity_by_zero = refl
