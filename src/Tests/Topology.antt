-- ===== src/Tests/Topology.antt =====
-- Runs of the topology service on the corrected network, and its theorems there.
use ot_engineering_demonstra.Base.{
  ◌≡◌, ◌↔◌, ◌≢◌, refl, ok, String, List, [], ◌∷◌, Bool, true, false, Option, none, some, not, ◌||◌,
  all, lookup, All, and_true, arith,
}
use ot_engineering_demonstra.Domain.{
  SwitchState, opened, closed, proven_open, proven_closed, unproven, none_satisfied, open_required,
  trustworthy_open, trustworthy_closed, good, fresh,
}
use ot_engineering_demonstra.Domain.Config.{ConnectivityEdge}
use ot_engineering_demonstra.Domain.Validate.{
  validate, device_owned, edge_connects, feeder_valid, edge_valid, collections_present,
}
use ot_engineering_demonstra.Topology.Models.{TopologyResult, SourcePath, BoundaryObservation}
use ot_engineering_demonstra.Topology.Boundary.{touches, evaluate_boundary, isolation_of}
use ot_engineering_demonstra.Topology.Evidence.{
  evaluate_boundary-proof_status, evaluate_boundary-coherent, isolation_of-isolated, Seen, SeenOpen,
}
use ot_engineering_demonstra.Topology.Graph.EdgeList.{edge_list, edge_list-IsLawful}
use ot_engineering_demonstra.Base.{str_leb}
use ot_engineering_demonstra.Base.Sort.{sort_by, tuple_leb}
use ot_engineering_demonstra.Topology.Boundary.{
  boundary_device, incident_boundaries, derive_isolation_proof,
}
use ot_engineering_demonstra.Topology.Paths.{
  device_endpoint, source_side_edge_ids, source_edge, build_graph, path_edges, source_path,
  section_paths, feeder_paths, derive_source_paths, paths_of,
}
use ot_engineering_demonstra.Topology.Supply.{
  injection_breakers, invalid_component, invalid_components, radiality_of, derive_radiality,
  feeder_load, derive_feeder_loads,
}
use ot_engineering_demonstra.Topology.Calculate.{
  calculate, validate_inputs, active_edges, distribution_edges, available_sources,
  available_feeders, active_feeders, section_state, isolation_for,
}
use ot_engineering_demonstra.Topology.Soundness.{derive_source_paths-IsSound, IsSound}
use ot_engineering_demonstra.Topology.Supplied.{calculate-IsRoute, IsRoute, calculate_open_around}
use ot_engineering_demonstra.Tests.Network.{corrected, corrected_v11}
use ot_engineering_demonstra.Tests.Fault.{
  isolated_inputs, isolation_switches, observations_with, returned,
}

abbrev pub corrected_accepted : validate corrected ≡ ok tt
unfolding validate device_owned edge_connects feeder_valid edge_valid collections_present
corrected_accepted = refl

abbrev is_open : Option SwitchState → Bool
is_open none = false
is_open (some closed) = false
is_open (some opened) = true

open_around_of :
    (id : String) (es : List ConnectivityEdge)
    → all
        (λ e.
          not (touches e id)
          || is_open (lookup (device_endpoint corrected e) isolated_inputs.device_states))
        es
      ≡ true
    → All
        (λ e.
          touches e id ≡ true
          → lookup (device_endpoint corrected e) isolated_inputs.device_states ≡ some opened)
        es
open_around_of id [] h = tt
open_around_of id (e ∷ es) h =
    let (first, rest) = and_true _ _ h in
    (
      λ t.
          let o : is_open (lookup (device_endpoint corrected e) isolated_inputs.device_states)
              ≡ true =
            ground arith in
          opened_of _ o,
      open_around_of id es rest,
    )
  where
    opened_of : (o : Option SwitchState) → is_open o ≡ true → o ≡ some opened
    opened_of o h = ground arith

abbrev pub isolated_run :
    (t : TopologyResult) × (calculate edge_list corrected_v11 isolated_inputs ≡ ok t)
unfolding edge_list sort_by str_leb tuple_leb evaluate_boundary boundary_device incident_boundaries
    isolation_of derive_isolation_proof source_side_edge_ids source_edge build_graph path_edges
    source_path section_paths feeder_paths derive_source_paths paths_of injection_breakers
    invalid_component invalid_components radiality_of derive_radiality feeder_load
    derive_feeder_loads validate_inputs active_edges distribution_edges available_sources
    available_feeders active_feeders section_state isolation_for calculate
isolated_run = returned (calculate edge_list corrected_v11 isolated_inputs) refl

-- Paths over all edges, the tie included, from both feeders.
abbrev looped_run :
    (ps : List SourcePath) × (derive_source_paths edge_list corrected
        (build_graph edge_list corrected.connectivity_edges)
        ("FDR-A" ∷ "FDR-B" ∷ [])
      ≡ ok ps)
unfolding edge_list sort_by str_leb source_side_edge_ids source_edge build_graph path_edges
    source_path section_paths feeder_paths derive_source_paths
looped_run =
    returned
      (derive_source_paths edge_list corrected (build_graph edge_list corrected.connectivity_edges)
        ("FDR-A" ∷ "FDR-B" ∷ []))
      refl

derive_source_paths-IsSound_example :
    All (IsSound corrected corrected.connectivity_edges ("FDR-A" ∷ "FDR-B" ∷ [])) looped_run.0
derive_source_paths-IsSound_example =
    derive_source_paths-IsSound edge_list edge_list-IsLawful corrected corrected.connectivity_edges
      ("FDR-A" ∷ "FDR-B" ∷ []) looped_run.1

calculate-IsRoute_example :
    All
      (λ s. All (IsRoute corrected isolated_inputs.device_states isolated_run.0) s.source_paths)
      isolated_run.0.sections
calculate-IsRoute_example =
    calculate-IsRoute edge_list edge_list-IsLawful corrected_v11 isolated_inputs isolated_run.0
      isolated_run.1

calculate_open_around_example :
    All (λ s. s.section_id ≡ "SEC-A2" → s.energised ≡ false) isolated_run.0.sections
calculate_open_around_example =
    calculate_open_around edge_list edge_list-IsLawful corrected_v11 isolated_inputs "SEC-A2"
      isolated_run.0 refl (open_around_of "SEC-A2" corrected.connectivity_edges refl) isolated_run.1

abbrev seen_open : BoundaryObservation
seen_open = record {
  device_id = "SW-A12";
  observed_state = some opened;
  quality = some good;
  freshness_status = some fresh;
}

evaluate_boundary-proof_status_example :
    (((evaluate_boundary "SW-A12" (some seen_open)).proof_status ≡ proven_open)
      ↔ Seen opened seen_open)
    × (((evaluate_boundary "SW-A12" (some seen_open)).proof_status ≡ proven_closed)
        ↔ Seen closed seen_open)
    × ((evaluate_boundary "SW-A12" none).proof_status ≡ unproven)
evaluate_boundary-proof_status_example = evaluate_boundary-proof_status "SW-A12" seen_open

evaluate_boundary-coherent_example :
    let e = evaluate_boundary "SW-A12" (some seen_open) in
    ((e.proof_status ≡ proven_open) ↔ (e.operation_need ≡ none_satisfied))
    × ((e.proof_status ≡ proven_open) ↔ (e.evidence_condition ≡ trustworthy_open))
    × ((e.proof_status ≡ proven_closed) ↔ (e.operation_need ≡ open_required))
    × ((e.proof_status ≡ proven_closed) ↔ (e.evidence_condition ≡ trustworthy_closed))
    × (e.reason_codes ≢ [])
evaluate_boundary-coherent_example = evaluate_boundary-coherent "SW-A12" (some seen_open)

abbrev no_paths : List SourcePath
no_paths = []

isolation_of-isolated_example :
    ((isolation_of "SEC-A2" isolation_switches
        (observations_with isolation_switches)
        no_paths
        []).isolated
      ≡ true)
    ↔ ((isolation_switches ≢ [])
        × All (SeenOpen (observations_with isolation_switches)) isolation_switches
        × (no_paths ≡ []))
isolation_of-isolated_example =
    isolation_of-isolated "SEC-A2" isolation_switches (observations_with isolation_switches)
      no_paths []
