-- ===== src/Tests/Scenario.antt =====
-- A run of the coordinator: a fault is initiated from N0, and the theorems hold of it.
use ot_engineering_demonstra.Base.{
  String, ◌≡◌, ℕ, ◌+◌, refl, ok, none, some, true, false, [], ◌∷◌, ◌++◌, map, str_leb, nat_eq,
}
use ot_engineering_demonstra.Base.Sort.{sort_by, tuple_leb}
use ot_engineering_demonstra.Base.Int.{◌-ℤ◌, ◌+ℤ◌, ◌*ℤ◌}
use ot_engineering_demonstra.Domain.{
  available, formal, exploration, formal_evidence, initialised, normal, n0, n1, initiate_fault,
  proven_closed, open_required, trustworthy_closed, closed, good, fresh,
}
use ot_engineering_demonstra.Telemetry.{classify, instant_to_epoch_ms, split_delta}
use ot_engineering_demonstra.Topology.Graph.EdgeList.{edge_list}
use ot_engineering_demonstra.Topology.Models.{TopologyResult, IsolationProof, BoundaryEvaluation}
use ot_engineering_demonstra.Topology.Boundary.{
  boundary_device, incident_boundaries, derive_isolation_proof, evaluate_boundary, isolation_of,
}
use ot_engineering_demonstra.Topology.Paths.{
  source_side_edge_ids, source_edge, build_graph, path_edges, source_path, section_paths,
  feeder_paths, derive_source_paths, paths_of,
}
use ot_engineering_demonstra.Topology.Supply.{
  injection_breakers, invalid_component, invalid_components, radiality_of, derive_radiality,
  feeder_load, derive_feeder_loads,
}
use ot_engineering_demonstra.Topology.Calculate.{
  validate_inputs, active_edges, distribution_edges, available_sources, available_feeders,
  active_feeders, section_state, isolation_for,
}
use ot_engineering_demonstra.Topology.Calculate as Topology
use ot_engineering_demonstra.Outage.{
  outage_result, outage_valid, de_energised, affected_zones, restored_delta,
}
use ot_engineering_demonstra.Outage as Outage
use ot_engineering_demonstra.Domain.Config.{LoadedConfiguration}
use ot_engineering_demonstra.Scenario.{
  RunContext, ScenarioCommandRequest, CommandResult, formal_n0_n3_definition,
}
use ot_engineering_demonstra.Scenario.Store.{Store, events_of}
use ot_engineering_demonstra.Scenario.Snapshot.{Coordinator, State}
use ot_engineering_demonstra.Scenario.Store.{
  get_run, update_run, put_telemetry, list_telemetry, insert_alarm, next_event_sequence,
  insert_event, insert_events, list_events, insert_derived_snapshots, get_outage_snapshot,
  list_assessments, list_assessment_invalidations, list_alarms, get_command_result,
  insert_command_result,
}
use ot_engineering_demonstra.Scenario.Events.{numbered, events_from_specs, derived_event_specs}
use ot_engineering_demonstra.Scenario.Derive.{topology_inputs, affected_feeder, derive}
use ot_engineering_demonstra.Scenario.Gates.{
  evaluation_by_id, ordered_isolation_boundaries, first_not_open, next_isolation_target,
}
use ot_engineering_demonstra.Scenario.Actions.{
  isolation_gate, actual_boundaries, unacknowledged_alarms, alarm_actions, restore_gate,
  isolated_without_reclose, allowed_actions,
}
use ot_engineering_demonstra.Scenario.Snapshot.{
  is_invalidated, current_executable, assemble_snapshot, record_result, reject, complete_accepted,
}
use ot_engineering_demonstra.Scenario.Operations.{
  derive_after, initiate_fault_at, initiate_fault_command,
}
use ot_engineering_demonstra.Scenario.Execute.{refusal, dispatch, execute_new, execute}
use ot_engineering_demonstra.Scenario.Events.Sequence.{events_from_specs-Numbered, Numbered}
use ot_engineering_demonstra.Scenario.Gates.Isolation.{next_isolation_target-IsNext, IsNext}
use ot_engineering_demonstra.Scenario.Execute.Lifecycle.{Recorded, Concluded}
use ot_engineering_demonstra.Scenario.Replay.Repeated.{Repeats}
use ot_engineering_demonstra.Scenario.Execute.Refusals.{execute_new-Answered, execute-repeated}
use ot_engineering_demonstra.Tests.Network.{corrected_v11}
use ot_engineering_demonstra.Tests.Fault.{
  libraries, at_second, points_with, isolated_topology, returned,
}

abbrev pub coordinator : Coordinator
coordinator = record {
  libraries = libraries;
  definition = formal_n0_n3_definition;
  load = λ version. ok corrected_v11;
  application_build_id = "build";
  failure_hook = λ stage. ok tt;
  uuids = λ n. 100 + n;
  request_sha = λ request. "request";
  initialise_sha = λ request. "initialise";
  result_sha = λ result. "result";
}

abbrev pub start : RunContext
start = record {
  scenario_run_id = 1;
  mode = formal;
  configuration_id = "network-configuration-v1.1";
  configuration_version = "1.1";
  fault_section_id = "SEC-A2";
  initial_scenario_time = at_second 0;
  scenario_time = at_second 0;
  state_revision = 0;
  workflow_stage = normal;
  network_state_label = n0;
  evidence_class = formal_evidence;
  application_build_id = "build";
  status = initialised;
  fault_active = false;
  source_availability = ("ZS-01", available) ∷ [];
}

abbrev pub initial : State
initial = record {
  store = record {
    runs = start ∷ [];
    telemetry =
        map (λ p. record { scenario_run_id = 1; point = p })
          (points_with ("TS-01" ∷ []) (at_second 0));
    alarms = [];
    events = [];
    snapshots =
        record {
          scenario_run_id = 1;
          state_revision = 0;
          topology = isolated_topology;
          outage = record {
            configuration_id = "network-configuration-v1.1";
            de_energised_section_ids = [];
            affected_customer_zones = [];
            affected_customer_count = 0;
            restored_customer_delta = 0;
          };
        }
        ∷ [];
    command_results = [];
    assessments = [];
    invalidations = [];
  };
  drawn = 0;
  replay_comparisons = [];
}

abbrev pub fault_request : ScenarioCommandRequest
fault_request = record {
  command_id = 50;
  scenario_run_id = 1;
  actor = "operator";
  expected_revision = 0;
  command_type = initiate_fault;
  scenario_time = at_second 10;
  target_entity_id = none;
  requested_state = none;
  alarm_id = none;
  assessment_id = none;
}

abbrev fault_run :
    (a : CommandResult × State) × (execute_new coordinator initial fault_request ≡ ok a)
unfolding edge_list sort_by str_leb tuple_leb evaluate_boundary boundary_device incident_boundaries
    isolation_of derive_isolation_proof source_side_edge_ids source_edge build_graph path_edges
    source_path section_paths feeder_paths derive_source_paths paths_of injection_breakers
    invalid_component invalid_components radiality_of derive_radiality feeder_load
    derive_feeder_loads validate_inputs active_edges distribution_edges available_sources
    available_feeders active_feeders section_state isolation_for Topology.calculate outage_result
    outage_valid de_energised affected_zones restored_delta Outage.calculate classify
    instant_to_epoch_ms split_delta ◌-ℤ◌ ◌+ℤ◌ ◌*ℤ◌ get_run update_run put_telemetry list_telemetry
    insert_alarm next_event_sequence insert_event insert_events list_events insert_derived_snapshots
    get_outage_snapshot list_assessments list_assessment_invalidations list_alarms
    get_command_result insert_command_result numbered events_from_specs derived_event_specs
    topology_inputs affected_feeder derive ordered_isolation_boundaries first_not_open
    next_isolation_target isolation_gate actual_boundaries unacknowledged_alarms alarm_actions
    restore_gate isolated_without_reclose allowed_actions is_invalidated current_executable
    assemble_snapshot record_result reject complete_accepted derive_after initiate_fault_at
    initiate_fault_command refusal dispatch execute_new execute
fault_run = returned (execute_new coordinator initial fault_request) refl

execute_new-Answered_example :
    (run : RunContext) × (loaded : LoadedConfiguration) × (get_run initial.store 1 ≡ ok run)
    × Recorded coordinator loaded fault_request fault_run.0.0 fault_run.0.1
    × Concluded coordinator loaded fault_request initiate_fault run fault_run.0.0 fault_run.0.1
execute_new-Answered_example =
    execute_new-Answered coordinator initial fault_request fault_run.0 fault_run.1

abbrev execute_run :
    (a : CommandResult × State) × (execute coordinator initial 1 fault_request ≡ ok a)
unfolding edge_list sort_by str_leb tuple_leb evaluate_boundary boundary_device incident_boundaries
    isolation_of derive_isolation_proof source_side_edge_ids source_edge build_graph path_edges
    source_path section_paths feeder_paths derive_source_paths paths_of injection_breakers
    invalid_component invalid_components radiality_of derive_radiality feeder_load
    derive_feeder_loads validate_inputs active_edges distribution_edges available_sources
    available_feeders active_feeders section_state isolation_for Topology.calculate outage_result
    outage_valid de_energised affected_zones restored_delta Outage.calculate classify
    instant_to_epoch_ms split_delta ◌-ℤ◌ ◌+ℤ◌ ◌*ℤ◌ get_run update_run put_telemetry list_telemetry
    insert_alarm next_event_sequence insert_event insert_events list_events insert_derived_snapshots
    get_outage_snapshot list_assessments list_assessment_invalidations list_alarms
    get_command_result insert_command_result numbered events_from_specs derived_event_specs
    topology_inputs affected_feeder derive ordered_isolation_boundaries first_not_open
    next_isolation_target isolation_gate actual_boundaries unacknowledged_alarms alarm_actions
    restore_gate isolated_without_reclose allowed_actions is_invalidated current_executable
    assemble_snapshot record_result reject complete_accepted derive_after initiate_fault_at
    initiate_fault_command refusal dispatch execute_new execute
execute_run = returned (execute coordinator initial 1 fault_request) refl

execute-repeated_example :
    Repeats coordinator 50 "request" (λ u. execute coordinator u 1 fault_request) execute_run.0
execute-repeated_example =
    execute-repeated coordinator initial 1 fault_request execute_run.0 execute_run.1

abbrev uuids : ℕ → ℕ
uuids n = 100 + n

abbrev insertion :
    (t : Store) × (insert_events initial.store
        (events_from_specs uuids initial.store start 50 "operator" 0 (derived_event_specs none))
      ≡ ok t)
unfolding insert_events insert_event events_from_specs numbered derived_event_specs
    next_event_sequence
insertion =
    returned
      (insert_events initial.store
        (events_from_specs uuids initial.store start 50 "operator" 0 (derived_event_specs none)))
      refl

events_from_specs-Numbered_example :
    Numbered 1 (events_of insertion.0 1)
    × (events_of insertion.0 1
        ≡ events_of initial.store 1
          ++ events_from_specs uuids initial.store start 50 "operator" 0 (derived_event_specs none))
    × ((id : ℕ) → nat_eq 1 id ≡ false → events_of insertion.0 id ≡ events_of initial.store id)
events_from_specs-Numbered_example =
    events_from_specs-Numbered uuids start 50 "operator" initial.store insertion.0 0
      (derived_event_specs none) tt insertion.1

abbrev evaluation : String → BoundaryEvaluation
evaluation id = record {
  boundary_device_id = id;
  observed_state = some closed;
  quality = some good;
  freshness_status = some fresh;
  evidence_condition = trustworthy_closed;
  proof_status = proven_closed;
  operation_need = open_required;
  reason_codes = "TRUSTWORTHY_CLOSED_REQUIRES_OPEN" ∷ [];
}

abbrev closed_proof : IsolationProof
closed_proof = record {
  fault_section_id = "SEC-A2";
  incident_boundary_device_ids = "SW-A12" ∷ "SW-A23" ∷ [];
  boundary_evaluations = evaluation "SW-A12" ∷ evaluation "SW-A23" ∷ [];
  evaluated_source_feeder_ids = [];
  active_source_paths = [];
  all_boundaries_proven_open = false;
  zero_active_source_paths = true;
  isolated = false;
  reason_codes = [];
}

abbrev closed_topology : TopologyResult
closed_topology = record isolated_topology { isolation_proof = some closed_proof }

abbrev at_n1 : RunContext
at_n1 = record start { network_state_label = n1; fault_active = true }

abbrev exploring : RunContext
exploring = record at_n1 { mode = exploration }

next_isolation_target_example :
    (at_n1.network_state_label ≡ n1)
    × ((proof : IsolationProof) × (closed_topology.isolation_proof ≡ some proof)
        × IsNext
            (evaluation_by_id proof)
            (ordered_isolation_boundaries formal_n0_n3_definition at_n1
              proof.incident_boundary_device_ids)
            "SW-A12")
unfolding next_isolation_target first_not_open ordered_isolation_boundaries sort_by str_leb
next_isolation_target_example =
    next_isolation_target-IsNext formal_n0_n3_definition at_n1 closed_topology "SW-A12" refl
