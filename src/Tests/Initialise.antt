-- ===== src/Tests/Initialise.antt =====
-- A run is initialised in an empty database, and replaces the run of another.
use ot_engineering_demonstra.Base.{◌≡◌, refl, ok, none, [], str_leb}
use ot_engineering_demonstra.Base.Sort.{sort_by, tuple_leb}
use ot_engineering_demonstra.Base.Int.{◌-ℤ◌, ◌+ℤ◌, ◌*ℤ◌}
use ot_engineering_demonstra.Domain.{formal}
use ot_engineering_demonstra.Telemetry.{classify, instant_to_epoch_ms, split_delta}
use ot_engineering_demonstra.Topology.Graph.EdgeList.{edge_list}
use ot_engineering_demonstra.Topology.Boundary.{
  boundary_device, incident_boundaries, derive_isolation_proof, evaluate_boundary, isolation_of,
}
use ot_engineering_demonstra.Topology.Paths.{
  source_side_edge_ids, source_edge, build_graph, path_edges, source_path, section_paths,
  feeder_paths, derive_source_paths, paths_of,
}
use ot_engineering_demonstra.Topology.Supply.{
  injection_breakers, invalid_component, invalid_components, radiality_of, derive_radiality,
  feeder_load, derive_feeder_loads,
}
use ot_engineering_demonstra.Topology.Calculate.{
  validate_inputs, normal_inputs, active_edges, distribution_edges, available_sources,
  available_feeders, active_feeders, section_state, isolation_for,
}
use ot_engineering_demonstra.Topology.Calculate as Topology
use ot_engineering_demonstra.Outage.{
  outage_result, outage_valid, de_energised, affected_zones, restored_delta,
}
use ot_engineering_demonstra.Outage as Outage
use ot_engineering_demonstra.Scenario.{InitialiseRunRequest, CommandResult}
use ot_engineering_demonstra.Scenario.Snapshot.{State}
use ot_engineering_demonstra.Scenario.Store.{
  get_run, put_telemetry, list_telemetry, insert_alarm, next_event_sequence, insert_event,
  insert_events, list_events, insert_derived_snapshots, get_outage_snapshot, list_assessments,
  list_assessment_invalidations, list_alarms, get_command_result, insert_command_result, insert_run,
  has_mutable_run, get_mutable_run, update_run, insert_assessment_invalidation,
}
use ot_engineering_demonstra.Scenario.Events.{
  initial_specs, numbered, events_from_specs, derived_event_specs,
}
use ot_engineering_demonstra.Scenario.Derive.{topology_inputs, affected_feeder, derive}
use ot_engineering_demonstra.Scenario.Gates.{
  ordered_isolation_boundaries, first_not_open, next_isolation_target,
}
use ot_engineering_demonstra.Scenario.Actions.{
  isolation_gate, actual_boundaries, unacknowledged_alarms, alarm_actions, restore_gate,
  isolated_without_reclose, allowed_actions,
}
use ot_engineering_demonstra.Scenario.Snapshot.{
  is_invalidated, current_executable, assemble_snapshot,
}
use ot_engineering_demonstra.Scenario.Execute.{
  new_run, normal_telemetry, put_all, start_run, current_assessment, invalidate_current, close_run,
}
use ot_engineering_demonstra.Scenario.Initialise.{
  validate_definition, validate_initialisation, record_initialised, initialise_new, initialise,
  replace_new, initialise_replacement_run, initialise_next_run,
}
use ot_engineering_demonstra.Scenario.Replay.Repeated.{Repeats}
use ot_engineering_demonstra.Scenario.Initialise.Started.{
  Started, initialise_next_run-Started, initialise_next_run-repeated,
}
use ot_engineering_demonstra.Tests.Scenario.{coordinator, initial}
use ot_engineering_demonstra.Tests.Fault.{at_second, returned}

abbrev empty : State
empty = record {
  store = record {
    runs = [];
    telemetry = [];
    alarms = [];
    events = [];
    snapshots = [];
    command_results = [];
    assessments = [];
    invalidations = [];
  };
  drawn = 0;
  replay_comparisons = [];
}

abbrev run_request : InitialiseRunRequest
run_request = record {
  command_id = 60;
  actor = "operator";
  expected_revision = 0;
  mode = formal;
  configuration_version = "1.1";
  fault_section_id = none;
  scenario_time = at_second 0;
}

abbrev first_run :
    (a : CommandResult × State) × (initialise_next_run coordinator empty run_request ≡ ok a)
unfolding edge_list sort_by str_leb tuple_leb evaluate_boundary boundary_device incident_boundaries
    isolation_of derive_isolation_proof source_side_edge_ids source_edge build_graph path_edges
    source_path section_paths feeder_paths derive_source_paths paths_of injection_breakers
    invalid_component invalid_components radiality_of derive_radiality feeder_load
    derive_feeder_loads validate_inputs active_edges distribution_edges available_sources
    available_feeders active_feeders section_state isolation_for Topology.calculate outage_result
    outage_valid de_energised affected_zones restored_delta Outage.calculate classify
    instant_to_epoch_ms split_delta ◌-ℤ◌ ◌+ℤ◌ ◌*ℤ◌ get_run update_run put_telemetry list_telemetry
    insert_alarm next_event_sequence insert_event insert_events list_events insert_derived_snapshots
    get_outage_snapshot list_assessments list_assessment_invalidations list_alarms
    get_command_result insert_command_result numbered events_from_specs derived_event_specs
    topology_inputs affected_feeder derive ordered_isolation_boundaries first_not_open
    next_isolation_target isolation_gate actual_boundaries unacknowledged_alarms alarm_actions
    restore_gate isolated_without_reclose allowed_actions is_invalidated current_executable
    assemble_snapshot normal_inputs insert_run has_mutable_run get_mutable_run initial_specs new_run
    normal_telemetry put_all start_run validate_definition validate_initialisation
    record_initialised initialise_new initialise initialise_next_run initialise_replacement_run
    replace_new
first_run = returned (initialise_next_run coordinator empty run_request) refl

initialise_next_run-Started_example : Started coordinator run_request first_run.0
unfolding get_command_result
initialise_next_run-Started_example =
    initialise_next_run-Started coordinator empty run_request first_run.0 refl first_run.1

abbrev replacement :
    (a : CommandResult × State) × (initialise_next_run coordinator initial run_request ≡ ok a)
unfolding edge_list sort_by str_leb tuple_leb evaluate_boundary boundary_device incident_boundaries
    isolation_of derive_isolation_proof source_side_edge_ids source_edge build_graph path_edges
    source_path section_paths feeder_paths derive_source_paths paths_of injection_breakers
    invalid_component invalid_components radiality_of derive_radiality feeder_load
    derive_feeder_loads validate_inputs active_edges distribution_edges available_sources
    available_feeders active_feeders section_state isolation_for Topology.calculate outage_result
    outage_valid de_energised affected_zones restored_delta Outage.calculate classify
    instant_to_epoch_ms split_delta ◌-ℤ◌ ◌+ℤ◌ ◌*ℤ◌ get_run update_run put_telemetry list_telemetry
    insert_alarm next_event_sequence insert_event insert_events list_events insert_derived_snapshots
    get_outage_snapshot list_assessments list_assessment_invalidations list_alarms
    get_command_result insert_command_result numbered events_from_specs derived_event_specs
    topology_inputs affected_feeder derive ordered_isolation_boundaries first_not_open
    next_isolation_target isolation_gate actual_boundaries unacknowledged_alarms alarm_actions
    restore_gate isolated_without_reclose allowed_actions is_invalidated current_executable
    assemble_snapshot normal_inputs insert_run has_mutable_run get_mutable_run initial_specs new_run
    normal_telemetry put_all start_run validate_definition validate_initialisation
    record_initialised initialise_new initialise replace_new initialise_replacement_run
    current_assessment invalidate_current close_run insert_assessment_invalidation
    initialise_next_run
replacement = returned (initialise_next_run coordinator initial run_request) refl

initialise_next_run-repeated_example :
    Repeats coordinator 60 "initialise"
      (λ u. initialise_next_run coordinator u run_request)
      replacement.0
initialise_next_run-repeated_example =
    initialise_next_run-repeated coordinator initial run_request replacement.0 replacement.1
