-- ===== src/Tests/History.antt =====
-- A fault is initiated in a run beside one that was closed earlier.
use ot_engineering_demonstra.Base.{◌≡◌, refl, ok, true, [], ◌∷◌, str_leb}
use ot_engineering_demonstra.Base.Sort.{sort_by, tuple_leb}
use ot_engineering_demonstra.Base.Int.{◌-ℤ◌, ◌+ℤ◌, ◌*ℤ◌}
use ot_engineering_demonstra.Domain.{closed_run}
use ot_engineering_demonstra.Telemetry.{classify, instant_to_epoch_ms, split_delta}
use ot_engineering_demonstra.Topology.Graph.EdgeList.{edge_list}
use ot_engineering_demonstra.Topology.Boundary.{
  boundary_device, incident_boundaries, derive_isolation_proof, evaluate_boundary, isolation_of,
}
use ot_engineering_demonstra.Topology.Paths.{
  source_side_edge_ids, source_edge, build_graph, path_edges, source_path, section_paths,
  feeder_paths, derive_source_paths, paths_of,
}
use ot_engineering_demonstra.Topology.Supply.{
  injection_breakers, invalid_component, invalid_components, radiality_of, derive_radiality,
  feeder_load, derive_feeder_loads,
}
use ot_engineering_demonstra.Topology.Calculate.{
  validate_inputs, active_edges, distribution_edges, available_sources, available_feeders,
  active_feeders, section_state, isolation_for,
}
use ot_engineering_demonstra.Topology.Calculate as Topology
use ot_engineering_demonstra.Outage.{
  outage_result, outage_valid, de_energised, affected_zones, restored_delta,
}
use ot_engineering_demonstra.Outage as Outage
use ot_engineering_demonstra.Scenario.{RunContext, CommandResult}
use ot_engineering_demonstra.Scenario.Snapshot.{State}
use ot_engineering_demonstra.Scenario.Store.{
  get_run, update_run, put_telemetry, list_telemetry, insert_alarm, next_event_sequence,
  insert_event, insert_events, list_events, insert_derived_snapshots, get_outage_snapshot,
  list_assessments, list_assessment_invalidations, list_alarms, get_command_result,
  insert_command_result,
}
use ot_engineering_demonstra.Scenario.Events.{numbered, events_from_specs, derived_event_specs}
use ot_engineering_demonstra.Scenario.Derive.{topology_inputs, affected_feeder, derive}
use ot_engineering_demonstra.Scenario.Gates.{
  ordered_isolation_boundaries, first_not_open, next_isolation_target,
}
use ot_engineering_demonstra.Scenario.Actions.{
  isolation_gate, actual_boundaries, unacknowledged_alarms, alarm_actions, restore_gate,
  isolated_without_reclose, allowed_actions,
}
use ot_engineering_demonstra.Scenario.Snapshot.{
  is_invalidated, current_executable, assemble_snapshot, record_result, reject, complete_accepted,
}
use ot_engineering_demonstra.Scenario.Operations.{
  derive_after, initiate_fault_at, initiate_fault_command,
}
use ot_engineering_demonstra.Scenario.Execute.{refusal, dispatch, execute_new, execute}
use ot_engineering_demonstra.Scenario.Store.{one_mutable}
use ot_engineering_demonstra.Scenario.Execute.Preserved.History.{
  execute-closed_run, execute-one_mutable,
}
use ot_engineering_demonstra.Tests.Scenario.{coordinator, initial, start, fault_request}
use ot_engineering_demonstra.Tests.Fault.{returned}

abbrev earlier : RunContext
earlier = record start { scenario_run_id = 9; status = closed_run }

abbrev archive : State
archive = record initial { store = record initial.store { runs = earlier ∷ start ∷ [] } }

abbrev later_run :
    (a : CommandResult × State) × (execute coordinator archive 1 fault_request ≡ ok a)
unfolding edge_list sort_by str_leb tuple_leb evaluate_boundary boundary_device incident_boundaries
    isolation_of derive_isolation_proof source_side_edge_ids source_edge build_graph path_edges
    source_path section_paths feeder_paths derive_source_paths paths_of injection_breakers
    invalid_component invalid_components radiality_of derive_radiality feeder_load
    derive_feeder_loads validate_inputs active_edges distribution_edges available_sources
    available_feeders active_feeders section_state isolation_for Topology.calculate outage_result
    outage_valid de_energised affected_zones restored_delta Outage.calculate classify
    instant_to_epoch_ms split_delta ◌-ℤ◌ ◌+ℤ◌ ◌*ℤ◌ get_run update_run put_telemetry list_telemetry
    insert_alarm next_event_sequence insert_event insert_events list_events insert_derived_snapshots
    get_outage_snapshot list_assessments list_assessment_invalidations list_alarms
    get_command_result insert_command_result numbered events_from_specs derived_event_specs
    topology_inputs affected_feeder derive ordered_isolation_boundaries first_not_open
    next_isolation_target isolation_gate actual_boundaries unacknowledged_alarms alarm_actions
    restore_gate isolated_without_reclose allowed_actions is_invalidated current_executable
    assemble_snapshot record_result reject complete_accepted derive_after initiate_fault_at
    initiate_fault_command refusal dispatch execute_new execute
later_run = returned (execute coordinator archive 1 fault_request) refl

execute-closed_run_example : get_run later_run.0.1.store 9 ≡ ok earlier
unfolding get_run
execute-closed_run_example =
    execute-closed_run coordinator archive 1 fault_request later_run.0 9 earlier refl refl
      later_run.1

execute-one_mutable_example : one_mutable later_run.0.1.store.runs ≡ true
execute-one_mutable_example =
    execute-one_mutable coordinator archive 1 fault_request later_run.0 refl later_run.1
