-- ===== src/Scenario/Events.antt =====
-- application/scenario_coordinator.py: `_events_from_specs`, and the lists of specifications.
-- `uuids` is the sequence of numbers that `uuid4` yields, read from a position on.
pub mod Sequence
use ot_engineering_demonstra.Base.{String, ℕ, suc, ◌+◌, Option, none, some, List, [], ◌∷◌}
use ot_engineering_demonstra.Domain.{
  SwitchState, opened, closed, scenario_initialised, configuration_selected, fault_initiated,
  telemetry_updated, device_state_change, alarm_generated, switching_action, topology_recalculated,
  outage_updated, scenario_control, gis, scada, operator, adms_topology, oms,
}
use ot_engineering_demonstra.Scenario.{RunContext, OperationalEvent, EventSpec}
use ot_engineering_demonstra.Scenario.Store.{Store, next_event_sequence}

abbrev pub event_of : RunContext → ℕ → String → ℕ → ℕ → EventSpec → OperationalEvent
event_of run command_id actor event_id sequence spec = record {
  event_id = event_id;
  scenario_run_id = run.scenario_run_id;
  event_sequence = sequence;
  scenario_time = run.scenario_time;
  state_revision = run.state_revision;
  source = spec.source;
  event_type = spec.event_type;
  affected_entity_id = spec.affected_entity_id;
  actor = actor;
  previous_value = spec.previous_value;
  new_value = spec.new_value;
  command_id = command_id;
  alarm_id = spec.alarm_id;
  assessment_id = spec.assessment_id;
}

module _ (uuids : ℕ → ℕ) where
  -- The events of the specifications, numbered from `sequence` on.
  unfoldable pub numbered : RunContext → ℕ → String → ℕ → ℕ → List EventSpec → List OperationalEvent
  numbered run command_id actor position sequence [] = []
  numbered run command_id actor position sequence (spec ∷ specs) =
      event_of run command_id actor (uuids position) sequence spec
      ∷ numbered run command_id actor (suc position) (suc sequence) specs

  unfoldable pub events_from_specs :
      Store → RunContext → ℕ → String → ℕ → List EventSpec → List OperationalEvent
  events_from_specs s run command_id actor position specs =
      numbered run command_id actor position (next_event_sequence s run.scenario_run_id) specs

-- `_derived_event_specs`
unfoldable pub derived_event_specs : Option ℕ → List EventSpec
derived_event_specs assessment_id =
    record {
      source = adms_topology;
      event_type = topology_recalculated;
      affected_entity_id = none;
      previous_value = none;
      new_value = none;
      alarm_id = none;
      assessment_id = assessment_id;
    }
    ∷ record {
      source = oms;
      event_type = outage_updated;
      affected_entity_id = none;
      previous_value = none;
      new_value = none;
      alarm_id = none;
      assessment_id = assessment_id;
    }
    ∷ []

-- `_initial_events`, as specifications
unfoldable pub initial_specs : RunContext → List EventSpec
initial_specs run =
    record {
      source = scenario_control;
      event_type = scenario_initialised;
      affected_entity_id = none;
      previous_value = none;
      new_value = none;
      alarm_id = none;
      assessment_id = none;
    }
    ∷ record {
      source = gis;
      event_type = configuration_selected;
      affected_entity_id = none;
      previous_value = none;
      new_value = some run.configuration_id;
      alarm_id = none;
      assessment_id = none;
    }
    ∷ derived_event_specs none
