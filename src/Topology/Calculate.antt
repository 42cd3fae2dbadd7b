-- ===== src/Topology/Calculate.antt =====
-- topology/service.py: `calculate`, `normal_inputs` and `_validate_inputs`.
use ot_engineering_demonstra.Base.{
  String, Bool, false, not, ◌&&◌, Option, none, some, List, [], map, filter, contains, dedup,
  is_empty, subset, same_set, Dict, lookup, keys, if◌then◌else◌, Result, ok, ◌>>=◌, ◌>>◌, guard,
  or_raise, filter_m, key_error, topology_input_error,
}
use ot_engineering_demonstra.Base.Sort.{sort, sort_on}
use ot_engineering_demonstra.Domain.{SwitchState, SourceAvailability, is_closed, is_available}
use ot_engineering_demonstra.Domain.Config.{
  ConnectivityEdge, ZoneSubstation, Feeder, DistributionSection, NetworkConfigurationData,
  LoadedConfiguration,
}
use ot_engineering_demonstra.Domain.Validate.{device_ids, source_ids, section_ids, edge_ids}
use ot_engineering_demonstra.Topology.Models.{
  TopologyInputs, TopologyResult, SourcePath, SectionDerivedState, BoundaryObservation,
  IsolationProof,
}
use ot_engineering_demonstra.Topology.Graph.{GraphLibrary}
use ot_engineering_demonstra.Topology.Boundary.{derive_isolation_proof}
use ot_engineering_demonstra.Topology.Paths.{
  device_endpoint, source_side_edge_ids, build_graph, derive_source_paths, paths_of,
}
use ot_engineering_demonstra.Topology.Supply.{derive_radiality, derive_feeder_loads}

-- `_validate_inputs`
unfoldable pub validate_inputs : NetworkConfigurationData → TopologyInputs → Result (Unit {0})
validate_inputs c inputs = do
  guard (same_set (keys inputs.device_states) (device_ids c)) topology_input_error
  guard (same_set (keys inputs.source_availability) (source_ids c)) topology_input_error
  guard (subset inputs.faulted_section_ids (section_ids c)) topology_input_error
  guard (subset (keys inputs.boundary_observations) (device_ids c)) topology_input_error

-- `inputs.device_states[id] is SwitchState.CLOSED`
abbrev pub device_closed : Dict SwitchState → String → Result Bool
device_closed states id = do s ← or_raise (lookup id states) key_error; ok (is_closed s)

abbrev pub source_available : Dict SourceAvailability → String → Result Bool
source_available sources id = do s ← or_raise (lookup id sources) key_error; ok (is_available s)

-- The edges whose device is closed, in the configuration's order.
unfoldable pub active_edges :
    NetworkConfigurationData → Dict SwitchState → Result (List ConnectivityEdge)
active_edges c states =
    filter_m (λ e. device_closed states (device_endpoint c e)) c.connectivity_edges

-- The edges that the distribution graph is built from.
unfoldable pub distribution_edges : NetworkConfigurationData → List String → List ConnectivityEdge
distribution_edges c active_edge_ids =
    filter
      (λ e. contains active_edge_ids e.edge_id && not (contains (source_side_edge_ids c) e.edge_id))
      c.connectivity_edges

unfoldable pub available_sources :
    NetworkConfigurationData → Dict SourceAvailability → Result (List ZoneSubstation)
available_sources c sources = filter_m (λ s. source_available sources s.entity_id) c.sources

unfoldable pub available_feeders : NetworkConfigurationData → List String → List String
available_feeders c available_source_ids =
    sort
      (map (λ f. f.entity_id) (filter (λ f. contains available_source_ids f.source_id) c.feeders))

unfoldable pub active_feeders :
    NetworkConfigurationData → List String → Dict SwitchState → Result (List Feeder)
active_feeders c available states =
    filter_m
      (λ f.
        if contains available f.entity_id
        then device_closed states f.source_breaker_id
        else ok false)
      c.feeders

unfoldable pub section_state :
    List SourcePath → List String → DistributionSection → SectionDerivedState
section_state paths faulted section =
    let own = paths_of paths section.entity_id in
    record {
      section_id = section.entity_id;
      energised = not (is_empty own);
      faulted = contains faulted section.entity_id;
      source_feeder_ids = sort (dedup (map (λ p. p.source_feeder_id) own));
      source_paths = own;
    }

-- The proof for the active fault, if there is one.
unfoldable pub isolation_for :
    NetworkConfigurationData
    → Option String
    → Dict BoundaryObservation
    → List SourcePath
    → List String
    → Result (Option IsolationProof)
isolation_for c none observations paths available = ok none
isolation_for c (some fault) observations paths available = do
  proof ← derive_isolation_proof c fault observations (paths_of paths fault) available
  ok (some proof)

module _ (G : GraphLibrary) where
  unfoldable pub calculate : LoadedConfiguration → TopologyInputs → Result TopologyResult
  calculate loaded inputs = do
    let c = loaded.config
    validate_inputs c inputs
    active ← active_edges c inputs.device_states
    let active_edge_ids = sort (map (λ e. e.edge_id) active)
    let graph = build_graph G (distribution_edges c active_edge_ids)
    sources ← available_sources c inputs.source_availability
    let available_source_ids = sort (map (λ s. s.entity_id) sources)
    let available = available_feeders c available_source_ids
    feeders ← active_feeders c available inputs.device_states
    let active_source_feeders = sort (map (λ f. f.entity_id) feeders)
    paths ← derive_source_paths G c graph active_source_feeders
    let states =
        map (section_state paths inputs.faulted_section_ids) (sort_on (λ s. s.entity_id) c.sections)
    let radiality = derive_radiality G c graph active_source_feeders
    loads ← derive_feeder_loads c states
    proof ←
        isolation_for c inputs.active_fault_section_id inputs.boundary_observations paths available
    ok (record {
      configuration_id = loaded.configuration_id;
      configured_edge_ids = sort (edge_ids c);
      active_edge_ids = active_edge_ids;
      available_source_ids = available_source_ids;
      available_source_feeder_ids = available;
      active_source_feeder_ids = active_source_feeders;
      radiality_status = radiality.0;
      unintended_loop_component_section_ids = radiality.1;
      sections = states;
      feeder_loads = loads;
      isolation_proof = proof;
    })

-- `normal_inputs`
unfoldable pub normal_inputs : NetworkConfigurationData → TopologyInputs
normal_inputs c = record {
  device_states = map (λ d. (d.entity_id, d.normal_state)) c.switching_devices;
  source_availability = map (λ s. (s.entity_id, s.normal_source_availability)) c.sources;
  faulted_section_ids = [];
  active_fault_section_id = none;
  boundary_observations = [];
}
