-- ===== src/Topology/Trace.antt =====
-- The intermediate values of a successful `calculate`.
use ot_engineering_demonstra.Base.{◌≡◌, List, Option, map, ok, >>=-eq-ok}
use ot_engineering_demonstra.Base.Sort.{sort, sort_on}
use ot_engineering_demonstra.Domain.Config.{
  LoadedConfiguration, ConnectivityEdge, ZoneSubstation, Feeder,
}
use ot_engineering_demonstra.Domain.Validate.{edge_ids}
use ot_engineering_demonstra.Topology.Models.{
  TopologyInputs, TopologyResult, SourcePath, DerivedFeederLoad, IsolationProof,
}
use ot_engineering_demonstra.Topology.Graph.{GraphLibrary}
use ot_engineering_demonstra.Topology.Paths.{build_graph, derive_source_paths}
use ot_engineering_demonstra.Topology.Supply.{derive_radiality, derive_feeder_loads}
use ot_engineering_demonstra.Topology.Calculate.{
  calculate, validate_inputs, active_edges, distribution_edges, available_sources,
  available_feeders, active_feeders, section_state, isolation_for,
}

module _ (G : GraphLibrary) (loaded : LoadedConfiguration) (inputs : TopologyInputs) where
  pub record Trace (r : TopologyResult) : Type 0 where
    pub inputs_valid : validate_inputs loaded.config inputs ≡ ok tt
    pub active : List ConnectivityEdge
    pub active_eq : active_edges loaded.config inputs.device_states ≡ ok active
    pub sources : List ZoneSubstation
    pub sources_eq : available_sources loaded.config inputs.source_availability ≡ ok sources
    pub feeders : List Feeder
    pub feeders_eq :
        active_feeders loaded.config
          (available_feeders loaded.config (sort (map (λ s. s.entity_id) sources)))
          inputs.device_states
        ≡ ok feeders
    pub paths : List SourcePath
    pub paths_eq :
        derive_source_paths G loaded.config
          (build_graph G (distribution_edges loaded.config (sort (map (λ e. e.edge_id) active))))
          (sort (map (λ f. f.entity_id) feeders))
        ≡ ok paths
    pub loads : List DerivedFeederLoad
    pub loads_eq :
        derive_feeder_loads loaded.config (
          map
            (section_state paths inputs.faulted_section_ids)
            (sort_on (λ s. s.entity_id) loaded.config.sections))
        ≡ ok loads
    pub proof : Option IsolationProof
    pub proof_eq :
        isolation_for loaded.config inputs.active_fault_section_id inputs.boundary_observations
          paths
          (available_feeders loaded.config (sort (map (λ s. s.entity_id) sources)))
        ≡ ok proof
    pub result_eq :
        record {
          configuration_id = loaded.configuration_id;
          configured_edge_ids = sort (edge_ids loaded.config);
          active_edge_ids = sort (map (λ e. e.edge_id) active);
          available_source_ids = sort (map (λ s. s.entity_id) sources);
          available_source_feeder_ids =
              available_feeders loaded.config (sort (map (λ s. s.entity_id) sources));
          active_source_feeder_ids = sort (map (λ f. f.entity_id) feeders);
          radiality_status =
              (derive_radiality G loaded.config
                (build_graph G
                  (distribution_edges loaded.config (sort (map (λ e. e.edge_id) active))))
                (sort (map (λ f. f.entity_id) feeders))).0;
          unintended_loop_component_section_ids =
              (derive_radiality G loaded.config
                (build_graph G
                  (distribution_edges loaded.config (sort (map (λ e. e.edge_id) active))))
                (sort (map (λ f. f.entity_id) feeders))).1;
          sections =
              map
                (section_state paths inputs.faulted_section_ids)
                (sort_on (λ s. s.entity_id) loaded.config.sections);
          feeder_loads = loads;
          isolation_proof = proof;
        }
        ≡ r

  ok-injective : {a b : TopologyResult} → ok a ≡ ok b → a ≡ b
  ok-injective h = cc

  pub calculate-Trace : {r : TopologyResult} → calculate G loaded inputs ≡ ok r → Trace r
  unfolding calculate
  calculate-Trace h =
      let (valid, v, h1) = >>=-eq-ok (validate_inputs loaded.config inputs) _ h in
      let (active, a, h2) = >>=-eq-ok (active_edges loaded.config inputs.device_states) _ h1 in
      let (sources, s, h3) =
        >>=-eq-ok (available_sources loaded.config inputs.source_availability) _ h2 in
      let (feeders, f, h4) = >>=-eq-ok (active_feeders loaded.config _ inputs.device_states) _ h3 in
      let (paths, p, h5) = >>=-eq-ok (derive_source_paths G loaded.config _ _) _ h4 in
      let (loads, l, h6) = >>=-eq-ok (derive_feeder_loads loaded.config _) _ h5 in
      let (proof, i, h7) = >>=-eq-ok (isolation_for loaded.config _ _ _ _) _ h6 in
      record {
        inputs_valid = v;
        active = active;
        active_eq = a;
        sources = sources;
        sources_eq = s;
        feeders = feeders;
        feeders_eq = f;
        paths = paths;
        paths_eq = p;
        loads = loads;
        loads_eq = l;
        proof = proof;
        proof_eq = i;
        result_eq = ok-injective h7;
      }
