-- ===== src/Topology/Paths.antt =====
-- topology/service.py: the distribution graph and `_derive_source_paths`.
use ot_engineering_demonstra.Base.{
  String, ◌==◌, Bool, ◌&&◌, ◌||◌, List, [], ◌∷◌, map, filter, find, length, contains, leb, nat_eq,
  if◌then◌else◌, Result, ok, ◌>>=◌, ◌>>◌, guard, or_raise, map_m, concat_m, key_error,
  stop_iteration, validation_error,
}
use ot_engineering_demonstra.Base.Sort.{sort_on, sort_by, tuple_leb}
use ot_engineering_demonstra.Base.{str_leb}
use ot_engineering_demonstra.Domain.Config.{
  Feeder, DistributionSection, ConnectivityEdge, NetworkConfigurationData,
}
use ot_engineering_demonstra.Domain.Validate.{source_ids, device_ids}
use ot_engineering_demonstra.Topology.Models.{SourcePath}
use ot_engineering_demonstra.Topology.Graph.{GraphLibrary}
use ot_engineering_demonstra.Topology.Boundary.{touches}

-- `_device_endpoint`
abbrev pub device_endpoint : NetworkConfigurationData → ConnectivityEdge → String
device_endpoint c e =
    if contains (device_ids c) e.endpoint_a_id then e.endpoint_a_id else e.endpoint_b_id

abbrev breaker_ids : NetworkConfigurationData → List String
breaker_ids c = map (λ (f : Feeder). f.source_breaker_id) c.feeders

abbrev meets : ConnectivityEdge → List String → Bool
meets e ids = contains ids e.endpoint_a_id || contains ids e.endpoint_b_id

-- `_source_side_edge_ids`
unfoldable pub source_side_edge_ids : NetworkConfigurationData → List String
source_side_edge_ids c =
    map (λ e. e.edge_id)
      (filter (λ e. meets e (source_ids c) && meets e (breaker_ids c)) c.connectivity_edges)

-- The source-side edge between the feeder's breaker and its source.
unfoldable pub source_edge : NetworkConfigurationData → Feeder → Result ConnectivityEdge
source_edge c feeder =
    or_raise
      (find
        (λ e.
          contains (source_side_edge_ids c) e.edge_id
          && touches e feeder.source_breaker_id
          && touches e feeder.source_id)
        c.connectivity_edges)
      stop_iteration

module _ (G : GraphLibrary) where
  open G use {Graph, empty, add_edge, has_node, edge_id, all_simple_paths}

  unfoldable pub add_edges : Graph → List ConnectivityEdge → Graph
  add_edges g [] = g
  add_edges g (e ∷ es) = add_edges (add_edge g e.endpoint_a_id e.endpoint_b_id e.edge_id) es

  -- `_build_graph`
  unfoldable pub build_graph : List ConnectivityEdge → Graph
  unfolding add_edges
  build_graph edges = add_edges empty (sort_on (λ e. e.edge_id) edges)

  -- The `edge_id` of each pair of neighbours on a path.
  unfoldable pub path_edges : Graph → List String → Result (List String)
  path_edges g [] = ok []
  path_edges g (x ∷ []) = ok []
  path_edges g (x ∷ y ∷ r) = do
    id ← or_raise (edge_id g x y) key_error
    ids ← path_edges g (y ∷ r)
    ok (id ∷ ids)

  -- One `SourcePath`, with the length checks of its fields.
  unfoldable pub source_path : Graph → Feeder → String → String → List String → Result SourcePath
  source_path g feeder source_edge_id section_id node_path = do
    edge_path ← path_edges g node_path
    guard (leb 3 (length (feeder.source_id ∷ node_path))) validation_error
    guard (leb 2 (length (source_edge_id ∷ edge_path))) validation_error
    ok (record {
      source_id = feeder.source_id;
      source_feeder_id = feeder.entity_id;
      source_breaker_id = feeder.source_breaker_id;
      target_section_id = section_id;
      node_ids = feeder.source_id ∷ node_path;
      edge_ids = source_edge_id ∷ edge_path;
    })

  unfoldable pub section_paths :
      Graph → Feeder → String → DistributionSection → Result (List SourcePath)
  section_paths g feeder source_edge_id section =
      if has_node g section.entity_id
      then map_m (source_path g feeder source_edge_id section.entity_id)
          (all_simple_paths g feeder.source_breaker_id section.entity_id)
      else ok []

  -- One round of the loop over the feeders.
  unfoldable pub feeder_paths :
      NetworkConfigurationData → Graph → List String → Feeder → Result (List SourcePath)
  feeder_paths c g available_feeder_ids feeder =
      if contains available_feeder_ids feeder.entity_id
      then (do
        edge ← source_edge c feeder
        if has_node g feeder.source_breaker_id
            then concat_m (section_paths g feeder edge.edge_id)
                (sort_on (λ s. s.entity_id) c.sections)
            else ok [])
      else ok []

  -- All paths in the order in which the loops find them; `paths[id]` is `paths_of id`.
  unfoldable pub derive_source_paths :
      NetworkConfigurationData → Graph → List String → Result (List SourcePath)
  derive_source_paths c g available_feeder_ids =
      concat_m (feeder_paths c g available_feeder_ids) (sort_on (λ f. f.entity_id) c.feeders)

-- The key `(source_feeder_id, len(edge_ids), edge_ids)`
path_leb : SourcePath → SourcePath → Bool
path_leb p q =
    if p.source_feeder_id == q.source_feeder_id
    then (if nat_eq (length p.edge_ids) (length q.edge_ids)
        then tuple_leb p.edge_ids q.edge_ids
        else leb (length p.edge_ids) (length q.edge_ids))
    else str_leb p.source_feeder_id q.source_feeder_id

unfoldable pub paths_of : List SourcePath → String → List SourcePath
unfolding path_leb
paths_of paths id = sort_by path_leb (filter (λ p. p.target_section_id == id) paths)
