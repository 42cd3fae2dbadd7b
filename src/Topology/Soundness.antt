-- ===== src/Topology/Soundness.antt =====
-- Every source path that topology/service.py derives is a supply route.
use ot_engineering_demonstra.Base.{
  String, ◌==◌, ◌≡◌, subst, true, List, [], ◌∷◌, any, contains, All, All-of, All-both, All-find,
  All-Mem, Mem, refl, All-map_m, All-concat_m, find-test, Bool-cases, inl, inr, and_true, ok,
  or_raise-eq-ok, guard-guard-ok, length, leb, >>=-eq-ok, stop_iteration, validation_error,
}
use ot_engineering_demonstra.Base.Sort.{sort_on, All-sort_by}
use ot_engineering_demonstra.Domain.Config.{
  ConnectivityEdge, DistributionSection, Feeder, NetworkConfigurationData,
}
use ot_engineering_demonstra.Topology.Models.{SourcePath}
use ot_engineering_demonstra.Topology.Graph.{GraphLibrary, IsLawful, IsWalk, StartsAt}
use ot_engineering_demonstra.Topology.Boundary.{touches}
use ot_engineering_demonstra.Topology.Paths.{
  source_side_edge_ids, build_graph, path_edges, source_path, section_paths, source_edge,
  feeder_paths, derive_source_paths,
}
use ot_engineering_demonstra.Topology.Links.{
  links, Follows, EndsAt, Follows-arrives, walk-EndsAt, path_edges-known, path_edges-Follows,
}

-- The first edge is a source-side one, and the others are among the given edges.
abbrev pub EdgesFrom : NetworkConfigurationData → List ConnectivityEdge → List String → Type 0
EdgesFrom c es [] = ⊥
EdgesFrom c es (first ∷ rest) =
    (contains (source_side_edge_ids c) first ≡ true)
    × All (λ id. any (λ e. e.edge_id == id) es ≡ true) rest

-- An edge of the configuration, of that identity, between the path's source and its breaker.
abbrev pub Feeds : NetworkConfigurationData → SourcePath → String → Type 0
Feeds c p first =
    (e : ConnectivityEdge) × Mem e c.connectivity_edges
    × (e.edge_id ≡ first)
    × (touches e p.source_breaker_id ≡ true)
    × (touches e p.source_id ≡ true)

-- The nodes run from the path's source through its breaker to its section. The first edge joins
-- the source and the breaker, and each later one joins a node to the next.
abbrev pub Chain :
    NetworkConfigurationData
    → List ConnectivityEdge
    → SourcePath
    → List String
    → List String
    → Type 0
Chain c es p [] ids = ⊥
Chain c es p (s ∷ []) ids = ⊥
Chain c es p (s ∷ b ∷ []) ids = ⊥
Chain c es p (s ∷ b ∷ y ∷ r) [] = ⊥
Chain c es p (s ∷ b ∷ y ∷ r) (first ∷ ids) =
    (s ≡ p.source_id)
    × (b ≡ p.source_breaker_id)
    × Feeds c p first
    × Follows es (b ∷ y ∷ r) ids
    × EndsAt p.target_section_id (b ∷ y ∷ r)

-- The path's source, feeder and breaker are those of one feeder of the configuration.
abbrev pub Owned : NetworkConfigurationData → SourcePath → Type 0
Owned c p =
    (feeder : Feeder) × Mem feeder c.feeders
    × (p.source_feeder_id ≡ feeder.entity_id)
    × (p.source_id ≡ feeder.source_id)
    × (p.source_breaker_id ≡ feeder.source_breaker_id)

pub record IsSound (c : NetworkConfigurationData) (es : List ConnectivityEdge)
    (available : List String) (p : SourcePath) : Type 0 where
  pub feeder_active : contains available p.source_feeder_id ≡ true
  pub owned : Owned c p
  pub edges_known : EdgesFrom c es p.edge_ids
  pub chain : Chain c es p p.node_ids p.edge_ids

pub Chain-arrives :
    (c : NetworkConfigurationData) (es : List ConnectivityEdge) (p : SourcePath)
    (nodes ids : List String)
    → Chain c es p nodes ids
    → (z : String) × (id : String) × (any (links id z p.target_section_id) es ≡ true)
Chain-arrives c es p [] ids h = absurd h
Chain-arrives c es p (s ∷ []) ids h = absurd h
Chain-arrives c es p (s ∷ b ∷ []) ids h = absurd h
Chain-arrives c es p (s ∷ b ∷ y ∷ r) [] h = absurd h
Chain-arrives c es p (s ∷ b ∷ y ∷ r) (first ∷ ids) (at, via, feeds, follows, ends) =
    Follows-arrives es p.target_section_id b y r ids follows ends

-- The edge that `source_edge` finds for a feeder.
abbrev Opening : NetworkConfigurationData → Feeder → ConnectivityEdge → Type 0
Opening c feeder edge =
    Mem edge c.connectivity_edges
    × (contains (source_side_edge_ids c) edge.edge_id ≡ true)
    × (touches edge feeder.source_breaker_id ≡ true)
    × (touches edge feeder.source_id ≡ true)

source_edge-Opening :
    (c : NetworkConfigurationData) (feeder : Feeder) {edge : ConnectivityEdge}
    → source_edge c feeder ≡ ok edge
    → Opening c feeder edge
unfolding source_edge
source_edge-Opening c feeder {edge} h =
    let found = or_raise-eq-ok _ stop_iteration h in
    let test = find-test _ c.connectivity_edges edge found in
    let member =
      All-find (λ e. Mem e c.connectivity_edges) _ c.connectivity_edges edge
        (All-Mem c.connectivity_edges) found in
    let (both, source) = and_true _ _ test in
    let (side, breaker) = and_true _ _ both in (member, side, breaker, source)

-- A list of nodes that `all_simple_paths` yields, from the breaker to the section.
abbrev Found : (G : GraphLibrary) → List ConnectivityEdge → Feeder → String → List String → Type 0
Found G es feeder section_id nodes =
    IsWalk G (build_graph G es) section_id nodes × StartsAt G feeder.source_breaker_id nodes

module _ (G : GraphLibrary) (lawful : IsLawful G) (c : NetworkConfigurationData)
    (es : List ConnectivityEdge) (available : List String) where
  source_path-IsSound :
      (feeder : Feeder) (edge : ConnectivityEdge) (section_id : String) (nodes : List String)
      → Mem feeder c.feeders
      → contains available feeder.entity_id ≡ true
      → Opening c feeder edge
      → Found G es feeder section_id nodes
      → {p : SourcePath}
      → source_path G (build_graph G es) feeder edge.edge_id section_id nodes ≡ ok p
      → IsSound c es available p
  unfolding source_path
  source_path-IsSound feeder edge section_id [] member act side found {p} h = absurd found.0
  source_path-IsSound feeder edge section_id (x ∷ []) member act side found {p} h =
      let (ids, e, q) = >>=-eq-ok (path_edges G (build_graph G es) (x ∷ [])) _ h in cc q
  source_path-IsSound feeder edge section_id (x ∷ y ∷ r) member act side found {p} h =
      let (ids, e, q) = >>=-eq-ok (path_edges G (build_graph G es) (x ∷ y ∷ r)) _ h in
      subst (IsSound c es available)
        (guard-guard-ok (leb 3 (length (feeder.source_id ∷ x ∷ y ∷ r)))
          (leb 2 (length (edge.edge_id ∷ ids))) validation_error _ q)
        (record {
          feeder_active = act;
          owned = (feeder, member, refl, refl, refl);
          edges_known = (side.1, path_edges-known G lawful es (x ∷ y ∷ r) e);
          chain = (
            refl,
            found.1,
            (edge, side.0, refl, side.2, side.3),
            path_edges-Follows G lawful es x (y ∷ r) e,
            walk-EndsAt G lawful (build_graph G es) section_id (x ∷ y ∷ r) found.0,
          );
        })

  section_paths-IsSound :
      (feeder : Feeder) (edge : ConnectivityEdge) (section : DistributionSection)
      → Mem feeder c.feeders
      → contains available feeder.entity_id ≡ true
      → Opening c feeder edge
      → {ps : List SourcePath}
      → section_paths G (build_graph G es) feeder edge.edge_id section ≡ ok ps
      → All (IsSound c es available) ps
  unfolding section_paths
  section_paths-IsSound feeder edge section member act side {ps} h =
      elim (Bool-cases (G.has_node (build_graph G es) section.entity_id)) [
        | inl e ↦
            All-map_m (Found G es feeder section.entity_id) (IsSound c es available)
              (source_path G (build_graph G es) feeder edge.edge_id section.entity_id) _
              (λ nodes p found.
                source_path-IsSound feeder edge section.entity_id nodes member act side found
                  {p = p})
              (All-both _ _ _
                (lawful.simple_paths_walk (build_graph G es) feeder.source_breaker_id
                  section.entity_id)
                (lawful.simple_paths_start (build_graph G es) feeder.source_breaker_id
                  section.entity_id))
              (rw e at h)
        | inr e ↦ let e' = rw e at h in subst (All (IsSound c es available)) {x = []} (cc) tt
      ]

  feeder_paths-IsSound :
      (feeder : Feeder) {ps : List SourcePath}
      → Mem feeder c.feeders
      → feeder_paths G c (build_graph G es) available feeder ≡ ok ps
      → All (IsSound c es available) ps
  unfolding feeder_paths
  feeder_paths-IsSound feeder {ps} member h =
      elim (Bool-cases (contains available feeder.entity_id)) [
        | inr e ↦ let e' = rw e at h in subst (All (IsSound c es available)) {x = []} (cc) tt
        | inl act ↦
            let (edge, found, q) = >>=-eq-ok (source_edge c feeder) _ (rw act at h) in
            let side = source_edge-Opening c feeder found in
            elim (Bool-cases (G.has_node (build_graph G es) feeder.source_breaker_id)) [
              | inl e ↦
                  All-concat_m (λ s. Unit {0}) (IsSound c es available)
                    (section_paths G (build_graph G es) feeder edge.edge_id) _
                    (λ s qs u. section_paths-IsSound feeder edge s member act side {ps = qs})
                    (All-of (λ s. Unit {0}) (sort_on (λ s. s.entity_id) c.sections) (λ s. tt))
                    (rw e at q)
              | inr e ↦ let e' = rw e at q in subst (All (IsSound c es available)) {x = []} (cc) tt
            ]
      ]

  -- Each derived path is of a listed feeder of the configuration. Its nodes run from that feeder's
  -- source through its breaker to the target section. Its first edge is a source-side one between
  -- the two, and each later edge is one of the given edges and joins a node to the next.
  pub derive_source_paths-IsSound :
      {ps : List SourcePath}
      → derive_source_paths G c (build_graph G es) available ≡ ok ps
      → All (IsSound c es available) ps
  unfolding derive_source_paths
  derive_source_paths-IsSound {ps} h =
      All-concat_m (λ f. Mem f c.feeders) (IsSound c es available)
        (feeder_paths G c (build_graph G es) available) _
        (λ f qs member. feeder_paths-IsSound f {ps = qs} member)
        (All-sort_by (λ f. Mem f c.feeders) _ c.feeders (All-Mem c.feeders)) h
