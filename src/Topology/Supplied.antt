-- ===== src/Topology/Supplied.antt =====
-- When topology/service.py reports a section as energised, and when it cannot.
use ot_engineering_demonstra.Base.{
  String, ◌==◌, ◌≡◌, refl, sym, subst, ◌∙◌, true, false, not, some, List, [], ◌∷◌, map, any,
  contains, is_empty, distinct, lookup, All, All-any, All-both, All-filter, All-filter_test,
  All-map, All-mono, All-of, and_true, ok, filter_m-kept, filter_m-Mem, arith, eq_iff, Mem, Dict,
  >>=-eq-ok, or_raise, or_raise-eq-ok, ok-injective, key_error, ap, any-map,
}
use ot_engineering_demonstra.Base.Sort.{sort, sort_on, All-sort_by, any-sort_by}
use ot_engineering_demonstra.Domain.{SwitchState, opened, closed, is_closed}
use ot_engineering_demonstra.Domain.Config.{
  ConnectivityEdge, NetworkConfigurationData, LoadedConfiguration,
}
use ot_engineering_demonstra.Domain.Validate.{edge_ids}
use ot_engineering_demonstra.Topology.Models.{TopologyInputs, TopologyResult, SourcePath}
use ot_engineering_demonstra.Topology.Graph.{GraphLibrary, IsLawful, joins}
use ot_engineering_demonstra.Topology.Boundary.{touches}
use ot_engineering_demonstra.Topology.Paths.{device_endpoint, paths_of}
use ot_engineering_demonstra.Topology.Links.{links}
use ot_engineering_demonstra.Topology.Soundness.{
  EdgesFrom, Chain, Chain-arrives, IsSound, derive_source_paths-IsSound,
}
use ot_engineering_demonstra.Topology.Trace.{calculate-Trace}
use ot_engineering_demonstra.Topology.Calculate.{
  calculate, device_closed, active_edges, distribution_edges, section_state,
}

All-paths_of {κ} :
    (P : SourcePath → Type κ) (paths : List SourcePath) (id : String)
    → All P paths
    → All (λ p. P p × ((p.target_section_id == id) ≡ true)) (paths_of paths id)
unfolding paths_of
All-paths_of P paths id h =
    All-sort_by _ _ _ (All-both _ _ _ (All-filter P _ paths h) (All-filter_test _ paths))

-- The edges behind the source-side one.
abbrev pub Behind : (String → Type 0) → List String → Type 0
Behind P [] = ⊥
Behind P (first ∷ rest) = All P rest

-- The identity is of an edge of the configuration whose device is closed.
abbrev pub OverClosed : NetworkConfigurationData → Dict SwitchState → String → Type 0
OverClosed c states id =
    (e : ConnectivityEdge) × Mem e c.connectivity_edges
    × (e.edge_id ≡ id)
    × (lookup (device_endpoint c e) states ≡ some closed)

-- The path's feeder injects, its edges are a chain from the source to the section, and each edge
-- behind the source-side one is active and of a closed device.
abbrev pub IsRoute :
    NetworkConfigurationData → Dict SwitchState → TopologyResult → SourcePath → Type 0
IsRoute c states r p =
    (contains r.active_source_feeder_ids p.source_feeder_id ≡ true)
    × Chain c (distribution_edges c r.active_edge_ids) p p.node_ids p.edge_ids
    × Behind (λ id. (contains r.active_edge_ids id ≡ true) × OverClosed c states id) p.edge_ids

device_closed-eq-ok :
    (states : Dict SwitchState) (id : String)
    → device_closed states id ≡ ok true
    → lookup id states ≡ some closed
device_closed-eq-ok states id h =
    let (state, e, h1) = >>=-eq-ok (or_raise (lookup id states) key_error) _ h in
    or_raise-eq-ok _ key_error e ∙ ap some (closed_of state (ok-injective h1))
  where
    closed_of : (s : SwitchState) → is_closed s ≡ true → s ≡ closed
    closed_of s t = ground arith

active-OverClosed :
    (c : NetworkConfigurationData) (states : Dict SwitchState) (active : List ConnectivityEdge)
    (id : String)
    → active_edges c states ≡ ok active
    → contains (sort (map (λ e. e.edge_id) active)) id ≡ true
    → OverClosed c states id
unfolding active_edges
active-OverClosed c states active id act h =
    let kept = filter_m-Mem _ c.connectivity_edges act in
    let listed =
      sym (any-map (λ e. e.edge_id) (λ n. n == id) active)
      ∙ sym (any-sort_by (λ x. x == id) _ (map (λ e. e.edge_id) active))
      ∙ h in
    let (e, fact, same) = All-any _ (λ e. e.edge_id == id) active kept listed in
    (
      e,
      fact.0,
      (eq_iff e.edge_id id).0 same,
      device_closed-eq-ok states (device_endpoint c e) fact.1,
    )

distribution_edges-active :
    (c : NetworkConfigurationData) (active : List String) (id : String)
    → any (λ e. e.edge_id == id) (distribution_edges c active) ≡ true
    → contains active id ≡ true
unfolding distribution_edges
distribution_edges-active c active id h =
    let (e, t, same) = All-any _ _ _ (All-filter_test _ c.connectivity_edges) h in
    subst (λ k. contains active k ≡ true) ((eq_iff e.edge_id id).0 same) (and_true _ _ t).0

EdgesFrom-Behind :
    (c : NetworkConfigurationData) (active : List String) (P : String → Type 0)
    (step : (id : String) → contains active id ≡ true → P id) (ids : List String)
    → EdgesFrom c (distribution_edges c active) ids
    → Behind P ids
EdgesFrom-Behind c active P step [] h = h
EdgesFrom-Behind c active P step (first ∷ rest) h =
    All-mono _ _ rest (λ id k. step id (distribution_edges-active c active id k)) h.1

joins-touches :
    (e : ConnectivityEdge) (z id : String)
    → joins e.endpoint_a_id e.endpoint_b_id z id ≡ true
    → touches e id ≡ true
joins-touches e z id h = ground arith

module _ (G : GraphLibrary) (lawful : IsLawful G) (loaded : LoadedConfiguration)
    (inputs : TopologyInputs) where
  -- Every source path of a result is of an injecting feeder and a chain of edges from its source to
  -- its section. Each edge behind the source-side one is active, and an edge of the configuration
  -- with that identity has its device closed.
  pub calculate-IsRoute :
      (r : TopologyResult)
      → calculate G loaded inputs ≡ ok r
      → All (λ s. All (IsRoute loaded.config inputs.device_states r) s.source_paths) r.sections
  unfolding section_state
  calculate-IsRoute r h =
      let t = calculate-Trace G loaded inputs h in
      let c = loaded.config in
      let active = sort (map (λ e. e.edge_id) t.active) in
      let feeders = sort (map (λ f. f.entity_id) t.feeders) in
      let sound =
        derive_source_paths-IsSound G lawful c (distribution_edges c active) feeders t.paths_eq in
      subst (λ r. All (λ s. All (IsRoute c inputs.device_states r) s.source_paths) r.sections)
        t.result_eq
        (All-map _ (section_state t.paths inputs.faulted_section_ids) _ (
          All-of _ (sort_on (λ s. s.entity_id) c.sections) (λ s.
            All-mono _ _ (paths_of t.paths s.entity_id)
              (λ p b. (
                b.0.feeder_active,
                b.0.chain,
                EdgesFrom-Behind c active _
                    (λ id k.
                      (k, active-OverClosed c inputs.device_states t.active id t.active_eq k))
                    p.edge_ids b.0.edges_known,
              ))
              (All-paths_of _ t.paths s.entity_id sound))))

  -- Every device on an edge of the section is open.
  abbrev pub AllOpenAround : String → Type 0
  AllOpenAround id =
      All
        (λ e.
          touches e id ≡ true
          → lookup (device_endpoint loaded.config e) inputs.device_states ≡ some opened)
        loaded.config.connectivity_edges

  no_link :
      (active : List ConnectivityEdge) (id z k : String)
      → distinct (edge_ids loaded.config) ≡ true
      → AllOpenAround id
      → active_edges loaded.config inputs.device_states ≡ ok active
      → any (links k z id) (distribution_edges loaded.config (sort (map (λ e. e.edge_id) active)))
        ≡ true
      → ⊥
  unfolding active_edges distribution_edges
  no_link active id z k distinct_ids open_around act h =
      let c = loaded.config in
      let kept = filter_m-kept (λ e. e.edge_id) _ c.connectivity_edges distinct_ids act in
      let facts = All-both _ _ c.connectivity_edges open_around kept in
      let found =
        All-any _ _ _
          (All-both _ _ _ (All-filter _ _ _ facts) (All-filter_test _ c.connectivity_edges)) h in
      let e = found.0 in
      let around = joins-touches e z id (and_true _ _ found.2).1 in
      let listed =
        sym (any-sort_by (λ x. x == e.edge_id) _ (map (λ x. x.edge_id) active))
        ∙ (and_true _ _ found.1.1).0 in
      let is_open = found.1.0.0 around in
      let is_closed = found.1.0.1 listed in let clash = rw is_open at is_closed in cc

  -- If every device around a section is open, no source path reaches the section: it is reported
  -- as not energised.
  pub calculate_open_around :
      (id : String) (r : TopologyResult)
      → distinct (edge_ids loaded.config) ≡ true
      → AllOpenAround id
      → calculate G loaded inputs ≡ ok r
      → All (λ s. s.section_id ≡ id → s.energised ≡ false) r.sections
  unfolding section_state
  calculate_open_around id r distinct_ids open_around h =
      let t = calculate-Trace G loaded inputs h in
      let c = loaded.config in
      let active = sort (map (λ e. e.edge_id) t.active) in
      let feeders = sort (map (λ f. f.entity_id) t.feeders) in
      let sound =
        derive_source_paths-IsSound G lawful c (distribution_edges c active) feeders t.paths_eq in
      subst (λ r. All (λ s. s.section_id ≡ id → s.energised ≡ false) r.sections) t.result_eq
        (All-map _ (section_state t.paths inputs.faulted_section_ids) _ (
          All-of _ (sort_on (λ s. s.entity_id) c.sections) (λ s e.
            none_left t.active t.active_eq feeders s.entity_id e _
              (All-paths_of _ t.paths s.entity_id sound))))
    where
      none_left :
          (active : List ConnectivityEdge)
          → active_edges loaded.config inputs.device_states ≡ ok active
          → (feeders : List String) (s : String) → s ≡ id
          → (ps : List SourcePath)
          → All
              (λ p.
                IsSound loaded.config
                  (distribution_edges loaded.config (sort (map (λ e. e.edge_id) active)))
                  feeders
                  p
                × ((p.target_section_id == s) ≡ true))
              ps
          → not (is_empty ps) ≡ false
      none_left active act feeders s e [] a = refl
      none_left active act feeders s e (p ∷ ps) a =
          let (z, k, l) = Chain-arrives loaded.config _ p p.node_ids p.edge_ids a.0.0.chain in
          let target = (eq_iff p.target_section_id s).0 a.0.1 ∙ e in
          absurd (
            no_link active id z k distinct_ids open_around act (
              subst
                (λ w.
                  any (links k z w)
                    (distribution_edges loaded.config (sort (map (λ e. e.edge_id) active)))
                  ≡ true)
                target l))
