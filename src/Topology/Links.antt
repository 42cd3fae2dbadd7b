-- ===== src/Topology/Links.antt =====
-- Where the edges of a source path come from.
use ot_engineering_demonstra.Base.{
  String, ◌==◌, ◌≡◌, refl, sym, ◌∙◌, subst, Bool, true, false, ◌&&◌, some, List, [], ◌∷◌, ◌⊎◌, inl,
  inr, any, All, ok, or_raise, key_error, >>=-eq-ok, arith, if◌then◌else◌, eq_iff, or_raise-eq-ok,
  any_mono, and_true,
}
use ot_engineering_demonstra.Base.Sort.{sort_on, any-sort_by}
use ot_engineering_demonstra.Domain.Config.{ConnectivityEdge}
use ot_engineering_demonstra.Topology.Graph.{GraphLibrary, IsLawful, IsWalk, joins}
use ot_engineering_demonstra.Topology.Paths.{add_edges, build_graph, path_edges}

-- The edge has this identity and connects the two nodes.
abbrev pub links : String → String → String → ConnectivityEdge → Bool
links id x y e = e.edge_id == id && joins e.endpoint_a_id e.endpoint_b_id x y

-- The edges, one after the other, join the neighbours of the list of nodes.
abbrev pub Follows : List ConnectivityEdge → List String → List String → Type 0
Follows es [] ids = ⊥
Follows es (x ∷ []) [] = Unit {0}
Follows es (x ∷ []) (id ∷ ids) = ⊥
Follows es (x ∷ y ∷ r) [] = ⊥
Follows es (x ∷ y ∷ r) (id ∷ ids) = (any (links id x y) es ≡ true) × Follows es (y ∷ r) ids

abbrev pub EndsAt : String → List String → Type 0
EndsAt target [] = ⊥
EndsAt target (x ∷ []) = x ≡ target
EndsAt target (x ∷ y ∷ r) = EndsAt target (y ∷ r)

-- Nodes that follow one another arrive at the last of them along an edge.
pub Follows-arrives :
    (es : List ConnectivityEdge) (target x y : String) (r ids : List String)
    → Follows es (x ∷ y ∷ r) ids
    → EndsAt target (x ∷ y ∷ r)
    → (z : String) × (id : String) × (any (links id z target) es ≡ true)
Follows-arrives es target x y r [] f e = absurd f
Follows-arrives es target x y [] (id ∷ ids) f e =
    (x, id, subst (λ w. any (links id x w) es ≡ true) e f.0)
Follows-arrives es target x y (z ∷ r) (id ∷ ids) f e = Follows-arrives es target y z r ids f.1 e

module _ (G : GraphLibrary) (lawful : IsLawful G) where
  open G use {Graph, empty, add_edge, edge_id}
  open lawful use {edge_id-empty, edge_id-add_edge}

  edge_id-add_edges :
      (g : Graph) (es : List ConnectivityEdge) (x y id : String)
      → edge_id (add_edges G g es) x y ≡ some id
      → (edge_id g x y ≡ some id) ⊎ (any (links id x y) es ≡ true)
  unfolding add_edges
  edge_id-add_edges g [] x y id h = inl h
  edge_id-add_edges g (e ∷ es) x y id h =
      elim (edge_id-add_edges (add_edge g e.endpoint_a_id e.endpoint_b_id e.edge_id) es x y id h) [
        | inl q ↦
            let law = edge_id-add_edge g e.endpoint_a_id e.endpoint_b_id e.edge_id x y in
            added (joins e.endpoint_a_id e.endpoint_b_id x y) (sym law ∙ q) refl
        | inr q ↦ inr (ground arith)
      ]
    where
      added :
          (b : Bool)
          → (if b then some e.edge_id else edge_id g x y) ≡ some id
          → joins e.endpoint_a_id e.endpoint_b_id x y ≡ b
          → (edge_id g x y ≡ some id) ⊎ (any (links id x y) (e ∷ es) ≡ true)
      added true q j = inr (ground (arith, eq_iff e.edge_id id))
      added false q j = inl q

  -- An edge of the built graph is one of the configured edges that it was built from.
  pub edge_id-build_graph :
      (es : List ConnectivityEdge) (x y id : String)
      → edge_id (build_graph G es) x y ≡ some id
      → any (links id x y) es ≡ true
  unfolding build_graph
  edge_id-build_graph es x y id h =
      elim (edge_id-add_edges empty (sort_on (λ e. e.edge_id) es) x y id h) [
        | inl e ↦ let p = edge_id-empty x y in cc
        | inr e ↦ sym (any-sort_by (links id x y) _ es) ∙ e
      ]

  pub walk-EndsAt :
      (g : Graph) (target : String) (nodes : List String)
      → IsWalk G g target nodes
      → EndsAt target nodes
  walk-EndsAt g target [] w = w
  walk-EndsAt g target (x ∷ []) w = w
  walk-EndsAt g target (x ∷ y ∷ r) w = walk-EndsAt g target (y ∷ r) w.1

  -- The edges of a path in the built graph join its neighbours, one after the other.
  pub path_edges-Follows :
      (es : List ConnectivityEdge) (x : String) (r : List String) {ids : List String}
      → path_edges G (build_graph G es) (x ∷ r) ≡ ok ids
      → Follows es (x ∷ r) ids
  unfolding path_edges
  path_edges-Follows es x [] {ids} h = subst (Follows es (x ∷ [])) {x = []} (cc) tt
  path_edges-Follows es x (y ∷ r) {ids} h =
      let (id, e, q) = >>=-eq-ok (or_raise (edge_id (build_graph G es) x y) key_error) _ h in
      let (rest, e', q') = >>=-eq-ok (path_edges G (build_graph G es) (y ∷ r)) _ q in
      let link = edge_id-build_graph es x y id (or_raise-eq-ok _ key_error e) in
      subst (Follows es (x ∷ y ∷ r)) {x = id ∷ rest} (cc) (link, path_edges-Follows es y r e')

  -- The edges of a path in the built graph are among those that it was built from.
  pub path_edges-known :
      (es : List ConnectivityEdge) (nodes : List String) {ids : List String}
      → path_edges G (build_graph G es) nodes ≡ ok ids
      → All (λ id. any (λ e. e.edge_id == id) es ≡ true) ids
  unfolding path_edges
  path_edges-known es [] {ids} h = subst (All _) {x = []} (cc) tt
  path_edges-known es (x ∷ []) {ids} h = subst (All _) {x = []} (cc) tt
  path_edges-known es (x ∷ y ∷ r) {ids} h =
      let (id, e, q) = >>=-eq-ok (or_raise (edge_id (build_graph G es) x y) key_error) _ h in
      let (rest, e', q') = >>=-eq-ok (path_edges G (build_graph G es) (y ∷ r)) _ q in
      let link = edge_id-build_graph es x y id (or_raise-eq-ok _ key_error e) in
      let known =
        any_mono (links id x y) (λ e. e.edge_id == id) es (λ e l. (and_true _ _ l).0) link in
      subst (All _) {x = id ∷ rest} (cc) (known, path_edges-known es (y ∷ r) e')
