-- ===== src/Topology/Graph.antt =====
-- What topology/service.py uses of networkx, as a parameter, with the documented behaviour that
-- the theorems need. Nodes are identifiers; an edge carries its `edge_id`.
pub mod EdgeList
use ot_engineering_demonstra.Base.{
  String, ◌==◌, Bool, ◌&&◌, ◌||◌, Option, none, some, List, [], ◌∷◌, ◌≡◌, All, if◌then◌else◌,
}

pub record GraphLibrary : Type 1 where
  pub Graph : Type 0
  -- `nx.Graph()`
  pub empty : Graph
  -- `graph.add_edge(a, b, edge_id=id)`
  pub add_edge : Graph → String → String → String → Graph
  -- `node in graph`
  pub has_node : Graph → String → Bool
  -- `graph.edges[a, b]["edge_id"]`, `none` for a `KeyError`
  pub edge_id : Graph → String → String → Option String
  -- `nx.all_simple_paths(graph, source, target)`
  pub all_simple_paths : Graph → String → String → List (List String)
  -- `nx.connected_components(graph)`
  pub connected_components : Graph → List (List String)
  -- `nx.is_tree(graph.subgraph(component))`
  pub is_tree : Graph → List String → Bool

abbrev pub joins : String → String → String → String → Bool
joins a b x y = (a == x && b == y) || (a == y && b == x)

module _ (G : GraphLibrary) where
  open G use {Graph, edge_id}

  -- The nodes of a list follow one another along edges and end at `target`.
  abbrev pub IsWalk : Graph → String → List String → Type 0
  IsWalk g target [] = ⊥
  IsWalk g target (x ∷ []) = x ≡ target
  IsWalk g target (x ∷ y ∷ r) =
      ((id : String) × (edge_id g x y ≡ some id)) × IsWalk g target (y ∷ r)

  abbrev pub StartsAt : String → List String → Type 0
  StartsAt source [] = ⊥
  StartsAt source (x ∷ r) = x ≡ source

-- An undirected graph keeps the last `edge_id` given to a pair of nodes, and every path that
-- `all_simple_paths` yields is a walk from the source to the target.
pub record IsLawful (G : GraphLibrary) : Type 0 where
  pub edge_id-empty : (x y : String) → G.edge_id G.empty x y ≡ none
  pub edge_id-add_edge :
      (g : G.Graph) (a b id x y : String)
      → G.edge_id (G.add_edge g a b id) x y ≡ (if joins a b x y then some id else G.edge_id g x y)
  pub simple_paths_start :
      (g : G.Graph) (a b : String) → All (StartsAt G a) (G.all_simple_paths g a b)
  pub simple_paths_walk :
      (g : G.Graph) (a b : String) → All (IsWalk G g b) (G.all_simple_paths g a b)
