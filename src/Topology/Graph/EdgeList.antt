-- ===== src/Topology/Graph/EdgeList.antt =====
-- A graph library over a list of labelled edges, by depth-first search: it shows that the laws
-- asked of networkx can be met, and runs the tests.
use ot_engineering_demonstra.Base.{
  String, ◌==◌, ℕ, zero, suc, ◌≡◌, refl, subst, sym, true, false, not, ◌&&◌, Option, none, some,
  List, [], ◌∷◌, ◌++◌, map, filter, any, concat_map, length, contains, dedup, is_some, nat_eq,
  if◌then◌else◌, All, All-map, All-filter, All-concat_map, All-filter_test, All-mono, Bool-cases,
  inl, inr, arith, eq_iff, or_true, and_true,
}
use ot_engineering_demonstra.Topology.Graph.{GraphLibrary, IsLawful, IsWalk, StartsAt, joins}

abbrev Edges : Type 0
Edges = List (String × String × String)

add : Edges → String → String → String → Edges
add [] a b id = (a, b, id) ∷ []
add ((x, y, i) ∷ g) a b id = if joins a b x y then (x, y, id) ∷ g else (x, y, i) ∷ add g a b id

label : Edges → String → String → Option String
label [] x y = none
label ((a, b, id) ∷ g) x y = if joins a b x y then some id else label g x y

nodes : Edges → List String
nodes [] = []
nodes ((a, b, id) ∷ g) = a ∷ b ∷ nodes g

neighbours : Edges → String → List String
unfolding label nodes
neighbours g x = filter (λ y. is_some (label g x y)) (dedup (nodes g))

-- The paths from `x` to `target` that avoid the nodes seen so far.
search_paths : ℕ → Edges → String → List String → String → List (List String)
unfolding neighbours
search_paths zero g target seen x = []
search_paths (suc fuel) g target seen x = elim (x == target) [
  | true ↦ (x ∷ []) ∷ []
  | false ↦ map (◌∷◌ x) (
      concat_map (λ y. search_paths fuel g target (x ∷ seen) y)
        (filter (λ y. not (contains (x ∷ seen) y)) (neighbours g x)))
]

-- The nodes reached from a list of nodes.
grow : ℕ → Edges → List String → List String
unfolding neighbours
grow zero g xs = xs
grow (suc fuel) g xs = grow fuel g (dedup (concat_map (neighbours g) xs ++ xs))

components_from : Edges → List (List String) → List String → List (List String)
unfolding grow
components_from g done [] = done
components_from g done (x ∷ xs) =
    let next =
      if any (λ d. contains d x) done
      then done
      else done ++ grow (length (nodes g)) g (x ∷ []) ∷ [] in
    components_from g next xs

inside : List String → Edges → ℕ
inside component [] = 0
inside component ((a, b, id) ∷ g) =
    let rest = inside component g in if contains component a then suc rest else rest

unfoldable pub edge_list : GraphLibrary
unfolding add label nodes search_paths components_from inside
edge_list = record {
  Graph = Edges;
  empty = [];
  add_edge = add;
  has_node = λ g x. contains (nodes g) x;
  edge_id = label;
  all_simple_paths = λ g a b. search_paths (suc (length (nodes g))) g b [] a;
  connected_components = λ g. components_from g [] (dedup (nodes g));
  is_tree = λ g component. nat_eq (suc (inside component g)) (length component);
}

joins_swap : (a b x y : String) → joins b a x y ≡ joins a b x y
joins_swap a b x y = ground arith

joins-cong : (a b u v x y : String) → joins a b u v ≡ true → joins u v x y ≡ joins a b x y
joins-cong a b u v x y h = elim (or_true (a == u && b == v) (a == v && b == u) h) [
  | inl same ↦
      let (p, q) = and_true (a == u) (b == v) same in cc ((eq_iff a u).0 p, (eq_iff b v).0 q)
  | inr swapped ↦
      let (p, q) = and_true (a == v) (b == u) swapped in
      cc ((eq_iff a v).0 p, (eq_iff b u).0 q, joins_swap a b x y)
]

joined_apart :
    (a b u v x y : String) → joins a b u v ≡ false → joins u v x y ≡ true → joins a b x y ≡ true → ⊥
joined_apart a b u v x y other here both =
    let p = joins-cong a b x y u v both in
    let q = joins-cong u v x y u v here in ground (arith, eq_iff u u, eq_iff v v)

label-add :
    (g : Edges) (a b id x y : String)
    → label (add g a b id) x y ≡ (if joins a b x y then some id else label g x y)
unfolding label add
label-add [] a b id x y = refl
label-add ((u, v, i) ∷ g) a b id x y = elim (Bool-cases (joins a b u v)) [
  | inl same ↦ rw same (rw (joins-cong a b u v x y same) (ground arith))
  | inr other ↦ rw other (elim (Bool-cases (joins u v x y)) [
    | inl here ↦ rw here (elim (Bool-cases (joins a b x y)) [
      | inl both ↦ absurd (joined_apart a b u v x y other here both)
      | inr apart ↦ rw apart
    ])
    | inr there ↦ rw (there, label-add g a b id x y)
  ])
]

neighbours_linked :
    (g : Edges) (x : String) → All (λ y. (id : String) × (label g x y ≡ some id)) (neighbours g x)
unfolding neighbours
neighbours_linked g x =
    All-mono _ _ (neighbours g x) (λ y h. linked (label g x y) refl h)
      (All-filter_test (λ y. is_some (label g x y)) (dedup (nodes g)))
  where
    linked :
        {o : Option String} (o' : Option String)
        → o ≡ o'
        → is_some o ≡ true
        → (id : String) × (o ≡ some id)
    linked none e h = ground arith
    linked (some id) e h = (id, e)

abbrev Walks : Edges → String → List String → Type 0
Walks g target [] = ⊥
Walks g target (x ∷ []) = x ≡ target
Walks g target (x ∷ y ∷ r) = ((id : String) × (label g x y ≡ some id)) × Walks g target (y ∷ r)

-- What the search returns from `x`: walks to the target that begin at `x`.
abbrev From : Edges → String → String → List String → Type 0
From g target x [] = ⊥
From g target x (y ∷ r) = (y ≡ x) × Walks g target (y ∷ r)

extend :
    (g : Edges) (target x y : String) (p : List String)
    → (id : String) × (label g x y ≡ some id)
    → From g target y p
    → From g target x (x ∷ p)
extend g target x y [] l f = absurd f
extend g target x y (z ∷ r) l f =
    (refl, (subst (λ w. (id : String) × (label g x w ≡ some id)) (sym f.0) l, f.1))

search_paths-From :
    (fuel : ℕ) (g : Edges) (target : String) (seen : List String) (x : String)
    → All (From g target x) (search_paths fuel g target seen x)
unfolding search_paths
search_paths-From zero g target seen x = tt
search_paths-From (suc fuel) g target seen x = elim (Bool-cases (x == target)) [
  | inl e ↦ rw (e, search_paths) ((refl, (eq_iff x target).0 e), tt)
  | inr e ↦
      rw (e, search_paths)
        (All-map (From g target x) (◌∷◌ x) _ (
          All-concat_map (λ p. From g target x (x ∷ p)) (search_paths fuel g target (x ∷ seen)) _
            (All-mono _ _ _
              (λ y l.
                All-mono (From g target y) (λ p. From g target x (x ∷ p)) _
                  (λ p. extend g target x y p l) (search_paths-From fuel g target (x ∷ seen) y))
              (All-filter _ (λ y. not (contains (x ∷ seen) y)) _ (neighbours_linked g x)))))
]

pub edge_list-IsLawful : IsLawful edge_list
unfolding edge_list
edge_list-IsLawful = record {
  edge_id-empty = λ x y. refl;
  edge_id-add_edge = label-add;
  simple_paths_start = λ g a b.
      All-mono (From g b a) (StartsAt edge_list a) _ (λ p. start g b a p)
        (search_paths-From (suc (length (nodes g))) g b [] a);
  simple_paths_walk = λ g a b.
      All-mono (From g b a) (IsWalk edge_list g b) _ (λ p. walk g b a p)
        (search_paths-From (suc (length (nodes g))) g b [] a);
}
  where
    start : (g : Edges) (b a : String) (p : List String) → From g b a p → StartsAt edge_list a p
    start g b a [] f = f
    start g b a (x ∷ r) f = f.0

    walks : (g : Edges) (b : String) (p : List String) → Walks g b p → IsWalk edge_list g b p
    walks g b [] f = f
    walks g b (x ∷ []) f = f
    walks g b (x ∷ y ∷ r) f = (f.0, walks g b (y ∷ r) f.1)

    walk : (g : Edges) (b a : String) (p : List String) → From g b a p → IsWalk edge_list g b p
    walk g b a [] f = absurd f
    walk g b a (x ∷ r) f = walks g b (x ∷ r) f.1
