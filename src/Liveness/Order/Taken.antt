-- ===== src/Liveness/Order/Taken.antt =====
-- What taking a layer of nodes out of the dependency graph leaves of it.
use ten_prof.Prelude.{
  ℕ, ◌≤◌, ◌<◌, ◌≡◌, refl, true, List, [], ◌∷◌, ◌==◌, arith, Bool-cases, inl, inr, All, All-mono,
  to_eq, contains, ◌⊎◌, length, subst,
}
use ten_prof.Common.Map.{Map, has, erase, u64_key}
use ten_prof.Common.Map.Laws.{has-erase}
use ten_prof.Liveness.{GraphNode, DependencyGraph, edge_key}
use ten_prof.Liveness.Graph.{edges_at, get_no_inedge_nodes, remove_node}
use ten_prof.Liveness.Graph.Edges.{sources_lem}
use ten_prof.Liveness.Order.{remove_nodes}
use ten_prof.Liveness.Order.Shrink.{IsSound}
use ten_prof.Liveness.Order.Erased.{remove_node-IsSound, remove_node-nodes, remove_node_empty}

length-erase : (k : ℕ) (m : Map ℕ GraphNode) → length (erase k m) ≤ length m
unfolding erase
length-erase k [] = omega arith
length-erase k ((j, w) ∷ m) = ground (arith, length-erase k m)

length-erase-has : (k : ℕ) (m : Map ℕ GraphNode) → has k m ≡ true → length (erase k m) < length m
unfolding has erase
length-erase-has k [] h = cc
length-erase-has k ((j, w) ∷ m) h = ground (arith, length-erase-has k m)

length-remove_node : (k : ℕ) (g : DependencyGraph) → length (remove_node k g).nodes ≤ length g.nodes
length-remove_node k g = rw (remove_node-nodes k g) (length-erase k g.nodes)

length-remove_nodes :
    (ks : List ℕ) (g : DependencyGraph) → length (remove_nodes ks g).nodes ≤ length g.nodes
unfolding remove_nodes
length-remove_nodes [] g = omega arith
length-remove_nodes (k ∷ ks) g =
    omega (arith, length-remove_nodes ks (remove_node k g), length-remove_node k g)

pub nodes-cases :
    (m : Map ℕ GraphNode)
    → (m ≡ []) ⊎ ((k : ℕ) × (w : GraphNode) × (rest : Map ℕ GraphNode) × (m ≡ (k, w) ∷ rest))
nodes-cases [] = inl refl
nodes-cases ((k, w) ∷ m) = inr (k, w, m, refl)

module _ (R : ℕ → ℕ → Type 0) where
  -- Taking out nodes without incoming edges, one after the other.
  pub remove_nodes-IsSound :
      (ks : List ℕ) (g : DependencyGraph)
      → IsSound R g
      → All (λ k. edges_at k g.incoming_edges ≡ []) ks
      → IsSound R (remove_nodes ks g)
  unfolding remove_nodes
  remove_nodes-IsSound [] g v h = v
  remove_nodes-IsSound (k ∷ ks) g v h =
      remove_nodes-IsSound ks (remove_node k g) (remove_node-IsSound R k g v h.0)
        (All-mono _ _ ks (λ j empty. remove_node_empty R j k g v h.0 empty) h.1)

  -- A node that is taken out makes the graph smaller.
  pub length-remove_nodes-has :
      (j : ℕ) (ks : List ℕ) (g : DependencyGraph)
      → IsSound R g
      → All (λ k. edges_at k g.incoming_edges ≡ []) ks
      → contains j ks ≡ true
      → has j g.nodes ≡ true
      → length (remove_nodes ks g).nodes < length g.nodes
  unfolding remove_nodes
  length-remove_nodes-has j [] g v e c h = cc
  length-remove_nodes-has j (k ∷ ks) g v e c h = elim (Bool-cases (j == k)) [
    | inl same ↦
        let gone : length (remove_node k g).nodes < length g.nodes =
          rw (remove_node-nodes k g)
            (length-erase-has k g.nodes (subst (λ i. has i g.nodes ≡ true) (to_eq _ _ same) h)) in
        omega (arith, length-remove_nodes ks (remove_node k g), gone)
    | inr other ↦
        let ih =
          length-remove_nodes-has j ks (remove_node k g) (remove_node-IsSound R k g v e.0)
            (All-mono _ _ ks (λ i empty. remove_node_empty R i k g v e.0 empty) e.1) (ground arith)
            (rw (remove_node-nodes k g, has-erase 0 k j g.nodes v.sorted_nodes, other) h) in
        omega (arith, ih, length-remove_node k g)
  ]

  -- A node is taken out, or stays.
  pub has-remove_nodes :
      (j : ℕ) (ks : List ℕ) (g : DependencyGraph)
      → IsSound R g
      → All (λ k. edges_at k g.incoming_edges ≡ []) ks
      → has j g.nodes ≡ true
      → (contains j ks ≡ true) ⊎ (has j (remove_nodes ks g).nodes ≡ true)
  unfolding remove_nodes
  has-remove_nodes j [] g v e h = inr h
  has-remove_nodes j (k ∷ ks) g v e h = elim (Bool-cases (j == k)) [
    | inl same ↦ inl (ground arith)
    | inr other ↦
        elim (has-remove_nodes j ks (remove_node k g) (remove_node-IsSound R k g v e.0)
          (All-mono _ _ ks (λ i empty. remove_node_empty R i k g v e.0 empty) e.1)
          (rw (remove_node-nodes k g, has-erase 0 k j g.nodes v.sorted_nodes, other) h)) [
            | inl out ↦ inl (ground arith)
            | inr left ↦ inr left
          ]
  ]

  -- `get_no_inedge_nodes` returns nodes without incoming edges.
  pub get_no_inedge_nodes_lem :
      (g : DependencyGraph)
      → IsSound R g
      → All (λ k. edges_at k g.incoming_edges ≡ []) (get_no_inedge_nodes g)
  unfolding get_no_inedge_nodes
  get_no_inedge_nodes_lem g v = sources_lem g.incoming_edges v.sorted_in
