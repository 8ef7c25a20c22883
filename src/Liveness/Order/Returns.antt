-- ===== src/Liveness/Order/Returns.antt =====
-- The topological order ends, and has every node.
use ten_prof.Prelude.{
  ℕ, zero, suc, ◌≤◌, ◌<◌, ◌≡◌, refl, true, false, some, List, [], ◌∷◌, arith, inl, inr, All,
  contains, length,
}
use ten_prof.Common.Map.{Map, has, u64_key}
use ten_prof.Common.Map.Laws.{has_head}
use ten_prof.Common.Map.Prev.{le_of_has}
use ten_prof.Liveness.{EdgeSet, GraphNode, DependencyGraph, edge_key}
use ten_prof.Liveness.Graph.{edges_at, get_no_inedge_nodes}
use ten_prof.Liveness.Graph.Edges.{contains-sources}
use ten_prof.Liveness.Order.{is_empty, remove_nodes, layers, topological_order}
use ten_prof.Liveness.Order.Shrink.{IsEdge, IsRising}
use ten_prof.Liveness.Order.Layered.{IsOrder, IsOrder-cons}
use ten_prof.Liveness.Order.Taken.{
  nodes-cases, get_no_inedge_nodes_lem, remove_nodes-IsSound, length-remove_nodes-has,
}

abbrev Less : ℕ → ℕ → Type 0
Less a b = a < b

-- The smallest node of a rising graph has no incoming edges.
no_edges :
    (k : ℕ) (w : GraphNode) (m : Map ℕ GraphNode) (g : DependencyGraph) (s : EdgeSet)
    → IsRising g
    → g.nodes ≡ (k, w) ∷ m
    → All (λ e. IsEdge Less g k e.0) s
    → s ≡ []
no_edges k w m g [] v shape h = refl
no_edges k w m g (e ∷ s) v shape h =
    let node = rw shape at h.0.2 in
    let sorted = rw shape at v.sorted_nodes in
    absurd (omega (arith, h.0.1, le_of_has k e.0.from ((k, w) ∷ m) (omega arith, sorted.1) node))

sources_first :
    (k : ℕ) (w : GraphNode) (m : Map ℕ GraphNode) (g : DependencyGraph)
    → IsRising g
    → g.nodes ≡ (k, w) ∷ m
    → contains k (get_no_inedge_nodes g) ≡ true
unfolding get_no_inedge_nodes
sources_first k w m g v shape =
    contains-sources k g.incoming_edges (v.keys k (rw shape (has_head k w m)))
      (no_edges k w m g (edges_at k g.incoming_edges) v shape (v.edges k))

is_empty_nil : (g : DependencyGraph) → g.nodes ≡ [] → is_empty g ≡ true
unfolding is_empty
is_empty_nil g e = rw (is_empty, e) refl

is_empty_cons :
    (g : DependencyGraph) (k : ℕ) (w : GraphNode) (m : Map ℕ GraphNode)
    → g.nodes ≡ (k, w) ∷ m
    → is_empty g ≡ false
unfolding is_empty
is_empty_cons g k w m e = rw (is_empty, e) refl

-- The result of the loop, for a graph without nodes.
layers_end :
    (n : ℕ) (g : DependencyGraph)
    → g.nodes ≡ []
    → (layers n g ≡ some []) × ((k : ℕ) → has k g.nodes ≡ false)
unfolding layers has
layers_end zero g e = (rw (layers, is_empty_nil g e) refl, λ k. rw e refl)
layers_end (suc n) g e = (rw (layers, is_empty_nil g e) refl, λ k. rw e refl)

-- With fuel for each node the loop returns, with the layers in the order of the edges.
layers_return :
    (n : ℕ) (g : DependencyGraph)
    → IsRising g
    → length g.nodes ≤ n
    → (ls : List (List ℕ)) × (layers n g ≡ some ls) × IsOrder g ls
unfolding layers
layers_return zero g v h = elim (nodes-cases g.nodes) [
  | inl shape ↦
      let (returns, gone) = layers_end zero g shape in
      ([], returns, λ k node. cc (rw (gone k) at node))
  | inr (k, w, m, shape) ↦ absurd (omega (arith, rw shape at h))
]
layers_return (suc n) g v h = elim (nodes-cases g.nodes) [
  | inl shape ↦
      let (returns, gone) = layers_end (suc n) g shape in
      ([], returns, λ k node. cc (rw (gone k) at node))
  | inr (k, w, m, shape) ↦
      let ks = get_no_inedge_nodes g in
      let sources = get_no_inedge_nodes_lem Less g v in
      let smaller =
        length-remove_nodes-has Less k ks g v sources (sources_first k w m g v shape)
          (rw shape (has_head k w m)) in
      let (ls, returns, order) =
        layers_return n (remove_nodes ks g) (remove_nodes-IsSound Less ks g v sources)
          (omega (arith, smaller, h)) in
      (
        ks ∷ ls,
        rw (is_empty_cons g k w m shape, layers, returns) refl,
        IsOrder-cons Less ks ls g v sources order,
      )
]

-- The order is found with a round for each node.
pub topological_order_returns :
    (g : DependencyGraph)
    → IsRising g
    → (ls : List (List ℕ)) × (topological_order g ≡ some ls) × IsOrder g ls
unfolding topological_order
topological_order_returns g v = layers_return (length g.nodes) g v (omega arith)
