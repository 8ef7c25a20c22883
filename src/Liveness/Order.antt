-- ===== src/Liveness/Order.antt =====
-- redshow/src/analysis/memory_liveness.cpp: the loop of `dump_topological_order`, which takes the
-- nodes without incoming edges out of the graph, layer by layer, until no node is left.
pub mod Shrink
pub mod Erased
pub mod Taken
pub mod Returns
pub mod Loops
pub mod Layered
use ten_prof.Prelude.{
  ℕ, zero, suc, Bool, true, false, Option, none, some, List, [], ◌∷◌, ◌>>=◌, length, if◌then◌else◌,
}
use ten_prof.Liveness.{DependencyGraph}
use ten_prof.Liveness.Graph.{remove_node, get_no_inedge_nodes}

-- `_nodes.empty()`.
unfoldable pub is_empty : DependencyGraph → Bool
is_empty g = elim (g.nodes) [ [] ↦ true | e ∷ m ↦ false ]

-- `for (auto node : nodes) _graph.remove_node(node)`.
unfoldable pub remove_nodes : List ℕ → DependencyGraph → DependencyGraph
remove_nodes [] g = g
remove_nodes (k ∷ ks) g = remove_nodes ks (remove_node k g)

-- The loop, on fuel: the nodes of each `top_index` in turn.
unfoldable pub layers : ℕ → DependencyGraph → Option (List (List ℕ))
layers zero g = if is_empty g then some [] else none
layers (suc n) g = elim (is_empty g) [
  | true ↦ some []
  | false ↦
      let nodes = get_no_inedge_nodes g in
      do rest ← layers n (remove_nodes nodes g); some (nodes ∷ rest)
]

-- Each round takes out a node, so there are at most as many rounds as nodes.
unfoldable pub topological_order : DependencyGraph → Option (List (List ℕ))
topological_order g = layers (length g.nodes) g
