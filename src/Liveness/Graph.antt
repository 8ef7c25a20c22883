-- ===== src/Liveness/Graph.antt =====
-- redshow/include/analysis/memory_liveness.h: `DependencyGraph`. `m[k]` of a map of edge sets reads an
-- empty set where `k` has no entry; the empty entries that reading alone leaves are those of the
-- node that `remove_node` erases at its end.
pub mod Edges
pub mod Rising
use ten_prof.Prelude.{ℕ, Bool, none, some, List, [], ◌∷◌, ◌++◌}
use ten_prof.Common.Map.{Map, find, has, assign, erase, try_emplace, u64_key}
use ten_prof.Liveness.{EdgeIndex, Edge, GraphNode, EdgeSet, DependencyGraph, edge_key}

-- `edges[k]`.
unfoldable pub edges_at : ℕ → Map ℕ EdgeSet → EdgeSet
edges_at k m = elim (find k m) [ none ↦ [] | some s ↦ s ]

-- `edges[k].emplace(e)` and `edges[k].erase(e)`.
unfoldable pub link : ℕ → EdgeIndex → Map ℕ EdgeSet → Map ℕ EdgeSet
unfolding edges_at try_emplace
link k e m = assign k (try_emplace e tt (edges_at k m)) m

unfoldable pub unlink : ℕ → EdgeIndex → Map ℕ EdgeSet → Map ℕ EdgeSet
unfolding edges_at
unlink k e m = assign k (erase e (edges_at k m)) m

unfoldable pub has_node : ℕ → DependencyGraph → Bool
has_node k g = has k g.nodes

unfoldable pub has_edge : EdgeIndex → DependencyGraph → Bool
has_edge e g = has e g.edges

unfoldable pub add_node : ℕ → GraphNode → DependencyGraph → DependencyGraph
unfolding try_emplace
add_node k node g = record g {
  nodes = try_emplace k node g.nodes;
  incoming_edges = assign k [] g.incoming_edges;
  outcoming_edges = assign k [] g.outcoming_edges;
}

unfoldable pub add_edge : EdgeIndex → Edge → DependencyGraph → DependencyGraph
unfolding link try_emplace
add_edge e edge g = record g {
  edges = try_emplace e edge g.edges;
  incoming_edges = link e.to e g.incoming_edges;
  outcoming_edges = link e.from e g.outcoming_edges;
}

unfoldable pub remove_edge : EdgeIndex → DependencyGraph → DependencyGraph
unfolding unlink
remove_edge e g = record g {
  incoming_edges = unlink e.to e g.incoming_edges;
  outcoming_edges = unlink e.from e g.outcoming_edges;
  edges = erase e g.edges;
}

-- `for (auto e : e_list) remove_edge(e)`.
unfoldable pub remove_edges : EdgeSet → DependencyGraph → DependencyGraph
unfolding remove_edge
remove_edges [] g = g
remove_edges ((e, _) ∷ es) g = remove_edges es (remove_edge e g)

unfoldable pub remove_node : ℕ → DependencyGraph → DependencyGraph
unfolding remove_edges edges_at
remove_node k g =
    let cleared = remove_edges (edges_at k g.incoming_edges ++ edges_at k g.outcoming_edges) g in
    record cleared {
      incoming_edges = erase k cleared.incoming_edges;
      outcoming_edges = erase k cleared.outcoming_edges;
      nodes = erase k cleared.nodes;
    }

-- `get_no_inedge_nodes`, over the entries of `_incoming_edges`.
unfoldable pub sources : Map ℕ EdgeSet → List ℕ
sources [] = []
sources ((k, []) ∷ m) = k ∷ sources m
sources ((k, e ∷ es) ∷ m) = sources m

unfoldable pub get_no_inedge_nodes : DependencyGraph → List ℕ
unfolding sources
get_no_inedge_nodes g = sources g.incoming_edges
