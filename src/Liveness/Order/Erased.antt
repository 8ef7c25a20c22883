-- ===== src/Liveness/Order/Erased.antt =====
-- A node whose edges are removed is erased, and the graph is as before without it.
use ten_prof.Prelude.{ℕ, ◌≡◌, refl, ap, [], ◌∷◌, ◌++◌, ◌==◌, Bool-cases, inl, inr, All-mono}
use ten_prof.Common.Map.{has, erase, u64_key}
use ten_prof.Common.Map.Laws.{has-erase, erase-IsSortedFrom}
use ten_prof.Liveness.{EdgeIndex, EdgeSet, DependencyGraph, edge_key}
use ten_prof.Liveness.Graph.{edges_at, remove_edge, remove_edges, remove_node}
use ten_prof.Liveness.Graph.Edges.{edges_at-erase, unlink_empty}
use ten_prof.Liveness.Order.Shrink.{
  IsEdge, IsSound, IsLeft, IsClearing, remove_edges-IsClearing, start-IsClearing,
}

-- The node can then be erased.
erase_node : ℕ → DependencyGraph → DependencyGraph
erase_node k g = record g {
  incoming_edges = erase k g.incoming_edges;
  outcoming_edges = erase k g.outcoming_edges;
  nodes = erase k g.nodes;
}

remove_edges-nodes : (es : EdgeSet) (g : DependencyGraph) → (remove_edges es g).nodes ≡ g.nodes
unfolding remove_edges remove_edge
remove_edges-nodes [] g = refl
remove_edges-nodes ((e, tt) ∷ es) g = remove_edges-nodes es (remove_edge e g)

pub remove_node-nodes : (k : ℕ) (g : DependencyGraph) → (remove_node k g).nodes ≡ erase k g.nodes
unfolding remove_node
remove_node-nodes k g =
    ap (erase k)
      (remove_edges-nodes (edges_at k g.incoming_edges ++ edges_at k g.outcoming_edges) g)

remove_edges_empty :
    (j : ℕ) (es : EdgeSet) (g : DependencyGraph)
    → edges_at j g.incoming_edges ≡ []
    → edges_at j (remove_edges es g).incoming_edges ≡ []
unfolding remove_edges remove_edge
remove_edges_empty j [] g h = h
remove_edges_empty j ((e, tt) ∷ es) g h =
    remove_edges_empty j es (remove_edge e g) (unlink_empty j e.to e g.incoming_edges h)

module _ (R : ℕ → ℕ → Type 0) where
  cleared-IsEdge :
      (k n : ℕ) (g : DependencyGraph) (e : EdgeIndex)
      → IsClearing R k [] g
      → IsLeft R k [] g n e
      → IsEdge R (erase_node k g) n e
  unfolding erase_node has
  cleared-IsEdge k n g e v (to, lt, node, left) = elim (Bool-cases (e.from == k)) [
    | inl same ↦ cc (rw same at left)
    | inr other ↦ (
      to,
      lt,
      rw (has-erase 0 k e.from g.nodes v.sorted_nodes, other) node,
      rw (edges_at-erase e.from k g.outcoming_edges v.sorted_out, other) (rw other at left),
    )
  ]

  erase_node-IsSound :
      (k : ℕ) (g : DependencyGraph) → IsClearing R k [] g → IsSound R (erase_node k g)
  unfolding erase_node
  erase_node-IsSound k g v = record {
    sorted_in = erase-IsSortedFrom 0 k g.incoming_edges v.sorted_in;
    sorted_out = erase-IsSortedFrom 0 k g.outcoming_edges v.sorted_out;
    sorted_nodes = erase-IsSortedFrom 0 k g.nodes v.sorted_nodes;
    sorted_sets = λ n.
        rw (edges_at-erase n k g.incoming_edges v.sorted_in) (elim (Bool-cases (n == k)) [
          | inl same ↦ rw same tt
          | inr other ↦ rw other (v.sorted_sets n)
        ]);
    keys = λ n h. elim (Bool-cases (n == k)) [
      | inl same ↦ cc (rw (has-erase 0 k n g.nodes v.sorted_nodes, same) at h)
      | inr other ↦
          rw (has-erase 0 k n g.incoming_edges v.sorted_in, other)
            (v.keys n (rw (has-erase 0 k n g.nodes v.sorted_nodes, other) at h))
    ];
    edges = λ n. rw (edges_at-erase n k g.incoming_edges v.sorted_in) (elim (Bool-cases (n == k)) [
      | inl same ↦ rw same tt
      | inr other ↦ rw other (
          All-mono _ _ (edges_at n g.incoming_edges) (λ e h. cleared-IsEdge k n g e.0 v h)
            (v.edges n))
    ]);
    out = λ n.
        rw (edges_at-erase n k g.outcoming_edges v.sorted_out)
          (elim (Bool-cases (n == k)) [ inl same ↦ rw same tt | inr other ↦ rw other (v.out n) ]);
  }

  -- Taking out a node without incoming edges keeps the graph sound.
  pub remove_node-IsSound :
      (k : ℕ) (g : DependencyGraph)
      → IsSound R g
      → edges_at k g.incoming_edges ≡ []
      → IsSound R (remove_node k g)
  unfolding remove_node erase_node
  remove_node-IsSound k g v source = rw (source) (
      erase_node-IsSound k (remove_edges (edges_at k g.outcoming_edges) g)
        (remove_edges-IsClearing R k (edges_at k g.outcoming_edges) g (start-IsClearing R k g v)))

  -- A node without incoming edges stays without.
  pub remove_node_empty :
      (j k : ℕ) (g : DependencyGraph)
      → IsSound R g
      → edges_at k g.incoming_edges ≡ []
      → edges_at j g.incoming_edges ≡ []
      → edges_at j (remove_node k g).incoming_edges ≡ []
  unfolding remove_node
  remove_node_empty j k g v source h =
      let cleared =
        remove_edges-IsClearing R k (edges_at k g.outcoming_edges) g (start-IsClearing R k g v) in
      rw
        (
          source,
          edges_at-erase j k (remove_edges (edges_at k g.outcoming_edges) g).incoming_edges
              cleared.sorted_in,
        )
        (elim (Bool-cases (j == k)) [
          | inl same ↦ rw same refl
          | inr other ↦ rw other (remove_edges_empty j (edges_at k g.outcoming_edges) g h)
        ])
