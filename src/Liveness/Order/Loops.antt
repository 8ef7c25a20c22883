-- ===== src/Liveness/Order/Loops.antt =====
-- A graph with an edge from a node to itself, and the loop of the topological order on it.
use ten_prof.Prelude.{
  ℕ, zero, suc, ◌≡◌, refl, ◌∙◌, true, false, none, List, [], ◌∷◌, ◌==◌, arith, Bool-cases, inl, inr,
  All, All-mono, to_eq,
}
use ten_prof.Common.Map.{has, IsSorted, u64_key}
use ten_prof.Common.Map.Laws.{has-erase}
use ten_prof.Liveness.{EdgeIndex, EdgeSet, DependencyGraph, edge_key}
use ten_prof.Liveness.Graph.{edges_at, get_no_inedge_nodes, remove_edge, remove_edges, remove_node}
use ten_prof.Liveness.Graph.Edges.{
  edges_at-erase, edges_at-unlink, edges_at-IsSorted-unlink, from_of_rank,
}
use ten_prof.Liveness.Order.{is_empty, remove_nodes, layers}
use ten_prof.Liveness.Order.Shrink.{IsSound, remove_edges-IsClearing, start-IsClearing}
use ten_prof.Liveness.Order.Taken.{nodes-cases, get_no_inedge_nodes_lem}
use ten_prof.Liveness.Order.Erased.{remove_node-IsSound, remove_node-nodes, remove_node_empty}

-- Any edge may be there.
abbrev pub Any : ℕ → ℕ → Type 0
Any a b = Unit

-- The graph has the edge `e` from the node `n` to itself.
pub record IsLooped (n : ℕ) (e : EdgeIndex) (g : DependencyGraph) : Type 0 where
  pub sound : IsSound Any g
  pub from : e.from ≡ n
  pub to : e.to ≡ n
  pub node : has n g.nodes ≡ true
  pub loop : has e (edges_at n g.incoming_edges) ≡ true

-- Removing the edges of another node leaves it there.
remove_edges_keep :
    (n k : ℕ) (e : EdgeIndex) (es : EdgeSet) (g : DependencyGraph)
    → ((j : ℕ) → IsSorted (edges_at j g.incoming_edges))
    → All (λ f. f.0.from ≡ k) es
    → (n == k) ≡ false
    → e.from ≡ n
    → e.to ≡ n
    → has e (edges_at n g.incoming_edges) ≡ true
    → has e (edges_at n (remove_edges es g).incoming_edges) ≡ true
unfolding remove_edges remove_edge
remove_edges_keep n k e [] g sorted leaving other from to h = h
remove_edges_keep n k e ((f, tt) ∷ es) g sorted leaving other from to h =
    remove_edges_keep n k e es (remove_edge f g)
      (λ j. edges_at-IsSorted-unlink j f.to f g.incoming_edges (sorted j)) leaving.1 other from to
      (rw (edges_at-unlink n f.to f g.incoming_edges) (elim (Bool-cases (n == f.to)) [
        | inr away ↦ rw away h
        | inl same ↦
            rw (same, has-erase 0 f e (edges_at n g.incoming_edges) (sorted n))
              (elim (Bool-cases (edge_key.rank e == edge_key.rank f)) [
                | inr ne ↦ rw ne h
                | inl eq ↦
                    let origin = from_of_rank e f (to ∙ to_eq _ _ same) (to_eq _ _ eq) in
                    absurd (ground (arith, other, from, origin, leaving.0))
              ])
      ]))

-- Such a node has an incoming edge.
not_source :
    (n k : ℕ) (e : EdgeIndex) (g : DependencyGraph)
    → IsLooped n e g
    → edges_at k g.incoming_edges ≡ []
    → (n == k) ≡ false
unfolding has
not_source n k e g v source = elim (Bool-cases (n == k)) [
  | inl same ↦ cc (rw (to_eq n k same, source) at v.loop)
  | inr other ↦ other
]

remove_node-IsLooped :
    (n k : ℕ) (e : EdgeIndex) (g : DependencyGraph)
    → IsLooped n e g
    → edges_at k g.incoming_edges ≡ []
    → IsLooped n e (remove_node k g)
unfolding remove_node
remove_node-IsLooped n k e g v source =
    let other = not_source n k e g v source in
    let cleared =
      remove_edges-IsClearing Any k (edges_at k g.outcoming_edges) g
        (start-IsClearing Any k g v.sound) in
    record {
      sound = remove_node-IsSound Any k g v.sound source;
      from = v.from;
      to = v.to;
      node = rw (remove_node-nodes k g, has-erase 0 k n g.nodes v.sound.sorted_nodes, other) v.node;
      loop =
          rw
            (
              source,
              edges_at-erase n k (remove_edges (edges_at k g.outcoming_edges) g).incoming_edges
                  cleared.sorted_in,
              other,
            )
            (remove_edges_keep n k e (edges_at k g.outcoming_edges) g v.sound.sorted_sets
              (v.sound.out k) other v.from v.to v.loop);
    }

remove_nodes-IsLooped :
    (n : ℕ) (e : EdgeIndex) (ks : List ℕ) (g : DependencyGraph)
    → IsLooped n e g
    → All (λ k. edges_at k g.incoming_edges ≡ []) ks
    → IsLooped n e (remove_nodes ks g)
unfolding remove_nodes
remove_nodes-IsLooped n e [] g v h = v
remove_nodes-IsLooped n e (k ∷ ks) g v h =
    remove_nodes-IsLooped n e ks (remove_node k g) (remove_node-IsLooped n k e g v h.0)
      (All-mono _ _ ks (λ j empty. remove_node_empty Any j k g v.sound h.0 empty) h.1)

has-some : (n : ℕ) (g : DependencyGraph) → has n g.nodes ≡ true → is_empty g ≡ false
unfolding is_empty has
has-some n g h = elim (nodes-cases g.nodes) [
  | inl shape ↦ cc (rw shape at h)
  | inr (k, w, m, shape) ↦ rw (is_empty, shape) refl
]

-- On a graph with an edge from a node to itself the loop of the topological order does not end,
-- however much fuel it has.
pub layers_never :
    (fuel n : ℕ) (e : EdgeIndex) (g : DependencyGraph) → IsLooped n e g → layers fuel g ≡ none
unfolding layers
layers_never zero n e g v = rw (has-some n g v.node) refl
layers_never (suc fuel) n e g v =
    let sources = get_no_inedge_nodes_lem Any g v.sound in
    rw
      (
        has-some n g v.node,
        layers,
        layers_never fuel n e (remove_nodes (get_no_inedge_nodes g) g)
            (remove_nodes-IsLooped n e (get_no_inedge_nodes g) g v sources),
      )
      refl
