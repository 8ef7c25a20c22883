-- ===== src/Liveness/Graph/Rising.antt =====
-- What `add_node` and `add_edge` keep of the dependency graph.
use ten_prof.Prelude.{
  ℕ, ◌≡◌, refl, sym, subst, true, false, [], ◌==◌, arith, Bool-cases, inl, inr, All, All-mono,
  to_eq,
}
use ten_prof.Common.Map.{Key, Map, find, has, try_emplace, IsSorted, u64_key}
use ten_prof.Common.Map.Laws.{has-assign, assign-IsSortedFrom}
use ten_prof.Common.Map.Entries.{All-assign_new}
use ten_prof.Liveness.{EdgeIndex, EdgeSet, Edge, GraphNode, DependencyGraph, edge_key}
use ten_prof.Liveness.Graph.{edges_at, link, add_node, add_edge}
use ten_prof.Liveness.Graph.Edges.{eq_same, edges_at-assign, edges_at-link}
use ten_prof.Liveness.Order.Shrink.{IsEdge, IsSound}

module _ {ℓ κ} {K : Type ℓ} {V : Type κ} ⦃key : Key K⦄ where
  pub try_emplace-IsSortedFrom :
      (k : K) (v : V) (m : Map K V) → IsSorted m → IsSorted (try_emplace k v m)
  unfolding try_emplace
  try_emplace-IsSortedFrom k v m s = elim (Bool-cases (has k m)) [
    | inl old ↦ rw (try_emplace, old) s
    | inr new ↦ rw (try_emplace, new) (assign-IsSortedFrom 0 k v m (omega arith) s)
  ]

  pub All-try_emplace {ι} :
      (P : K × V → Type ι) (k : K) (v : V) (m : Map K V)
      → P (k, v)
      → All P m
      → All P (try_emplace k v m)
  unfolding try_emplace
  All-try_emplace P k v m p h = elim (Bool-cases (has k m)) [
    | inl old ↦ rw (try_emplace, old) h
    | inr new ↦ rw (try_emplace, new) (All-assign_new P k v m new p h)
  ]

  pub has-try_emplace :
      (k j : K) (v : V) (m : Map K V) → has j m ≡ true → has j (try_emplace k v m) ≡ true
  unfolding try_emplace
  has-try_emplace k j v m h = elim (Bool-cases (has k m)) [
    | inl old ↦ rw (try_emplace, old) h
    | inr new ↦ rw (try_emplace, new, has-assign k j v m) (ground (arith, h))
  ]

  pub has-try_emplace_same : (k : K) (v : V) (m : Map K V) → has k (try_emplace k v m) ≡ true
  unfolding try_emplace
  has-try_emplace_same k v m = elim (Bool-cases (has k m)) [
    | inl old ↦ rw (try_emplace, old) old
    | inr new ↦ rw (try_emplace, new, has-assign k k v m) (ground arith)
  ]

-- An edge from `e.from` that is there stays when another is linked.
has-link :
    (e f : EdgeIndex) (m : Map ℕ EdgeSet)
    → has f (edges_at f.from m) ≡ true
    → has f (edges_at f.from (link e.from e m)) ≡ true
has-link e f m h = rw (edges_at-link f.from e.from e m) (elim (Bool-cases (f.from == e.from)) [
  | inl same ↦ rw same (has-try_emplace e f tt (edges_at f.from m) h)
  | inr other ↦ rw other h
])

has-link_same :
    (e : EdgeIndex) (m : Map ℕ EdgeSet) → has e (edges_at e.from (link e.from e m)) ≡ true
has-link_same e m =
    rw (edges_at-link e.from e.from e m, eq_same e.from)
      (has-try_emplace_same e tt (edges_at e.from m))

All-link {ℓ} :
    (P : EdgeIndex × Unit {0} → Type ℓ) (n k : ℕ) (e : EdgeIndex) (m : Map ℕ EdgeSet)
    → (n ≡ k → P (e, tt))
    → All P (edges_at n m)
    → All P (edges_at n (link k e m))
All-link P n k e m p h = rw (edges_at-link n k e m) (elim (Bool-cases (n == k)) [
  | inl same ↦ rw same (All-try_emplace P e tt (edges_at n m) (p (to_eq n k same)) h)
  | inr other ↦ rw other h
])

edges_at-IsSorted-link :
    (n k : ℕ) (e : EdgeIndex) (m : Map ℕ EdgeSet)
    → IsSorted (edges_at n m)
    → IsSorted (edges_at n (link k e m))
edges_at-IsSorted-link n k e m h = rw (edges_at-link n k e m) (elim (Bool-cases (n == k)) [
  | inl same ↦ rw same (try_emplace-IsSortedFrom e tt (edges_at n m) h)
  | inr other ↦ rw other h
])

link-IsSorted : (k : ℕ) (e : EdgeIndex) (m : Map ℕ EdgeSet) → IsSorted m → IsSorted (link k e m)
unfolding link
link-IsSorted k e m s = assign-IsSortedFrom 0 k _ m (omega arith) s

module _ (R : ℕ → ℕ → Type 0) where
  add_node-IsEdge :
      (k n : ℕ) (node : GraphNode) (g : DependencyGraph) (e : EdgeIndex)
      → has k g.nodes ≡ false
      → IsEdge R g n e
      → IsEdge R (add_node k node g) n e
  unfolding add_node try_emplace
  add_node-IsEdge k n node g e new (to, r, from, out) = elim (Bool-cases (e.from == k)) [
    | inl same ↦ cc (rw (to_eq e.from k same, new) at from)
    | inr other ↦ (
      to,
      r,
      rw (new, has-assign k e.from node g.nodes, other) from,
      rw (edges_at-assign e.from k [] g.outcoming_edges, other) out,
    )
  ]

  -- A new node has no edges.
  pub add_node-IsSound :
      (k : ℕ) (node : GraphNode) (g : DependencyGraph)
      → IsSound R g
      → has k g.nodes ≡ false
      → IsSound R (add_node k node g)
  unfolding add_node try_emplace
  add_node-IsSound k node g v new = record {
    sorted_in = assign-IsSortedFrom 0 k [] g.incoming_edges (omega arith) v.sorted_in;
    sorted_out = assign-IsSortedFrom 0 k [] g.outcoming_edges (omega arith) v.sorted_out;
    sorted_nodes = rw new (assign-IsSortedFrom 0 k node g.nodes (omega arith) v.sorted_nodes);
    sorted_sets = λ n. rw (edges_at-assign n k [] g.incoming_edges) (elim (Bool-cases (n == k)) [
      | inl same ↦ rw same tt
      | inr other ↦ rw other (v.sorted_sets n)
    ]);
    keys = λ n h. rw (has-assign k n [] g.incoming_edges) (elim (Bool-cases (n == k)) [
      | inl same ↦ rw same refl
      | inr other ↦ rw other (v.keys n (rw (new, has-assign k n node g.nodes, other) at h))
    ]);
    edges = λ n. rw (edges_at-assign n k [] g.incoming_edges) (elim (Bool-cases (n == k)) [
      | inl same ↦ rw same tt
      | inr other ↦ rw other (
          All-mono _ _ (edges_at n g.incoming_edges) (λ e h. add_node-IsEdge k n node g e.0 new h)
            (v.edges n))
    ]);
    out = λ n.
        rw (edges_at-assign n k [] g.outcoming_edges)
          (elim (Bool-cases (n == k)) [ inl same ↦ rw same tt | inr other ↦ rw other (v.out n) ]);
  }

  -- A new edge between two nodes.
  pub add_edge-IsSound :
      (e : EdgeIndex) (edge : Edge) (g : DependencyGraph)
      → IsSound R g
      → R e.from e.to
      → has e.from g.nodes ≡ true
      → IsSound R (add_edge e edge g)
  unfolding add_edge
  add_edge-IsSound e edge g v rising node = record {
    sorted_in = link-IsSorted e.to e g.incoming_edges v.sorted_in;
    sorted_out = link-IsSorted e.from e g.outcoming_edges v.sorted_out;
    sorted_nodes = v.sorted_nodes;
    sorted_sets = λ n. edges_at-IsSorted-link n e.to e g.incoming_edges (v.sorted_sets n);
    keys = λ n h.
        unfold link in
        rw (has-assign e.to n (try_emplace e tt (edges_at e.to g.incoming_edges)) g.incoming_edges)
          (ground (arith, v.keys n h));
    edges = λ n.
        All-link _ n e.to e g.incoming_edges
          (λ same.
            (sym same, subst (R e.from) (sym same) rising, node, has-link_same e g.outcoming_edges))
          (All-mono _ _ (edges_at n g.incoming_edges)
            (λ f h. (h.0, h.1, h.2, has-link e f.0 g.outcoming_edges h.3)) (v.edges n));
    out = λ n. All-link _ n e.from e g.outcoming_edges (λ same. sym same) (v.out n);
  }

  -- A graph without nodes.
  pub no_graph-IsSound :
      IsSound R (record { incoming_edges = []; outcoming_edges = []; edges = []; nodes = [] })
  unfolding has edges_at find
  no_graph-IsSound = record {
    sorted_in = tt;
    sorted_out = tt;
    sorted_nodes = tt;
    sorted_sets = λ n. tt;
    keys = λ n h. cc;
    edges = λ n. tt;
    out = λ n. tt;
  }
