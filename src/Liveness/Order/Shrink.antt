-- ===== src/Liveness/Order/Shrink.antt =====
-- What taking a node without incoming edges out of the dependency graph leaves of it.
use ten_prof.Prelude.{
  ℕ, suc, ◌<◌, ◌≡◌, sym, ◌∙◌, true, false, [], ◌∷◌, ◌==◌, if◌then◌else◌, arith, Bool-cases, inl,
  inr, All, All-mono, All-zip, to_eq, subst,
}
use ten_prof.Common.Map.{Map, has, erase, IsSorted, IsSortedFrom, u64_key}
use ten_prof.Common.Map.Laws.{has-assign, assign-IsSortedFrom}
use ten_prof.Common.Map.Entries.{All-erase}
use ten_prof.Liveness.{EdgeIndex, EdgeSet, DependencyGraph, edge_key}
use ten_prof.Liveness.Graph.{edges_at, unlink, remove_edge, remove_edges}
use ten_prof.Liveness.Graph.Edges.{
  edges_at-unlink, All-unlink, edges_at-IsSorted-unlink, to_of_rank,
}

unlink-IsSorted : (k : ℕ) (e : EdgeIndex) (m : Map ℕ EdgeSet) → IsSorted m → IsSorted (unlink k e m)
unfolding unlink
unlink-IsSorted k e m s = assign-IsSortedFrom 0 k _ m (omega arith) s

has-unlink :
    (j k : ℕ) (e : EdgeIndex) (m : Map ℕ EdgeSet) → has j m ≡ true → has j (unlink k e m) ≡ true
unfolding unlink
has-unlink j k e m h = rw (has-assign k j (erase e (edges_at k m)) m) (ground arith)

-- The edges of a sorted set other than the one of a rank.
Others : EdgeIndex → EdgeSet → Type 0
Others e s = All (λ f. (edge_key.rank f.0 == edge_key.rank e) ≡ false) s

Others-above :
    (lo : ℕ) (e : EdgeIndex) (s : EdgeSet) → IsSortedFrom lo s → edge_key.rank e < lo → Others e s
unfolding Others
Others-above lo e [] h lt = tt
Others-above lo e ((f, u) ∷ s) h lt =
    (ground (arith, h.0, lt), Others-above (suc (edge_key.rank f)) e s h.1 (omega (arith, h.0, lt)))

erase-Others : (lo : ℕ) (e : EdgeIndex) (s : EdgeSet) → IsSortedFrom lo s → Others e (erase e s)
unfolding Others erase
erase-Others lo e [] h = tt
erase-Others lo e ((f, u) ∷ s) h = elim (Bool-cases (edge_key.rank e == edge_key.rank f)) [
  | inl same ↦
      rw (same, erase) (Others-above (suc (edge_key.rank f)) e s h.1 (ground (arith, same)))
  | inr other ↦
      rw (other, erase) (ground (arith, other), erase-Others (suc (edge_key.rank f)) e s h.1)
]

-- In another node's set there is no edge of the removed one's rank.
other_rank :
    (k n : ℕ) (e f : EdgeIndex)
    → e.from ≡ k
    → (n == e.to) ≡ false
    → f.to ≡ n
    → f.from ≡ k
    → (edge_key.rank f == edge_key.rank e) ≡ false
other_rank k n e f from away to same = elim (Bool-cases (edge_key.rank f == edge_key.rank e)) [
  | inl clash ↦
      let ends = to_of_rank f e (same ∙ sym from) (to_eq _ _ clash) in
      absurd (ground (arith, away, to, ends))
  | inr ne ↦ ne
]

module _ (R : ℕ → ℕ → Type 0) where
  -- An edge into `n` of a graph in which `R` holds from the origin to the end of an edge.
  abbrev pub IsEdge : DependencyGraph → ℕ → EdgeIndex → Type 0
  IsEdge g n e =
      (e.to ≡ n)
      × R e.from n
      × (has e.from g.nodes ≡ true)
      × (has e (edges_at e.from g.outcoming_edges) ≡ true)

  -- The maps of a graph rise, each node has its set of incoming edges, and these come from nodes of the
  -- graph, which have them among their outgoing edges.
  pub record IsSound (g : DependencyGraph) : Type 0 where
    pub sorted_in : IsSorted g.incoming_edges
    pub sorted_out : IsSorted g.outcoming_edges
    pub sorted_nodes : IsSorted g.nodes
    pub sorted_sets : (n : ℕ) → IsSorted (edges_at n g.incoming_edges)
    pub keys : (n : ℕ) → has n g.nodes ≡ true → has n g.incoming_edges ≡ true
    pub edges : (n : ℕ) → All (λ e. IsEdge g n e.0) (edges_at n g.incoming_edges)
    pub out : (n : ℕ) → All (λ e. e.0.from ≡ n) (edges_at n g.outcoming_edges)

  -- While the edges that leave `k` are removed, those of them that are left are in `es`.
  abbrev pub IsLeft : ℕ → EdgeSet → DependencyGraph → ℕ → EdgeIndex → Type 0
  IsLeft k es g n e =
      (e.to ≡ n)
      × R e.from n
      × (has e.from g.nodes ≡ true)
      × ((if e.from == k then has e es else has e (edges_at e.from g.outcoming_edges)) ≡ true)

  pub record IsClearing (k : ℕ) (es : EdgeSet) (g : DependencyGraph) : Type 0 where
    pub sorted_in : IsSorted g.incoming_edges
    pub sorted_out : IsSorted g.outcoming_edges
    pub sorted_nodes : IsSorted g.nodes
    pub sorted_sets : (n : ℕ) → IsSorted (edges_at n g.incoming_edges)
    pub keys : (n : ℕ) → has n g.nodes ≡ true → has n g.incoming_edges ≡ true
    pub edges : (n : ℕ) → All (λ e. IsLeft k es g n e.0) (edges_at n g.incoming_edges)
    pub out : (n : ℕ) → All (λ e. e.0.from ≡ n) (edges_at n g.outcoming_edges)
    pub leaving : All (λ e. e.0.from ≡ k) es

  -- An edge that is not the removed one is left as it was.
  remove_edge-IsLeft :
      (k n : ℕ) (e f : EdgeIndex) (es : EdgeSet) (g : DependencyGraph)
      → e.from ≡ k
      → (edge_key.rank f == edge_key.rank e) ≡ false
      → IsLeft k ((e, tt) ∷ es) g n f
      → IsLeft k es (remove_edge e g) n f
  unfolding remove_edge has
  remove_edge-IsLeft k n e f es g from ne (to, lt, node, left) = (
    to,
    lt,
    node,
    elim (Bool-cases (f.from == k)) [
      | inl same ↦ rw same (rw (same, has, ne) at left)
      | inr other ↦
          rw (other, edges_at-unlink f.from e.from e g.outcoming_edges, from, other)
            (rw other at left)
    ],
  )

  -- So is an edge of another set.
  remove_edge-IsLeft_other :
      (k n : ℕ) (e f : EdgeIndex) (es : EdgeSet) (g : DependencyGraph)
      → e.from ≡ k
      → (n == e.to) ≡ false
      → IsLeft k ((e, tt) ∷ es) g n f
      → IsLeft k es (remove_edge e g) n f
  unfolding remove_edge has
  remove_edge-IsLeft_other k n e f es g from away (to, lt, node, left) = (
    to,
    lt,
    node,
    elim (Bool-cases (f.from == k)) [
      | inl same ↦
          rw same (rw (same, has, other_rank k n e f from away to (to_eq _ _ same)) at left)
      | inr other ↦
          rw (other, edges_at-unlink f.from e.from e g.outcoming_edges, from, other)
            (rw other at left)
    ],
  )

  remove_edge-edges :
      (k n : ℕ) (e : EdgeIndex) (es : EdgeSet) (g : DependencyGraph)
      → IsClearing k ((e, tt) ∷ es) g
      → All (λ f. IsLeft k es (remove_edge e g) n f.0) (edges_at n (unlink e.to e g.incoming_edges))
  remove_edge-edges k n e es g v =
      rw (edges_at-unlink n e.to e g.incoming_edges) (elim (Bool-cases (n == e.to)) [
        | inl same ↦ rw same (
            All-zip _ _ _ (erase e (edges_at n g.incoming_edges))
              (λ f left ne. remove_edge-IsLeft k n e f.0 es g v.leaving.0 ne left)
              (All-erase _ e (edges_at n g.incoming_edges) (v.edges n))
              (unfold Others in erase-Others 0 e (edges_at n g.incoming_edges) (v.sorted_sets n)))
        | inr other ↦ rw other (
            All-mono _ _ (edges_at n g.incoming_edges)
              (λ f left. remove_edge-IsLeft_other k n e f.0 es g v.leaving.0 other left)
              (v.edges n))
      ])

  step-IsClearing :
      (k : ℕ) (e : EdgeIndex) (es : EdgeSet) (g : DependencyGraph)
      → IsClearing k ((e, tt) ∷ es) g
      → IsClearing k es (remove_edge e g)
  unfolding remove_edge
  step-IsClearing k e es g v = record {
    sorted_in = unlink-IsSorted e.to e g.incoming_edges v.sorted_in;
    sorted_out = unlink-IsSorted e.from e g.outcoming_edges v.sorted_out;
    sorted_nodes = v.sorted_nodes;
    sorted_sets = λ n. edges_at-IsSorted-unlink n e.to e g.incoming_edges (v.sorted_sets n);
    keys = λ n h. has-unlink n e.to e g.incoming_edges (v.keys n h);
    edges = λ n. remove_edge-edges k n e es g v;
    out = λ n. All-unlink _ n e.from e g.outcoming_edges (v.out n);
    leaving = v.leaving.1;
  }

  pub remove_edges-IsClearing :
      (k : ℕ) (es : EdgeSet) (g : DependencyGraph)
      → IsClearing k es g
      → IsClearing k [] (remove_edges es g)
  unfolding remove_edges
  remove_edges-IsClearing k [] g v = v
  remove_edges-IsClearing k ((e, tt) ∷ es) g v =
      remove_edges-IsClearing k es (remove_edge e g) (step-IsClearing k e es g v)

  -- Before the first removal, the edges of `k` are those of its outgoing set.
  pub start-IsClearing :
      (k : ℕ) (g : DependencyGraph) → IsSound g → IsClearing k (edges_at k g.outcoming_edges) g
  start-IsClearing k g v = record {
    sorted_in = v.sorted_in;
    sorted_out = v.sorted_out;
    sorted_nodes = v.sorted_nodes;
    sorted_sets = v.sorted_sets;
    keys = v.keys;
    edges = λ n.
        All-mono _ _ (edges_at n g.incoming_edges)
          (λ e h. (
            h.0,
            h.1,
            h.2,
            elim (Bool-cases (e.0.from == k)) [
              | inl same ↦
                  rw same (
                    subst (λ j. has e.0 (edges_at j g.outcoming_edges) ≡ true) (to_eq _ _ same) h.3)
              | inr other ↦ rw other h.3
            ],
          ))
          (v.edges n);
    out = v.out;
    leaving = v.out k;
  }

-- The edges go from smaller to larger ids.
abbrev pub IsRising : DependencyGraph → Type 0
IsRising g = IsSound (λ a b. a < b) g
