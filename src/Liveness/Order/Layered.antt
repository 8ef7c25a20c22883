-- ===== src/Liveness/Order/Layered.antt =====
-- The layers of the topological order respect the edges of the graph.
use ten_prof.Prelude.{
  ℕ, ◌≡◌, refl, sym, ◌∙◌, true, List, [], ◌∷◌, ◌++◌, ◌==◌, arith, Bool-cases, inl, inr, ◌⊎◌, All,
  All-mono, All-zip, to_eq, contains, contains-append,
}
use ten_prof.Common.Map.{has, erase, u64_key}
use ten_prof.Liveness.{EdgeIndex, EdgeSet, DependencyGraph, edge_key}
use ten_prof.Liveness.Graph.{edges_at, remove_edge, remove_edges, remove_node}
use ten_prof.Liveness.Graph.Edges.{edges_at-erase, edges_at-unlink, All-unlink, from_of_rank}
use ten_prof.Liveness.Order.{remove_nodes}
use ten_prof.Liveness.Order.Shrink.{IsSound, remove_edges-IsClearing, start-IsClearing}
use ten_prof.Liveness.Order.Erased.{remove_node-IsSound, remove_node_empty}
use ten_prof.Liveness.Order.Taken.{has-remove_nodes}

-- The nodes of all layers.
abbrev pub listed : List (List ℕ) → List ℕ
listed [] = []
listed (ks ∷ ls) = ks ++ listed ls

-- `a` is in a layer, and `b` in a later one.
abbrev pub IsBefore : ℕ → ℕ → List (List ℕ) → Type 0
IsBefore a b [] = ⊥
IsBefore a b (ks ∷ ls) =
    ((contains a ks ≡ true) × (contains b (listed ls) ≡ true)) ⊎ IsBefore a b ls

All-erase_back {ℓ} :
    (Q : EdgeIndex × Unit {0} → Type ℓ) (e : EdgeIndex) (s : EdgeSet)
    → All Q (erase e s)
    → All (λ f. (edge_key.rank f.0 ≡ edge_key.rank e) ⊎ Q f) s
unfolding erase
All-erase_back Q e [] h = tt
All-erase_back Q e ((f, u) ∷ s) h = elim (Bool-cases (edge_key.rank e == edge_key.rank f)) [
  | inl same ↦ (inl (sym (to_eq _ _ same)), All-mono _ _ s (λ x q. inr q) (rw (same, erase) at h))
  | inr other ↦ let kept = rw (other, erase) at h in (inr kept.0, All-erase_back Q e s kept.1)
]

left_or_kept {ℓ} :
    (Q : EdgeIndex × Unit {0} → Type ℓ) (k n : ℕ) (e : EdgeIndex) (f : EdgeIndex × Unit {0})
    → e.from ≡ k
    → n ≡ e.to
    → f.0.to ≡ n
    → (edge_key.rank f.0 ≡ edge_key.rank e) ⊎ Q f
    → (f.0.from ≡ k) ⊎ Q f
left_or_kept Q k n e f from same ends (inl rank) =
    inl (from_of_rank f.0 e (ends ∙ same) rank ∙ from)
left_or_kept Q k n e f from same ends (inr q) = inr q

either_left {ℓ} :
    (Q : EdgeIndex × Unit {0} → Type ℓ) (k : ℕ) (f : EdgeIndex × Unit {0})
    → (f.0.from ≡ k) ⊎ ((f.0.from ≡ k) ⊎ Q f)
    → (f.0.from ≡ k) ⊎ Q f
either_left Q k f (inl from) = inl from
either_left Q k f (inr q) = q

-- What holds of the edges that are left holds of each edge that did not leave `k`.
All-remove_edge_back {ℓ} :
    (Q : EdgeIndex × Unit {0} → Type ℓ) (k n : ℕ) (e : EdgeIndex) (g : DependencyGraph)
    → e.from ≡ k
    → All (λ f. f.0.to ≡ n) (edges_at n g.incoming_edges)
    → All Q (edges_at n (remove_edge e g).incoming_edges)
    → All (λ f. (f.0.from ≡ k) ⊎ Q f) (edges_at n g.incoming_edges)
unfolding remove_edge
All-remove_edge_back Q k n e g from to h = elim (Bool-cases (n == e.to)) [
  | inl same ↦
      let kept = rw (edges_at-unlink n e.to e g.incoming_edges, same) at h in
      All-zip _ _ _ (edges_at n g.incoming_edges)
        (λ f ends q. left_or_kept Q k n e f from (to_eq n e.to same) ends q) to
        (All-erase_back Q e (edges_at n g.incoming_edges) kept)
  | inr other ↦
      All-mono _ _ (edges_at n g.incoming_edges) (λ f q. inr q)
        (rw (edges_at-unlink n e.to e g.incoming_edges, other) at h)
]

All-remove_edges_back {ℓ} :
    (Q : EdgeIndex × Unit {0} → Type ℓ) (k n : ℕ) (es : EdgeSet) (g : DependencyGraph)
    → All (λ f. f.0.from ≡ k) es
    → All (λ f. f.0.to ≡ n) (edges_at n g.incoming_edges)
    → All Q (edges_at n (remove_edges es g).incoming_edges)
    → All (λ f. (f.0.from ≡ k) ⊎ Q f) (edges_at n g.incoming_edges)
unfolding remove_edges
All-remove_edges_back Q k n [] g leaving to h =
    All-mono _ _ (edges_at n g.incoming_edges) (λ f q. inr q) h
All-remove_edges_back Q k n ((e, tt) ∷ es) g leaving to h =
    let ih =
      All-remove_edges_back Q k n es (remove_edge e g) leaving.1
        (unfold remove_edge in (All-unlink _ n e.to e g.incoming_edges to)) h in
    All-mono _ _ (edges_at n g.incoming_edges) (λ f q. either_left Q k f q)
      (All-remove_edge_back (λ f. (f.0.from ≡ k) ⊎ Q f) k n e g leaving.0 to ih)

-- Of a node without incoming edges that is taken out, the edges that left it are gone.
All-remove_node_back {ℓ} :
    (R : ℕ → ℕ → Type 0) (Q : EdgeIndex × Unit {0} → Type ℓ) (k n : ℕ) (g : DependencyGraph)
    → IsSound R g
    → edges_at k g.incoming_edges ≡ []
    → All Q (edges_at n (remove_node k g).incoming_edges)
    → All (λ f. (f.0.from ≡ k) ⊎ Q f) (edges_at n g.incoming_edges)
unfolding remove_node
All-remove_node_back R Q k n g v source h = elim (Bool-cases (n == k)) [
  | inl same ↦ rw (to_eq n k same, source) tt
  | inr other ↦
      let cleared =
        remove_edges-IsClearing R k (edges_at k g.outcoming_edges) g (start-IsClearing R k g v) in
      let kept =
        rw
          (
            source,
            edges_at-erase n k (remove_edges (edges_at k g.outcoming_edges) g).incoming_edges
                cleared.sorted_in,
            other,
          )
          at h in
      All-remove_edges_back Q k n (edges_at k g.outcoming_edges) g (v.out k)
        (All-mono _ _ (edges_at n g.incoming_edges) (λ f e. e.0) (v.edges n)) kept
]

contains_eq : (a k : ℕ) (ks : List ℕ) → a ≡ k → contains a (k ∷ ks) ≡ true
contains_eq a k ks e = ground arith

contains_more : (a k : ℕ) (ks : List ℕ) → contains a ks ≡ true → contains a (k ∷ ks) ≡ true
contains_more a k ks e = ground arith

taken_or {ℓ} :
    (Q : EdgeIndex × Unit {0} → Type ℓ) (k : ℕ) (ks : List ℕ) (f : EdgeIndex × Unit {0})
    → (f.0.from ≡ k) ⊎ ((contains f.0.from ks ≡ true) ⊎ Q f)
    → (contains f.0.from (k ∷ ks) ≡ true) ⊎ Q f
taken_or Q k ks f (inl from) = inl (contains_eq f.0.from k ks from)
taken_or Q k ks f (inr (inl more)) = inl (contains_more f.0.from k ks more)
taken_or Q k ks f (inr (inr q)) = inr q

All-remove_nodes_back {ℓ} :
    (R : ℕ → ℕ → Type 0) (Q : EdgeIndex × Unit {0} → Type ℓ) (n : ℕ) (ks : List ℕ)
    (g : DependencyGraph)
    → IsSound R g
    → All (λ k. edges_at k g.incoming_edges ≡ []) ks
    → All Q (edges_at n (remove_nodes ks g).incoming_edges)
    → All (λ f. (contains f.0.from ks ≡ true) ⊎ Q f) (edges_at n g.incoming_edges)
unfolding remove_nodes
All-remove_nodes_back R Q n [] g v h q = All-mono _ _ (edges_at n g.incoming_edges) (λ f x. inr x) q
All-remove_nodes_back R Q n (k ∷ ks) g v h q =
    let ih =
      All-remove_nodes_back R Q n ks (remove_node k g) (remove_node-IsSound R k g v h.0)
        (All-mono _ _ ks (λ j empty. remove_node_empty R j k g v h.0 empty) h.1) q in
    All-mono _ _ (edges_at n g.incoming_edges) (λ f x. taken_or Q k ks f x)
      (All-remove_node_back R _ k n g v h.0 ih)

-- The layers of a graph in which the nodes of the first come before the rest.
first_or_later :
    (n : ℕ) (ks : List ℕ) (rest : List (List ℕ)) (f : EdgeIndex × Unit {0})
    → contains n (listed rest) ≡ true
    → (contains f.0.from ks ≡ true) ⊎ IsBefore f.0.from n rest
    → IsBefore f.0.from n (ks ∷ rest)
first_or_later n ks rest f there (inl out) = inl (out, there)
first_or_later n ks rest f there (inr later) = inr later

-- What the layers are to the graph: each node is in one, and each edge into a node goes from a layer
-- to a later one.
abbrev pub IsOrder : DependencyGraph → List (List ℕ) → Type 0
IsOrder g ls =
    (n : ℕ)
    → has n g.nodes ≡ true
    → (contains n (listed ls) ≡ true)
      × All (λ f. IsBefore f.0.from n ls) (edges_at n g.incoming_edges)

All-contains :
    (n : ℕ) (ks : List ℕ) (g : DependencyGraph)
    → contains n ks ≡ true
    → All (λ k. edges_at k g.incoming_edges ≡ []) ks
    → edges_at n g.incoming_edges ≡ []
All-contains n [] g c h = cc
All-contains n (k ∷ ks) g c h = elim (Bool-cases (n == k)) [
  | inl same ↦ rw (to_eq n k same) (h.0)
  | inr other ↦ All-contains n ks g (ground arith) h.1
]

-- A source is in the first layer, and another node where it is in the rest.
pub IsOrder-cons :
    (R : ℕ → ℕ → Type 0) (ks : List ℕ) (rest : List (List ℕ)) (g : DependencyGraph)
    → IsSound R g
    → All (λ k. edges_at k g.incoming_edges ≡ []) ks
    → IsOrder (remove_nodes ks g) rest
    → IsOrder g (ks ∷ rest)
IsOrder-cons R ks rest g v sources order n node = elim (has-remove_nodes R n ks g v sources node) [
  | inl out ↦
      (rw (contains-append n ks (listed rest), out) refl, rw (All-contains n ks g out sources) tt)
  | inr left ↦
      let (there, before) = order n left in
      (
        rw (contains-append n ks (listed rest), there) (ground arith),
        All-mono _ _ (edges_at n g.incoming_edges) (λ f x. first_or_later n ks rest f there x)
            (All-remove_nodes_back R _ n ks g v sources before),
      )
]
