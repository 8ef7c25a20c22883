-- ===== src/Liveness/Update/Rising.antt =====
-- What the functions that grow the dependency graph keep of it while one operation is entered.
use mathlib.Core.Option.{some-injective}
use ten_prof.Prelude.{
  ℕ, ◌≤◌, ◌<◌, ◌≡◌, refl, sym, subst, Bool, true, some, List, [], ◌∷◌, ◌==◌, arith, Bool-cases,
  Option-cases, inl, inr, ◌⊎◌, All, All-mono, to_eq, contains,
}
use ten_prof.Common.Map.{Map, find, has, u64_key}
use ten_prof.Common.Map.Entries.{All-assign}
use ten_prof.Liveness.{EdgeIndex, Edge, AccessType, GraphNode, Dependencies, edge_key}
use ten_prof.Liveness.Graph.{has_edge, add_edge}
use ten_prof.Liveness.Graph.Rising.{add_edge-IsSound}
use ten_prof.Liveness.Order.Shrink.{IsRising}
use ten_prof.Liveness.Update.{
  update_stream_nodes, push_edge, data_edge, free_readers, own, depend, depend_readers,
}

abbrev pub Less : ℕ → ℕ → Type 0
Less a b = a < b

-- A node that the operation `op` may depend on: an earlier one, or, where `touched`, perhaps itself.
abbrev pub IsPast : Bool → ℕ → Map ℕ GraphNode → ℕ → Type 0
IsPast touched op nodes o = (has o nodes ≡ true) × (o ≤ op) × ((touched ≡ true) ⊎ (o < op))

-- While `op` is entered: the edges rise, and the nodes that streams ran last, that own objects or that
-- read them are earlier ones, but for the stream, once it is `followed`, and the objects of `touched`.
pub record IsGrown (followed : Bool) (touched : List ℕ) (op : ℕ) (d : Dependencies) : Type 0 where
  pub graph : IsRising d.graph
  pub current : has op d.graph.nodes ≡ true
  pub bound : (k : ℕ) → has k d.graph.nodes ≡ true → k ≤ op
  pub streams : All (λ e. IsPast followed op d.graph.nodes e.1) d.stream_ownership_map
  pub owners : All (λ e. IsPast (contains e.0 touched) op d.graph.nodes e.1) d.obj_ownership_map
  pub readers : All (λ e. All (IsPast (contains e.0 touched) op d.graph.nodes) e.1) d.read_nodes

pub IsPast-mono :
    (s t : Bool) (op : ℕ) (nodes : Map ℕ GraphNode) (o : ℕ)
    → (s ≡ true → t ≡ true)
    → IsPast s op nodes o
    → IsPast t op nodes o
IsPast-mono s t op nodes o up (node, le, inl touched) = (node, le, inl (up touched))
IsPast-mono s t op nodes o up (node, le, inr lt) = (node, le, inr lt)

pub contains-cons : (m j : ℕ) (t : List ℕ) → contains m t ≡ true → contains m (j ∷ t) ≡ true
contains-cons m j t h = ground arith

pub contains_head : (j : ℕ) (t : List ℕ) → contains j (j ∷ t) ≡ true
contains_head j t = ground arith

-- An entry that is found.
pub All-find {ℓ κ} :
    {V : Type ℓ} (P : ℕ × V → Type κ) (k : ℕ) (v : V) (m : Map ℕ V)
    → All P m
    → find k m ≡ some v
    → P (k, v)
unfolding find
All-find P k v [] h e = cc
All-find P k v ((j, w) ∷ m) h e = elim (Bool-cases (k == j)) [
  | inl same ↦
      subst (λ i. P (i, v)) (sym (to_eq k j same))
        (subst (λ x. P (j, x)) (some-injective w v (rw (same, find) at e)) h.0)
  | inr other ↦ All-find P k v m h.1 (rw (other, find) at e)
]

module _ (followed : Bool) (op : ℕ) where
  -- The members that are not mentioned may change.
  stream_nodes-IsGrown :
      (touched : List ℕ) (m : Map ℕ (List ℕ)) (d : Dependencies)
      → IsGrown followed touched op d
      → IsGrown followed touched op (record d { stream_nodes = m })
  stream_nodes-IsGrown touched m d v = record {
    graph = v.graph;
    current = v.current;
    bound = v.bound;
    streams = v.streams;
    owners = v.owners;
    readers = v.readers;
  }

  pub update_stream_nodes-IsGrown :
      (touched : List ℕ) (stream_id : ℕ) (d : Dependencies)
      → IsGrown followed touched op d
      → IsGrown followed touched op (update_stream_nodes op stream_id d)
  unfolding update_stream_nodes
  update_stream_nodes-IsGrown touched stream_id d v =
      elim (Option-cases (find stream_id d.stream_nodes)) [
        | inl missing ↦ rw (missing, update_stream_nodes) (stream_nodes-IsGrown touched _ d v)
        | inr (nodes, there) ↦
            rw (there, update_stream_nodes)
              (elim (Bool-cases (contains op nodes)) [
                | inl old ↦ rw old v
                | inr new ↦ rw new (stream_nodes-IsGrown touched _ d v)
              ])
      ]

  edges-IsGrown :
      (touched : List ℕ) (m : Map EdgeIndex Edge) (d : Dependencies)
      → IsGrown followed touched op d
      → IsGrown followed touched op (record d { graph = record d.graph { edges = m } })
  edges-IsGrown touched m d v = record {
    graph = record {
      sorted_in = v.graph.sorted_in;
      sorted_out = v.graph.sorted_out;
      sorted_nodes = v.graph.sorted_nodes;
      sorted_sets = v.graph.sorted_sets;
      keys = v.graph.keys;
      edges = v.graph.edges;
      out = v.graph.out;
    };
    current = v.current;
    bound = v.bound;
    streams = v.streams;
    owners = v.owners;
    readers = v.readers;
  }

  pub push_edge-IsGrown :
      (touched : List ℕ) (e : EdgeIndex) (edge : Edge) (d : Dependencies)
      → IsGrown followed touched op d
      → e.to ≡ op
      → e.from < op
      → has e.from d.graph.nodes ≡ true
      → IsGrown followed touched op (push_edge e edge d)
  unfolding push_edge add_edge
  push_edge-IsGrown touched e edge d v to lt node = record {
    graph = add_edge-IsSound Less e edge d.graph v.graph (omega arith) node;
    current = v.current;
    bound = v.bound;
    streams = v.streams;
    owners = v.owners;
    readers = v.readers;
  }

  pub depend-IsGrown :
      (touched : List ℕ) (from obj : ℕ) (access : AccessType) (d : Dependencies)
      → IsGrown followed touched op d
      → from < op
      → has from d.graph.nodes ≡ true
      → IsGrown followed touched op (depend from op obj access d)
  unfolding depend
  depend-IsGrown touched from obj access d v lt node =
      let e = data_edge from op in
      elim (Bool-cases (has_edge e d.graph)) [
        | inl old ↦
            rw (old, depend)
              (elim (Option-cases (find e d.graph.edges)) [
                | inl missing ↦ rw missing v
                | inr (edge, there) ↦ rw there (edges-IsGrown touched _ d v)
              ])
        | inr new ↦ rw (new, depend) (push_edge-IsGrown touched e _ d v refl lt node)
      ]

  push_edge-nodes :
      (e : EdgeIndex) (edge : Edge) (d : Dependencies)
      → (push_edge e edge d).graph.nodes ≡ d.graph.nodes
  unfolding push_edge add_edge
  push_edge-nodes e edge d = refl

  depend-nodes :
      (from obj : ℕ) (access : AccessType) (d : Dependencies)
      → (depend from op obj access d).graph.nodes ≡ d.graph.nodes
  unfolding depend
  depend-nodes from obj access d = elim (Bool-cases (has_edge (data_edge from op) d.graph)) [
    | inl old ↦
        rw (old, depend)
          (elim (Option-cases (find (data_edge from op) d.graph.edges)) [
            | inl missing ↦ rw missing refl
            | inr (edge, there) ↦ rw there refl
          ])
    | inr new ↦ rw (new, depend) (push_edge-nodes (data_edge from op) _ d)
  ]

  -- Earlier nodes of the graph.
  abbrev pub AreEarlier : Map ℕ GraphNode → List ℕ → Type 0
  AreEarlier nodes rs = All (λ r. (r < op) × (has r nodes ≡ true)) rs

  pub depend_readers-IsGrown :
      (touched : List ℕ) (obj : ℕ) (access : AccessType) (rs : List ℕ) (d : Dependencies)
      → IsGrown followed touched op d
      → AreEarlier d.graph.nodes rs
      → IsGrown followed touched op (depend_readers op obj access rs d)
  unfolding depend_readers
  depend_readers-IsGrown touched obj access [] d v h = v
  depend_readers-IsGrown touched obj access (r ∷ rs) d v h =
      depend_readers-IsGrown touched obj access rs (depend r op obj access d)
        (depend-IsGrown touched r obj access d v h.0.0 h.0.1)
        (subst (λ nodes. AreEarlier nodes rs) (sym (depend-nodes r obj access d)) h.1)

  pub free_readers-IsGrown :
      (touched : List ℕ) (obj : ℕ) (rs : List ℕ) (d : Dependencies)
      → IsGrown followed touched op d
      → AreEarlier d.graph.nodes rs
      → IsGrown followed touched op (free_readers op obj rs d)
  unfolding free_readers
  free_readers-IsGrown touched obj [] d v h = v
  free_readers-IsGrown touched obj (r ∷ rs) d v h =
      free_readers-IsGrown touched obj rs (push_edge (data_edge r op) _ d)
        (push_edge-IsGrown touched (data_edge r op) _ d v refl h.0.0 h.0.1)
        (subst (λ nodes. AreEarlier nodes rs) (sym (push_edge-nodes (data_edge r op) _ d)) h.1)

  -- The operation owns the object.
  pub own-IsGrown :
      (touched : List ℕ) (obj : ℕ) (d : Dependencies)
      → IsGrown followed touched op d
      → IsGrown followed (obj ∷ touched) op (own op obj d)
  unfolding own
  own-IsGrown touched obj d v = record {
    graph = v.graph;
    current = v.current;
    bound = v.bound;
    streams = v.streams;
    owners =
        All-assign _ obj op d.obj_ownership_map
          (λ j same. (
            v.current,
            omega arith,
            inl (subst (λ i. contains i (obj ∷ touched) ≡ true) same (contains_head obj touched)),
          ))
          (All-mono _ _ d.obj_ownership_map
            (λ e h. IsPast-mono _ _ op d.graph.nodes e.1 (contains-cons e.0 obj touched) h)
            v.owners);
    readers =
        All-assign _ obj [] d.read_nodes (λ j same. tt)
          (All-mono _ _ d.read_nodes
            (λ e h.
              All-mono _ _ e.1
                (λ r past. IsPast-mono _ _ op d.graph.nodes r (contains-cons e.0 obj touched) past)
                h)
            v.readers);
  }
