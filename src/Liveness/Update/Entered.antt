-- ===== src/Liveness/Update/Entered.antt =====
-- Entering an operation into the dependency graph keeps its edges rising, if the operation is a new one.
use mathlib.Core.Option.{some-injective}
use ten_prof.Prelude.{
  ℕ, suc, ◌≤◌, ◌<◌, ◌≡◌, refl, sym, ◌∙◌, Bool, true, false, some, List, [], ◌∷◌, ◌==◌, arith,
  Bool-cases, Option-cases, inl, inr, ◌⊎◌, All, All-mono, contains,
}
use ten_prof.Common.Map.{Map, find, has, assign, try_emplace, u64_key}
use ten_prof.Common.Map.Laws.{has-assign}
use ten_prof.Common.Map.Entries.{All-assign}
use ten_prof.Liveness.{MemoryOperation, AccessType, GraphNode, Dependencies, edge_key}
use ten_prof.Liveness.Graph.{has_node, add_node}
use ten_prof.Liveness.Graph.Rising.{add_node-IsSound}
use ten_prof.Liveness.Order.Shrink.{IsRising}
use ten_prof.Liveness.Update.{
  meet_node, push_edge, stream_edge, follow_stream, follow_access, update_graph_at_access,
}
use ten_prof.Liveness.Update.Rising.{
  Less, IsPast, IsGrown, IsPast-mono, All-find, update_stream_nodes-IsGrown, push_edge-IsGrown,
}
use ten_prof.Liveness.Update.Accesses.{access_object-IsGrown}

-- A node of the graph, which an operation from `b` on may depend on.
abbrev pub IsKnown : ℕ → Map ℕ GraphNode → ℕ → Type 0
IsKnown b nodes o = (has o nodes ≡ true) × (o < b)

-- Between two operations: the edges rise, and each id that is kept is that of a node below `b`.
pub record IsBelow (b : ℕ) (d : Dependencies) : Type 0 where
  pub graph : IsRising d.graph
  pub bound : (k : ℕ) → has k d.graph.nodes ≡ true → k < b
  pub streams : All (λ e. IsKnown b d.graph.nodes e.1) d.stream_ownership_map
  pub owners : All (λ e. IsKnown b d.graph.nodes e.1) d.obj_ownership_map
  pub readers : All (λ e. All (IsKnown b d.graph.nodes) e.1) d.read_nodes

-- What was entered is below the next id.
pub IsGrown-IsBelow :
    (followed : Bool) (touched : List ℕ) (op : ℕ) (d : Dependencies)
    → IsGrown followed touched op d
    → IsBelow (suc op) d
IsGrown-IsBelow followed touched op d v = record {
  graph = v.graph;
  bound = λ k h. omega (arith, v.bound k h);
  streams = All-mono _ _ d.stream_ownership_map (λ e h. (h.0, omega (arith, h.1))) v.streams;
  owners = All-mono _ _ d.obj_ownership_map (λ e h. (h.0, omega (arith, h.1))) v.owners;
  readers =
      All-mono _ _ d.read_nodes
        (λ e h. All-mono _ _ e.1 (λ r past. (past.0, omega (arith, past.1))) h) v.readers;
}

-- A known node stays known when a node is added.
known-IsPast :
    (b op k : ℕ) (node : GraphNode) (nodes : Map ℕ GraphNode) (t : Bool) (o : ℕ)
    → b ≤ op
    → IsKnown b nodes o
    → IsPast t op (assign k node nodes) o
known-IsPast b op k node nodes t o le (there, lt) =
    (rw (has-assign k o node nodes) (ground (arith, there)), omega arith, inr (omega arith))

added :
    (b op : ℕ) (node : GraphNode) (d : Dependencies)
    → b ≤ op
    → IsBelow b d
    → has op d.graph.nodes ≡ false
    → IsRising (add_node op node d.graph)
    → IsGrown false [] op (record d { graph = add_node op node d.graph })
unfolding add_node try_emplace
added b op node d le v new graph =
    rw (new, try_emplace)
      record {
        graph = rw (new, try_emplace) at graph;
        current = rw (has-assign op op node d.graph.nodes) (ground arith);
        bound = λ k h. ground (arith, rw (has-assign op k node d.graph.nodes) at h, v.bound k, le);
        streams =
            All-mono _ _ d.stream_ownership_map
              (λ e h. known-IsPast b op op node d.graph.nodes false e.1 le h) v.streams;
        owners =
            All-mono _ _ d.obj_ownership_map
              (λ e h. known-IsPast b op op node d.graph.nodes _ e.1 le h) v.owners;
        readers =
            All-mono _ _ d.read_nodes
              (λ e h. All-mono _ _ e.1 (λ r k. known-IsPast b op op node d.graph.nodes _ r le k) h)
              v.readers;
      }

-- The operation becomes a node of the graph.
pub meet_node-IsGrown :
    (b op : ℕ) (op_type : MemoryOperation) (d : Dependencies)
    → b ≤ op
    → IsBelow b d
    → IsGrown false [] op (meet_node op op_type d)
unfolding meet_node has_node
meet_node-IsGrown b op op_type d le v = elim (Bool-cases (has op d.graph.nodes)) [
  | inl old ↦ absurd (omega (arith, le, v.bound op old))
  | inr new ↦
      let met = add_node-IsSound Less op _ d.graph v.graph new in
      rw (new, meet_node, has_node) (added b op _ d le v new met)
]

-- A node that is there is met without a change.
pub meet_node_same :
    (op : ℕ) (op_type : MemoryOperation) (d : Dependencies)
    → has op d.graph.nodes ≡ true
    → meet_node op op_type d ≡ d
unfolding meet_node has_node
meet_node_same op op_type d h = rw h refl

followed_true :
    (followed : Bool) (touched : List ℕ) (op : ℕ) (d : Dependencies)
    → IsGrown followed touched op d
    → IsGrown true touched op d
followed_true followed touched op d v = record {
  graph = v.graph;
  current = v.current;
  bound = v.bound;
  streams =
      All-mono _ _ d.stream_ownership_map
        (λ e h. IsPast-mono followed true op d.graph.nodes e.1 (λ f. refl) h) v.streams;
  owners = v.owners;
  readers = v.readers;
}

-- The operation is the last of the stream.
led :
    (followed : Bool) (touched : List ℕ) (op stream_id : ℕ) (d : Dependencies)
    → IsGrown followed touched op d
    → IsGrown true touched op
        (record d { stream_ownership_map = assign stream_id op d.stream_ownership_map })
led followed touched op stream_id d v = record {
  graph = v.graph;
  current = v.current;
  bound = v.bound;
  streams =
      All-assign _ stream_id op d.stream_ownership_map
        (λ j same. (v.current, omega arith, inl refl))
        (All-mono _ _ d.stream_ownership_map
          (λ e h. IsPast-mono followed true op d.graph.nodes e.1 (λ f. refl) h) v.streams);
  owners = v.owners;
  readers = v.readers;
}

before_new : {o op : ℕ} → (false ≡ true) ⊎ (o < op) → o < op
before_new (inl e) = cc
before_new (inr lt) = lt

follow_stream-IsGrown :
    (followed : Bool) (touched : List ℕ) (op stream_id : ℕ) (d : Dependencies)
    → ((o : ℕ) → find stream_id d.stream_ownership_map ≡ some o → o < op)
    → IsGrown followed touched op d
    → IsGrown true touched op (follow_stream op stream_id d)
unfolding follow_stream
follow_stream-IsGrown followed touched op stream_id d earlier v =
    elim (Option-cases (find stream_id d.stream_ownership_map)) [
      | inl missing ↦ rw (missing, follow_stream) (led followed touched op stream_id d v)
      | inr (o, found) ↦
          let last = All-find _ stream_id o d.stream_ownership_map v.streams found in
          let pushed =
            push_edge-IsGrown followed op touched (stream_edge o op) [] d v refl (earlier o found)
              last.0 in
          rw (found, follow_stream)
            (unfold push_edge in
              (led followed touched op stream_id (push_edge (stream_edge o op) [] d) pushed))
    ]

-- A new operation comes after the last of its stream.
pub follow_new-IsGrown :
    (touched : List ℕ) (op stream_id : ℕ) (d : Dependencies)
    → IsGrown false touched op d
    → IsGrown true touched op (follow_stream op stream_id d)
follow_new-IsGrown touched op stream_id d v =
    follow_stream-IsGrown false touched op stream_id d
      (λ o e. before_new (All-find _ stream_id o d.stream_ownership_map v.streams e).2) v

follow_access-IsGrown :
    (followed : Bool) (touched : List ℕ) (op stream_id : ℕ) (d : Dependencies)
    → IsGrown followed touched op d
    → IsGrown true touched op (follow_access op stream_id d)
unfolding follow_access
follow_access-IsGrown followed touched op stream_id d v =
    elim (Option-cases (find stream_id d.stream_ownership_map)) [
      | inl missing ↦
          rw (missing, follow_access)
            (follow_stream-IsGrown followed touched op stream_id d (λ o e. cc) v)
      | inr (o, found) ↦
          let last = All-find _ stream_id o d.stream_ownership_map v.streams found in
          rw (found, follow_access)
            (elim (Bool-cases (o == op)) [
              | inl same ↦ rw same (followed_true followed touched op d v)
              | inr other ↦ rw other (
                  follow_stream-IsGrown followed touched op stream_id d
                    (λ o' e. ground (arith, some-injective o o' (sym found ∙ e), last.1, other)) v)
            ])
    ]

-- One access of an object, by an operation that is a node of the graph.
access-IsGrown :
    (followed : Bool) (touched : List ℕ) (op : ℕ) (op_type : MemoryOperation) (stream_id obj : ℕ)
    (access : AccessType) (d d' : Dependencies)
    → IsGrown followed touched op (meet_node op op_type d)
    → contains obj touched ≡ false
    → update_graph_at_access op op_type stream_id obj access d ≡ some d'
    → IsGrown true (obj ∷ touched) op d'
unfolding update_graph_at_access
access-IsGrown followed touched op op_type stream_id obj access d d' v new e =
    access_object-IsGrown true op touched obj access _ d'
      (update_stream_nodes-IsGrown true op touched stream_id _
        (follow_access-IsGrown followed touched op stream_id (meet_node op op_type d) v))
      new e

-- An access that is entered leaves a graph that has grown by its operation alone.
pub update_graph_at_access-IsGrown :
    (b op : ℕ) (op_type : MemoryOperation) (stream_id obj : ℕ) (access : AccessType)
    (d d' : Dependencies)
    → b ≤ op
    → IsBelow b d
    → update_graph_at_access op op_type stream_id obj access d ≡ some d'
    → IsGrown true (obj ∷ []) op d'
update_graph_at_access-IsGrown b op op_type stream_id obj access d d' le v e =
    access-IsGrown false [] op op_type stream_id obj access d d'
      (meet_node-IsGrown b op op_type d le v) refl e

-- A further access by the same operation, of another object.
pub update_graph_at_access_again :
    (touched : List ℕ) (op : ℕ) (op_type : MemoryOperation) (stream_id obj : ℕ)
    (access : AccessType) (d d' : Dependencies)
    → IsGrown true touched op d
    → contains obj touched ≡ false
    → update_graph_at_access op op_type stream_id obj access d ≡ some d'
    → IsGrown true (obj ∷ touched) op d'
update_graph_at_access_again touched op op_type stream_id obj access d d' v new e =
    access-IsGrown true touched op op_type stream_id obj access d d'
      (rw (meet_node_same op op_type d v.current) v) new e
