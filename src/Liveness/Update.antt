-- ===== src/Liveness/Update.antt =====
-- redshow/src/analysis/memory_liveness.cpp: `update_graph_at_malloc` and the other functions that grow
-- the dependency graph. `none` stands for an `at` that throws, or for an owner that is not there.
pub mod Rising
pub mod Entered
pub mod Life
pub mod Owners
pub mod Accesses
use ten_prof.Prelude.{
  ℕ, Bool, true, false, Option, none, some, List, [], ◌∷◌, ◌++◌, ◌==◌, ltb, if◌then◌else◌, contains,
}
use ten_prof.Common.Map.{Map, find, has, assign, try_emplace, u64_key}
use ten_prof.Liveness.{
  MemoryOperation, memory_access, EdgeIndex, stream_dependency, data_dependency, Edge, AccessType,
  read, write, Dependencies, DependencyGraph, edge_key,
}
use ten_prof.Liveness.Memories.{AuxEntry}
use ten_prof.Liveness.Graph.{has_node, has_edge, add_node, add_edge}

unfoldable pub update_global_op_id_start : ℕ → Dependencies → Dependencies
update_global_op_id_start op_id d =
    if ltb op_id d.global_op_id_start then record d { global_op_id_start = op_id } else d

unfoldable pub update_stream_nodes : ℕ → ℕ → Dependencies → Dependencies
update_stream_nodes op_id stream_id d = elim (find stream_id d.stream_nodes) [
  | none ↦ record d { stream_nodes = assign stream_id (op_id ∷ []) d.stream_nodes }
  | some nodes ↦
      if contains op_id nodes
      then d
      else record d { stream_nodes = assign stream_id (nodes ++ op_id ∷ []) d.stream_nodes }
]

-- `Node(op_id, op_type)`, where the graph has no node of that id.
unfoldable pub meet_node : ℕ → MemoryOperation → Dependencies → Dependencies
meet_node op_id op_type d = if has_node op_id d.graph then d else record d {
  graph = add_node op_id (record { op_id = op_id; stream_id = 0; op_type = op_type }) d.graph;
}

-- `_graph.add_edge` and `_edge_list.push_back`.
unfoldable pub push_edge : EdgeIndex → Edge → Dependencies → Dependencies
push_edge e edge d = record d { graph = add_edge e edge d.graph; edge_list = d.edge_list ++ e ∷ [] }

abbrev pub stream_edge : ℕ → ℕ → EdgeIndex
stream_edge from to = record { from = from; to = to; edge_type = stream_dependency }

abbrev pub data_edge : ℕ → ℕ → EdgeIndex
data_edge from to = record { from = from; to = to; edge_type = data_dependency }

-- The last part of `update_graph_at_malloc` and of `update_graph_at_free`: the operation follows the
-- one that the stream ran before.
unfoldable pub follow_stream : ℕ → ℕ → Dependencies → Dependencies
follow_stream op_id stream_id d = elim (find stream_id d.stream_ownership_map) [
  | none ↦ record d { stream_ownership_map = assign stream_id op_id d.stream_ownership_map }
  | some before ↦
      let pushed = push_edge (stream_edge before op_id) [] d in
      record pushed { stream_ownership_map = assign stream_id op_id d.stream_ownership_map }
]

unfoldable pub update_graph_at_malloc : ℕ → ℕ → MemoryOperation → Dependencies → Dependencies
update_graph_at_malloc op_id stream_id op_type d =
    let met = meet_node op_id op_type d in
    let owned =
      if has_node op_id d.graph
      then d
      else record met { obj_ownership_map = try_emplace op_id op_id met.obj_ownership_map } in
    follow_stream op_id stream_id (update_stream_nodes op_id stream_id owned)

-- `if (read_nodes.empty())`: the operations that a write or a free of the memory waits for.
unfoldable pub users_of : ℕ → List ℕ → List ℕ
users_of owner [] = owner ∷ []
users_of owner (r ∷ readers) = r ∷ readers

-- The loop over the readers of a freed memory.
unfoldable pub free_readers : ℕ → ℕ → List ℕ → Dependencies → Dependencies
free_readers op_id memory_op_id [] d = d
free_readers op_id memory_op_id (r ∷ readers) d =
    free_readers op_id memory_op_id readers
      (push_edge (data_edge r op_id) ((memory_op_id, write) ∷ []) d)

-- The readers are cleared and the operation becomes the owner.
unfoldable pub own : ℕ → ℕ → Dependencies → Dependencies
own op_id memory_op_id d = record d {
  read_nodes = assign memory_op_id [] d.read_nodes;
  obj_ownership_map = assign memory_op_id op_id d.obj_ownership_map;
}

unfoldable pub update_graph_at_free :
    ℕ → ℕ → ℕ → MemoryOperation → Dependencies → Option Dependencies
update_graph_at_free op_id stream_id memory_op_id op_type d =
    let met = meet_node op_id op_type d in
    elim (find memory_op_id met.obj_ownership_map) [
      | none ↦ none
      | some owner ↦ elim (find memory_op_id met.read_nodes) [
        | none ↦ none
        | some readers ↦
            let freed = free_readers op_id memory_op_id (users_of owner readers) met in
            let linked = own op_id memory_op_id freed in
            some (follow_stream op_id stream_id (update_stream_nodes op_id stream_id linked))
      ]
    ]

-- The data dependency of an access on one earlier operation: a new edge, or one more object of an
-- edge that is there.
unfoldable pub depend : ℕ → ℕ → ℕ → AccessType → Dependencies → Dependencies
depend from op_id obj_op_id access d =
    let e = data_edge from op_id in
    if has_edge e d.graph
    then elim (find e d.graph.edges) [
      | none ↦ d
      | some edge ↦ record d {
        graph = record d.graph {
          edges = assign e (try_emplace obj_op_id access edge) d.graph.edges;
        };
      }
    ]
    else push_edge e ((obj_op_id, access) ∷ []) d

-- The loop over the readers of a memory that is written.
unfoldable pub depend_readers : ℕ → ℕ → AccessType → List ℕ → Dependencies → Dependencies
depend_readers op_id obj_op_id access [] d = d
depend_readers op_id obj_op_id access (r ∷ readers) d =
    depend_readers op_id obj_op_id access readers (depend r op_id obj_op_id access d)

-- The stream part of `update_graph_at_access`: an operation does not follow itself.
unfoldable pub follow_access : ℕ → ℕ → Dependencies → Dependencies
follow_access op_id stream_id d = elim (find stream_id d.stream_ownership_map) [
  | none ↦ follow_stream op_id stream_id d
  | some before ↦ if before == op_id then d else follow_stream op_id stream_id d
]

-- The data part of `update_graph_at_access`.
unfoldable pub access_object : ℕ → ℕ → AccessType → Dependencies → Option Dependencies
access_object op_id obj_op_id access d = elim (find obj_op_id d.read_nodes) [
  | none ↦ none
  | some readers ↦ elim (find obj_op_id d.obj_ownership_map) [
    | none ↦ none
    | some owner ↦ elim access [
      | read ↦ some (
          depend owner op_id obj_op_id read
            (record d { read_nodes = assign obj_op_id (readers ++ op_id ∷ []) d.read_nodes }))
      | write ↦
          some
            (own op_id obj_op_id (depend_readers op_id obj_op_id write (users_of owner readers) d))
    ]
  ]
]

unfoldable pub update_graph_at_access :
    ℕ → MemoryOperation → ℕ → ℕ → AccessType → Dependencies → Option Dependencies
update_graph_at_access op_id op_type stream_id obj_op_id access d =
    access_object op_id obj_op_id access (
      update_stream_nodes op_id stream_id
        (follow_access op_id stream_id (meet_node op_id op_type d)))

-- The branches of the loop of `update_graph_at_kernel`, for an entry that is hit.
unfoldable pub access_of : AuxEntry → Option AccessType
access_of e = if e.write_bit == 1 then some write else if e.read_bit == 1 then some read else none

unfoldable pub update_graph_at_kernel :
    List AuxEntry → ℕ → ℕ → Map ℕ ℕ → Dependencies → Option Dependencies
update_graph_at_kernel [] op_id stream_id addresses_map d = some d
update_graph_at_kernel (e ∷ aux) op_id stream_id addresses_map d = elim (e.hit == 1) [
  | true ↦ elim (find e.start addresses_map) [
    | none ↦ none
    | some memory_op_id ↦ elim (access_of e) [
      | none ↦ update_graph_at_kernel aux op_id stream_id addresses_map d
      | some access ↦
          elim (update_graph_at_access op_id memory_access stream_id memory_op_id access d) [
            | none ↦ none
            | some d' ↦ update_graph_at_kernel aux op_id stream_id addresses_map d'
          ]
    ]
  ]
  | false ↦ update_graph_at_kernel aux op_id stream_id addresses_map d
]
