-- ===== src/Liveness.antt =====
-- redshow/include/analysis/memory_liveness.h: the data of the memory liveness analysis. The members
-- that it keeps once for memories and once for sub-memories are a `Ledger`, the members that its
-- graph is built in are `Dependencies`, and the rest is in `Liveness`.
pub mod Memories
pub mod Graph
pub mod Update
pub mod Callbacks
pub mod Sizes
pub mod Merge
pub mod Order
use ten_prof.Prelude.{ℕ, ◌*◌, ◌+◌, u64_mod, List, [], ◌^◌}
use ten_prof.Common.Map.{Key, Map}
use ten_prof.Operation.{Memory}
use ten_prof.View.State.{PythonState}

-- `memory_operation_t`.
pub data MemoryOperation : Type 0 where
  memory_alloc memory_set memory_copyt memory_copyf memory_access memory_free : MemoryOperation
  submemory_alloc submemory_free operation_nums : MemoryOperation

pub record MemoryEntry : Type 0 where
  pub op_id : ℕ
  pub size : ℕ

-- The word of a `memory_size`.
pub data SizeOp : Type 0 where
  alloc free : SizeOp

pub record MemorySize : Type 0 where
  pub op : SizeOp
  pub size : ℕ

-- The operations on each memory, by their ids.
abbrev pub Operations : Type 0
Operations = Map ℕ (Map ℕ MemoryOperation)

-- `_memories` to `_memory_size_log`, or the members of sub-memories of the same names.
pub record Ledger : Type 0 where
  pub memories : Map ℕ Memory
  pub current_memories : Map ℕ Memory
  pub addresses_map : Map ℕ ℕ
  pub memory_size_list : List MemoryEntry
  pub operations : Operations
  pub current_memory_usage : ℕ
  pub current_memory_peak : ℕ
  pub optimal_memory_peak : ℕ
  pub memory_peak_kernel : ℕ
  pub memory_size_log : Map ℕ MemorySize

pub record OpStreams : Type 0 where
  pub op_type1 : MemoryOperation
  pub stream_id1 : ℕ
  pub op_type2 : MemoryOperation
  pub stream_id2 : ℕ

pub record Frame : Type 0 where
  pub pc : ℕ
  pub offset : ℕ
  pub frame : List ℕ

pub data EdgeType : Type 0 where
  stream_dependency data_dependency : EdgeType

pub data AccessType : Type 0 where
  read write : AccessType

pub record EdgeIndex : Type 0 where
  pub from : ℕ
  pub to : ℕ
  pub edge_type : EdgeType

abbrev pub edge_number : EdgeType → ℕ
edge_number stream_dependency = 0
edge_number data_dependency = 1

-- `EdgeIndex::operator<`: for ids of 64 bits, the order by `from`, then `to`, then the type.
instance abbrev pub edge_key : Key EdgeIndex
edge_key = record { rank = λ e. (e.from * u64_mod + e.to) * 2 + edge_number e.edge_type }

-- `Edge::touched_objs`.
abbrev pub Edge : Type 0
Edge = Map ℕ AccessType

-- `MemoryLiveness::Node`.
pub record GraphNode : Type 0 where
  pub op_id : ℕ
  pub stream_id : ℕ
  pub op_type : MemoryOperation

-- `Set<EdgeIndex>`.
abbrev pub EdgeSet : Type 0
EdgeSet = Map EdgeIndex (Unit {0})

pub record DependencyGraph : Type 0 where
  pub incoming_edges : Map ℕ EdgeSet
  pub outcoming_edges : Map ℕ EdgeSet
  pub edges : Map EdgeIndex Edge
  pub nodes : Map ℕ GraphNode

-- `_obj_ownership_map` to `_global_op_id_start`.
pub record Dependencies : Type 0 where
  pub obj_ownership_map : Map ℕ ℕ
  pub stream_ownership_map : Map ℕ ℕ
  pub stream_nodes : Map ℕ (List ℕ)
  pub read_nodes : Map ℕ (List ℕ)
  pub edge_list : List EdgeIndex
  pub graph : DependencyGraph
  pub global_op_id_start : ℕ

-- What an operation is to the sub-memories: `_sub_op_node`.
pub data SubOp : Type 0 where
  sub_alloc sub_free sub_access : SubOp

pub record Liveness : Type 0 where
  pub op_node : Map ℕ ℕ
  pub kernel_op_node : Map ℕ ℕ
  pub ctx_node : Map ℕ MemoryOperation
  pub op_to_stream : Map ℕ OpStreams
  pub stream_to_op : Map ℕ (List ℕ)
  pub main : Ledger
  pub sub : Ledger
  pub torch_python_states : Map ℕ (List PythonState)
  pub sub_op_node : Map ℕ SubOp
  pub memory_libunwind_frames : Map ℕ (List Frame)
  pub dependencies : Dependencies
