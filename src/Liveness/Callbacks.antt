-- ===== src/Liveness/Callbacks.antt =====
-- redshow/src/analysis/memory_liveness.cpp: `op_callback` and `analysis_begin`, as they are built with
-- REDSHOW_GPU_ANALYSIS and REDSHOW_TORCH_SUBMEMORY_ANALYSIS. The Python states and the frames that
-- torch-monitor and libunwind give for an operation are arguments. `none` stands for an exception, or
-- for reading an entry of a map that is not there.
pub mod Kept
pub mod Kernels
pub mod Reach
pub mod Held
pub mod Coupled
pub mod Copied
pub mod Released
use ten_prof.Prelude.{
  ℕ, ◌+◌, ◌%◌, u64_mod, Bool, true, false, Option, none, some, List, [], ◌∷◌, ◌++◌, ◌==◌, ltb,
  if◌then◌else◌, ◌>>=◌,
}
use ten_prof.Common.Map.{Map, find, has, assign, prev, try_emplace, u64_key}
use ten_prof.Operation.{
  Memory, Memfree, Memcpy, Memset, Kernel, Operation, kernel, memory, memfree, memcpy, memset,
  memory_host,
}
use ten_prof.View.State.{PythonState}
use ten_prof.Liveness.{
  MemoryOperation, memory_alloc, memory_set, memory_copyt, memory_copyf, memory_access, memory_free,
  submemory_alloc, submemory_free, operation_nums, Ledger, Frame, AccessType, read, write, SubOp,
  sub_alloc, sub_free, sub_access, Liveness,
}
use ten_prof.Liveness.Memories.{note, allocate, release, AuxEntry, update_aux_hit}
use ten_prof.Liveness.Update.{
  update_global_op_id_start, update_graph_at_malloc, update_graph_at_free, update_graph_at_access,
  update_graph_at_kernel,
}

-- Only operations above the reserved ids are pointed to their contexts.
unfoldable pub update_op_node : ℕ → ℕ → Liveness → Liveness
update_op_node op_id ctx_id l =
    if ltb memory_host op_id then record l { op_node = assign op_id ctx_id l.op_node } else l

unfoldable pub update_ctx_node : ℕ → MemoryOperation → Liveness → Liveness
update_ctx_node ctx_id op l = record l { ctx_node = try_emplace ctx_id op l.ctx_node }

-- `op_type == REDSHOW_MEMORY_COPYT || op_type == REDSHOW_MEMORY_COPYF`.
unfoldable pub is_copy : MemoryOperation → Bool
is_copy memory_copyt = true
is_copy memory_copyf = true
is_copy _ = false

unfoldable pub update_stream_for_ops : ℕ → ℕ → MemoryOperation → Liveness → Liveness
update_stream_for_ops stream_id op_id op_type l = record l {
  op_to_stream = elim (find op_id l.op_to_stream) [
    | none ↦
        assign op_id
          (record {
            op_type1 = op_type;
            stream_id1 = stream_id;
            op_type2 = operation_nums;
            stream_id2 = 0;
          })
          l.op_to_stream
    | some s ↦
        if is_copy op_type
        then assign op_id (record s { op_type2 = op_type; stream_id2 = stream_id }) l.op_to_stream
        else l.op_to_stream
  ];
  stream_to_op = elim (find stream_id l.stream_to_op) [
    | none ↦ assign stream_id (op_id ∷ []) l.stream_to_op
    | some ops ↦ assign stream_id (ops ++ op_id ∷ []) l.stream_to_op
  ];
}

-- `get_torch_libunwind_backtrace` and `update_torch_python_states`, and the word of the operation.
unfoldable pub trace_back : ℕ → SubOp → List Frame → List PythonState → Liveness → Liveness
trace_back op_id word frames states l = record l {
  memory_libunwind_frames = try_emplace op_id frames l.memory_libunwind_frames;
  torch_python_states = try_emplace op_id states l.torch_python_states;
  sub_op_node = try_emplace op_id word l.sub_op_node;
}

unfoldable pub memory_op_callback :
    Memory → Bool → List Frame → List PythonState → Liveness → Liveness
memory_op_callback op is_submemory frames states l =
    let started = record l { dependencies = update_global_op_id_start op.op_id l.dependencies } in
    if is_submemory
    then (let traced = trace_back op.op_id sub_alloc frames states started in
        record traced { sub = allocate op submemory_alloc traced.sub })
    else (let noted = update_ctx_node op.ctx_id memory_alloc (
          update_stream_for_ops op.stream_id op.op_id memory_alloc
            (update_op_node op.op_id op.ctx_id started)) in
        let grown = update_graph_at_malloc op.op_id op.stream_id memory_alloc noted.dependencies in
        record noted {
          dependencies = record grown { read_nodes = try_emplace op.op_id [] grown.read_nodes };
          main = allocate op memory_alloc noted.main;
        })

unfoldable pub memfree_op_callback :
    Memfree → Bool → List Frame → List PythonState → Liveness → Option Liveness
memfree_op_callback op is_submemory frames states l =
    if is_submemory
    then (let traced = trace_back op.op_id sub_free frames states l in
        elim (release op submemory_free traced.sub) [
          | none ↦ none
          | some (id, ledger) ↦ some (record traced { sub = ledger })
        ])
    else (let noted = update_ctx_node op.ctx_id memory_free (
          update_stream_for_ops op.stream_id op.op_id memory_free
            (update_op_node op.op_id op.ctx_id l)) in
        elim (release op memory_free noted.main) [
          | none ↦ none
          | some (id, ledger) ↦
              elim (update_graph_at_free op.op_id op.stream_id id memory_free noted.dependencies) [
                | none ↦ none
                | some grown ↦ some (record noted { main = ledger; dependencies = grown })
              ]
        ])

-- `_submemories.empty()`.
unfoldable pub no_submemories : Liveness → Bool
no_submemories l = elim (l.sub.memories) [ [] ↦ true | e ∷ m ↦ false ]

-- `if (!_submemories.empty())` in `kernel_op_callback`.
unfoldable pub trace_kernel : ℕ → List PythonState → Liveness → Liveness
trace_kernel op_id states l = if no_submemories l then l else record l {
  sub_op_node = try_emplace op_id sub_access l.sub_op_node;
  torch_python_states = try_emplace op_id states l.torch_python_states;
}

unfoldable pub kernel_op_callback : Kernel → List PythonState → Liveness → Liveness
kernel_op_callback op states l =
    let noted =
      update_stream_for_ops op.stream_id op.op_id memory_access
        (update_ctx_node op.ctx_id memory_access (update_op_node op.op_id op.ctx_id l)) in
    trace_kernel op.op_id states
      (record noted { kernel_op_node = assign op.op_id op.ctx_id noted.kernel_op_node })

-- `for (auto iter = liter; iter != riter; iter++)`: the values from the key `k` up to the key `j`, which
-- does not come before it.
unfoldable pub values_between : ℕ → ℕ → Map ℕ ℕ → List ℕ
values_between k j [] = []
values_between k j ((i, v) ∷ m) =
    let rest = values_between k j m in if ltb i k then rest else if ltb i j then v ∷ rest else []

unfoldable pub note_all : List ℕ → ℕ → MemoryOperation → Ledger → Ledger
note_all [] op_id op l = l
note_all (id ∷ ids) op_id op l = note_all ids op_id op (note id op_id op l)

-- The part of `memset_op_callback` for sub-memories, and of `memcpy_op_callback` for those of its
-- destination: of the sub-memories from the one before `start` to the one before its end.
unfoldable pub note_range : ℕ → ℕ → ℕ → MemoryOperation → Ledger → Option Ledger
note_range start len op_id op l = elim (prev start l.addresses_map) [
  | none ↦ some l
  | some (left, left_id) ↦ elim (prev ((start + len) % u64_mod) l.addresses_map) [
    | none ↦ none
    | some (right, right_id) ↦ some (
        note right_id op_id op (
          if right_id == left_id
          then l
          else note_all (values_between left right l.addresses_map) op_id op l))
  ]
]

-- The part of `memcpy_op_callback` for the sub-memories of its source.
unfoldable pub note_source : ℕ → ℕ → ℕ → MemoryOperation → Ledger → Option Ledger
note_source start len op_id op l = elim (prev start l.addresses_map) [
  | none ↦ some l
  | some (left, left_id) ↦ elim (prev ((start + len) % u64_mod) l.addresses_map) [
    | none ↦ none
    | some (right, right_id) ↦ some (
        if right_id == left_id
        then l
        else note right_id op_id op
            (note_all (values_between left right l.addresses_map) op_id op l))
  ]
]

-- One side of `memcpy_op_callback`, where its memory is not the host's.
unfoldable pub copy_side : ℕ → ℕ → ℕ → ℕ → MemoryOperation → AccessType → Liveness → Option Liveness
copy_side op_id ctx_id memory_op_id stream_id op access l = elim (memory_op_id == memory_host) [
  | true ↦ some l
  | false ↦
      let noted = update_stream_for_ops stream_id op_id op (update_ctx_node ctx_id op l) in
      do
        d ← update_graph_at_access op_id op stream_id memory_op_id access noted.dependencies
        some (record noted { main = note memory_op_id op_id op noted.main; dependencies = d })
]

-- The first part of `memcpy_op_callback`, for memories.
unfoldable pub copy_memories : Memcpy → Liveness → Option Liveness
copy_memories op l = do
  l1 ← copy_side op.op_id op.ctx_id op.src_memory_op_id op.src_stream_id memory_copyf read l
  copy_side op.op_id op.ctx_id op.dst_memory_op_id op.dst_stream_id memory_copyt write l1

-- The second part, for sub-memories.
unfoldable pub copy_submemories : Memcpy → Ledger → Option Ledger
copy_submemories op s = do
  s1 ←
      if op.src_memory_op_id == memory_host
      then some s
      else note_source op.src_start op.len op.op_id memory_copyf s
  if op.dst_memory_op_id == memory_host
      then some s1
      else note_range op.dst_start op.len op.op_id memory_copyt s1

-- What a call does last to the members of sub-memories.
unfoldable pub set_sub : Liveness → Option Ledger → Option Liveness
set_sub l none = none
set_sub l (some s) = some (record l { sub = s })

unfoldable pub memcpy_op_callback : Memcpy → Liveness → Option Liveness
memcpy_op_callback op l = do
  copied ← copy_memories op (update_op_node op.op_id op.ctx_id l)
  set_sub copied (copy_submemories op copied.sub)

unfoldable pub memset_op_callback : Memset → Liveness → Option Liveness
memset_op_callback op l =
    let noted =
      update_stream_for_ops op.stream_id op.op_id memory_set
        (update_ctx_node op.ctx_id memory_set (update_op_node op.op_id op.ctx_id l)) in
    elim (update_graph_at_access op.op_id memory_set op.stream_id op.memory_op_id write
      noted.dependencies) [
        | none ↦ none
        | some d ↦
            set_sub
              (record noted {
                main = note op.memory_op_id op.op_id memory_set noted.main;
                dependencies = d;
              })
              (note_range op.start op.len op.op_id memory_set noted.sub)
      ]

unfoldable pub op_callback :
    Operation → Bool → List Frame → List PythonState → Liveness → Option Liveness
op_callback (kernel op) is_submemory frames states l = some (kernel_op_callback op states l)
op_callback (memory op) is_submemory frames states l =
    some (memory_op_callback op is_submemory frames states l)
op_callback (memfree op) is_submemory frames states l =
    memfree_op_callback op is_submemory frames states l
op_callback (memcpy op) is_submemory frames states l = memcpy_op_callback op l
op_callback (memset op) is_submemory frames states l = memset_op_callback op l

-- `if (buffer->aux)` and `if (buffer->torch_aux)` in `analysis_begin`.
unfoldable pub begin_main : Option (List AuxEntry) → ℕ → ℕ → Liveness → Option Liveness
begin_main none host_op_id stream_id l = some l
begin_main (some aux) host_op_id stream_id l = do
  ledger ← update_aux_hit aux host_op_id l.main
  d ← update_graph_at_kernel aux host_op_id stream_id ledger.addresses_map l.dependencies
  some (record l { main = ledger; dependencies = d })

unfoldable pub begin_sub : Option (List AuxEntry) → ℕ → Liveness → Option Liveness
begin_sub none host_op_id l = some l
begin_sub (some torch_aux) host_op_id l = do
  ledger ← update_aux_hit torch_aux host_op_id l.sub
  some (record l { sub = ledger })

-- `analysis_begin`, for a buffer of addresses, which its assertion asks for.
unfoldable pub analysis_begin :
    Option (List AuxEntry) → Option (List AuxEntry) → ℕ → ℕ → Liveness → Option Liveness
analysis_begin aux torch_aux host_op_id stream_id l = do
  l1 ← begin_main aux host_op_id stream_id l
  begin_sub torch_aux host_op_id l1
