-- ===== src/Redshow/Trace/Default.antt =====
-- redshow/src/redshow.cpp: `trace_analyze_default`, the analysis of complete records. `none` is a run
-- that ends the program: a PC that the instruction graph has no node for, or a division by a unit size of 0.
use ten_prof.Prelude.{
  ℕ, zero, suc, ◌+◌, ◌*◌, ◌/◌, ◌%◌, ◌^◌, u32_mod, Option, none, some, List, [], ◌∷◌, ◌++◌, ◌==◌,
  if◌then◌else◌, min,
}
use ten_prof.Common.Map.{Map, find, u64_key}
use ten_prof.Operation.{Status, success, error_failed_analyze_cubin}
use ten_prof.Redshow.Symbols.{transform_pc}
use ten_prof.Redshow.Access.{
  DataType, data_unknown, data_int, data_float, AccessKind, no_access_kind, value_to_basic_type,
  warp_size, bit, local_bit, shared_bit, block_enter_bit, block_exit_bit, PatchRecord, ThreadId,
  Target, target, unit_access, block_exit, to_each,
}
use ten_prof.Redshow.Trace.{Calls, Launch, outside, inside, unknown, site}

-- `access_kind` of a record of `size` bytes, from what the graph says of its instruction: an access
-- of no known type is of the default type, in units of up to 32 bits.
unfoldable pub default_kind : DataType → ℕ → AccessKind → AccessKind
default_kind default_type size kind = elim kind.data_type [
  | data_unknown ↦
      if kind.vec_size == 0
      then record {
        vec_size = size * 8 % u32_mod;
        unit_size = min 32 (size * 8 % u32_mod);
        data_type = default_type;
      }
      else record kind { data_type = default_type }
  | data_float ↦ kind
  | data_int ↦ kind
]

-- `inst_graph->node(real_pc.cubin_offset)`, unless the graph is empty.
unfoldable pub graph_kind : Map ℕ (Option AccessKind) → ℕ → Option AccessKind
graph_kind [] cubin_offset = some no_access_kind
graph_kind (e ∷ graph) cubin_offset = elim (find cubin_offset (e ∷ graph)) [
  | none ↦ none
  | some none ↦ some no_access_kind
  | some (some kind) ↦ some kind
]

-- `record->flat_thread_id / GPU_PATCH_WARP_SIZE * GPU_PATCH_WARP_SIZE + j`.
unfoldable pub thread_of : PatchRecord → ℕ → ThreadId
thread_of r j = record {
  flat_block_id = r.flat_block_id;
  flat_thread_id = (r.flat_thread_id / warp_size * warp_size + j) % u32_mod;
}

-- An access that no known memory holds is of the thread's local or of the block's shared memory, by
-- the record's flags; `none` is the `continue` of an unknown memory.
unfoldable pub other_memory : ℕ → ℕ → ℕ → Option Target
unfolding bit target
other_memory flags start len =
    if bit flags local_bit
    then some (target 2 (2 ^ 30 + 4) start len)
    else if bit flags shared_bit
    then some (target 1 (2 ^ 30) start len)
    else none

-- The memory that an access of one thread is attributed to.
unfoldable pub lane_memory : Launch → PatchRecord → ℕ → Option Target
unfolding site other_memory target
lane_memory l r address = elim (site l.memory_map address r.size) [
  | outside ↦ none
  | unknown ↦ other_memory r.flags 0 0
  | inside mem ↦
      if mem.op_id == 0
      then other_memory r.flags mem.memory_range.start mem.len
      else some (target mem.op_id mem.ctx_id mem.memory_range.start mem.len)
]

-- `memcpy(&value, bytes + skip, count)`: the bytes from the lowest on.
unfoldable pub read_value : ℕ → ℕ → List ℕ → ℕ
read_value skip count [] = 0
read_value (suc skip) count (b ∷ bytes) = read_value skip count bytes
read_value zero zero (b ∷ bytes) = 0
read_value zero (suc count) (b ∷ bytes) = b + 2 ^ 8 * read_value zero count bytes

-- The calls for `n` units from unit `m` on.
unfoldable pub unit_calls :
    Launch → PatchRecord → AccessKind → Target → ThreadId → ℕ → List ℕ → ℕ → ℕ → Calls
unfolding read_value value_to_basic_type to_each
unit_calls l r kind memory thread_id address bytes m zero = []
unit_calls l r kind memory thread_id address bytes m (suc n) =
    let byte_size = kind.unit_size / 8 in
    to_each l.enabled (
      unit_access (record {
        kernel_id = l.kernel_id;
        host_op_id = l.host_op_id;
        thread_id = thread_id;
        access_kind = record kind { vec_size = kind.unit_size };
        memory = memory;
        pc = r.pc;
        value =
            value_to_basic_type (record kind { vec_size = kind.unit_size })
              (read_value (m * byte_size) byte_size bytes) l.decimal_degree_f32
              l.decimal_degree_f64;
        addr = address;
        index = m;
        flags = r.flags;
      }))
    ++ unit_calls l r kind memory thread_id address bytes (suc m) n

-- The calls for one active thread.
unfoldable pub lane_calls : Launch → PatchRecord → AccessKind → ℕ → ℕ → List ℕ → Option Calls
unfolding lane_memory thread_of unit_calls
lane_calls l r kind j address bytes = elim (lane_memory l r address) [
  | none ↦ some []
  | some memory ↦
      if kind.unit_size == 0
      then none
      else some (
          unit_calls l r kind memory (thread_of r j) address bytes 0
            (kind.vec_size / kind.unit_size))
]

-- One result in front of another.
unfoldable pub join_calls : Option Calls → Option Calls → Option Calls
join_calls none rest = none
join_calls (some calls) none = none
join_calls (some calls) (some rest) = some (calls ++ rest)

-- The loop over the threads from `j` on.
unfoldable pub default_lanes :
    Launch → PatchRecord → AccessKind → ℕ → List ℕ → List (List ℕ) → Option Calls
unfolding lane_calls join_calls bit
default_lanes l r kind j (address ∷ addresses) (bytes ∷ values) =
    let rest = default_lanes l r kind (suc j) addresses values in
    if bit r.active j then join_calls (lane_calls l r kind j address bytes) rest else rest
default_lanes l r kind j _ _ = some []

-- `block_exit` for the active threads among the `n` from `j` on.
unfoldable pub exit_calls : Launch → PatchRecord → ℕ → ℕ → Calls
unfolding bit thread_of to_each
exit_calls l r j zero = []
exit_calls l r j (suc n) =
    let rest = exit_calls l r (suc j) n in
    if bit r.active j then to_each l.enabled (block_exit (thread_of r j)) ++ rest else rest

-- An access record: its PC, its kind and its threads.
unfoldable pub access_record : Launch → PatchRecord → Option (Status × Calls)
unfolding transform_pc graph_kind default_kind default_lanes
access_record l r = elim (transform_pc r.pc l.symbols) [
  | none ↦ some (error_failed_analyze_cubin, [])
  | some real_pc ↦ elim (graph_kind l.inst_graph real_pc.cubin_offset) [
    | none ↦ none
    | some kind ↦
        elim (default_lanes l r (default_kind l.default_data_type r.size kind) 0 r.address
          r.value) [ none ↦ none | some calls ↦ some (success, calls) ]
  ]
]

-- One round of the loop over the records.
unfoldable pub default_record : Launch → PatchRecord → Option (Status × Calls)
unfolding bit exit_calls access_record
default_record l r =
    if r.size == 0
    then some (success, [])
    else if bit r.flags block_enter_bit
    then some (success, [])
    else if bit r.flags block_exit_bit
    then some (success, exit_calls l r 0 warp_size)
    else access_record l r

-- What follows a record: nothing, if it failed.
unfoldable pub after_record :
    Option (Status × Calls) → Option (Status × Calls) → Option (Status × Calls)
after_record none rest = none
after_record (some (success, calls)) none = none
after_record (some (success, calls)) (some (status, later)) = some (status, calls ++ later)
after_record (some (failed, calls)) rest = some (failed, calls)

-- `trace_analyze_default`.
unfoldable pub trace_analyze_default : Launch → List PatchRecord → Option (Status × Calls)
unfolding default_record after_record
trace_analyze_default l [] = some (success, [])
trace_analyze_default l (r ∷ records) =
    let rest = trace_analyze_default l records in after_record (default_record l r) rest
