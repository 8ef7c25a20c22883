-- ===== src/Redshow/Registry/Query.antt =====
-- redshow/src/redshow.cpp: the queries of the snapshots, and the copies and fills that are registered
-- with what they find.
use ten_prof.Prelude.{
  ℕ, ◌+◌, ◌-◌, ◌%◌, u64_mod, Bool, true, false, not, ◌&&◌, Option, none, some, List, [], ◌∷◌, ◌++◌,
  leb, ◌==◌, if◌then◌else◌,
}
use ten_prof.Common.Map.{prev, u64_key}
use ten_prof.Operation.{
  MemoryRange, memcpy, memset, kernel, Event, op_callbacks, Status, success, error_not_exist_entry,
  range_key, memory_host,
}
use ten_prof.Redshow.Registry.{MemoryMap, Snapshots, Registry}

-- What `redshow_memory_query` writes through its pointers.
pub record Answer : Type 0 where
  pub memory_id : ℕ
  pub memory_op_id : ℕ
  pub shadow_start : ℕ
  pub len : ℕ

-- `redshow_memory_query` in one map: `none` is `REDSHOW_ERROR_NOT_EXIST_ENTRY`, and nothing is written.
unfoldable pub query_map : ℕ → MemoryMap → Option Answer
query_map start memory_map = elim (prev (record { start = start; end = 0 }) memory_map) [
  | none ↦ none
  | some (range, mem) ↦
      if leb start range.end
      then some (record {
        memory_id = mem.ctx_id;
        memory_op_id = mem.op_id;
        shadow_start = (mem.value + (start - range.start)) % u64_mod;
        len = mem.len;
      })
      else none
]

unfoldable pub memory_query : ℕ → ℕ → Registry → Option Answer
unfolding query_map
memory_query host_op_id start r = elim (prev host_op_id r.memory_snapshot) [
  | none ↦ none
  | some (id, memory_map) ↦ query_map start memory_map
]

-- The loop of `redshow_memory_ranges_get`, which writes `start_end[*len]` and counts `*len` up.
unfoldable pub write_ranges : MemoryMap → List MemoryRange → List MemoryRange
write_ranges [] start_end = start_end
write_ranges ((range, mem) ∷ m) start_end = write_ranges m (start_end ++ range ∷ [])

-- `redshow_memory_ranges_get` and `redshow_submemory_ranges_get`: the status and what is written; `limit` is not read.
unfoldable pub ranges_get : ℕ → ℕ → Snapshots → Status × List MemoryRange
unfolding write_ranges
ranges_get host_op_id limit snapshots = elim (prev host_op_id snapshots) [
  | none ↦ (error_not_exist_entry, [])
  | some (id, []) ↦ (error_not_exist_entry, [])
  | some (id, e ∷ m) ↦ (success, write_ranges (e ∷ m) [])
]

-- The variables that a registered copy starts from, as zeros, and what a query leaves in them.
abbrev no_answer : Answer
no_answer = record { memory_id = 0; memory_op_id = 0; shadow_start = 0; len = 0 }

-- One side of `redshow_memcpy_register`.
unfoldable pub endpoint : Bool → ℕ → ℕ → Registry → Answer
endpoint true host_op_id start r = record {
  memory_id = memory_host;
  memory_op_id = memory_host;
  shadow_start = start;
  len = 0;
}
endpoint false host_op_id start r = elim (memory_query host_op_id start r) [
  | none ↦ no_answer
  | some a ↦ a
]

unfoldable pub memcpy_register :
    ℕ → ℕ → Bool → ℕ → ℕ → Bool → ℕ → ℕ → ℕ → Registry → Status × List Event
unfolding endpoint op_callbacks
memcpy_register memcpy_id host_op_id src_host src_stream_id src_start dst_host dst_stream_id
      dst_start len r =
    let src = endpoint src_host host_op_id src_start r in
    let dst = endpoint dst_host host_op_id dst_start r in
    if not (dst.shadow_start == 0) && not (src.shadow_start == 0)
    then (
      success,
      op_callbacks r.analysis_enabled
          (memcpy (record {
            op_id = host_op_id;
            ctx_id = memcpy_id;
            src_memory_op_id = src.memory_op_id;
            src_stream_id = src_stream_id;
            src_start = src_start;
            src_shadow_start = src.shadow_start;
            dst_memory_op_id = dst.memory_op_id;
            dst_stream_id = dst_stream_id;
            dst_start = dst_start;
            dst_shadow_start = dst.shadow_start;
            len = len;
          }))
          false,
    )
    else (success, [])

unfoldable pub memset_register : ℕ → ℕ → ℕ → ℕ → ℕ → ℕ → Registry → Status × List Event
unfolding endpoint op_callbacks
memset_register stream_id memset_id host_op_id start value len r =
    let dst = endpoint false host_op_id start r in
    if not (dst.shadow_start == 0)
    then (
      success,
      op_callbacks r.analysis_enabled
          (memset (record {
            op_id = host_op_id;
            ctx_id = memset_id;
            memory_op_id = dst.memory_op_id;
            stream_id = stream_id;
            start = start;
            shadow_start = dst.shadow_start;
            value = value;
            len = len;
          }))
          false,
    )
    else (success, [])

-- `redshow_kernel_end`.
unfoldable pub kernel_end : ℕ → ℕ → ℕ → ℕ → Registry → Status × List Event
unfolding op_callbacks
kernel_end cpu_thread stream_id kernel_id host_op_id r = (
  success,
  op_callbacks r.analysis_enabled
      (kernel (record {
        op_id = host_op_id;
        ctx_id = kernel_id;
        cpu_thread = cpu_thread;
        stream_id = stream_id;
      }))
      false,
)
