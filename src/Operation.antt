-- ===== src/Operation.antt =====
-- redshow/include/operation: the operations that are handed to the analyses, and what an interface
-- call returns. A call of `op_callback` is recorded as an `Event`; `new u8[len]` returns an address
-- that the caller of the model supplies.
use ten_prof.Prelude.{ℕ, ◌+◌, ◌-◌, ◌%◌, u64_mod, Bool, List, map}
use ten_prof.Common.Map.{Key}

pub record MemoryRange : Type 0 where
  pub start : ℕ
  pub end : ℕ

-- `operator<` compares the starts alone.
instance abbrev pub range_key : Key MemoryRange
range_key = record { rank = λ r. r.start }

pub record Memory : Type 0 where
  pub op_id : ℕ
  pub ctx_id : ℕ
  pub stream_id : ℕ
  pub memory_range : MemoryRange
  pub len : ℕ
  pub value : ℕ

-- `Memory(stream_id, op_id, ctx_id, memory_range)`, with the address of its shadow bytes.
unfoldable pub new_memory : ℕ → ℕ → ℕ → MemoryRange → ℕ → Memory
new_memory stream_id op_id ctx_id range value = record {
  op_id = op_id;
  ctx_id = ctx_id;
  stream_id = stream_id;
  memory_range = range;
  len = (range.end + u64_mod - range.start) % u64_mod;
  value = value;
}

pub record Memfree : Type 0 where
  pub op_id : ℕ
  pub ctx_id : ℕ
  pub stream_id : ℕ
  pub memory_range : MemoryRange
  pub len : ℕ

unfoldable pub new_memfree : ℕ → ℕ → ℕ → MemoryRange → Memfree
new_memfree stream_id op_id ctx_id range = record {
  op_id = op_id;
  ctx_id = ctx_id;
  stream_id = stream_id;
  memory_range = range;
  len = (range.end + u64_mod - range.start) % u64_mod;
}

pub record Memcpy : Type 0 where
  pub op_id : ℕ
  pub ctx_id : ℕ
  pub src_memory_op_id : ℕ
  pub src_stream_id : ℕ
  pub src_start : ℕ
  pub src_shadow_start : ℕ
  pub dst_memory_op_id : ℕ
  pub dst_stream_id : ℕ
  pub dst_start : ℕ
  pub dst_shadow_start : ℕ
  pub len : ℕ

pub record Memset : Type 0 where
  pub op_id : ℕ
  pub ctx_id : ℕ
  pub memory_op_id : ℕ
  pub stream_id : ℕ
  pub start : ℕ
  pub shadow_start : ℕ
  pub value : ℕ
  pub len : ℕ

pub record Kernel : Type 0 where
  pub op_id : ℕ
  pub ctx_id : ℕ
  pub cpu_thread : ℕ
  pub stream_id : ℕ

-- `OperationPtr`, by `Operation::type`.
pub data Operation : Type 0 where
  kernel : Kernel → Operation
  memory : Memory → Operation
  memfree : Memfree → Operation
  memcpy : Memcpy → Operation
  memset : Memset → Operation

-- The ids of the memories that no allocation made: `redshow_memory_type_t`.
abbrev pub memory_uvm : ℕ
memory_uvm = 5

abbrev pub memory_host : ℕ
memory_host = 6

pub data AnalysisType : Type 0 where
  spatial_redundancy temporal_redundancy value_pattern data_flow memory_profile memory_heatmap :
      AnalysisType
  memory_liveness data_dependency torch_monitor torch_view : AnalysisType

-- One call `aiter.second->op_callback(op, is_submemory)`.
pub record Event : Type 0 where
  pub analysis : AnalysisType
  pub operation : Operation
  pub is_submemory : Bool

-- `for (auto aiter : analysis_enabled) aiter.second->op_callback(op, is_submemory)`.
unfoldable pub op_callbacks : List AnalysisType → Operation → Bool → List Event
op_callbacks enabled op sub =
    map (λ a. record { analysis = a; operation = op; is_submemory = sub }) enabled

-- `redshow_result_t`.
pub data Status : Type 0 where
  success error_not_impl error_not_exist_entry error_duplicate_entry : Status
  error_not_register_callback error_no_such_file error_failed_analyze_cubin : Status
  error_failed_analyze_trace error_no_such_approx error_no_such_data_type : Status
  error_no_such_analysis : Status
