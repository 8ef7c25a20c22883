-- ===== src/Redshow/Access.antt =====
-- redshow/include/binutils/instruction.h, redshow/src/common/utils.cpp and include/gpu-patch.h: what
-- an access of a GPU thread is, as the patched kernel records it and as an analysis is told of it.
use ten_prof.Prelude.{
  ℕ, ◌+◌, ◌-◌, ◌*◌, ◌/◌, ◌%◌, ◌^◌, u64_mod, u32_mod, Bool, List, ◌==◌, if◌then◌else◌, map,
}
use ten_prof.Operation.{MemoryRange, AnalysisType}

-- `redshow_data_type_t`.
pub data DataType : Type 0 where
  data_unknown data_float data_int : DataType

pub record AccessKind : Type 0 where
  pub vec_size : ℕ
  pub unit_size : ℕ
  pub data_type : DataType

abbrev pub no_access_kind : AccessKind
no_access_kind = record { vec_size = 0; unit_size = 0; data_type = data_unknown }

-- `a & (0xffffffffffffffff << bits)` for `bits` up to 64: the low bits are cleared.
unfoldable pub clear_low : ℕ → ℕ → ℕ
clear_low bits a = a / 2 ^ bits * 2 ^ bits

-- The digits are at most 52.
unfoldable pub value_to_double : ℕ → ℕ → ℕ
unfolding clear_low
value_to_double a decimal_degree_f64 = clear_low (52 - decimal_degree_f64) a

-- The digits are at most 23.
unfoldable pub value_to_float : ℕ → ℕ → ℕ
unfolding clear_low
value_to_float a decimal_degree_f32 = clear_low (23 - decimal_degree_f32) (a % u32_mod)

unfoldable pub int_to_basic : ℕ → ℕ → ℕ
int_to_basic unit_size a =
    if unit_size == 8
    then a % 2 ^ 8
    else if unit_size == 16
    then a % 2 ^ 16
    else if unit_size == 32
    then a % u32_mod
    else a

unfoldable pub float_to_basic : ℕ → ℕ → ℕ → ℕ → ℕ
unfolding value_to_float value_to_double
float_to_basic unit_size a f32 f64 =
    if unit_size == 32
    then value_to_float a f32
    else if unit_size == 64
    then value_to_double a f64
    else a

-- `AccessKind::value_to_basic_type`.
unfoldable pub value_to_basic_type : AccessKind → ℕ → ℕ → ℕ → ℕ
unfolding int_to_basic float_to_basic
value_to_basic_type kind a f32 f64 = elim kind.data_type [
  | data_unknown ↦ a
  | data_int ↦ int_to_basic kind.unit_size a
  | data_float ↦ float_to_basic kind.unit_size a f32 f64
]

abbrev pub warp_size : ℕ
warp_size = 32

-- `flags & flag`, for a flag that is one bit: `GPU_PATCH_LOCAL` is bit 3, and so on.
unfoldable pub bit : ℕ → ℕ → Bool
bit flags i = flags / 2 ^ i % 2 == 1

abbrev pub local_bit : ℕ
local_bit = 3

abbrev pub shared_bit : ℕ
shared_bit = 4

abbrev pub block_enter_bit : ℕ
block_enter_bit = 5

abbrev pub block_exit_bit : ℕ
block_exit_bit = 6

-- `gpu_patch_record_t`; `address` and `value` have one item for each thread of the warp.
pub record PatchRecord : Type 0 where
  pub pc : ℕ
  pub size : ℕ
  pub active : ℕ
  pub flat_thread_id : ℕ
  pub flat_block_id : ℕ
  pub flags : ℕ
  pub address : List ℕ
  pub value : List (List ℕ)

-- `gpu_patch_record_address_t`.
pub record AddressRecord : Type 0 where
  pub pc : ℕ
  pub flags : ℕ
  pub active : ℕ
  pub size : ℕ
  pub address : List ℕ

pub record ThreadId : Type 0 where
  pub flat_block_id : ℕ
  pub flat_thread_id : ℕ

-- The memory that an analysis is handed with an access: `Memory(op_id, ctx_id, start, len)`, which
-- has no stream and no value.
pub record Target : Type 0 where
  pub op_id : ℕ
  pub ctx_id : ℕ
  pub memory_range : MemoryRange
  pub len : ℕ

unfoldable pub target : ℕ → ℕ → ℕ → ℕ → Target
target op_id ctx_id start len = record {
  op_id = op_id;
  ctx_id = ctx_id;
  memory_range = record { start = start; end = (start + len) % u64_mod };
  len = len;
}

-- The arguments of `unit_access`.
pub record Access : Type 0 where
  pub kernel_id : ℕ
  pub host_op_id : ℕ
  pub thread_id : ThreadId
  pub access_kind : AccessKind
  pub memory : Target
  pub pc : ℕ
  pub value : ℕ
  pub addr : ℕ
  pub index : ℕ
  pub flags : ℕ

-- The fine-grained calls of an analysis.
pub data Call : Type 0 where
  analysis_begin : ℕ → ℕ → ℕ → ℕ → ℕ → ℕ → ℕ → Call
  unit_access : Access → Call
  block_exit : ThreadId → Call
  analysis_end : ℕ → ℕ → Call

-- `for (auto aiter : analysis_enabled)`, with one call.
unfoldable pub to_each : List AnalysisType → Call → List (AnalysisType × Call)
to_each enabled call = map (λ a. (a, call)) enabled
