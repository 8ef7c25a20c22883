-- ===== src/Redundancy.antt =====
-- redshow/src/analysis/temporal_redundancy.cpp: what the analysis of temporal redundancy keeps of a
-- kernel while the accesses of its threads are reported.
pub mod Recent
pub mod Traces
pub mod Repeats
pub mod Counts
pub mod Launches
use ten_prof.Prelude.{
  ℕ, ◌+◌, ◌*◌, ◌/◌, ◌%◌, ◌^◌, u64_mod, u32_mod, Bool, Option, none, some, List, [], ◌∷◌, ◌==◌,
  if◌then◌else◌, ◌>>=◌,
}
use ten_prof.Common.Map.{Key, Map, find, assign, erase, u64_key}
use ten_prof.Redshow.Access.{
  DataType, data_unknown, data_float, data_int, AccessKind, ThreadId, Access, Call, analysis_begin,
  unit_access, block_exit, analysis_end, bit,
}

abbrev pub read_bit : ℕ
read_bit = 0

abbrev pub write_bit : ℕ
write_bit = 1

-- `ThreadId::operator<`, on fields of 32 bits.
instance abbrev pub thread_key : Key ThreadId
thread_key = record { rank = λ t. t.flat_block_id * u32_mod + t.flat_thread_id }

abbrev pub data_number : DataType → ℕ
data_number data_unknown = 0
data_number data_float = 1
data_number data_int = 2

-- `operator<` of a pair of a value and an `AccessKind`, whose fields have 32 bits.
instance abbrev pub value_key : Key (ℕ × AccessKind)
value_key = record {
  rank = λ v.
      ((v.0 * u32_mod + v.1.vec_size) * u32_mod + v.1.unit_size) * 4 + data_number v.1.data_type;
}

-- For each thread, the last PC and value at each address.
abbrev pub TemporalTrace : Type 0
TemporalTrace = Map ThreadId (Map ℕ (ℕ × ℕ))

abbrev pub PcPairs : Type 0
PcPairs = Map ℕ (Map ℕ (Map (ℕ × AccessKind) ℕ))

abbrev pub PcAccessCount : Type 0
PcAccessCount = Map ℕ ℕ

-- What is set of `Trace::kernel`.
pub record TraceKernel : Type 0 where
  pub ctx_id : ℕ
  pub cubin_id : ℕ
  pub mod_id : ℕ

pub record RedundancyTrace : Type 0 where
  pub kernel : TraceKernel
  pub read_temporal_trace : TemporalTrace
  pub read_pc_pairs : PcPairs
  pub read_pc_count : PcAccessCount
  pub write_temporal_trace : TemporalTrace
  pub write_pc_pairs : PcPairs
  pub write_pc_count : PcAccessCount

-- `std::make_shared<RedundancyTrace>()`.
abbrev pub new_trace : TraceKernel → RedundancyTrace
new_trace kernel = record {
  kernel = kernel;
  read_temporal_trace = [];
  read_pc_pairs = [];
  read_pc_count = [];
  write_temporal_trace = [];
  write_pc_pairs = [];
  write_pc_count = [];
}

-- `m[k]` on counts, where a missing entry is 0.
unfoldable pub count_at {κ} : {K : Type κ} ⦃key : Key K⦄ → K → Map K ℕ → ℕ
unfolding find
count_at k m = elim (find k m) [ none ↦ 0 | some n ↦ n ]

-- `m[k] += 1`.
unfoldable pub bump {κ} : {K : Type κ} ⦃key : Key K⦄ → K → Map K ℕ → Map K ℕ
unfolding assign count_at
bump k m = assign k ((count_at k m + 1) % u64_mod) m

-- `m[k]` on maps, where a missing entry is empty.
unfoldable pub map_at {κ ℓ ℓ'} :
    {K : Type κ} {J : Type ℓ} {V : Type ℓ'} ⦃key : Key K⦄ → K → Map K (Map J V) → Map J V
unfolding find
map_at k m = elim (find k m) [ none ↦ [] | some n ↦ n ]

-- `pc_pairs[pc][prev_pc][std::make_pair(prev_value, access_kind)] += 1`.
unfoldable pub count_pair : ℕ → ℕ → ℕ × AccessKind → PcPairs → PcPairs
unfolding assign map_at bump
count_pair pc prev_pc value pairs =
    assign pc (assign prev_pc (bump value (map_at prev_pc (map_at pc pairs))) (map_at pc pairs))
      pairs

unfoldable pub update_temporal_trace :
    ℕ → ThreadId → ℕ → ℕ → AccessKind → TemporalTrace → PcPairs → TemporalTrace × PcPairs
unfolding find assign count_pair
update_temporal_trace pc thread_id addr value access_kind temporal_trace pc_pairs =
    elim (find thread_id temporal_trace) [
      | none ↦ (assign thread_id ((addr, (pc, value)) ∷ []) temporal_trace, pc_pairs)
      | some seen ↦
          let traced = assign thread_id (assign addr (pc, value) seen) temporal_trace in
          elim (find addr seen) [
            | none ↦ (traced, pc_pairs)
            | some (prev_pc, prev_value) ↦
                if prev_value == value
                then (traced, count_pair pc prev_pc (prev_value, access_kind) pc_pairs)
                else (traced, pc_pairs)
          ]
    ]

-- `addr += index * access_kind.unit_size / 8`, where the product has 32 bits.
unfoldable pub unit_addr : Access → ℕ
unit_addr x = (x.addr + x.index * x.access_kind.unit_size % u32_mod / 8) % u64_mod

unfoldable pub read_access : Access → RedundancyTrace → RedundancyTrace
unfolding update_temporal_trace bump unit_addr
read_access x trace =
    let updated =
      update_temporal_trace x.pc x.thread_id (unit_addr x) x.value x.access_kind
        trace.read_temporal_trace trace.read_pc_pairs in
    record trace {
      read_temporal_trace = updated.0;
      read_pc_pairs = updated.1;
      read_pc_count = bump x.pc trace.read_pc_count;
    }

unfoldable pub write_access : Access → RedundancyTrace → RedundancyTrace
unfolding update_temporal_trace bump unit_addr
write_access x trace =
    let updated =
      update_temporal_trace x.pc x.thread_id (unit_addr x) x.value x.access_kind
        trace.write_temporal_trace trace.write_pc_pairs in
    record trace {
      write_temporal_trace = updated.0;
      write_pc_pairs = updated.1;
      write_pc_count = bump x.pc trace.write_pc_count;
    }

-- `TemporalRedundancy::unit_access`.
unfoldable pub temporal_access : Access → RedundancyTrace → RedundancyTrace
unfolding bit read_access write_access
temporal_access x trace =
    let read = if bit x.flags read_bit then read_access x trace else trace in
    if bit x.flags write_bit then write_access x read else read

-- `TemporalRedundancy::block_exit`.
unfoldable pub temporal_exit : ThreadId → RedundancyTrace → RedundancyTrace
unfolding erase
temporal_exit thread_id trace = record trace {
  read_temporal_trace = erase thread_id trace.read_temporal_trace;
  write_temporal_trace = erase thread_id trace.write_temporal_trace;
}

-- A call between the begin and the end of the analysis of a kernel.
pub data Step : Type 0 where
  access : Access → Step
  exit : ThreadId → Step

-- What such calls do to the trace that `_trace` is.
unfoldable pub temporal_steps : List Step → RedundancyTrace → RedundancyTrace
unfolding temporal_access temporal_exit
temporal_steps [] trace = trace
temporal_steps (access x ∷ steps) trace = temporal_steps steps (temporal_access x trace)
temporal_steps (exit t ∷ steps) trace = temporal_steps steps (temporal_exit t trace)

-- `_kernel_trace`, by thread of the host and kernel, and the one of them that `_trace` points to.
pub record Temporal : Type 0 where
  pub kernel_trace : Map ℕ (Map ℕ RedundancyTrace)
  pub trace : Option (ℕ × ℕ)

-- `_kernel_trace.at(cpu_thread).at(kernel_id)`.
unfoldable pub trace_at : ℕ → ℕ → Temporal → Option RedundancyTrace
unfolding find map_at
trace_at cpu_thread kernel_id s = find kernel_id (map_at cpu_thread s.kernel_trace)

-- `_kernel_trace[cpu_thread][kernel_id] = trace`.
unfoldable pub put_trace : ℕ → ℕ → RedundancyTrace → Temporal → Temporal
unfolding assign map_at
put_trace cpu_thread kernel_id trace s = record s {
  kernel_trace =
      assign cpu_thread (assign kernel_id trace (map_at cpu_thread s.kernel_trace)) s.kernel_trace;
}

-- `TemporalRedundancy::analysis_begin`.
unfoldable pub temporal_begin : ℕ → ℕ → ℕ → ℕ → Temporal → Temporal
unfolding trace_at put_trace
temporal_begin cpu_thread kernel_id cubin_id mod_id s =
    let fresh = new_trace (record { ctx_id = kernel_id; cubin_id = cubin_id; mod_id = mod_id }) in
    elim (trace_at cpu_thread kernel_id s) [
      | none ↦ record (put_trace cpu_thread kernel_id fresh s) {
        trace = some (cpu_thread, kernel_id);
      }
      | some old ↦ record s { trace = some (cpu_thread, kernel_id) }
    ]

-- A change of `*_trace`; `none` is a call without a trace.
unfoldable pub on_trace : (RedundancyTrace → RedundancyTrace) → Temporal → Option Temporal
unfolding trace_at put_trace
on_trace f s = elim s.trace [
  | none ↦ none
  | some (cpu_thread, kernel_id) ↦ elim (trace_at cpu_thread kernel_id s) [
    | none ↦ none
    | some trace ↦ some (put_trace cpu_thread kernel_id (f trace) s)
  ]
]

-- `GPU_PATCH_TYPE_DEFAULT`.
abbrev pub default_type : ℕ
default_type = 0

-- A call of the analysis; `none` is an assertion that fails, or a call without a trace.
unfoldable pub temporal_call : Call → Temporal → Option Temporal
unfolding temporal_begin on_trace temporal_access temporal_exit
temporal_call (analysis_begin cpu_thread kernel_id host_op_id stream_id cubin_id mod_id type) s =
    if type == default_type
    then some (temporal_begin cpu_thread kernel_id cubin_id mod_id s)
    else none
temporal_call (unit_access x) s = on_trace (temporal_access x) s
temporal_call (block_exit t) s = on_trace (temporal_exit t) s
temporal_call (analysis_end cpu_thread kernel_id) s = some (record s { trace = none })

unfoldable pub temporal_run : List Call → Temporal → Option Temporal
unfolding temporal_call
temporal_run [] s = some s
temporal_run (c ∷ calls) s = temporal_call c s >>= temporal_run calls
