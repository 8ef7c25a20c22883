-- ===== src/Redshow/Analyze.antt =====
-- redshow/src/redshow.cpp: `redshow_analyze`, which finds the code and the memories that a trace is
-- about and has it analyzed.
pub mod Kept
use ten_prof.Prelude.{ℕ, Bool, true, false, Option, none, some, List, [], ◌∷◌, ◌++◌, if◌then◌else◌}
use ten_prof.Common.Map.{Map, prev, u64_key}
use ten_prof.Operation.{MemoryRange, AnalysisType, Status, success, error_not_exist_entry}
use ten_prof.Redshow.Registry.{MemoryMap, Snapshots, Registry}
use ten_prof.Redshow.Registry.Collect.{note_analyzed}
use ten_prof.Redshow.Symbols.{Symbol}
use ten_prof.Redshow.Access.{
  DataType, AccessKind, PatchRecord, AddressRecord, Call, analysis_begin, analysis_end, to_each,
}
use ten_prof.Redshow.Cubins.{InstructionGraph, Cubins, Analyzed, load_cubin}
use ten_prof.Redshow.Trace.{
  Calls, Launch, trace_analyze_address_patch, trace_analyze_address_analysis,
}
use ten_prof.Redshow.Trace.Default.{trace_analyze_default}

-- `records`, by the buffer's `type`; a type that `trace_analyze` does not know is not read.
pub data Records : Type 0 where
  complete : List PatchRecord → Records
  addresses : List AddressRecord → Records
  regions : List MemoryRange → Records
  other : ℕ → Records

-- `gpu_patch_buffer_t`, as far as it is read.
pub record Buffer : Type 0 where
  pub flags : ℕ
  pub records : Records

-- `GPUPatchType`.
unfoldable pub type_of : Records → ℕ
type_of (complete rs) = 0
type_of (addresses rs) = 1
type_of (regions rs) = 2
type_of (other n) = n

-- The options that `redshow_data_type_config` and `redshow_approx_level_config` set.
pub record Settings : Type 0 where
  pub default_data_type : DataType
  pub decimal_degree_f32 : ℕ
  pub decimal_degree_f64 : ℕ

-- The arguments of `redshow_analyze`.
pub record Kernel : Type 0 where
  pub cpu_thread : ℕ
  pub cubin_id : ℕ
  pub mod_id : ℕ
  pub kernel_id : ℕ
  pub host_op_id : ℕ
  pub stream_id : ℕ

unfoldable pub analyze_records : Launch → Buffer → Option (Status × Calls)
analyze_records l buffer = elim buffer.records [
  | complete rs ↦ trace_analyze_default l rs
  | addresses rs ↦ some (trace_analyze_address_patch l rs)
  | regions rs ↦ trace_analyze_address_analysis l buffer.flags rs
  | other n ↦ some (success, [])
]

unfoldable pub launch :
    Kernel → Settings → List AnalysisType → MemoryMap → List Symbol → InstructionGraph → Launch
launch k s enabled memory_map symbols inst_graph = record {
  kernel_id = k.kernel_id;
  host_op_id = k.host_op_id;
  enabled = enabled;
  memory_map = memory_map;
  symbols = symbols;
  inst_graph = inst_graph;
  default_data_type = s.default_data_type;
  decimal_degree_f32 = s.decimal_degree_f32;
  decimal_degree_f64 = s.decimal_degree_f64;
}

-- What follows once the code is found: the snapshot, and the analysis between its two calls.
unfoldable pub analyze_module :
    Kernel → Settings → Buffer → Registry → List Symbol × InstructionGraph → Option (Status × Calls)
analyze_module k s buffer r (symbols, inst_graph) = elim (prev k.host_op_id r.memory_snapshot) [
  | none ↦ some (error_not_exist_entry, [])
  | some (id, memory_map) ↦
      elim (analyze_records (launch k s r.analysis_enabled memory_map symbols inst_graph) buffer) [
        | none ↦ none
        | some (status, calls) ↦ some (
          status,
          to_each r.analysis_enabled (
                analysis_begin k.cpu_thread k.kernel_id k.host_op_id k.stream_id k.cubin_id k.mod_id
                  (type_of buffer.records))
              ++ calls
              ++ to_each r.analysis_enabled (analysis_end k.cpu_thread k.kernel_id),
        )
      ]
]

-- What follows the search for the code.
unfoldable pub analyze_found :
    Kernel
    → Settings
    → Buffer
    → Registry
    → Status × Option (List Symbol × InstructionGraph) × Cubins
    → Option (Status × Calls) × Cubins
analyze_found k s buffer r (status, none, c) = (some (status, []), c)
analyze_found k s buffer r (status, some found, c) = (analyze_module k s buffer r found, c)

-- What `redshow_analyze` returns, and what it notes if the analysis succeeds.
unfoldable pub finish : Bool → ℕ → Registry → Status → Status × Registry
finish logging host_op_id r success = note_analyzed logging host_op_id r
finish logging host_op_id r failed = (failed, r)

-- `redshow_analyze`, by the result of `trace_analyze`; `none` is a run that ends the program.
unfoldable pub analyzed :
    Bool → Kernel → Registry → Option (Status × Calls) → Option (Status × Registry × Calls)
analyzed logging k r none = none
analyzed logging k r (some (status, calls)) =
    let (result, r') = finish logging k.host_op_id r status in some (result, r', calls)

module _ (analyze_cubin : List ℕ → ℕ → Analyzed) (sort_symbols : List Symbol → List Symbol) where
  -- `trace_analyze`.
  unfoldable pub trace_analyze :
      Kernel → Settings → Buffer → Registry → Cubins → Option (Status × Calls) × Cubins
  trace_analyze k s buffer r c =
      analyze_found k s buffer r (load_cubin analyze_cubin sort_symbols k.cubin_id k.mod_id c)

  -- `redshow_analyze`; `logging` tells whether a log callback is registered.
  unfoldable pub analyze :
      Bool
      → Kernel
      → Settings
      → Buffer
      → Registry
      → Cubins
      → Option (Status × Registry × Calls) × Cubins
  analyze logging k s buffer r c =
      let result = trace_analyze k s buffer r c in (analyzed logging k r result.0, result.1)
