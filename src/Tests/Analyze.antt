-- ===== src/Tests/Analyze.antt =====
-- Cubins, a kernel that is analyzed and the options: the runs of redshow/src/redshow.cpp on them.
use ten_prof.Prelude.{
  ℕ, ◌≡◌, refl, true, none, some, List, [], ◌∷◌, ◌⊎◌, arith, if◌then◌else◌, ◌&&◌, ◌==◌, ℕ_discrete,
  dec_lt,
}
use ten_prof.Common.Map.{find, has, assign, erase, prev, IsSorted, u64_key}
use ten_prof.Operation.{
  memory_profile, success, error_duplicate_entry, error_not_exist_entry, error_no_such_file,
  range_key,
}
use ten_prof.Redshow.Registry.{Registry}
use ten_prof.Redshow.Registry.Query.{memory_query}
use ten_prof.Redshow.Registry.Collect.{analysis_end, note_analyzed}
use ten_prof.Redshow.Symbols.{Symbol, real_pc, transform_pc}
use ten_prof.Tests.Sort.{sort_symbols, sort_symbols_lem}
use ten_prof.Redshow.Symbols.Transform.{IsSortedFrom}
use mathlib.Core.List.{Perm}
use ten_prof.Redshow.Access.{
  data_float, data_unknown, target, bit, to_each, value_to_double, value_to_basic_type,
}
use ten_prof.Redshow.Trace.{
  Calls, region_part, split_region, in_front, report_parts, patch_memory,
  trace_analyze_address_patch, trace_analyze_address_analysis, site,
}
use ten_prof.Redshow.Trace.Default.{trace_analyze_default}
use ten_prof.Redshow.Cubins.{
  Cubin, Cubins, Analyzed, assign_pcs, enter_cubin, cubin_cache_register, cubin_unregister,
  has_symbols, load_cubin, lookup, lookup_cache, look_again, cubin_register,
}
use ten_prof.Redshow.Cubins.Lookup.{
  modules, symbols_in, enter_cubin_lem, cubin_unregister_lem, load_cubin-cubin_cache_register,
}
use ten_prof.Redshow.Analyze.{
  Buffer, regions, Settings, Kernel, launch, analyze_records, analyze_module, analyze_found,
  type_of, finish, analyzed, trace_analyze, analyze,
}
use ten_prof.Redshow.Analyze.Kept.{memory_query-analyze}
use ten_prof.Redshow.Config.{Config, analysis_key, new_analysis, type_number}
use ten_prof.Tests.Trace.{two_functions, on_both}

program : Unit {0}
unfolding ℕ_discrete dec_lt find has assign erase prev transform_pc sort_symbols real_pc target bit
    to_each site value_to_double value_to_basic_type region_part split_region in_front report_parts
    patch_memory trace_analyze_address_patch trace_analyze_address_analysis trace_analyze_default
    assign_pcs enter_cubin cubin_cache_register cubin_unregister has_symbols load_cubin lookup
    lookup_cache look_again cubin_register modules launch analyze_records analyze_module
    analyze_found type_of finish analyzed trace_analyze analyze note_analyzed
program = tt

-- A cubin whose file is missing: two symbols without a name.
abbrev analyze_cubin : List ℕ → ℕ → Analyzed
analyze_cubin path nsymbols = record {
  status = error_no_such_file;
  symbols = record { cubin_id = 0; index = 0; offset = 0; pc = 0 } ∷ [];
  inst_graph = [];
}

abbrev one_cubin : Cubins
one_cubin = record {
  cubin_map =
      (1, record { cubin_id = 1; path = []; symbols = (0, two_functions) ∷ []; inst_graph = [] })
      ∷ [];
  cubin_cache_map = [];
}

enter_cubin_lem_example :
    let after = enter_cubin 1 2 [] two_functions [] one_cubin in
    ((symbols_in 1 2 one_cubin.cubin_map ≡ none)
      × (after.0 ≡ success)
      × (symbols_in 1 0 after.1.cubin_map ≡ (
          if (1 == 1) && (0 == 2) then some two_functions else symbols_in 1 0 one_cubin.cubin_map)))
    ⊎ ((old : List Symbol) × (symbols_in 1 2 one_cubin.cubin_map ≡ some old)
        × (after ≡ (error_duplicate_entry, one_cubin)))
enter_cubin_lem_example = enter_cubin_lem 1 2 [] two_functions [] one_cubin 1 0

one_cubin-IsSorted : IsSorted one_cubin.cubin_map
one_cubin-IsSorted = ground arith

modules-IsSorted : IsSorted (modules 1 one_cubin.cubin_map)
unfolding program
modules-IsSorted = (omega arith, tt)

cubin_unregister_lem_example :
    let after = cubin_unregister 1 0 one_cubin in
    ((find 1 one_cubin.cubin_map ≡ none) × (after ≡ (error_not_exist_entry, one_cubin)))
    ⊎ ((cubin : Cubin) × (find 1 one_cubin.cubin_map ≡ some cubin)
        × (after.0 ≡ success)
        × (symbols_in 1 0 after.1.cubin_map
            ≡ (if (1 == 1) && (0 == 0) then none else symbols_in 1 0 one_cubin.cubin_map)))
cubin_unregister_lem_example =
    cubin_unregister_lem 1 0 one_cubin 1 0 one_cubin-IsSorted modules-IsSorted

new_cubin : find 7 one_cubin.cubin_map ≡ none
unfolding program
new_cubin = refl

new_cache : find 7 one_cubin.cubin_cache_map ≡ none
unfolding program
new_cache = refl

missing_file : has_symbols (analyze_cubin [] 1).status ≡ true
unfolding program
missing_file = refl

load_cubin-cubin_cache_register_example :
    let noted = (cubin_cache_register 7 0 1 (4096 ∷ []) [] one_cubin).1 in
    let loaded = load_cubin analyze_cubin sort_symbols 7 0 noted in
    let own = assign_pcs (analyze_cubin [] 1).symbols (4096 ∷ []) in
    (loaded.0 ≡ success)
    × (loaded.1 ≡ some (sort_symbols own, (analyze_cubin [] 1).inst_graph))
    × IsSortedFrom 0 (sort_symbols own)
    × Perm (sort_symbols own) own
load_cubin-cubin_cache_register_example =
    load_cubin-cubin_cache_register analyze_cubin sort_symbols 7 0 1 (4096 ∷ []) [] one_cubin
      sort_symbols_lem new_cubin new_cache missing_file

abbrev kernel : Kernel
kernel = record {
  cpu_thread = 0;
  cubin_id = 1;
  mod_id = 0;
  kernel_id = 9;
  host_op_id = 5;
  stream_id = 0;
}

abbrev settings : Settings
settings = record {
  default_data_type = data_float;
  decimal_degree_f32 = 23;
  decimal_degree_f64 = 52;
}

abbrev buffer : Buffer
buffer = record { flags = 2; records = regions (record { start = 150; end = 250 } ∷ []) }

-- Snapshots of the operations 2 and 4, and no kernel analyzed yet.
abbrev before : Registry
before = record {
  memory_snapshot = (2, []) ∷ (4, on_both.memory_map) ∷ [];
  sub_memory_snapshot = [];
  analysis_enabled = memory_profile ∷ [];
  mini_host_op_id = 0;
}

abbrev after_kernel : Registry
after_kernel = record before { mini_host_op_id = 5 }

abbrev made : Calls
unfolding program
made = elim (trace_analyze analyze_cubin sort_symbols kernel settings buffer before one_cubin).0 [
  | none ↦ []
  | some (status, calls) ↦ calls
]

analyzed_once :
    (analyze analyze_cubin sort_symbols true kernel settings buffer before one_cubin).0
    ≡ some (success, after_kernel, made)
unfolding program
analyzed_once = refl

before-IsSorted : IsSorted before.memory_snapshot
before-IsSorted = ground arith

memory_query-analyze_example :
    memory_query 5 150 (analysis_end after_kernel).1 ≡ memory_query 5 150 before
memory_query-analyze_example =
    memory_query-analyze analyze_cubin sort_symbols true kernel settings buffer before after_kernel
      one_cubin made 150 before-IsSorted analyzed_once

abbrev profile_only : Config
profile_only = record {
  analysis_enabled = (memory_profile, new_analysis) ∷ [];
  output_dir = [];
  default_data_type = data_unknown;
  decimal_degree_f32 = 23;
  decimal_degree_f64 = 52;
  log_data_callback = none;
  record_data_callback = none;
  pc_views_limit = 10;
  mem_views_limit = 10;
}

profile_only-IsSorted : IsSorted profile_only.analysis_enabled
unfolding type_number
profile_only-IsSorted = (omega arith, tt)
