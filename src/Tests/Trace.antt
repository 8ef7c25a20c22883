-- ===== src/Tests/Trace.antt =====
-- A trace of a small kernel: the runs of redshow/src/redshow.cpp on it.
use ten_prof.Prelude.{
  ℕ, ◌≡◌, ◌≤◌, ◌<◌, refl, none, some, List, [], ◌∷◌, ◌⊎◌, arith, All, ℕ_discrete, dec_lt,
}
use ten_prof.Common.Map.{find, has, assign, erase, prev, u64_key}
use ten_prof.Operation.{MemoryRange, Memory, memory_profile, success, range_key}
use ten_prof.Redshow.Registry.Collect.{note_analyzed}
use ten_prof.Redshow.Symbols.{Symbol, real_pc, transform_pc}
use ten_prof.Redshow.Symbols.Transform.{IsSortedFrom, IsOne, IsLast, transform_pc_lem}
use ten_prof.Redshow.Access.{
  data_float, Target, target, AddressRecord, bit, to_each, value_to_double, value_to_basic_type,
}
use ten_prof.Redshow.Trace.{
  Launch, region_part, split_region, in_front, report_parts, patch_memory,
  trace_analyze_address_patch, trace_analyze_address_analysis, site,
}
use ten_prof.Redshow.Trace.Default.{trace_analyze_default}
use ten_prof.Redshow.Trace.Regions.{AllTile, reported, trace_analyze_address_analysis_lem}
use ten_prof.Redshow.Trace.Lanes.{IsAttributed, Fits, trace_analyze_address_patch-IsAttributed}
use ten_prof.Redshow.Cubins.{
  assign_pcs, enter_cubin, cubin_cache_register, cubin_unregister, has_symbols, load_cubin, lookup,
  lookup_cache, look_again, cubin_register,
}
use ten_prof.Redshow.Cubins.Lookup.{modules}
use ten_prof.Redshow.Analyze.{
  launch, analyze_records, analyze_module, analyze_found, type_of, finish, analyzed, trace_analyze,
  analyze,
}
use ten_prof.Redshow.Config.{analysis_key}

abbrev pub function_at : ℕ → ℕ → Symbol
function_at index pc = record { cubin_id = 1; index = index; offset = 64; pc = pc }

abbrev pub two_functions : List Symbol
two_functions = function_at 0 4096 ∷ function_at 1 8192 ∷ []

program : Unit {0}
unfolding ℕ_discrete dec_lt find has assign erase prev transform_pc real_pc target bit to_each site
    value_to_double value_to_basic_type region_part split_region in_front report_parts patch_memory
    trace_analyze_address_patch trace_analyze_address_analysis trace_analyze_default assign_pcs
    enter_cubin cubin_cache_register cubin_unregister has_symbols load_cubin lookup lookup_cache
    look_again cubin_register modules launch analyze_records analyze_module analyze_found type_of
    finish analyzed trace_analyze analyze note_analyzed
program = tt

pc_of_second : transform_pc 8200 two_functions ≡ some (real_pc 8200 (function_at 1 8192))
unfolding program
pc_of_second = refl

two_functions-IsSorted : IsSortedFrom 0 two_functions
two_functions-IsSorted = (omega arith, (omega arith, tt))

transform_pc_lem_example :
    ((transform_pc 8200 two_functions ≡ none) × All (λ s. 8200 < s.pc) two_functions)
    ⊎ ((s : Symbol) × (transform_pc 8200 two_functions ≡ some (real_pc 8200 s))
        × IsOne s two_functions
        × (s.pc ≤ 8200)
        × IsLast 8200 s two_functions)
transform_pc_lem_example = transform_pc_lem 8200 two_functions two_functions-IsSorted

-- Two memories that touch each other.
abbrev first : MemoryRange
first = record { start = 100; end = 200 }

abbrev second : MemoryRange
second = record { start = 200; end = 300 }

abbrev memory_of : ℕ → MemoryRange → Memory
memory_of id range = record {
  op_id = id;
  ctx_id = id;
  stream_id = 0;
  memory_range = range;
  len = 100;
  value = 9000;
}

abbrev pub on_both : Launch
on_both = record {
  kernel_id = 9;
  host_op_id = 5;
  enabled = memory_profile ∷ [];
  memory_map = (first, memory_of 3 first) ∷ (second, memory_of 4 second) ∷ [];
  symbols = two_functions;
  inst_graph = [];
  default_data_type = data_float;
  decimal_degree_f32 = 23;
  decimal_degree_f64 = 52;
}

split_at_border :
    split_region 200 on_both.memory_map 250 150 150
    ≡ some (target 3 3 150 50 ∷ target 4 4 200 50 ∷ [])
unfolding program
split_at_border = refl

trace_analyze_address_analysis_lem_example :
    (found : List (List Target)) × (trace_analyze_address_analysis on_both 2
        (record { start = 150; end = 250 } ∷ [])
      ≡ some (success, reported on_both 2 found))
    × AllTile on_both.memory_map (record { start = 150; end = 250 } ∷ []) found
trace_analyze_address_analysis_lem_example =
    trace_analyze_address_analysis_lem on_both 2 (record { start = 150; end = 250 } ∷ [])
      (omega arith, tt)

-- Threads 0 and 2 are active; the second access of the two lies across the border.
abbrev warp : AddressRecord
warp = record { pc = 8200; flags = 1; active = 5; size = 4; address = 120 ∷ 130 ∷ 198 ∷ [] }

warp-Fits : All (λ r. Fits r 0 r.address) (warp ∷ [])
warp-Fits = ((λ on. omega arith, (λ on. omega arith, (λ on. omega arith, tt))), tt)

trace_analyze_address_patch-IsAttributed_example :
    All
      (λ c. IsAttributed on_both.memory_map c.1)
      (trace_analyze_address_patch on_both (warp ∷ [])).1
trace_analyze_address_patch-IsAttributed_example =
    trace_analyze_address_patch-IsAttributed on_both (warp ∷ []) warp-Fits

-- Four bytes from two below the end of the addresses wrap around, and count as in the last memory.
wrapped :
    patch_memory on_both.memory_map 18446744073709551614 4
    ≡ some (target 4 4 18446744073709551614 4)
unfolding program
wrapped = refl
