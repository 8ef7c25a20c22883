-- ===== src/Redshow/Trace.antt =====
-- redshow/src/redshow.cpp: `trace_analyze` and what it calls. A trace buffer is the list of its
-- records; each access is attributed to a live memory, and every enabled analysis is told of it.
pub mod Regions
pub mod Lanes
pub mod Default
use ten_prof.Prelude.{
  ℕ, zero, suc, ◌+◌, ◌-◌, ◌*◌, ◌/◌, ◌%◌, ◌^◌, u64_mod, u32_mod, Bool, true, false, not, ◌&&◌,
  Option, none, some, List, [], ◌∷◌, ◌++◌, ltb, leb, ◌==◌, if◌then◌else◌, map, min, get_or,
}
use ten_prof.Common.Map.{Map, prev, find, has, u64_key}
use ten_prof.Operation.{
  MemoryRange, Memory, AnalysisType, Status, success, error_failed_analyze_cubin, range_key,
}
use ten_prof.Redshow.Registry.{MemoryMap}
use ten_prof.Redshow.Symbols.{Symbol, RealPc, transform_pc}
use ten_prof.Redshow.Access.{
  DataType, data_unknown, AccessKind, no_access_kind, value_to_basic_type, warp_size, bit,
  local_bit, shared_bit, block_enter_bit, block_exit_bit, PatchRecord, AddressRecord, ThreadId,
  Target, target, Access, Call, unit_access, block_exit, to_each,
}

abbrev pub Calls : Type 0
Calls = List (AnalysisType × Call)

-- What stays the same for all records of a buffer.
pub record Launch : Type 0 where
  pub kernel_id : ℕ
  pub host_op_id : ℕ
  pub enabled : List AnalysisType
  pub memory_map : MemoryMap
  pub symbols : List Symbol
  pub inst_graph : Map ℕ (Option AccessKind)
  pub default_data_type : DataType
  pub decimal_degree_f32 : ℕ
  pub decimal_degree_f64 : ℕ

-- Where the bytes from `address` on lie: outside the memory that the map finds, in it, or nowhere,
-- as no memory starts before them.
pub data Site : Type 0 where
  outside : Site
  inside : Memory → Site
  unknown : Site

unfoldable pub site : MemoryMap → ℕ → ℕ → Site
site memory_map address size = elim (prev (record { start = address; end = address }) memory_map) [
  | none ↦ unknown
  | some (range, mem) ↦
      if leb mem.memory_range.start address && leb ((address + size) % u64_mod) mem.memory_range.end
      then inside mem
      else outside
]

-- One thread of `trace_analyze_address_patch`; `none` is its `continue`.
unfoldable pub patch_memory : MemoryMap → ℕ → ℕ → Option Target
unfolding site target
patch_memory memory_map address size = elim (site memory_map address size) [
  | outside ↦ none
  | unknown ↦ none
  | inside mem ↦ if mem.op_id == 0 then none else some (target mem.op_id mem.ctx_id address size)
]

-- The calls for the threads from `j` on.
unfoldable pub patch_lanes : Launch → AddressRecord → ℕ → List ℕ → Status × Calls
unfolding bit patch_memory transform_pc to_each
patch_lanes l record' j [] = (success, [])
patch_lanes l record' j (address ∷ rest) =
    let (status, calls) = patch_lanes l record' (suc j) rest in
    if bit record'.active j
    then elim (patch_memory l.memory_map address record'.size) [
      | none ↦ (status, calls)
      | some memory ↦ elim (transform_pc record'.pc l.symbols) [
        | none ↦ (error_failed_analyze_cubin, [])
        | some real_pc ↦ (
          status,
          to_each l.enabled (
                unit_access (record {
                  kernel_id = l.kernel_id;
                  host_op_id = l.host_op_id;
                  thread_id = record { flat_block_id = 0; flat_thread_id = 0 };
                  access_kind = record no_access_kind { unit_size = record'.size };
                  memory = memory;
                  pc = real_pc.pc_offset;
                  value = 0;
                  addr = 0;
                  index = 0;
                  flags = record'.flags;
                }))
              ++ calls,
        )
      ]
    ]
    else (status, calls)

-- One part of a result in front of the rest, unless the part failed.
unfoldable pub then_rest : Status × Calls → Status × Calls → Status × Calls
then_rest (success, calls) rest = (rest.0, calls ++ rest.1)
then_rest (failed, calls) rest = (failed, calls)

-- `trace_analyze_address_patch`.
unfoldable pub trace_analyze_address_patch : Launch → List AddressRecord → Status × Calls
unfolding patch_lanes then_rest
trace_analyze_address_patch l [] = (success, [])
trace_analyze_address_patch l (r ∷ records) =
    then_rest (patch_lanes l r 0 r.address) (trace_analyze_address_patch l records)

-- The part of the region that starts at `addr_start` and lies in one memory, and the next
-- `addr_start` and `addr_end`; `none` is a `break`.
unfoldable pub region_part : MemoryMap → ℕ → ℕ → Option (Target × ℕ × ℕ)
unfolding target
region_part memory_map end addr_start =
    elim (prev (record { start = addr_start; end = addr_start }) memory_map) [
      | none ↦ none
      | some (range, mem) ↦
          if leb range.start addr_start && ltb addr_start range.end && not (mem.op_id == 0)
          then some (
            target mem.op_id mem.ctx_id addr_start (min end range.end - addr_start),
            range.end,
            min end range.end,
          )
          else none
    ]

-- `part`, if there is a rest.
unfoldable pub in_front : Target → Option (List Target) → Option (List Target)
in_front part none = none
in_front part (some parts) = some (part ∷ parts)

-- The `while` loop of `trace_analyze_address_analysis`, with fuel: the parts of the region up to
-- `end` that are reported. `none` means that the fuel ran out.
unfoldable pub split_region : ℕ → MemoryMap → ℕ → ℕ → ℕ → Option (List Target)
split_region zero memory_map end addr_start addr_end = elim (ltb addr_end end) [
  | true ↦ none
  | false ↦ some []
]
split_region (suc fuel) memory_map end addr_start addr_end = elim (ltb addr_end end) [
  | false ↦ some []
  | true ↦ elim (region_part memory_map end addr_start) [
    | none ↦ some []
    | some (part, next_start, next_end) ↦
        in_front part (split_region fuel memory_map end next_start next_end)
  ]
]

-- The call for one part, with the flags of the buffer.
unfoldable pub region_access : Launch → ℕ → Target → Call
region_access l flags memory = unit_access (record {
  kernel_id = l.kernel_id;
  host_op_id = l.host_op_id;
  thread_id = record { flat_block_id = 0; flat_thread_id = 0 };
  access_kind = no_access_kind;
  memory = memory;
  pc = 0;
  value = 0;
  addr = 0;
  index = 0;
  flags = flags;
})

unfoldable pub report_parts : Launch → ℕ → List Target → Calls
unfolding region_access to_each
report_parts l flags [] = []
report_parts l flags (part ∷ parts) =
    to_each l.enabled (region_access l flags part) ++ report_parts l flags parts

-- `trace_analyze_address_analysis`, with as many rounds for a region as it has bytes.
unfoldable pub trace_analyze_address_analysis :
    Launch → ℕ → List MemoryRange → Option (Status × Calls)
unfolding split_region report_parts
trace_analyze_address_analysis l flags [] = some (success, [])
trace_analyze_address_analysis l flags (region ∷ records) =
    elim (split_region (region.end - region.start) l.memory_map region.end region.start
      region.start) [
        | none ↦ none
        | some parts ↦ elim (trace_analyze_address_analysis l flags records) [
          | none ↦ none
          | some (status, calls) ↦ some (status, report_parts l flags parts ++ calls)
        ]
      ]
