-- ===== src/Liveness/Memories.antt =====
-- redshow/src/analysis/memory_liveness.cpp: what the callbacks do to the members of memories and, in
-- the same way, to those of sub-memories.
pub mod Usage
pub mod Kept
use ten_prof.Prelude.{
  ℕ, ◌+◌, ◌-◌, ◌%◌, u64_mod, true, false, Option, none, some, List, [], ◌∷◌, ◌++◌, ◌==◌, ltb,
  if◌then◌else◌,
}
use ten_prof.Common.Map.{find, has, assign, erase, try_emplace, u64_key}
use ten_prof.Operation.{Memory, Memfree}
use ten_prof.Liveness.{MemoryOperation, memory_access, alloc, free, Operations, Ledger}

-- `memory_operation_register`: the first operation with an id is kept.
unfoldable pub memory_operation_register : ℕ → ℕ → MemoryOperation → Operations → Operations
memory_operation_register memory_op_id op_id mem_op operations =
    elim (find memory_op_id operations) [
      | none ↦ assign memory_op_id ((op_id, mem_op) ∷ []) operations
      | some ops_node ↦ elim (find op_id ops_node) [
        | none ↦ assign memory_op_id (assign op_id mem_op ops_node) operations
        | some operation ↦ operations
      ]
    ]

-- `memory_operation_register` at a ledger.
unfoldable pub note : ℕ → ℕ → MemoryOperation → Ledger → Ledger
note memory_op_id op_id mem_op l = record l {
  operations = memory_operation_register memory_op_id op_id mem_op l.operations;
}

-- The part of `memory_op_callback` from `_memories` on.
unfoldable pub allocate : Memory → MemoryOperation → Ledger → Ledger
allocate op mem_op l =
    let usage = (l.current_memory_usage + op.len) % u64_mod in
    record l {
      memories = try_emplace op.op_id op l.memories;
      current_memories = try_emplace op.op_id op l.current_memories;
      addresses_map = try_emplace op.memory_range.start op.op_id l.addresses_map;
      memory_size_list = l.memory_size_list ++ record { op_id = op.op_id; size = op.len } ∷ [];
      current_memory_usage = usage;
      memory_size_log =
          try_emplace op.op_id (record { op = alloc; size = usage }) l.memory_size_log;
      current_memory_peak =
          if ltb l.current_memory_peak usage then usage else l.current_memory_peak;
      operations =
          if has op.op_id l.operations
          then l.operations
          else memory_operation_register op.op_id op.op_id mem_op l.operations;
    }

-- The part of `memfree_op_callback` from `address` to the registration, and the memory that is
-- freed; `none` where `at` throws.
unfoldable pub release : Memfree → MemoryOperation → Ledger → Option (ℕ × Ledger)
release op mem_op l = elim (find op.memory_range.start l.addresses_map) [
  | none ↦ none
  | some malloc_op_id ↦
      let usage = (l.current_memory_usage + u64_mod - op.len) % u64_mod in
      some (
        malloc_op_id,
        record l {
          addresses_map = erase op.memory_range.start l.addresses_map;
          current_memories = erase malloc_op_id l.current_memories;
          current_memory_usage = usage;
          memory_size_log =
              try_emplace op.op_id (record { op = free; size = usage }) l.memory_size_log;
          operations = memory_operation_register malloc_op_id op.op_id mem_op l.operations;
        },
      )
]

-- An entry of `gpu_patch_aux_address_dict_t`: `start_end[i].start`, `hit[i]`, `read[i]`, `write[i]`.
pub record AuxEntry : Type 0 where
  pub start : ℕ
  pub hit : ℕ
  pub read_bit : ℕ
  pub write_bit : ℕ

-- The loop of `update_aux_hit`, with the usage of the kernel so far.
unfoldable pub hit_entries : ℕ → List AuxEntry → ℕ → Ledger → Option (ℕ × Ledger)
hit_entries kernel_op_id [] usage l = some (usage, l)
hit_entries kernel_op_id (e ∷ aux) usage l = elim (e.hit == 1) [
  | true ↦ elim (find e.start l.addresses_map) [
    | none ↦ none
    | some memory_op_id ↦ elim (find memory_op_id l.current_memories) [
      | none ↦ none
      | some mem ↦
          hit_entries kernel_op_id aux ((usage + mem.len) % u64_mod)
            (note memory_op_id kernel_op_id memory_access l)
    ]
  ]
  | false ↦ hit_entries kernel_op_id aux usage l
]

-- The two `if`s at the end of `update_aux_hit`.
unfoldable pub raise_optimal : ℕ → ℕ → Ledger → Ledger
raise_optimal kernel_op_id usage l =
    if ltb l.optimal_memory_peak usage
    then record l { memory_peak_kernel = kernel_op_id; optimal_memory_peak = usage }
    else l

-- `update_aux_hit`, both branches.
unfoldable pub update_aux_hit : List AuxEntry → ℕ → Ledger → Option Ledger
update_aux_hit aux kernel_op_id l = elim (hit_entries kernel_op_id aux 0 l) [
  | none ↦ none
  | some (usage, l') ↦ some (raise_optimal kernel_op_id usage l')
]
