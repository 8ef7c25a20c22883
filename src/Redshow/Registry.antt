-- ===== src/Redshow/Registry.antt =====
-- redshow/src/redshow.cpp: `memory_snapshot` and `sub_memory_snapshot`. Each allocation and each free
-- writes, at its operation's id, a copy of the map of live memories, so that a later query by an
-- operation's id sees the memories that were live then.
pub mod Query
pub mod Collect
pub mod Live
pub mod Invariant
pub mod Calls
pub mod Answers
pub mod Seen
use ten_prof.Prelude.{
  ℕ, ◌+◌, ◌-◌, ◌%◌, u64_mod, Bool, true, false, not, Option, none, some, List, [], ◌∷◌,
  if◌then◌else◌,
}
use ten_prof.Common.Map.{Map, find, has, assign, erase, prev, u64_key}
use ten_prof.Operation.{
  MemoryRange, Memory, new_memory, new_memfree, memory, memfree, AnalysisType, Event, op_callbacks,
  Status, success, error_not_exist_entry, error_duplicate_entry, range_key,
}

-- `MemoryMap`: the live memories by the starts of their ranges.
abbrev pub MemoryMap : Type 0
MemoryMap = Map MemoryRange Memory

-- <op_id, memory_map>
abbrev pub Snapshots : Type 0
Snapshots = Map ℕ MemoryMap

-- The static variables that the registry reads and writes.
pub record Registry : Type 0 where
  pub memory_snapshot : Snapshots
  pub sub_memory_snapshot : Snapshots
  pub analysis_enabled : List AnalysisType
  pub mini_host_op_id : ℕ

is_empty : Snapshots → Bool
is_empty [] = true
is_empty (e ∷ m) = false

-- The locked part of `redshow_memory_register` and of `redshow_submemory_register`.
unfoldable pub take_snapshot : ℕ → MemoryRange → Memory → Snapshots → Status × Snapshots
unfolding is_empty
take_snapshot host_op_id range mem snapshots =
    if is_empty snapshots
    then (success, assign host_op_id (assign range mem []) snapshots)
    else elim (prev host_op_id snapshots) [
      | none ↦ (error_not_exist_entry, snapshots)
      | some (id, memory_map) ↦
          if not (has range memory_map)
          then (success, assign host_op_id (assign range mem memory_map) snapshots)
          else (error_duplicate_entry, snapshots)
    ]

-- The locked part of `redshow_memory_unregister` and of `redshow_submemory_unregister`.
unfoldable pub drop_snapshot : ℕ → MemoryRange → Snapshots → Status × Snapshots
drop_snapshot host_op_id range snapshots = elim (prev host_op_id snapshots) [
  | none ↦ (error_not_exist_entry, snapshots)
  | some (id, memory_map) ↦ elim (find range memory_map) [
    | none ↦ (error_not_exist_entry, snapshots)
    | some mem ↦ (success, assign host_op_id (erase range memory_map) snapshots)
  ]
]

-- `if (result == REDSHOW_SUCCESS)` before the callbacks.
on_success : Status → List Event → List Event
on_success success events = events
on_success other events = []

-- `redshow_memory_register`; `shadow` is the address of the new memory's shadow bytes.
unfoldable pub memory_register : ℕ → ℕ → ℕ → ℕ → ℕ → ℕ → Registry → Status × Registry × List Event
unfolding new_memory take_snapshot op_callbacks on_success
memory_register stream_id memory_id host_op_id start end shadow r =
    let range : MemoryRange = record { start = start; end = end } in
    let mem = new_memory stream_id host_op_id memory_id range shadow in
    let (status, snapshots) = take_snapshot host_op_id range mem r.memory_snapshot in
    (
      status,
      record r { memory_snapshot = snapshots },
      on_success status (op_callbacks r.analysis_enabled (memory mem) false),
    )

unfoldable pub memory_unregister : ℕ → ℕ → ℕ → ℕ → ℕ → Registry → Status × Registry × List Event
unfolding new_memfree drop_snapshot op_callbacks on_success
memory_unregister stream_id memory_id host_op_id start end r =
    let range : MemoryRange = record { start = start; end = end } in
    let free = new_memfree stream_id host_op_id memory_id range in
    let (status, snapshots) = drop_snapshot host_op_id range r.memory_snapshot in
    (
      status,
      record r { memory_snapshot = snapshots },
      on_success status (op_callbacks r.analysis_enabled (memfree free) false),
    )

unfoldable pub submemory_register : ℕ → ℕ → ℕ → ℕ → ℕ → Registry → Status × Registry × List Event
unfolding new_memory take_snapshot op_callbacks on_success
submemory_register sub_memory_id host_op_id start end shadow r =
    let range : MemoryRange = record { start = start; end = end } in
    let mem = new_memory 0 host_op_id sub_memory_id range shadow in
    let (status, snapshots) = take_snapshot host_op_id range mem r.sub_memory_snapshot in
    (
      status,
      record r { sub_memory_snapshot = snapshots },
      on_success status (op_callbacks r.analysis_enabled (memory mem) true),
    )

unfoldable pub submemory_unregister : ℕ → ℕ → ℕ → ℕ → Registry → Status × Registry × List Event
unfolding new_memfree drop_snapshot op_callbacks on_success
submemory_unregister sub_memory_id host_op_id start end r =
    let range : MemoryRange = record { start = start; end = end } in
    let free = new_memfree 0 host_op_id sub_memory_id range in
    let (status, snapshots) = drop_snapshot host_op_id range r.sub_memory_snapshot in
    (
      status,
      record r { sub_memory_snapshot = snapshots },
      on_success status (op_callbacks r.analysis_enabled (memfree free) true),
    )
