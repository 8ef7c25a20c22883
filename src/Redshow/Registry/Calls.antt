-- ===== src/Redshow/Registry/Calls.antt =====
-- What a registered allocation and a registered free do, on every branch.
use ten_prof.Prelude.{
  ℕ, ◌+◌, ◌-◌, ◌%◌, ◌≤◌, ◌<◌, ◌≡◌, ◌⊎◌, inl, inr, refl, ◌∙◌, ap, u64_mod, true, false, none, some,
  [], arith, Bool-cases, Option-cases,
}
use ten_prof.Common.Map.{find, has, assign, erase, IsSorted, u64_key}
use ten_prof.Common.Map.Laws.{erase-assign, has-find, find-assign}
use ten_prof.Common.Map.Fresh.{prev-assign_new, prev_congr}
use ten_prof.Operation.{
  MemoryRange, Memory, new_memory, new_memfree, memory, memfree, op_callbacks, success,
  error_not_exist_entry, error_duplicate_entry, range_key,
}
use ten_prof.Redshow.Registry.{MemoryMap, Registry, memory_register, memory_unregister}
use ten_prof.Redshow.Registry.Live.{
  live, basis, taken, dropped, take_snapshot-taken, drop_snapshot-dropped, live-assign,
  take_snapshot_fresh,
}
use ten_prof.Redshow.Registry.Invariant.{IsWellFormed, basis-IsMemoryMap, Registry-IsWellFormed}
use ten_prof.Redshow.Registry.Query.{memory_query}
use ten_prof.Redshow.Registry.Answers.{answer_in, memory_query-live, query_map_found}

-- The three outcomes of an allocation: a missing map and a known start fail, leave the registry as
-- it was and call no analysis; any other enters the memory in a new snapshot and calls every
-- enabled analysis.
pub memory_register_outcome :
    (stream_id memory_id h start end shadow : ℕ) (r : Registry)
    → let range : MemoryRange = record { start = start; end = end } in
      let mem = new_memory stream_id h memory_id range shadow in
      let result = memory_register stream_id memory_id h start end shadow r in
      ((basis h r.memory_snapshot ≡ none) × (result ≡ (error_not_exist_entry, r, [])))
      ⊎ ((m : MemoryMap) × (basis h r.memory_snapshot ≡ some m)
          × (has range m ≡ true)
          × (result ≡ (error_duplicate_entry, r, [])))
      ⊎ ((m : MemoryMap) × (basis h r.memory_snapshot ≡ some m)
          × (has range m ≡ false)
          × (result ≡ (
            success,
            record r { memory_snapshot = assign h (assign range mem m) r.memory_snapshot },
            op_callbacks r.analysis_enabled (memory mem) false,
          )))
unfolding memory_register
memory_register_outcome stream_id memory_id h start end shadow r =
    rw (take_snapshot-taken h _ _ r.memory_snapshot)
      (elim (Option-cases (basis h r.memory_snapshot)) [
        | inl e ↦ inl (e, rw (e, taken))
        | inr (m, e) ↦ inr (elim (Bool-cases (has (record { start = start; end = end }) m)) [
          | inl old ↦ inl (m, e, old, rw (e, taken) (rw old))
          | inr new ↦ inr (m, e, new, rw (e, taken) (rw new))
        ])
      ])

-- The outcomes of a free: without a map, or for a start that is not live, it fails and changes
-- nothing; any other takes the range out of the map and calls every enabled analysis.
pub memory_unregister_outcome :
    (stream_id memory_id h start end : ℕ) (r : Registry)
    → let range : MemoryRange = record { start = start; end = end } in
      let free = new_memfree stream_id h memory_id range in
      let result = memory_unregister stream_id memory_id h start end r in
      ((live h r.memory_snapshot ≡ none) × (result ≡ (error_not_exist_entry, r, [])))
      ⊎ ((m : MemoryMap) × (live h r.memory_snapshot ≡ some m)
          × (find range m ≡ none)
          × (result ≡ (error_not_exist_entry, r, [])))
      ⊎ ((m : MemoryMap) × (mem : Memory) × (live h r.memory_snapshot ≡ some m)
          × (find range m ≡ some mem)
          × (result ≡ (
            success,
            record r { memory_snapshot = assign h (erase range m) r.memory_snapshot },
            op_callbacks r.analysis_enabled (memfree free) false,
          )))
unfolding memory_unregister
memory_unregister_outcome stream_id memory_id h start end r =
    rw (drop_snapshot-dropped h _ r.memory_snapshot)
      (elim (Option-cases (live h r.memory_snapshot)) [
        | inl e ↦ inl (e, rw (e, dropped))
        | inr (m, e) ↦ inr (elim (Option-cases (find (record { start = start; end = end }) m)) [
          | inl missing ↦ inl (m, e, missing, rw (e, dropped) (rw (missing, dropped)))
          | inr (mem, there) ↦ inr (m, mem, e, there, rw (e, dropped) (rw (there, dropped)))
        ])
      ])

query_map_new :
    (start : ℕ) (mem : Memory) (range : MemoryRange) (m : MemoryMap)
    → IsSorted m
    → has range m ≡ false
    → start ≤ range.end
    → mem.value < u64_mod
    → range.start ≡ start
    → answer_in start (some (assign range mem m))
      ≡ some (record {
        memory_id = mem.ctx_id;
        memory_op_id = mem.op_id;
        shadow_start = mem.value;
        len = mem.len;
      })
unfolding answer_in
query_map_new start mem range m sorted new le word same =
    let probe : MemoryRange = record { start = start; end = 0 } in
    let found =
      prev_congr range probe (assign range mem m) same ∙ prev-assign_new range mem m sorted new in
    rw (query_map_found start range mem _ found le)
      (let e : (mem.value + (start - range.start)) % u64_mod ≡ mem.value = omega arith in rw e)

module _ (stream_id memory_id h start end shadow : ℕ) (r : Registry) (v : IsWellFormed r) where
  -- The registry after the allocation.
  abbrev registered : Registry
  registered = (memory_register stream_id memory_id h start end shadow r).1

  abbrev range : MemoryRange
  range = record { start = start; end = end }

  abbrev mem : Memory
  mem = new_memory stream_id h memory_id range shadow

  module _ (m : MemoryMap) (b : basis h r.memory_snapshot ≡ some m)
      (new : has range m ≡ false) where
    live-registered : live h registered.memory_snapshot ≡ some (assign range mem m)
    unfolding memory_register
    live-registered = (take_snapshot_fresh h range mem r.memory_snapshot m v.memories.0 b new).1

    -- In a well-formed registry, after an allocation by an operation that sees a map, of a range
    -- whose start no memory of that map has, with an end that is not before its start and a shadow
    -- address that is a word, a query of the same operation for the first address of the range is
    -- answered: with the allocation's id, its operation, its shadow address and the length of the
    -- range.
    pub memory_query-memory_register :
        start ≤ end
        → shadow < u64_mod
        → memory_query h start registered
          ≡ some (record {
            memory_id = memory_id;
            memory_op_id = h;
            shadow_start = shadow;
            len = (end + u64_mod - start) % u64_mod;
          })
    unfolding new_memory
    memory_query-memory_register le word =
        rw (memory_query-live h start registered, live-registered)
          (query_map_new start mem range m (basis-IsMemoryMap h r.memory_snapshot m v.memories b).0
            new le word refl)

    -- In a well-formed registry, an allocation of a new range changes the answer to no query by an
    -- earlier operation.
    pub memory_query-memory_register_below :
        (k address : ℕ) → k < h → memory_query k address registered ≡ memory_query k address r
    unfolding memory_register
    memory_query-memory_register_below k address lt = rw (
      memory_query-live k address registered,
      memory_query-live k address r,
      (take_snapshot_fresh h range mem r.memory_snapshot m v.memories.0 b new).2 k lt,
    )

    -- In a well-formed registry, a free of a newly allocated range by the same operation brings
    -- back the map of live memories that the operation saw.
    pub memory_unregister-memory_register :
        (stream_id' memory_id' : ℕ)
        → live h (memory_unregister stream_id' memory_id' h start end registered).1.memory_snapshot
          ≡ some m
    unfolding memory_unregister
    memory_unregister-memory_register stream_id' memory_id' =
        let sorted = (basis-IsMemoryMap h r.memory_snapshot m v.memories b).0 in
        let there : find range (assign range mem m) ≡ some mem =
          ground (arith, find-assign range range mem m) in
        rw (drop_snapshot-dropped h range registered.memory_snapshot, live-registered, dropped)
          (rw (there, dropped)
            (live-assign h (erase range (assign range mem m)) registered.memory_snapshot
                (Registry-IsWellFormed stream_id memory_id h start end shadow r v).0.memories.0
              ∙ ap some (erase-assign 0 range mem m sorted (has-find range m new))))
