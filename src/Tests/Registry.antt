-- ===== src/Tests/Registry.antt =====
-- A registry with one allocation: the runs of redshow/src/redshow.cpp on it.
use ten_prof.Prelude.{
  ℕ, ◌≡◌, ◌<◌, refl, true, false, none, some, [], ◌∷◌, arith, ◌≤◌, ℕ_discrete, dec_lt,
}
use ten_prof.Common.Map.{find, has, assign, erase, prev, IsSorted, u64_key}
use ten_prof.Operation.{
  MemoryRange, Memory, new_memory, new_memfree, op_callbacks, memory_profile, success,
  error_not_exist_entry, error_duplicate_entry, range_key,
}
use ten_prof.Redshow.Registry.{
  Snapshots, Registry, memory_register, memory_unregister, submemory_register, submemory_unregister,
}
use ten_prof.Redshow.Registry.Query.{memory_query, ranges_get}
use ten_prof.Redshow.Registry.Collect.{collect, analysis_end}
use ten_prof.Redshow.Registry.Collect.Kept.{IsOld, collect_lem, memory_query-analysis_end}
use ten_prof.Redshow.Registry.Live.{live, basis}
use ten_prof.Redshow.Registry.Invariant.{IsWellFormed, Registry-IsWellFormed}
use ten_prof.Redshow.Registry.Answers.{answer, memory_query_complete, ranges_get_all}
use ten_prof.Redshow.Registry.Calls.{
  memory_query-memory_register, memory_query-memory_register_below,
  memory_unregister-memory_register,
}

abbrev low : MemoryRange
low = record { start = 100; end = 200 }

abbrev low_memory : Memory
low_memory = record {
  op_id = 3;
  ctx_id = 7;
  stream_id = 0;
  memory_range = low;
  len = 100;
  value = 1000;
}

-- The allocation of [100, 200) by operation 3.
abbrev one : Registry
one = record {
  memory_snapshot = (3, (low, low_memory) ∷ []) ∷ [];
  sub_memory_snapshot = [];
  analysis_enabled = memory_profile ∷ [];
  mini_host_op_id = 4;
}

abbrev high : MemoryRange
high = record { start = 300; end = 400 }

program : Unit {0}
unfolding ℕ_discrete dec_lt find has assign erase prev new_memory new_memfree op_callbacks
    memory_register memory_unregister submemory_register submemory_unregister memory_query
    ranges_get collect analysis_end live basis
program = tt

registered_once : (memory_register 0 7 3 100 200 1000 (record one { memory_snapshot = [] })).1 ≡ one
unfolding program
registered_once = refl

registered_twice : (memory_register 0 8 4 100 200 2000 one).0 ≡ error_duplicate_entry
unfolding program
registered_twice = refl

freed_unknown : (memory_unregister 0 8 4 101 200 one).0 ≡ error_not_exist_entry
unfolding program
freed_unknown = refl

one-IsWellFormed : IsWellFormed one
one-IsWellFormed = record {
  memories = ((omega arith, tt), (((omega arith, tt), ((refl, omega arith), tt)), tt));
  submemories = (tt, tt);
}

Registry-IsWellFormed_example :
    IsWellFormed (memory_register 0 8 4 300 400 2000 one).1
    × IsWellFormed (memory_unregister 0 8 4 300 400 one).1
    × IsWellFormed (submemory_register 8 4 300 400 2000 one).1
    × IsWellFormed (submemory_unregister 8 4 300 400 one).1
Registry-IsWellFormed_example = Registry-IsWellFormed 0 8 4 300 400 2000 one one-IsWellFormed

basis_one : basis 4 one.memory_snapshot ≡ some ((low, low_memory) ∷ [])
unfolding program
basis_one = refl

live_one : live 4 one.memory_snapshot ≡ some ((low, low_memory) ∷ [])
unfolding program
live_one = refl

high_new : has high ((low, low_memory) ∷ []) ≡ false
unfolding program
high_new = refl

memory_query-memory_register_example :
    memory_query 4 300 (memory_register 0 8 4 300 400 2000 one).1
    ≡ some (record { memory_id = 8; memory_op_id = 4; shadow_start = 2000; len = 100 })
memory_query-memory_register_example =
    memory_query-memory_register 0 8 4 300 400 2000 one one-IsWellFormed ((low, low_memory) ∷ [])
      basis_one high_new (omega arith) (omega arith)

memory_query-memory_register_below_example :
    memory_query 3 300 (memory_register 0 8 4 300 400 2000 one).1 ≡ memory_query 3 300 one
memory_query-memory_register_below_example =
    memory_query-memory_register_below 0 8 4 300 400 2000 one one-IsWellFormed
      ((low, low_memory) ∷ []) basis_one high_new 3 300 (omega arith)

memory_unregister-memory_register_example :
    live 4
      (memory_unregister 0 8 4 300 400 (memory_register 0 8 4 300 400 2000 one).1).1.memory_snapshot
    ≡ some ((low, low_memory) ∷ [])
memory_unregister-memory_register_example =
    memory_unregister-memory_register 0 8 4 300 400 2000 one one-IsWellFormed
      ((low, low_memory) ∷ []) basis_one high_new 0 8

low_there : find low ((low, low_memory) ∷ []) ≡ some low_memory
unfolding program
low_there = refl

only_low :
    (other : MemoryRange)
    → has other ((low, low_memory) ∷ []) ≡ true
    → other.start ≤ 200
    → other.start ≤ 100
unfolding has
only_low other h le = ground arith

-- The address one past the end.
memory_query_complete_example : memory_query 4 200 one ≡ some (answer 200 low low_memory)
memory_query_complete_example =
    memory_query_complete 4 200 one ((low, low_memory) ∷ []) low low_memory one-IsWellFormed
      live_one low_there refl (omega arith) (omega arith) only_low

ranges_get_all_example : ranges_get 4 0 one.memory_snapshot ≡ (success, low ∷ [])
ranges_get_all_example =
    ranges_get_all 4 0 one.memory_snapshot ((low, low_memory) ∷ []) live_one (λ e. cc)

-- Three snapshots, and a kernel that was launched by operation 6.
abbrev three : Snapshots
three = (2, []) ∷ (4, (low, low_memory) ∷ []) ∷ (6, []) ∷ []

abbrev later : Registry
later = record one { memory_snapshot = three; mini_host_op_id = 5 }

three-IsSorted : IsSorted three
three-IsSorted = ground arith

collected : collect 5 three ≡ (4, (low, low_memory) ∷ []) ∷ (6, []) ∷ []
unfolding program
collected = refl

collect_lem_example :
    (5 ≤ 4 → find 4 (collect 5 three) ≡ find 4 three)
    × (IsOld 5 three 4
        → ((j : ℕ) → IsOld 5 three j → j ≤ 4)
        → find 4 (collect 5 three) ≡ find 4 three)
    × ((j : ℕ) → 4 < j → IsOld 5 three j → find 4 (collect 5 three) ≡ none)
collect_lem_example = collect_lem 5 4 three three-IsSorted

memory_query-analysis_end_example :
    memory_query 5 150 (analysis_end later).1 ≡ memory_query 5 150 later
memory_query-analysis_end_example =
    memory_query-analysis_end later 5 150 three-IsSorted (omega arith)
