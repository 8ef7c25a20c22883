-- ===== src/Tests/Redundancy.antt =====
-- A run of the analysis of redshow/src/analysis/temporal_redundancy.cpp: a thread reads an address
-- twice with one value, and leaves its block.
use ten_prof.Prelude.{
  ℕ, ◌%◌, u64_mod, ◌≡◌, refl, false, none, some, List, [], ◌∷◌, ℕ_discrete, dec_lt,
}
use ten_prof.Common.Map.{find, assign, erase}
use ten_prof.Redshow.Access.{data_int, AccessKind, ThreadId, bit}
use ten_prof.Redundancy.{
  read_bit, write_bit, value_key, new_trace, count_at, bump, map_at, count_pair,
  update_temporal_trace, unit_addr, read_access, write_access, temporal_access, temporal_exit,
  temporal_steps, thread_key, Step, access, exit, RedundancyTrace, TraceKernel, Temporal, trace_at,
  put_trace, temporal_begin, on_trace, temporal_call, temporal_run,
}
use ten_prof.Redundancy.Repeats.{pairs_at, is_pair, is_repeat}
use ten_prof.Redundancy.Counts.{is_hit_by, repeats}
use ten_prof.Redundancy.Launches.{
  call_of, launch_calls, begun, is_kernel, temporal_run-recent, temporal_run_pairs,
}
use ten_prof.Redundancy.Recent.{entry_of, entry, is_thread, recent}

program : Unit {0}
unfolding ℕ_discrete dec_lt find assign erase bit count_at bump map_at count_pair
    update_temporal_trace unit_addr read_access write_access temporal_access temporal_exit
    temporal_steps entry_of entry is_thread recent pairs_at is_pair is_repeat is_hit_by repeats
    trace_at put_trace temporal_begin on_trace temporal_call temporal_run call_of launch_calls begun
    is_kernel
program = tt

abbrev thread : ThreadId
thread = record { flat_block_id = 0; flat_thread_id = 3 }

abbrev int32 : AccessKind
int32 = record { vec_size = 32; unit_size = 32; data_type = data_int }

abbrev read_at : ℕ → ℕ → Step
read_at pc index = access (record {
  kernel_id = 1;
  host_op_id = 7;
  thread_id = thread;
  access_kind = int32;
  memory = record {
    op_id = 5;
    ctx_id = 6;
    memory_range = record { start = 256; end = 512 };
    len = 256;
  };
  pc = pc;
  value = 9;
  addr = 256;
  index = index;
  flags = 1;
})

abbrev reads : List Step
reads = read_at 16 2 ∷ read_at 32 2 ∷ []

abbrev first : TraceKernel
first = record { ctx_id = 1; cubin_id = 2; mod_id = 0 }

twice :
    (temporal_steps reads (new_trace first)).read_pc_pairs
    ≡ (32, (16, ((9, int32), 1) ∷ []) ∷ []) ∷ []
unfolding program
twice = refl

left :
    temporal_steps (read_at 16 2 ∷ exit thread ∷ read_at 32 2 ∷ []) (new_trace first)
    ≡ record (temporal_steps (read_at 32 2 ∷ []) (new_trace first)) {
      read_pc_count = (16, 1) ∷ (32, 1) ∷ [];
    }
unfolding program
left = refl

recent_read : recent read_bit thread 264 reads none ≡ some (32, 9)
unfolding program
recent_read = refl

repeated_read : repeats read_bit 32 16 (9, int32) [] reads ≡ 1
unfolding program
repeated_read = refl

abbrev start : Temporal
start = record { kernel_trace = []; trace = none }

-- A call before the first launch has no trace.
too_early : temporal_run (call_of (read_at 16 2) ∷ []) start ≡ none
unfolding program
too_early = refl

temporal_run-recent_example :
    let before = begun 4 1 2 0 start in
    (next : Temporal) × (temporal_run (launch_calls 4 1 7 0 2 0 reads) start ≡ some next)
    × (trace : RedundancyTrace) × (trace_at 4 1 next ≡ some trace)
    × ((t : ThreadId) (a : ℕ)
        → (entry t a trace.read_temporal_trace
            ≡ recent read_bit t a reads (entry t a before.read_temporal_trace))
          × (entry t a trace.write_temporal_trace
              ≡ recent write_bit t a reads (entry t a before.write_temporal_trace)))
    × ((i j : ℕ) → is_kernel i j 4 1 ≡ false → trace_at i j next ≡ trace_at i j start)
unfolding program
temporal_run-recent_example = temporal_run-recent 4 1 7 0 2 0 reads start tt tt

temporal_run_pairs_example :
    (next : Temporal) × (temporal_run (launch_calls 4 1 7 0 2 0 reads) start ≡ some next)
    × (trace : RedundancyTrace) × (trace_at 4 1 next ≡ some trace)
    × ((pc prev_pc : ℕ) (v : ℕ × AccessKind)
        → (pairs_at pc prev_pc v trace.read_pc_pairs
            ≡ repeats read_bit pc prev_pc v [] reads % u64_mod)
          × (pairs_at pc prev_pc v trace.write_pc_pairs
              ≡ repeats write_bit pc prev_pc v [] reads % u64_mod))
unfolding program
temporal_run_pairs_example = temporal_run_pairs 4 1 7 0 2 0 reads start refl
