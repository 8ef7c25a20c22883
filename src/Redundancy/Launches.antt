-- ===== src/Redundancy/Launches.antt =====
-- The analysis of a kernel from its begin to its end: redshow/src/analysis/temporal_redundancy.cpp.
use ten_prof.Prelude.{
  ℕ, ◌%◌, u64_mod, ◌≡◌, refl, ◌∙◌, Bool, true, false, none, some, List, [], ◌∷◌, ◌++◌, ◌==◌,
  if◌then◌else◌, arith, map, Bool-cases, Option-cases, inl, inr, to_eq,
}
use ten_prof.Common.Map.{IsSorted, u64_key}
use ten_prof.Common.Map.Laws.{find-assign}
use ten_prof.Redshow.Access.{
  ThreadId, AccessKind, Call, analysis_begin, unit_access, block_exit, analysis_end,
}
use ten_prof.Redundancy.{
  thread_key, Step, access, exit, RedundancyTrace, Temporal, new_trace, temporal_steps,
  temporal_access, temporal_exit, trace_at, put_trace, temporal_begin, on_trace, default_type,
  temporal_call, temporal_run, read_bit, write_bit,
}
use ten_prof.Redundancy.Recent.{entry, recent}
use ten_prof.Redundancy.Traces.{temporal_steps_lem}
use ten_prof.Redundancy.Repeats.{map_at-assign, pairs_at}
use ten_prof.Redundancy.Counts.{repeats, temporal_steps_pairs}

unfoldable pub call_of : Step → Call
call_of (access x) = unit_access x
call_of (exit t) = block_exit t

-- The calls for one kernel, from the begin to the end.
unfoldable pub launch_calls : ℕ → ℕ → ℕ → ℕ → ℕ → ℕ → List Step → List Call
unfolding call_of
launch_calls cpu k op stream cubin module_id steps =
    analysis_begin cpu k op stream cubin module_id default_type ∷ map call_of steps
    ++ analysis_end cpu k ∷ []

-- The trace of a kernel, or a new one.
unfoldable pub begun : ℕ → ℕ → ℕ → ℕ → Temporal → RedundancyTrace
unfolding trace_at
begun cpu k cubin module_id s = elim (trace_at cpu k s) [
  | none ↦ new_trace (record { ctx_id = k; cubin_id = cubin; mod_id = module_id })
  | some trace ↦ trace
]

unfoldable pub is_kernel : ℕ → ℕ → ℕ → ℕ → Bool
is_kernel i j cpu k = if i == cpu then j == k else false

trace_at-put_trace :
    (i j cpu k : ℕ) (trace : RedundancyTrace) (s : Temporal)
    → trace_at i j (put_trace cpu k trace s)
      ≡ (if is_kernel i j cpu k then some trace else trace_at i j s)
unfolding trace_at put_trace is_kernel
trace_at-put_trace i j cpu k trace s = elim (Bool-cases (i == cpu)) [
  | inr other ↦ rw (map_at-assign i cpu _ s.kernel_trace, other) refl
  | inl same ↦
      rw (map_at-assign i cpu _ s.kernel_trace, same)
        (rw (find-assign k j trace _, to_eq i cpu same) refl)
]

is_kernel_same : (cpu k : ℕ) → is_kernel cpu k cpu k ≡ true
unfolding is_kernel
is_kernel_same cpu k = ground arith

-- The state while the analysis of a kernel runs: `trace` is the kernel's, and the others are as in `s`.
record IsAt (cpu k : ℕ) (trace : RedundancyTrace) (s now : Temporal) : Type 0 where
  at : now.trace ≡ some (cpu, k)
  here : trace_at cpu k now ≡ some trace
  others : (i j : ℕ) → is_kernel i j cpu k ≡ false → trace_at i j now ≡ trace_at i j s

temporal_begin-IsAt :
    (cpu k cubin module_id : ℕ) (s : Temporal)
    → IsAt cpu k (begun cpu k cubin module_id s) s (temporal_begin cpu k cubin module_id s)
unfolding temporal_begin begun
temporal_begin-IsAt cpu k cubin module_id s = elim (Option-cases (trace_at cpu k s)) [
  | inl new ↦
      rw (new, temporal_begin, begun)
        (record {
          at = refl;
          here = trace_at-put_trace cpu k cpu k _ s ∙ rw (is_kernel_same cpu k) refl;
          others = λ i j other. trace_at-put_trace i j cpu k _ s ∙ rw other refl;
        })
  | inr (trace, old) ↦
      rw (old, temporal_begin, begun) (record { at = refl; here = old; others = λ i j other. refl })
]

on_trace-IsAt :
    (f : RedundancyTrace → RedundancyTrace) (cpu k : ℕ) (trace : RedundancyTrace) (s now : Temporal)
    → IsAt cpu k trace s now
    → (next : Temporal) × (on_trace f now ≡ some next) × IsAt cpu k (f trace) s next
unfolding on_trace
on_trace-IsAt f cpu k trace s now v =
    rw (v.at, on_trace)
      (rw (v.here, on_trace)
        (
          put_trace cpu k (f trace) now,
          refl,
          record {
            at = unfold put_trace in v.at;
            here = trace_at-put_trace cpu k cpu k _ now ∙ rw (is_kernel_same cpu k) refl;
            others =
                λ i j other. trace_at-put_trace i j cpu k _ now ∙ rw other (v.others i j other);
          },
        ))

-- The steps, and then the end.
steps_lem :
    (steps : List Step) (cpu k : ℕ) (trace : RedundancyTrace) (s now : Temporal)
    → IsAt cpu k trace s now
    → (next : Temporal) × (temporal_run (map call_of steps ++ analysis_end cpu k ∷ []) now
        ≡ some next)
      × (next.trace ≡ none)
      × (trace_at cpu k next ≡ some (temporal_steps steps trace))
      × ((i j : ℕ) → is_kernel i j cpu k ≡ false → trace_at i j next ≡ trace_at i j s)
unfolding temporal_run temporal_call call_of temporal_steps trace_at
steps_lem [] cpu k trace s now v = (record now { trace = none }, refl, refl, v.here, v.others)
steps_lem (access x ∷ steps) cpu k trace s now v =
    let (next, returns, at) = on_trace-IsAt (temporal_access x) cpu k trace s now v in
    let (last, run, ended, here, others) =
      steps_lem steps cpu k (temporal_access x trace) s next at in
    (last, rw returns run, ended, here, others)
steps_lem (exit t ∷ steps) cpu k trace s now v =
    let (next, returns, at) = on_trace-IsAt (temporal_exit t) cpu k trace s now v in
    let (last, run, ended, here, others) =
      steps_lem steps cpu k (temporal_exit t trace) s next at in
    (last, rw returns run, ended, here, others)

launch_lem :
    (cpu k op stream cubin module_id : ℕ) (steps : List Step) (s : Temporal)
    → (next : Temporal) × (temporal_run (launch_calls cpu k op stream cubin module_id steps) s
        ≡ some next)
      × (next.trace ≡ none)
      × (trace_at cpu k next ≡ some (temporal_steps steps (begun cpu k cubin module_id s)))
      × ((i j : ℕ) → is_kernel i j cpu k ≡ false → trace_at i j next ≡ trace_at i j s)
unfolding launch_calls temporal_run temporal_call
launch_lem cpu k op stream cubin module_id steps s =
    steps_lem steps cpu k (begun cpu k cubin module_id s) s (temporal_begin cpu k cubin module_id s)
      (temporal_begin-IsAt cpu k cubin module_id s)

module _ (cpu k op stream cubin module_id : ℕ) (steps : List Step) (s : Temporal) where
  -- The calls for one kernel, from the begin through any accesses and exits to the end, return and
  -- change the trace of no other kernel. If the threads of the traces that the kernel had, or of
  -- new ones, were in order, each of its temporal traces then has for each thread and address the
  -- PC and the value of the last access there that has the flag of the trace, what it had before
  -- if there was none, and nothing if the thread has left since. Threads are compared by the
  -- number that their order compares.
  pub temporal_run-recent :
      let before = begun cpu k cubin module_id s in
      IsSorted before.read_temporal_trace
      → IsSorted before.write_temporal_trace
      → (next : Temporal) × (temporal_run (launch_calls cpu k op stream cubin module_id steps) s
          ≡ some next)
        × (trace : RedundancyTrace) × (trace_at cpu k next ≡ some trace)
        × ((t : ThreadId) (a : ℕ)
            → (entry t a trace.read_temporal_trace
                ≡ recent read_bit t a steps (entry t a before.read_temporal_trace))
              × (entry t a trace.write_temporal_trace
                  ≡ recent write_bit t a steps (entry t a before.write_temporal_trace)))
        × ((i j : ℕ) → is_kernel i j cpu k ≡ false → trace_at i j next ≡ trace_at i j s)
  temporal_run-recent reads writes =
      let (next, returns, ended, here, others) =
        launch_lem cpu k op stream cubin module_id steps s in
      (
        next,
        returns,
        temporal_steps steps (begun cpu k cubin module_id s),
        here,
        λ t a. temporal_steps_lem t a steps (begun cpu k cubin module_id s) reads writes,
        others,
      )

  -- The calls for a kernel that has no trace yet, from the begin through any accesses and exits to
  -- the end, return. In its trace the count of a pair of PCs with a value and an access kind, for
  -- reads and for writes, is then the number, modulo 2 to the 64, of the accesses at the first PC
  -- that have this value and kind and find, as the last of their thread at their address since it
  -- last left, an access by the second PC with the same value. Threads, and values with their
  -- kinds, are compared by the numbers that their order compares.
  pub temporal_run_pairs :
      trace_at cpu k s ≡ none
      → (next : Temporal) × (temporal_run (launch_calls cpu k op stream cubin module_id steps) s
          ≡ some next)
        × (trace : RedundancyTrace) × (trace_at cpu k next ≡ some trace)
        × ((pc prev_pc : ℕ) (v : ℕ × AccessKind)
            → (pairs_at pc prev_pc v trace.read_pc_pairs
                ≡ repeats read_bit pc prev_pc v [] steps % u64_mod)
              × (pairs_at pc prev_pc v trace.write_pc_pairs
                  ≡ repeats write_bit pc prev_pc v [] steps % u64_mod))
  unfolding begun
  temporal_run_pairs new =
      let (next, returns, ended, here, others) =
        launch_lem cpu k op stream cubin module_id steps s in
      (
        next,
        returns,
        temporal_steps steps
            (new_trace (record { ctx_id = k; cubin_id = cubin; mod_id = module_id })),
        rw (new, begun) at here,
        λ pc prev_pc v. temporal_steps_pairs _ pc prev_pc v steps,
      )
