-- ===== src/Redundancy/Traces.antt =====
-- The two temporal traces of a kernel after any accesses and exits.
use ten_prof.Prelude.{
  ℕ, ◌≡◌, refl, ap, ◌∙◌, Bool, true, false, some, List, [], ◌∷◌, ◌==◌, if◌then◌else◌, Bool-cases,
  inl, inr,
}
use ten_prof.Common.Map.{IsSorted, u64_key}
use ten_prof.Common.Map.Laws.{erase-IsSortedFrom}
use ten_prof.Redshow.Access.{ThreadId, AccessKind, Access, bit}
use ten_prof.Redundancy.{
  Step, access, exit, read_bit, write_bit, thread_key, TemporalTrace, PcPairs, RedundancyTrace,
  update_temporal_trace, unit_addr, read_access, write_access, temporal_access, temporal_exit,
  temporal_steps,
}
use ten_prof.Redundancy.Recent.{
  entry, is_thread, recent, entry-update_temporal_trace, update_temporal_trace-IsSorted,
  entry-erase,
}

-- Both maps of threads are in order.
pub record AreSorted (trace : RedundancyTrace) : Type 0 where
  pub reads : IsSorted trace.read_temporal_trace
  pub writes : IsSorted trace.write_temporal_trace

-- Each side is updated exactly under its flag.
reads-temporal_access :
    (x : Access) (trace : RedundancyTrace)
    → (temporal_access x trace).read_temporal_trace ≡ (
        if bit x.flags read_bit
        then (update_temporal_trace x.pc x.thread_id
            (unit_addr x)
            x.value
            x.access_kind
            trace.read_temporal_trace
            trace.read_pc_pairs).0
        else trace.read_temporal_trace)
unfolding temporal_access read_access write_access
reads-temporal_access x trace = elim (Bool-cases (bit x.flags read_bit)) [
  | inl r ↦ elim (Bool-cases (bit x.flags write_bit)) [
    | inl w ↦ rw (r, w) refl
    | inr w ↦ rw (r, w) refl
  ]
  | inr r ↦ elim (Bool-cases (bit x.flags write_bit)) [
    | inl w ↦ rw (r, w) refl
    | inr w ↦ rw (r, w) refl
  ]
]

writes-temporal_access :
    (x : Access) (trace : RedundancyTrace)
    → (temporal_access x trace).write_temporal_trace ≡ (
        if bit x.flags write_bit
        then (update_temporal_trace x.pc x.thread_id
            (unit_addr x)
            x.value
            x.access_kind
            trace.write_temporal_trace
            trace.write_pc_pairs).0
        else trace.write_temporal_trace)
unfolding temporal_access read_access write_access
writes-temporal_access x trace = elim (Bool-cases (bit x.flags read_bit)) [
  | inl r ↦ elim (Bool-cases (bit x.flags write_bit)) [
    | inl w ↦ rw (r, w) refl
    | inr w ↦ rw (r, w) refl
  ]
  | inr r ↦ elim (Bool-cases (bit x.flags write_bit)) [
    | inl w ↦ rw (r, w) refl
    | inr w ↦ rw (r, w) refl
  ]
]

either-IsSorted :
    (b : Bool) (updated trace : TemporalTrace)
    → IsSorted updated
    → IsSorted trace
    → IsSorted (if b then updated else trace)
either-IsSorted true updated trace new old = new
either-IsSorted false updated trace new old = old

pub temporal_access-AreSorted :
    (x : Access) (trace : RedundancyTrace) → AreSorted trace → AreSorted (temporal_access x trace)
temporal_access-AreSorted x trace v = record {
  reads = rw (reads-temporal_access x trace) (
      either-IsSorted (bit x.flags read_bit) _ _
        (update_temporal_trace-IsSorted x.thread_id (unit_addr x) x.pc x.value x.access_kind
          trace.read_temporal_trace trace.read_pc_pairs v.reads)
        v.reads);
  writes = rw (writes-temporal_access x trace) (
      either-IsSorted (bit x.flags write_bit) _ _
        (update_temporal_trace-IsSorted x.thread_id (unit_addr x) x.pc x.value x.access_kind
          trace.write_temporal_trace trace.write_pc_pairs v.writes)
        v.writes);
}

pub temporal_exit-AreSorted :
    (u : ThreadId) (trace : RedundancyTrace) → AreSorted trace → AreSorted (temporal_exit u trace)
unfolding temporal_exit
temporal_exit-AreSorted u trace v = record {
  reads = erase-IsSortedFrom 0 u trace.read_temporal_trace v.reads;
  writes = erase-IsSortedFrom 0 u trace.write_temporal_trace v.writes;
}

entry-either :
    (b : Bool) (t u : ThreadId) (a addr pc value : ℕ) (kind : AccessKind) (trace : TemporalTrace)
    (pairs : PcPairs)
    → entry t a (if b then (update_temporal_trace pc u addr value kind trace pairs).0 else trace)
      ≡ (if b
          then (if is_thread t u
              then (if a == addr then some (pc, value) else entry t a trace)
              else entry t a trace)
          else entry t a trace)
entry-either true t u a addr pc value kind trace pairs =
    entry-update_temporal_trace t u a addr pc value kind trace pairs
entry-either false t u a addr pc value kind trace pairs = refl

-- The temporal traces after the calls.
pub temporal_steps_lem :
    (t : ThreadId) (a : ℕ) (calls : List Step) (trace : RedundancyTrace)
    → IsSorted trace.read_temporal_trace
    → IsSorted trace.write_temporal_trace
    → (entry t a (temporal_steps calls trace).read_temporal_trace
        ≡ recent read_bit t a calls (entry t a trace.read_temporal_trace))
      × (entry t a (temporal_steps calls trace).write_temporal_trace
          ≡ recent write_bit t a calls (entry t a trace.write_temporal_trace))
unfolding temporal_steps recent
temporal_steps_lem t a [] trace reads writes = (refl, refl)
temporal_steps_lem t a (access x ∷ calls) trace reads writes =
    let v = temporal_access-AreSorted x trace (record { reads = reads; writes = writes }) in
    let (read, written) = temporal_steps_lem t a calls (temporal_access x trace) v.reads v.writes in
    (
      read
          ∙ ap (recent read_bit t a calls) (
              ap (entry t a) (reads-temporal_access x trace)
              ∙ entry-either (bit x.flags read_bit) t x.thread_id a (unit_addr x) x.pc x.value
                  x.access_kind trace.read_temporal_trace trace.read_pc_pairs),
      written
          ∙ ap (recent write_bit t a calls) (
              ap (entry t a) (writes-temporal_access x trace)
              ∙ entry-either (bit x.flags write_bit) t x.thread_id a (unit_addr x) x.pc x.value
                  x.access_kind trace.write_temporal_trace trace.write_pc_pairs),
    )
temporal_steps_lem t a (exit u ∷ calls) trace reads writes =
    let v = temporal_exit-AreSorted u trace (record { reads = reads; writes = writes }) in
    let (read, written) = temporal_steps_lem t a calls (temporal_exit u trace) v.reads v.writes in
    (
      read
          ∙ ap (recent read_bit t a calls)
              (unfold temporal_exit in (entry-erase t u a trace.read_temporal_trace reads)),
      written
          ∙ ap (recent write_bit t a calls)
              (unfold temporal_exit in (entry-erase t u a trace.write_temporal_trace writes)),
    )
