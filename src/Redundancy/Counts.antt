-- ===== src/Redundancy/Counts.antt =====
-- The counts of pairs after a run of calls of redshow/src/analysis/temporal_redundancy.cpp.
use ten_prof.Prelude.{
  ℕ, ◌+◌, ◌%◌, ◌<◌, u64_mod, ◌≡◌, refl, sym, ap, ◌∙◌, Bool, true, false, Option, none, List, [],
  ◌∷◌, ◌++◌, if◌then◌else◌, arith,
}
use ten_prof.Redshow.Access.{ThreadId, AccessKind}
use ten_prof.Redundancy.{
  Step, access, exit, TraceKernel, read_bit, write_bit, thread_key, RedundancyTrace, unit_addr,
  new_trace, temporal_exit, temporal_steps,
}
use ten_prof.Redundancy.Recent.{entry, recent}
use ten_prof.Redundancy.Traces.{
  temporal_steps_lem, AreSorted, temporal_access-AreSorted, temporal_exit-AreSorted,
}
use ten_prof.Redundancy.Repeats.{
  pairs_at, is_repeat, pairs-either, read_pairs-temporal_access, write_pairs-temporal_access,
}

-- A call repeats a value, by what the calls before it leave.
unfoldable pub is_hit_by : ℕ → ℕ → ℕ → ℕ × AccessKind → List Step → Step → Bool
unfolding recent is_repeat unit_addr
is_hit_by i pc prev_pc v before (access x) =
    is_repeat i pc prev_pc v x (recent i x.thread_id (unit_addr x) before none)
is_hit_by i pc prev_pc v before (exit u) = false

-- The number of the calls that repeat a value.
unfoldable pub repeats : ℕ → ℕ → ℕ → ℕ × AccessKind → List Step → List Step → ℕ
unfolding is_hit_by
repeats i pc prev_pc v before [] = 0
repeats i pc prev_pc v before (c ∷ calls) =
    (if is_hit_by i pc prev_pc v before c then 1 else 0)
    + repeats i pc prev_pc v (before ++ c ∷ []) calls

recent-append :
    (i : ℕ) (t : ThreadId) (a : ℕ) (before calls : List Step) (last : Option (ℕ × ℕ))
    → recent i t a (before ++ calls) last ≡ recent i t a calls (recent i t a before last)
unfolding recent
recent-append i t a [] calls last = refl
recent-append i t a (access x ∷ before) calls last = recent-append i t a before calls _
recent-append i t a (exit u ∷ before) calls last = recent-append i t a before calls _

temporal_steps-cons :
    (c : Step) (calls : List Step) (trace : RedundancyTrace)
    → temporal_steps (c ∷ calls) trace ≡ temporal_steps calls (temporal_steps (c ∷ []) trace)
unfolding temporal_steps
temporal_steps-cons (access x) calls trace = refl
temporal_steps-cons (exit u) calls trace = refl

temporal_call-AreSorted :
    (c : Step) (trace : RedundancyTrace)
    → AreSorted trace
    → AreSorted (temporal_steps (c ∷ []) trace)
unfolding temporal_steps
temporal_call-AreSorted (access x) trace v = temporal_access-AreSorted x trace v
temporal_call-AreSorted (exit u) trace v = temporal_exit-AreSorted u trace v

-- A trace holds what the calls before leave.
record IsTraced (before : List Step) (trace : RedundancyTrace) : Type 0 where
  sorted : AreSorted trace
  read :
      (t : ThreadId) (a : ℕ) → entry t a trace.read_temporal_trace ≡ recent read_bit t a before none
  written :
      (t : ThreadId) (a : ℕ)
      → entry t a trace.write_temporal_trace ≡ recent write_bit t a before none

temporal_call-IsTraced :
    (before : List Step) (c : Step) (trace : RedundancyTrace)
    → IsTraced before trace
    → IsTraced (before ++ c ∷ []) (temporal_steps (c ∷ []) trace)
temporal_call-IsTraced before c trace v =
    let kept = λ (t : ThreadId) (a : ℕ).
      temporal_steps_lem t a (c ∷ []) trace v.sorted.reads v.sorted.writes in
    record {
      sorted = temporal_call-AreSorted c trace v.sorted;
      read = λ t a.
          (kept t a).0
          ∙ ap (recent read_bit t a (c ∷ [])) (v.read t a)
          ∙ sym (recent-append read_bit t a before (c ∷ []) none);
      written = λ t a.
          (kept t a).1
          ∙ ap (recent write_bit t a (c ∷ [])) (v.written t a)
          ∙ sym (recent-append write_bit t a before (c ∷ []) none);
    }

counted : Bool → ℕ → ℕ
counted hit n = if hit then (n + 1) % u64_mod else n

module _ (pc prev_pc : ℕ) (v : ℕ × AccessKind) where
  read_pairs_step :
      (before : List Step) (c : Step) (trace : RedundancyTrace)
      → IsTraced before trace
      → pairs_at pc prev_pc v (temporal_steps (c ∷ []) trace).read_pc_pairs
        ≡ counted
            (is_hit_by read_bit pc prev_pc v before c)
            (pairs_at pc prev_pc v trace.read_pc_pairs)
  unfolding temporal_steps temporal_exit is_hit_by counted
  read_pairs_step before (access x) trace h =
      ap (pairs_at pc prev_pc v) (read_pairs-temporal_access x trace)
      ∙ rw (sym (h.read x.thread_id (unit_addr x)))
          (pairs-either read_bit pc prev_pc v x trace.read_temporal_trace trace.read_pc_pairs)
  read_pairs_step before (exit u) trace h = refl

  write_pairs_step :
      (before : List Step) (c : Step) (trace : RedundancyTrace)
      → IsTraced before trace
      → pairs_at pc prev_pc v (temporal_steps (c ∷ []) trace).write_pc_pairs
        ≡ counted
            (is_hit_by write_bit pc prev_pc v before c)
            (pairs_at pc prev_pc v trace.write_pc_pairs)
  unfolding temporal_steps temporal_exit is_hit_by counted
  write_pairs_step before (access x) trace h =
      ap (pairs_at pc prev_pc v) (write_pairs-temporal_access x trace)
      ∙ rw (sym (h.written x.thread_id (unit_addr x)))
          (pairs-either write_bit pc prev_pc v x trace.write_temporal_trace trace.write_pc_pairs)
  write_pairs_step before (exit u) trace h = refl

counted_add :
    (hit : Bool) (n m : ℕ)
    → (counted hit n + m) % u64_mod ≡ (n + ((if hit then 1 else 0) + m)) % u64_mod
unfolding counted
counted_add true n m = omega arith
counted_add false n m = omega arith

counted_below : (hit : Bool) (n : ℕ) → n < u64_mod → counted hit n < u64_mod
unfolding counted
counted_below true n h = omega arith
counted_below false n h = h

pairs-temporal_steps :
    (pc prev_pc : ℕ) (v : ℕ × AccessKind) (before calls : List Step) (trace : RedundancyTrace)
    → IsTraced before trace
    → pairs_at pc prev_pc v trace.read_pc_pairs < u64_mod
    → pairs_at pc prev_pc v trace.write_pc_pairs < u64_mod
    → (pairs_at pc prev_pc v (temporal_steps calls trace).read_pc_pairs
        ≡ (pairs_at pc prev_pc v trace.read_pc_pairs + repeats read_bit pc prev_pc v before calls)
          % u64_mod)
      × (pairs_at pc prev_pc v (temporal_steps calls trace).write_pc_pairs
          ≡ (pairs_at pc prev_pc v trace.write_pc_pairs
              + repeats write_bit pc prev_pc v before calls)
            % u64_mod)
unfolding temporal_steps repeats
pairs-temporal_steps pc prev_pc v before [] trace h reads writes = (omega arith, omega arith)
pairs-temporal_steps pc prev_pc v before (c ∷ calls) trace h reads writes =
    let read = read_pairs_step pc prev_pc v before c trace h in
    let written = write_pairs_step pc prev_pc v before c trace h in
    let rest =
      pairs-temporal_steps pc prev_pc v (before ++ c ∷ []) calls (temporal_steps (c ∷ []) trace)
        (temporal_call-IsTraced before c trace h) (rw read (counted_below _ _ reads))
        (rw written (counted_below _ _ writes)) in
    rw (temporal_steps-cons c calls trace) (
      rest.0
          ∙ ap (λ n. (n + repeats read_bit pc prev_pc v (before ++ c ∷ []) calls) % u64_mod) read
          ∙ counted_add _ _ _,
      rest.1
          ∙ ap (λ n. (n + repeats write_bit pc prev_pc v (before ++ c ∷ []) calls) % u64_mod)
              written
          ∙ counted_add _ _ _,
    )

from_zero : (n : ℕ) → (0 + n) % u64_mod ≡ n % u64_mod
from_zero n = omega arith

-- The counts after the calls on a new trace.
pub temporal_steps_pairs :
    (kernel : TraceKernel) (pc prev_pc : ℕ) (v : ℕ × AccessKind) (calls : List Step)
    → (pairs_at pc prev_pc v (temporal_steps calls (new_trace kernel)).read_pc_pairs
        ≡ repeats read_bit pc prev_pc v [] calls % u64_mod)
      × (pairs_at pc prev_pc v (temporal_steps calls (new_trace kernel)).write_pc_pairs
          ≡ repeats write_bit pc prev_pc v [] calls % u64_mod)
unfolding pairs_at recent entry
temporal_steps_pairs kernel pc prev_pc v calls =
    let counts =
      pairs-temporal_steps pc prev_pc v [] calls (new_trace kernel)
        (record {
          sorted = record { reads = tt; writes = tt };
          read = λ t a. refl;
          written = λ t a. refl;
        })
        (omega arith) (omega arith) in
    (counts.0 ∙ from_zero _, counts.1 ∙ from_zero _)
