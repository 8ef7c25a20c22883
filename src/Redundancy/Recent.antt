-- ===== src/Redundancy/Recent.antt =====
-- The temporal traces of redshow/src/analysis/temporal_redundancy.cpp against the accesses and the
-- exits that an analysis is told of.
use ten_prof.Prelude.{
  ℕ, ◌≡◌, refl, ap, ◌∙◌, Bool, true, Option, none, some, List, [], ◌∷◌, ◌==◌, if◌then◌else◌, arith,
  Bool-cases, Option-cases, inl, inr,
}
use ten_prof.Common.Map.{Key, Map, find, assign, erase, IsSorted, u64_key}
use ten_prof.Common.Map.Laws.{find-assign, find-erase, assign-IsSortedFrom}
use ten_prof.Redshow.Access.{ThreadId, AccessKind, bit}
use ten_prof.Redundancy.{
  Step, access, exit, thread_key, TemporalTrace, PcPairs, update_temporal_trace, unit_addr,
}

-- What a map of maps has at two keys.
unfoldable pub entry_of : Option (Map ℕ (ℕ × ℕ)) → ℕ → Option (ℕ × ℕ)
unfolding find
entry_of none a = none
entry_of (some seen) a = find a seen

unfoldable pub entry : ThreadId → ℕ → TemporalTrace → Option (ℕ × ℕ)
unfolding entry_of find
entry t a trace = entry_of (find t trace) a

unfoldable pub is_thread : ThreadId → ThreadId → Bool
is_thread t u = thread_key.rank t == thread_key.rank u

-- The last access at an address by a thread whose flags have a bit, unless the thread has left.
unfoldable pub recent : ℕ → ThreadId → ℕ → List Step → Option (ℕ × ℕ) → Option (ℕ × ℕ)
unfolding bit unit_addr is_thread
recent i t a [] last = last
recent i t a (access x ∷ calls) last = recent i t a calls (
    if bit x.flags i
    then (if is_thread t x.thread_id
        then (if a == unit_addr x then some (x.pc, x.value) else last)
        else last)
    else last)
recent i t a (exit u ∷ calls) last = recent i t a calls (if is_thread t u then none else last)

pub find_same {κ ℓ} :
    {K : Type κ} {V : Type ℓ} ⦃key : Key K⦄ (j k : K) (m : Map K V)
    → (key.rank j == key.rank k) ≡ true
    → find j m ≡ find k m
unfolding find
find_same j k [] e = refl
find_same j k ((i, w) ∷ m) e = ground (arith, find_same j k m e)

-- The entry at one pair of keys after one access.
traced :
    (t u : ThreadId) (a addr pc value : ℕ) (seen : Map ℕ (ℕ × ℕ)) (trace : TemporalTrace)
    → (is_thread t u ≡ true → entry t a trace ≡ find a seen)
    → entry t a (assign u (assign addr (pc, value) seen) trace) ≡ (
        if is_thread t u
        then (if a == addr then some (pc, value) else entry t a trace)
        else entry t a trace)
unfolding entry entry_of is_thread
traced t u a addr pc value seen trace old = elim (Bool-cases (is_thread t u)) [
  | inl same ↦
      rw (find-assign u t (assign addr (pc, value) seen) trace, same)
        (rw (find-assign addr a (pc, value) seen, old same) refl)
  | inr other ↦ rw (find-assign u t (assign addr (pc, value) seen) trace, other) refl
]

pub entry_here :
    (t u : ThreadId) (a : ℕ) (trace : TemporalTrace)
    → is_thread t u ≡ true
    → entry t a trace ≡ entry_of (find u trace) a
unfolding entry is_thread
entry_here t u a trace same = ap (λ m. entry_of m a) (find_same t u trace same)

-- Whatever branch is taken, the trace has the access beside what the thread had.
update_temporal_trace_outcome :
    (u : ThreadId) (addr pc value : ℕ) (kind : AccessKind) (trace : TemporalTrace) (pairs : PcPairs)
    → (seen : Map ℕ (ℕ × ℕ)) × ((update_temporal_trace pc u addr value kind trace pairs).0
        ≡ assign u (assign addr (pc, value) seen) trace)
      × ((a : ℕ) → entry_of (find u trace) a ≡ find a seen)
unfolding update_temporal_trace entry_of assign find
update_temporal_trace_outcome u addr pc value kind trace pairs =
    elim (Option-cases (find u trace)) [
      | inl new ↦ ([], rw (new, update_temporal_trace) refl, λ a. rw new refl)
      | inr (seen, old) ↦
          let here = λ (a : ℕ). ap (λ m. entry_of m a) old in
          elim (Option-cases (find addr seen)) [
            | inl missing ↦ (seen, rw (old, missing, update_temporal_trace) refl, here)
            | inr ((prev_pc, prev_value), there) ↦ elim (Bool-cases (prev_value == value)) [
              | inl again ↦ (seen, rw (old, there, again, update_temporal_trace) refl, here)
              | inr changed ↦ (seen, rw (old, there, changed, update_temporal_trace) refl, here)
            ]
          ]
    ]

pub entry-update_temporal_trace :
    (t u : ThreadId) (a addr pc value : ℕ) (kind : AccessKind) (trace : TemporalTrace)
    (pairs : PcPairs)
    → entry t a (update_temporal_trace pc u addr value kind trace pairs).0 ≡ (
        if is_thread t u
        then (if a == addr then some (pc, value) else entry t a trace)
        else entry t a trace)
entry-update_temporal_trace t u a addr pc value kind trace pairs =
    let (seen, updated, old) = update_temporal_trace_outcome u addr pc value kind trace pairs in
    rw updated (traced t u a addr pc value seen trace (λ same. entry_here t u a trace same ∙ old a))

pub entry-erase :
    (t u : ThreadId) (a : ℕ) (trace : TemporalTrace)
    → IsSorted trace
    → entry t a (erase u trace) ≡ (if is_thread t u then none else entry t a trace)
unfolding entry entry_of is_thread
entry-erase t u a trace sorted = elim (Bool-cases (is_thread t u)) [
  | inl same ↦ rw (find-erase 0 u t trace sorted, same) refl
  | inr other ↦ rw (find-erase 0 u t trace sorted, other) refl
]

pub update_temporal_trace-IsSorted :
    (u : ThreadId) (addr pc value : ℕ) (kind : AccessKind) (trace : TemporalTrace) (pairs : PcPairs)
    → IsSorted trace
    → IsSorted (update_temporal_trace pc u addr value kind trace pairs).0
update_temporal_trace-IsSorted u addr pc value kind trace pairs sorted =
    let (seen, updated, old) = update_temporal_trace_outcome u addr pc value kind trace pairs in
    rw updated (assign-IsSortedFrom 0 u _ trace (omega arith) sorted)
