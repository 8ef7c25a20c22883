-- ===== src/Redshow/Registry/Invariant.antt =====
-- The invariant of the snapshots, and that each operation of the registry keeps it.
use mathlib.Core.Option.{some-injective}
use ten_prof.Prelude.{
  ℕ, ◌≤◌, ◌≡◌, refl, some, [], ◌∷◌, inl, inr, All, arith, Bool-cases, Option-cases, subst,
}
use ten_prof.Common.Map.{find, has, assign, erase, IsSorted, u64_key}
use ten_prof.Common.Map.Laws.{assign-IsSortedFrom, erase-IsSortedFrom}
use ten_prof.Common.Map.Entries.{All-assign, All-assign_new, All-erase, All-prev}
use ten_prof.Common.Map.Prev.{prev-IsGreatest}
use ten_prof.Operation.{MemoryRange, Memory, new_memory, range_key}
use ten_prof.Redshow.Registry.{
  MemoryMap, Snapshots, Registry, take_snapshot, drop_snapshot, memory_register, memory_unregister,
  submemory_register, submemory_unregister,
}
use ten_prof.Redshow.Registry.Live.{
  live, basis, taken, dropped, take_snapshot-taken, drop_snapshot-dropped, live-prev,
}

-- An entry of the map that was taken at operation `id`: it stands under its own range, and was
-- allocated by `id` at the latest.
abbrev pub IsEntry : ℕ → MemoryRange × Memory → Type 0
IsEntry id e = (e.0 ≡ e.1.memory_range) × (e.1.op_id ≤ id)

abbrev pub IsMemoryMap : ℕ → MemoryMap → Type 0
IsMemoryMap id m = IsSorted m × All (IsEntry id) m

-- The ids rise, and so do the starts in each map.
abbrev pub IsHistory : Snapshots → Type 0
IsHistory s = IsSorted s × All (λ e. IsMemoryMap e.0 e.1) s

pub record IsWellFormed (r : Registry) : Type 0 where
  pub memories : IsHistory r.memory_snapshot
  pub submemories : IsHistory r.sub_memory_snapshot

IsEntry-mono : (i j : ℕ) (m : MemoryMap) → i ≤ j → All (IsEntry i) m → All (IsEntry j) m
IsEntry-mono i j [] le a = tt
IsEntry-mono i j ((range, mem) ∷ m) le a =
    ((a.0.0, omega (arith, a.0.1)), IsEntry-mono i j m le a.1)

-- A map that an operation sees may be copied to it.
pub live-IsMemoryMap :
    (h : ℕ) (s : Snapshots) (m : MemoryMap) → IsHistory s → live h s ≡ some m → IsMemoryMap h m
live-IsMemoryMap h s m v e =
    let (id, found) = live-prev h s m e in
    let here = All-prev (λ e. IsMemoryMap e.0 e.1) h s (id, m) v.1 found in
    (here.0, IsEntry-mono id h m (prev-IsGreatest 0 h s (id, m) v.0 found).2 here.1)

pub basis-IsMemoryMap :
    (h : ℕ) (s : Snapshots) (m : MemoryMap) → IsHistory s → basis h s ≡ some m → IsMemoryMap h m
unfolding basis
basis-IsMemoryMap h [] m v e = subst (IsMemoryMap h) (some-injective _ _ e) (tt, tt)
basis-IsMemoryMap h (x ∷ s) m v e = live-IsMemoryMap h (x ∷ s) m v e

assign-IsHistory :
    (h : ℕ) (m : MemoryMap) (s : Snapshots)
    → IsHistory s
    → IsMemoryMap h m
    → IsHistory (assign h m s)
assign-IsHistory h m s v k = (
  assign-IsSortedFrom 0 h m s (omega arith) v.0,
  All-assign (λ e. IsMemoryMap e.0 e.1) h m s (λ j same. subst (λ i. IsMemoryMap i m) same k) v.1,
)

take_snapshot-IsHistory :
    (h : ℕ) (range : MemoryRange) (mem : Memory) (s : Snapshots)
    → IsEntry h (range, mem)
    → IsHistory s
    → IsHistory (take_snapshot h range mem s).1
take_snapshot-IsHistory h range mem s entry v =
    rw (take_snapshot-taken h range mem s) (elim (Option-cases (basis h s)) [
      | inl e ↦ rw (e, taken) v
      | inr (m, e) ↦
          rw (e, taken)
            (elim (Bool-cases (has range m)) [
              | inl old ↦ rw old v
              | inr new ↦
                  let old = basis-IsMemoryMap h s m v e in
                  rw new (
                    assign-IsHistory h (assign range mem m) s v (
                      assign-IsSortedFrom 0 range mem m (omega arith) old.0,
                      All-assign_new (IsEntry h) range mem m new entry old.1,
                    ))
            ])
    ])

drop_snapshot-IsHistory :
    (h : ℕ) (range : MemoryRange) (s : Snapshots)
    → IsHistory s
    → IsHistory (drop_snapshot h range s).1
drop_snapshot-IsHistory h range s v =
    rw (drop_snapshot-dropped h range s) (elim (Option-cases (live h s)) [
      | inl e ↦ rw (e, dropped) v
      | inr (m, e) ↦
          rw (e, dropped)
            (elim (Option-cases (find range m)) [
              | inl missing ↦ rw (missing, dropped) v
              | inr (mem, there) ↦
                  let old = live-IsMemoryMap h s m v e in
                  rw (there, dropped)
                    (assign-IsHistory h (erase range m) s v
                      (erase-IsSortedFrom 0 range m old.0, All-erase (IsEntry h) range m old.1))
            ])
    ])

-- Registering and unregistering a memory or a sub-memory keeps the registry well formed, whatever
-- the arguments and the result: ids and starts rise, and each entry stands under its own range and
-- was allocated by the operation of its snapshot at the latest.
pub Registry-IsWellFormed :
    (stream_id memory_id h start end shadow : ℕ) (r : Registry)
    → IsWellFormed r
    → IsWellFormed (memory_register stream_id memory_id h start end shadow r).1
      × IsWellFormed (memory_unregister stream_id memory_id h start end r).1
      × IsWellFormed (submemory_register memory_id h start end shadow r).1
      × IsWellFormed (submemory_unregister memory_id h start end r).1
unfolding memory_register memory_unregister submemory_register submemory_unregister new_memory
Registry-IsWellFormed stream_id memory_id h start end shadow r v = (
  record {
    memories = take_snapshot-IsHistory h _ _ _ (refl, omega arith) v.memories;
    submemories = v.submemories;
  },
  record { memories = drop_snapshot-IsHistory h _ _ v.memories; submemories = v.submemories },
  record {
    memories = v.memories;
    submemories = take_snapshot-IsHistory h _ _ _ (refl, omega arith) v.submemories;
  },
  record { memories = v.memories; submemories = drop_snapshot-IsHistory h _ _ v.submemories },
)
