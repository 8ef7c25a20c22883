-- ===== src/Redshow/Registry/Live.antt =====
-- The abstract view of the snapshots: the map of live memories that an operation sees. What
-- `redshow_memory_register` and `redshow_memory_unregister` do to it, on every branch.
use mathlib.Core.Option.{some-injective}
use ten_prof.Prelude.{
  ℕ, ◌<◌, ◌≡◌, refl, ap, false, inl, inr, Option, none, some, [], ◌∷◌, if◌then◌else◌, arith,
  Option-cases,
}
use ten_prof.Common.Map.{find, has, assign, erase, prev, IsSorted, u64_key}
use ten_prof.Common.Map.Change.{prev-assign, prev-assign_below}
use ten_prof.Operation.{
  MemoryRange, Memory, Status, success, error_not_exist_entry, error_duplicate_entry, range_key,
}
use ten_prof.Redshow.Registry.{MemoryMap, Snapshots, take_snapshot, drop_snapshot}

-- The map that an operation sees.
unfoldable pub live : ℕ → Snapshots → Option MemoryMap
live h s = elim (prev h s) [ none ↦ none | some (id, m) ↦ some m ]

pub live-prev :
    (h : ℕ) (s : Snapshots) (m : MemoryMap)
    → live h s ≡ some m
    → (id : ℕ) × (prev h s ≡ some (id, m))
unfolding live
live-prev h s m e = elim (Option-cases (prev h s)) [
  | inl missing ↦ cc (rw (missing, live) at e)
  | inr ((id, n), found) ↦ (
    id,
    rw (some-injective _ _ (let e' : some n ≡ some m = rw (found, live) at e in e')) at found,
  )
]

-- The map that a new snapshot starts from: an empty one, if there is no snapshot at all.
unfoldable pub basis : ℕ → Snapshots → Option MemoryMap
unfolding live
basis h [] = some []
basis h (e ∷ s) = live h (e ∷ s)

pub live-assign :
    (h : ℕ) (m : MemoryMap) (s : Snapshots) → IsSorted s → live h (assign h m s) ≡ some m
unfolding live
live-assign h m s sorted =
    let (e, found, same, val) = prev-assign 0 h m s sorted in
    rw (found, live) (ap {B = Option MemoryMap} some val)

pub live-assign_below :
    (k h : ℕ) (m : MemoryMap) (s : Snapshots) → k < h → live k (assign h m s) ≡ live k s
unfolding live
live-assign_below k h m s lt = rw (prev-assign_below h k m s lt, live)

-- The outcome of `take_snapshot`, by the map that it starts from.
abbrev pub taken : ℕ → MemoryRange → Memory → Snapshots → Option MemoryMap → Status × Snapshots
taken h range mem s none = (error_not_exist_entry, s)
taken h range mem s (some m) =
    if has range m then (error_duplicate_entry, s) else (success, assign h (assign range mem m) s)

pub take_snapshot-taken :
    (h : ℕ) (range : MemoryRange) (mem : Memory) (s : Snapshots)
    → take_snapshot h range mem s ≡ taken h range mem s (basis h s)
unfolding take_snapshot basis has
take_snapshot-taken h range mem [] = refl
take_snapshot-taken h range mem (e ∷ s) = ground arith

-- The outcome of `drop_snapshot`, by the map that the operation sees.
abbrev pub dropped : ℕ → MemoryRange → Snapshots → Option MemoryMap → Status × Snapshots
dropped h range s none = (error_not_exist_entry, s)
dropped h range s (some m) = elim (find range m) [
  | none ↦ (error_not_exist_entry, s)
  | some mem ↦ (success, assign h (erase range m) s)
]

pub drop_snapshot-dropped :
    (h : ℕ) (range : MemoryRange) (s : Snapshots)
    → drop_snapshot h range s ≡ dropped h range s (live h s)
unfolding drop_snapshot live
drop_snapshot-dropped h range s = ground arith

-- A range that is not there is added to the map that the operation sees; no earlier operation sees it.
pub take_snapshot_fresh :
    (h : ℕ) (range : MemoryRange) (mem : Memory) (s : Snapshots) (m : MemoryMap)
    → IsSorted s
    → basis h s ≡ some m
    → has range m ≡ false
    → ((take_snapshot h range mem s).0 ≡ success)
      × (live h (take_snapshot h range mem s).1 ≡ some (assign range mem m))
      × ((k : ℕ) → k < h → live k (take_snapshot h range mem s).1 ≡ live k s)
take_snapshot_fresh h range mem s m sorted b new =
    rw (take_snapshot-taken h range mem s, b, taken, new)
      (refl, live-assign h (assign range mem m) s sorted, λ k lt. live-assign_below k h _ s lt)
