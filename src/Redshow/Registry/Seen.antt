-- ===== src/Redshow/Registry/Seen.antt =====
-- The map of live memories that operations see after a snapshot is entered.
use mathlib.Core.Option.{some-injective}
use ten_prof.Prelude.{ℕ, suc, ◌≤◌, ◌<◌, ◌≡◌, refl, sym, ap, ◌∙◌, true, some, [], ◌∷◌, arith}
use ten_prof.Common.Map.{has, assign, prev, prev_from, IsSorted, u64_key}
use ten_prof.Common.Map.Laws.{assign-IsSortedFrom, find-assign_same, has-assign}
use ten_prof.Common.Map.Prev.{prev-some}
use ten_prof.Operation.{range_key}
use ten_prof.Redshow.Registry.{MemoryMap, Snapshots}
use ten_prof.Redshow.Registry.Live.{live, basis}

-- The map of a registry is seen by all operations from `b` on.
pub record IsSeen (b : ℕ) (s : Snapshots) (m : MemoryMap) : Type 0 where
  pub keys : (j : ℕ) → has j s ≡ true → j < b
  pub seen : (k : ℕ) → b ≤ k → basis k s ≡ some m

basis-has : (k j : ℕ) (s : Snapshots) → has j s ≡ true → basis k s ≡ live k s
unfolding basis has
basis-has k j [] h = cc
basis-has k j (e ∷ s) h = refl

-- A snapshot of a new operation is seen from then on.
assign-seen :
    (b h k : ℕ) (m m' : MemoryMap) (s : Snapshots)
    → IsSorted s
    → b ≤ h
    → IsSeen b s m
    → h ≤ k
    → basis k (assign h m' s) ≡ some m'
assign-seen b h k m m' s sorted le v above =
    let there : has h (assign h m' s) ≡ true = rw (has-assign h h m' s) (ground arith) in
    let (e, found, here) =
      prev-some 0 k h (assign h m' s) (assign-IsSortedFrom 0 h m' s (omega arith) sorted) there
        above in
    let same : e.0 ≡ h =
      ground (arith, rw (has-assign h e.0 m' s) at here.0, here.3 h there above, v.keys e.0, le) in
    let value = some-injective e.1 m' (sym here.1 ∙ rw same (find-assign_same h m' s)) in
    rw (basis-has k h (assign h m' s) there) (unfold live in (rw (live, found) (ap some value)))

pub assign-IsSeen :
    (b h : ℕ) (m m' : MemoryMap) (s : Snapshots)
    → IsSorted s
    → b ≤ h
    → IsSeen b s m
    → IsSeen (suc h) (assign h m' s) m'
assign-IsSeen b h m m' s sorted le v = record {
  keys = λ j there. ground (arith, rw (has-assign h j m' s) at there, v.keys j, le);
  seen = λ k above. assign-seen b h k m m' s sorted le v (omega arith);
}

pub live-basis : (k : ℕ) (s : Snapshots) (m : MemoryMap) → live k s ≡ some m → basis k s ≡ some m
unfolding basis live prev prev_from
live-basis k [] m e = cc
live-basis k (x ∷ s) m e = e
