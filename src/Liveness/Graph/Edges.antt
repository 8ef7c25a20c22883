-- ===== src/Liveness/Graph/Edges.antt =====
-- The edge sets of the dependency graph: what `link`, `unlink` and erasing a node leave of them.
use ten_prof.Prelude.{
  ℕ, suc, ◌≤◌, ◌≡◌, refl, true, false, [], ◌∷◌, ◌==◌, if◌then◌else◌, arith, Bool-cases, inl, inr,
  All, All-mono, to_eq, contains,
}
use ten_prof.Common.Map.{
  Map, find, has, assign, erase, try_emplace, IsSorted, IsSortedFrom, u64_key,
}
use ten_prof.Common.Map.Laws.{find-assign, find-erase, erase-IsSortedFrom}
use ten_prof.Common.Map.Entries.{All-erase}
use ten_prof.Liveness.{
  EdgeIndex, EdgeType, stream_dependency, data_dependency, EdgeSet, edge_key, edge_number,
}
use ten_prof.Liveness.Graph.{edges_at, link, unlink, sources}

pub edges_at-assign :
    (j k : ℕ) (s : EdgeSet) (m : Map ℕ EdgeSet)
    → edges_at j (assign k s m) ≡ (if j == k then s else edges_at j m)
unfolding edges_at
edges_at-assign j k s m =
    rw (edges_at, find-assign k j s m)
      (elim (Bool-cases (j == k)) [
        | inl same ↦ rw same refl
        | inr other ↦ rw (other, edges_at) refl
      ])

pub edges_at-erase :
    (j k : ℕ) (m : Map ℕ EdgeSet)
    → IsSorted m
    → edges_at j (erase k m) ≡ (if j == k then [] else edges_at j m)
unfolding edges_at
edges_at-erase j k m sorted =
    rw (edges_at, find-erase 0 k j m sorted)
      (elim (Bool-cases (j == k)) [
        | inl same ↦ rw same refl
        | inr other ↦ rw (other, edges_at) refl
      ])

pub edges_at-unlink :
    (j k : ℕ) (e : EdgeIndex) (m : Map ℕ EdgeSet)
    → edges_at j (unlink k e m) ≡ (if j == k then erase e (edges_at j m) else edges_at j m)
unfolding unlink
edges_at-unlink j k e m =
    rw (unlink, edges_at-assign j k (erase e (edges_at k m)) m)
      (elim (Bool-cases (j == k)) [
        | inl same ↦ rw (same, to_eq j k same) refl
        | inr other ↦ rw other refl
      ])

pub edges_at-link :
    (j k : ℕ) (e : EdgeIndex) (m : Map ℕ EdgeSet)
    → edges_at j (link k e m) ≡ (if j == k then try_emplace e tt (edges_at j m) else edges_at j m)
unfolding link
edges_at-link j k e m =
    rw (link, edges_at-assign j k (try_emplace e tt (edges_at k m)) m)
      (elim (Bool-cases (j == k)) [
        | inl same ↦ rw (same, to_eq j k same) refl
        | inr other ↦ rw other refl
      ])

-- What holds of all edges of a set holds after an edge is taken out.
pub All-unlink {ℓ} :
    (P : EdgeIndex × Unit {0} → Type ℓ) (j k : ℕ) (e : EdgeIndex) (m : Map ℕ EdgeSet)
    → All P (edges_at j m)
    → All P (edges_at j (unlink k e m))
All-unlink P j k e m h = rw (edges_at-unlink j k e m) (elim (Bool-cases (j == k)) [
  | inl same ↦ rw same (All-erase P e (edges_at j m) h)
  | inr other ↦ rw other h
])

pub edges_at-IsSorted-unlink :
    (j k : ℕ) (e : EdgeIndex) (m : Map ℕ EdgeSet)
    → IsSorted (edges_at j m)
    → IsSorted (edges_at j (unlink k e m))
edges_at-IsSorted-unlink j k e m h = rw (edges_at-unlink j k e m) (elim (Bool-cases (j == k)) [
  | inl same ↦ rw same (erase-IsSortedFrom 0 e (edges_at j m) h)
  | inr other ↦ rw other h
])

pub unlink_empty :
    (j k : ℕ) (e : EdgeIndex) (m : Map ℕ EdgeSet)
    → edges_at j m ≡ []
    → edges_at j (unlink k e m) ≡ []
unlink_empty j k e m h =
    rw (edges_at-unlink j k e m, h)
      (elim (Bool-cases (j == k)) [
        | inl same ↦ rw same (unfold erase in refl)
        | inr other ↦ rw other refl
      ])

-- Of two edges with the same end, the one with the other's rank has its origin.
number_le : (t : EdgeType) → edge_number t ≤ 1
number_le stream_dependency = omega arith
number_le data_dependency = omega arith

pub from_of_rank :
    (e f : EdgeIndex) → e.to ≡ f.to → edge_key.rank e ≡ edge_key.rank f → e.from ≡ f.from
from_of_rank e f same rank = omega (arith, same, rank, number_le e.edge_type, number_le f.edge_type)

pub to_of_rank :
    (e f : EdgeIndex) → e.from ≡ f.from → edge_key.rank e ≡ edge_key.rank f → e.to ≡ f.to
to_of_rank e f same rank = omega (arith, same, rank, number_le e.edge_type, number_le f.edge_type)

edges_at-cons :
    (j k : ℕ) (s : EdgeSet) (m : Map ℕ EdgeSet)
    → edges_at j ((k, s) ∷ m) ≡ (if j == k then s else edges_at j m)
unfolding edges_at find
edges_at-cons j k s m = elim (Bool-cases (j == k)) [
  | inl same ↦ rw (edges_at, same) refl
  | inr other ↦ rw (edges_at, other) refl
]

-- The nodes that `get_no_inedge_nodes` returns have no incoming edges, and each such node is returned.
abbrev IsSource : ℕ → Map ℕ EdgeSet → ℕ → Type 0
IsSource lo m k = (lo ≤ k) × (edges_at k m ≡ [])

pub eq_same : (k : ℕ) → (k == k) ≡ true
eq_same k = ground arith

eq_false' : (j k : ℕ) → suc k ≤ j → (j == k) ≡ false
eq_false' j k h = ground arith

IsSource-cons :
    (lo k : ℕ) (s : EdgeSet) (m : Map ℕ EdgeSet)
    → lo ≤ k
    → All (IsSource (suc k) m) (sources m)
    → All (IsSource lo ((k, s) ∷ m)) (sources m)
IsSource-cons lo k s m le =
    All-mono _ _ (sources m)
      (λ j h. (omega (arith, h.0), rw (edges_at-cons j k s m, eq_false' j k h.0) h.1))

sources-IsSource :
    (lo : ℕ) (m : Map ℕ EdgeSet) → IsSortedFrom lo m → All (IsSource lo m) (sources m)
unfolding sources
sources-IsSource lo [] s = tt
sources-IsSource lo ((k, []) ∷ m) s = (
  (s.0, rw (edges_at-cons k k [] m, eq_same k) refl),
  IsSource-cons lo k [] m s.0 (sources-IsSource (suc k) m s.1),
)
sources-IsSource lo ((k, e ∷ es) ∷ m) s =
    IsSource-cons lo k (e ∷ es) m s.0 (sources-IsSource (suc k) m s.1)

pub sources_lem : (m : Map ℕ EdgeSet) → IsSorted m → All (λ k. edges_at k m ≡ []) (sources m)
sources_lem m s = All-mono _ _ (sources m) (λ j h. h.1) (sources-IsSource 0 m s)

pub contains-sources :
    (k : ℕ) (m : Map ℕ EdgeSet) → has k m ≡ true → edges_at k m ≡ [] → contains k (sources m) ≡ true
unfolding sources has
contains-sources k [] h e = cc
contains-sources k ((j, []) ∷ m) h e = elim (Bool-cases (k == j)) [
  | inl same ↦ ground arith
  | inr other ↦
      let ih =
        contains-sources k m (rw (other, has) at h) (rw (edges_at-cons k j [] m, other) at e) in
      ground arith
]
contains-sources k ((j, f ∷ fs) ∷ m) h e = elim (Bool-cases (k == j)) [
  | inl same ↦ cc (rw (edges_at-cons k j (f ∷ fs) m, same) at e)
  | inr other ↦
      contains-sources k m (rw (other, has) at h) (rw (edges_at-cons k j (f ∷ fs) m, other) at e)
]
