-- ===== src/Redshow/Registry/Collect/Kept.antt =====
-- What `redshow_analysis_end` keeps: every snapshot that a later analysis can ask for.
use ten_prof.Prelude.{
  ℕ, ◌≤◌, ◌<◌, ◌≡◌, refl, ◌∙◌, true, false, none, if◌then◌else◌, not, ◌&&◌, ◌||◌, ◌⊎◌, inl, inr,
  List, [], ◌∷◌, ◌++◌, ltb, ◌==◌, max, All, contains, contains-append, arith, Bool-cases, ltb→lt,
  subst,
}
use ten_prof.Common.Map.{find, has, erase, prev, IsSorted, u64_key}
use ten_prof.Common.Map.Laws.{
  find-erase, has-find, has-erase, erase-IsSortedFrom, has_head, has-cons,
}
use ten_prof.Common.Map.Change.{prev-erase}
use ten_prof.Redshow.Registry.{Snapshots, Registry}
use ten_prof.Redshow.Registry.Query.{memory_query}
use ten_prof.Redshow.Registry.Collect.{old_ids, erase_old, collect, analysis_end}

All-le-snoc :
    (a b i : ℕ) (ids : List ℕ)
    → All (λ x. x ≤ a) ids
    → a ≤ b
    → i ≤ b
    → All (λ x. x ≤ b) (ids ++ i ∷ [])
All-le-snoc a b i [] h le le' = ground arith
All-le-snoc a b i (x ∷ ids) h le le' = (ground arith, All-le-snoc a b i ids h.1 le le')

has-max : (a b : ℕ) (m : Snapshots) → has a m ≡ true → has b m ≡ true → has (max a b) m ≡ true
has-max a b m h k = elim (Bool-cases (ltb a b)) [
  | inl lt ↦ subst (λ n. has n m ≡ true) (let e : b ≡ max a b = omega (arith, ltb→lt a b lt) in e) k
  | inr ge ↦ subst (λ n. has n m ≡ true) (let e : a ≡ max a b = ground arith in e) h
]

-- What the first loop has found so far in the map `whole`: no id, or ids up to one that is there.
abbrev Found : ℕ → Snapshots → List ℕ → ℕ → Type 0
Found mini whole ids greatest =
    ((ids ≡ []) × (greatest ≡ 0))
    ⊎ ((has greatest whole ≡ true) × (greatest < mini) × All (λ x. x ≤ greatest) ids)

Found-step :
    (mini : ℕ) (whole : Snapshots) (ids : List ℕ) (greatest id : ℕ)
    → has id whole ≡ true
    → id < mini
    → Found mini whole ids greatest
    → Found mini whole (ids ++ id ∷ []) (max id greatest)
Found-step mini whole ids greatest id h lt (inl (e, z)) =
    let same : id ≡ max id greatest = omega arith in rw (e, ← same) (inr (h, lt, omega arith))
Found-step mini whole ids greatest id h lt (inr f) = inr (
  has-max id greatest whole h f.0,
  omega (arith, f.1),
  All-le-snoc greatest (max id greatest) id ids f.2 (omega arith) (omega arith),
)

old_ids-Found :
    (mini : ℕ) (whole m : Snapshots) (ids : List ℕ) (greatest : ℕ)
    → ((j : ℕ) → has j m ≡ true → has j whole ≡ true)
    → Found mini whole ids greatest
    → Found mini whole (old_ids mini m ids greatest).0 (old_ids mini m ids greatest).1
unfolding old_ids
old_ids-Found mini whole [] ids greatest sub f = f
old_ids-Found mini whole ((id, w) ∷ m) ids greatest sub f =
    let sub' : (j : ℕ) → has j m ≡ true → has j whole ≡ true = λ j h. sub j (has-cons j id w m h) in
    elim (Bool-cases (ltb id mini)) [
      | inl old ↦
          rw (old, old_ids)
            (old_ids-Found mini whole m _ _ sub'
              (Found-step mini whole ids greatest id (sub id (has_head id w m)) (ltb→lt _ _ old) f))
      | inr new ↦ rw (new, old_ids) (old_ids-Found mini whole m ids greatest sub' f)
    ]

prev-erase_old :
    (ids : List ℕ) (greatest h : ℕ) (m : Snapshots)
    → IsSorted m
    → has greatest m ≡ true
    → greatest ≤ h
    → All (λ x. x ≤ greatest) ids
    → prev h (erase_old ids greatest m) ≡ prev h m
unfolding erase_old
prev-erase_old [] greatest h m s t le small = refl
prev-erase_old (id ∷ ids) greatest h m s t le small = elim (Bool-cases (id == greatest)) [
  | inl same ↦ rw (same, erase_old) (prev-erase_old ids greatest h m s t le small.1)
  | inr other ↦
      rw (other, erase_old)
        (prev-erase_old ids greatest h (erase id m) (erase-IsSortedFrom 0 id m s)
            (ground (arith, has-erase 0 id greatest m s)) le small.1
          ∙ prev-erase 0 id greatest h m s t le (ground arith))
]

-- Collecting below `mini` changes nothing that is read at `mini` or later.
pub prev-collect :
    (mini h : ℕ) (m : Snapshots) → IsSorted m → mini ≤ h → prev h (collect mini m) ≡ prev h m
unfolding collect
prev-collect mini h m s le = elim (old_ids-Found mini m m [] 0 (λ j t. t) (inl (refl, refl))) [
  | inl (none_found, zero_found) ↦ rw none_found (unfold erase_old in refl)
  | inr f ↦ prev-erase_old _ _ h m s f.0 (omega (arith, f.1)) f.2
]

contains-old_ids :
    (mini i : ℕ) (m : Snapshots) (ids : List ℕ) (greatest : ℕ)
    → contains i (old_ids mini m ids greatest).0 ≡ contains i ids || (has i m && ltb i mini)
unfolding old_ids has
contains-old_ids mini i [] ids greatest = ground arith
contains-old_ids mini i ((id, w) ∷ m) ids greatest = elim (Bool-cases (ltb id mini)) [
  | inl old ↦
      rw (old, old_ids)
        (ground (
          arith,
          contains-old_ids mini i m (ids ++ id ∷ []) (max id greatest),
          contains-append i ids (id ∷ []),
        ))
  | inr new ↦ rw (new, old_ids) (ground (arith, contains-old_ids mini i m ids greatest))
]

find-erase_old :
    (i : ℕ) (ids : List ℕ) (greatest : ℕ) (m : Snapshots)
    → IsSorted m
    → find i (erase_old ids greatest m)
      ≡ (if (i == greatest) || not (contains i ids) then find i m else none)
unfolding erase_old
find-erase_old i [] greatest m s = ground arith
find-erase_old i (id ∷ ids) greatest m s = elim (Bool-cases (id == greatest)) [
  | inl same ↦ rw (same, erase_old) (ground (arith, find-erase_old i ids greatest m s))
  | inr other ↦
      rw (other, erase_old)
        (ground (
          arith,
          find-erase_old i ids greatest (erase id m) (erase-IsSortedFrom 0 id m s),
          find-erase 0 id i m s,
        ))
]

find-collect :
    (mini i : ℕ) (m : Snapshots)
    → IsSorted m
    → find i (collect mini m)
      ≡ (if (i == (old_ids mini m [] 0).1) || not (has i m && ltb i mini) then find i m else none)
unfolding collect
find-collect mini i m s = ground (
  arith,
  find-erase_old i (old_ids mini m [] 0).0 (old_ids mini m [] 0).1 m s,
  contains-old_ids mini i m [] 0,
)

-- The id is one below `mini` that the map has.
abbrev pub IsOld : ℕ → Snapshots → ℕ → Type 0
IsOld mini m i = (has i m ≡ true) × (i < mini)

All-contains :
    (i greatest : ℕ) (ids : List ℕ)
    → All (λ x. x ≤ greatest) ids
    → contains i ids ≡ true
    → i ≤ greatest
All-contains i greatest [] small h = cc
All-contains i greatest (x ∷ ids) small h = ground (arith, All-contains i greatest ids small.1)

-- The first loop returns the greatest of the old ids, if there is one.
greatest-IsOld :
    (mini i : ℕ) (m : Snapshots)
    → IsOld mini m i
    → IsOld mini m (old_ids mini m [] 0).1 × (i ≤ (old_ids mini m [] 0).1)
greatest-IsOld mini i m old =
    let there : contains i (old_ids mini m [] 0).0 ≡ true =
      ground (arith, contains-old_ids mini i m [] 0, old.0, old.1) in
    elim (old_ids-Found mini m m [] 0 (λ j t. t) (inl (refl, refl))) [
      | inl (no_ids, zero_id) ↦ (let e' : false ≡ true = rw no_ids at there in cc)
      | inr (has_it, below, small) ↦
          ((has_it, below), All-contains i _ (old_ids mini m [] 0).0 small there)
    ]

-- If the ids of the snapshots rise, collecting below an id keeps the snapshot of each id from that
-- id on, and that of the greatest id below it, as they were, and leaves none of an id below that
-- greatest one.
pub collect_lem :
    (mini i : ℕ) (m : Snapshots)
    → IsSorted m
    → (mini ≤ i → find i (collect mini m) ≡ find i m)
      × (IsOld mini m i → ((j : ℕ) → IsOld mini m j → j ≤ i) → find i (collect mini m) ≡ find i m)
      × ((j : ℕ) → i < j → IsOld mini m j → find i (collect mini m) ≡ none)
collect_lem mini i m s = (
  λ le. ground (arith, find-collect mini i m s),
  λ old last.
      let (is_old, le) = greatest-IsOld mini i m old in
      let ge = last (old_ids mini m [] 0).1 is_old in
      ground (arith, find-collect mini i m s, le, ge),
  λ j lt old.
      let (is_old, le) = greatest-IsOld mini j m old in
      elim (Bool-cases (has i m)) [
        | inl there ↦ ground (arith, find-collect mini i m s, le, lt, old.1, there)
        | inr missing ↦ ground (arith, find-collect mini i m s, has-find i m missing, missing)
      ],
)

-- The end of an analysis changes the answer to no query by an operation from mini_host_op_id on,
-- if the ids of the snapshots rise.
pub memory_query-analysis_end :
    (r : Registry) (host_op_id start : ℕ)
    → IsSorted r.memory_snapshot
    → r.mini_host_op_id ≤ host_op_id
    → memory_query host_op_id start (analysis_end r).1 ≡ memory_query host_op_id start r
unfolding memory_query analysis_end
memory_query-analysis_end r host_op_id start s le =
    ground (arith, prev-collect r.mini_host_op_id host_op_id r.memory_snapshot s le)
