-- ===== src/Redundancy/Repeats.antt =====
-- The pairs of redshow/src/analysis/temporal_redundancy.cpp against the repeated values of the accesses.
use ten_prof.Prelude.{
  ℕ, ◌+◌, ◌%◌, u64_mod, ◌≡◌, refl, sym, Bool, true, false, Option, none, some, ◌==◌, if◌then◌else◌,
  Bool-cases, Option-cases, inl, inr, to_eq,
}
use ten_prof.Common.Map.{Key, Map, find, assign, u64_key}
use ten_prof.Common.Map.Laws.{find-assign}
use ten_prof.Redshow.Access.{AccessKind, Access, bit}
use ten_prof.Redundancy.{
  read_bit, write_bit, thread_key, value_key, TemporalTrace, PcPairs, RedundancyTrace, count_at,
  bump, map_at, count_pair, update_temporal_trace, unit_addr, read_access, write_access,
  temporal_access,
}
use ten_prof.Redundancy.Recent.{entry_of, entry, find_same}

-- How often a value was found again by one PC after another.
unfoldable pub pairs_at : ℕ → ℕ → ℕ × AccessKind → PcPairs → ℕ
unfolding count_at map_at
pairs_at pc prev_pc v pairs = count_at v (map_at prev_pc (map_at pc pairs))

count_at-bump {κ} :
    {K : Type κ} ⦃key : Key K⦄ (k j : K) (m : Map K ℕ)
    → count_at k (bump j m)
      ≡ (if key.rank k == key.rank j then (count_at k m + 1) % u64_mod else count_at k m)
unfolding bump count_at
count_at-bump ⦃key = key⦄ k j m = elim (Bool-cases (key.rank k == key.rank j)) [
  | inl same ↦ rw (find-assign j k _ m, same, count_at) (rw (find_same k j m same, count_at) refl)
  | inr other ↦ rw (find-assign j k _ m, other, count_at) refl
]

pub map_at-assign {κ ℓ} :
    {J : Type κ} {V : Type ℓ} (k j : ℕ) (w : Map J V) (m : Map ℕ (Map J V))
    → map_at k (assign j w m) ≡ (if k == j then w else map_at k m)
unfolding map_at
map_at-assign k j w m = elim (Bool-cases (k == j)) [
  | inl same ↦ rw (find-assign j k w m, same, map_at) refl
  | inr other ↦ rw (find-assign j k w m, other, map_at) refl
]

unfoldable pub is_pair : ℕ → ℕ → ℕ × AccessKind → ℕ → ℕ → ℕ × AccessKind → Bool
is_pair pc prev_pc v pc' prev_pc' v' =
    if pc == pc'
    then (if prev_pc == prev_pc' then value_key.rank v == value_key.rank v' else false)
    else false

pairs_at-count_pair :
    (pc prev_pc : ℕ) (v : ℕ × AccessKind) (pc' prev_pc' : ℕ) (v' : ℕ × AccessKind) (pairs : PcPairs)
    → pairs_at pc prev_pc v (count_pair pc' prev_pc' v' pairs) ≡ (
        if is_pair pc prev_pc v pc' prev_pc' v'
        then (pairs_at pc prev_pc v pairs + 1) % u64_mod
        else pairs_at pc prev_pc v pairs)
unfolding pairs_at count_pair is_pair
pairs_at-count_pair pc prev_pc v pc' prev_pc' v' pairs = elim (Bool-cases (pc == pc')) [
  | inl one ↦ elim (Bool-cases (prev_pc == prev_pc')) [
    | inl two ↦
        let bumped = count_at-bump v v' (map_at prev_pc (map_at pc pairs)) in
        rw (map_at-assign pc pc' _ pairs, one)
          (rw
            (
              map_at-assign prev_pc prev_pc' _ (map_at pc' pairs),
              two,
              sym (to_eq pc pc' one),
              sym (to_eq prev_pc prev_pc' two),
            )
            bumped)
    | inr two ↦
        rw (map_at-assign pc pc' _ pairs, one)
          (rw (map_at-assign prev_pc prev_pc' _ (map_at pc' pairs), two, to_eq pc pc' one) refl)
  ]
  | inr one ↦ rw (map_at-assign pc pc' _ pairs, one) refl
]

-- One access under the flag of a trace repeats the value that the thread had there.
unfoldable pub is_repeat : ℕ → ℕ → ℕ → ℕ × AccessKind → Access → Option (ℕ × ℕ) → Bool
unfolding bit is_pair
is_repeat i pc prev_pc v x none = false
is_repeat i pc prev_pc v x (some (p, w)) =
    if bit x.flags i
    then (if w == x.value then is_pair pc prev_pc v x.pc p (w, x.access_kind) else false)
    else false

pairs_at-update_temporal_trace :
    (i pc prev_pc : ℕ) (v : ℕ × AccessKind) (x : Access) (trace : TemporalTrace) (pairs : PcPairs)
    → bit x.flags i ≡ true
    → pairs_at pc prev_pc v
        (update_temporal_trace x.pc x.thread_id (unit_addr x) x.value x.access_kind trace pairs).1
      ≡ (if is_repeat i pc prev_pc v x (entry x.thread_id (unit_addr x) trace)
          then (pairs_at pc prev_pc v pairs + 1) % u64_mod
          else pairs_at pc prev_pc v pairs)
unfolding update_temporal_trace is_repeat entry entry_of
pairs_at-update_temporal_trace i pc prev_pc v x trace pairs on =
    elim (Option-cases (find x.thread_id trace)) [
      | inl new ↦ rw (new, update_temporal_trace) refl
      | inr (seen, old) ↦ elim (Option-cases (find (unit_addr x) seen)) [
        | inl missing ↦ rw (old, missing, update_temporal_trace) refl
        | inr ((p, w), there) ↦ elim (Bool-cases (w == x.value)) [
          | inl again ↦
              rw (old, there, again, on, update_temporal_trace)
                (pairs_at-count_pair pc prev_pc v x.pc p (w, x.access_kind) pairs)
          | inr changed ↦ rw (old, there, changed, on, update_temporal_trace) refl
        ]
      ]
    ]

pub pairs-either :
    (i pc prev_pc : ℕ) (v : ℕ × AccessKind) (x : Access) (trace : TemporalTrace) (pairs : PcPairs)
    → pairs_at pc prev_pc v (
        if bit x.flags i
        then (update_temporal_trace x.pc x.thread_id
            (unit_addr x)
            x.value
            x.access_kind
            trace
            pairs).1
        else pairs)
      ≡ (if is_repeat i pc prev_pc v x (entry x.thread_id (unit_addr x) trace)
          then (pairs_at pc prev_pc v pairs + 1) % u64_mod
          else pairs_at pc prev_pc v pairs)
unfolding is_repeat
pairs-either i pc prev_pc v x trace pairs = elim (Bool-cases (bit x.flags i)) [
  | inl on ↦ rw on (pairs_at-update_temporal_trace i pc prev_pc v x trace pairs on)
  | inr off ↦ elim (Option-cases (entry x.thread_id (unit_addr x) trace)) [
    | inl new ↦ rw (new, off) refl
    | inr (last, old) ↦ rw (old, off) refl
  ]
]

pub read_pairs-temporal_access :
    (x : Access) (trace : RedundancyTrace)
    → (temporal_access x trace).read_pc_pairs ≡ (
        if bit x.flags read_bit
        then (update_temporal_trace x.pc x.thread_id
            (unit_addr x)
            x.value
            x.access_kind
            trace.read_temporal_trace
            trace.read_pc_pairs).1
        else trace.read_pc_pairs)
unfolding temporal_access read_access write_access
read_pairs-temporal_access x trace = elim (Bool-cases (bit x.flags read_bit)) [
  | inl r ↦ elim (Bool-cases (bit x.flags write_bit)) [
    | inl w ↦ rw (r, w) refl
    | inr w ↦ rw (r, w) refl
  ]
  | inr r ↦ elim (Bool-cases (bit x.flags write_bit)) [
    | inl w ↦ rw (r, w) refl
    | inr w ↦ rw (r, w) refl
  ]
]

pub write_pairs-temporal_access :
    (x : Access) (trace : RedundancyTrace)
    → (temporal_access x trace).write_pc_pairs ≡ (
        if bit x.flags write_bit
        then (update_temporal_trace x.pc x.thread_id
            (unit_addr x)
            x.value
            x.access_kind
            trace.write_temporal_trace
            trace.write_pc_pairs).1
        else trace.write_pc_pairs)
unfolding temporal_access read_access write_access
write_pairs-temporal_access x trace = elim (Bool-cases (bit x.flags read_bit)) [
  | inl r ↦ elim (Bool-cases (bit x.flags write_bit)) [
    | inl w ↦ rw (r, w) refl
    | inr w ↦ rw (r, w) refl
  ]
  | inr r ↦ elim (Bool-cases (bit x.flags write_bit)) [
    | inl w ↦ rw (r, w) refl
    | inr w ↦ rw (r, w) refl
  ]
]
