-- ===== src/Common/Map/Change.antt =====
-- How the entry that `prev` finds moves when the map is written to.
use ten_prof.Prelude.{
  ℕ, suc, ◌≤◌, ◌<◌, ◌≡◌, refl, true, Option, none, some, [], ◌∷◌, ltb, ◌==◌, inl, inr,
  if◌then◌else◌, arith, Bool-cases,
}
use ten_prof.Common.Map.Laws.{erase_below}
use ten_prof.Common.Map.{Key, Map, has, assign, erase, prev, prev_from, IsSortedFrom}
use ten_prof.Common.Map.Prev.{has_tail, le_of_has}

module _ {ℓ κ} {K : Type ℓ} {V : Type κ} ⦃key : Key K⦄ where
  -- A map with a key that is not above `k` has an entry for `k`, whatever stood before it.
  prev_from_ignores :
      (lo : ℕ) (a b : Option (K × V)) (k j : K) (m : Map K V)
      → IsSortedFrom lo m
      → has j m ≡ true
      → key.rank j ≤ key.rank k
      → prev_from a k m ≡ prev_from b k m
  unfolding prev_from has
  prev_from_ignores lo a b k j [] s h le = cc
  prev_from_ignores lo a b k j ((i, w) ∷ m) s h le =
      ground (arith, le_of_has (suc (key.rank i)) j m)

  prev_from-erase :
      (lo : ℕ) (a : Option (K × V)) (k j h : K) (m : Map K V)
      → IsSortedFrom lo m
      → has j m ≡ true
      → key.rank j ≤ key.rank h
      → key.rank k < key.rank j
      → prev_from a h (erase k m) ≡ prev_from a h m
  unfolding prev_from has erase
  prev_from-erase lo a k j h [] s t le lt = refl
  prev_from-erase lo a k j h ((i, w) ∷ m) s t le lt = elim (Bool-cases (key.rank k == key.rank i)) [
    | inl same ↦
        rw (same, erase)
          (ground (
            arith,
            prev_from_ignores (suc (key.rank i)) a (some (i, w)) h j m,
            has_tail i w j m t (ground arith),
          ))
    | inr other ↦ elim (Bool-cases (key.rank j == key.rank i)) [
      | inl same ↦
          let below : key.rank k < suc (key.rank i) = ground arith in
          rw (other, erase) (rw (erase_below (suc (key.rank i)) k m s.1 below))
      | inr ne ↦
          rw (other, erase)
            (ground (
              arith,
              prev_from-erase (suc (key.rank i)) (some (i, w)) k j h m,
              has_tail i w j m t ne,
            ))
    ]
  ]

  -- An erased key that lies below another one is not missed from there on.
  pub prev-erase :
      (lo : ℕ) (k j h : K) (m : Map K V)
      → IsSortedFrom lo m
      → has j m ≡ true
      → key.rank j ≤ key.rank h
      → key.rank k < key.rank j
      → prev h (erase k m) ≡ prev h m
  unfolding prev
  prev-erase lo k j h m = prev_from-erase lo none k j h m

  prev_from-assign_below :
      (a : Option (K × V)) (k h : K) (v : V) (m : Map K V)
      → key.rank h < key.rank k
      → prev_from a h (assign k v m) ≡ prev_from a h m
  unfolding prev_from assign
  prev_from-assign_below a k h v [] lt = ground arith
  prev_from-assign_below a k h v ((i, w) ∷ m) lt =
      ground (arith, prev_from-assign_below (some (i, w)) k h v m)

  -- What is written at a key is not seen from below it.
  pub prev-assign_below :
      (k h : K) (v : V) (m : Map K V) → key.rank h < key.rank k → prev h (assign k v m) ≡ prev h m
  unfolding prev
  prev-assign_below k h v m = prev_from-assign_below none k h v m

  prev_from_above :
      (lo : ℕ) (a : Option (K × V)) (h : K) (m : Map K V)
      → IsSortedFrom lo m
      → key.rank h < lo
      → prev_from a h m ≡ a
  unfolding prev_from
  prev_from_above lo a h [] s lt = refl
  prev_from_above lo a h ((i, w) ∷ m) s lt = ground arith

  prev_from-assign :
      (lo : ℕ) (a : Option (K × V)) (k : K) (v : V) (m : Map K V)
      → IsSortedFrom lo m
      → (e : K × V) × (prev_from a k (assign k v m) ≡ some e)
        × (key.rank e.0 ≡ key.rank k)
        × (e.1 ≡ v)
  unfolding prev_from assign
  prev_from-assign lo a k v [] s = ((k, v), ground arith, refl, refl)
  prev_from-assign lo a k v ((i, w) ∷ m) s =
      let ih = prev_from-assign (suc (key.rank i)) (some (i, w)) k v m s.1 in
      let e : K × V =
        if key.rank k == key.rank i
        then (i, v)
        else if ltb (key.rank k) (key.rank i)
        then (k, v)
        else ih.0 in
      (
        e,
        ground (arith, ih.1, prev_from_above (suc (key.rank i)) (some (i, v)) k m),
        ground (arith, ih.2),
        ground (arith, ih.3),
      )

  -- What is written at a key is what is seen from it.
  pub prev-assign :
      (lo : ℕ) (k : K) (v : V) (m : Map K V)
      → IsSortedFrom lo m
      → (e : K × V) × (prev k (assign k v m) ≡ some e) × (key.rank e.0 ≡ key.rank k) × (e.1 ≡ v)
  unfolding prev
  prev-assign lo k v m = prev_from-assign lo none k v m
