-- ===== src/Common/Map/Fresh.antt =====
-- What `prev` finds behind a new key, and that it reads a key by its rank alone.
use native.Mathlib.Nat.{le_refl}
use ten_prof.Prelude.{
  ℕ, suc, ◌≡◌, refl, true, false, Option, none, some, [], ◌∷◌, ltb, ◌==◌, inl, inr, arith,
  Bool-cases, ltb→lt, eq_false, ltb-false,
}
use ten_prof.Common.Map.{Key, Map, has, assign, prev, prev_from, IsSortedFrom, IsSorted}
use ten_prof.Common.Map.Prev.{prev_from_skip}

module _ {ℓ κ} {K : Type ℓ} {V : Type κ} ⦃key : Key K⦄ where
  has_same :
      (k i : K) (w : V) (m : Map K V)
      → (key.rank k == key.rank i) ≡ true
      → has k ((i, w) ∷ m) ≡ true
  unfolding has
  has_same k i w m same = rw same

  has_past :
      (k i : K) (w : V) (m : Map K V)
      → (key.rank k == key.rank i) ≡ false
      → has k ((i, w) ∷ m) ≡ false
      → has k m ≡ false
  unfolding has
  has_past k i w m ne h = rw (ne, has) at h

  assign_before :
      (k i : K) (v w : V) (m : Map K V)
      → ltb (key.rank k) (key.rank i) ≡ true
      → assign k v ((i, w) ∷ m) ≡ (k, v) ∷ (i, w) ∷ m
  unfolding assign
  assign_before k i v w m lt = rw (eq_false _ _ (ltb→lt _ _ lt)) (rw lt)

  assign_past :
      (k i : K) (v w : V) (m : Map K V)
      → (key.rank k == key.rank i) ≡ false
      → ltb (key.rank k) (key.rank i) ≡ false
      → assign k v ((i, w) ∷ m) ≡ (i, w) ∷ assign k v m
  unfolding assign
  assign_past k i v w m ne gt = rw ne (rw gt)

  prev_from-assign_new :
      (lo : ℕ) (a : Option (K × V)) (k : K) (v : V) (m : Map K V)
      → IsSortedFrom lo m
      → has k m ≡ false
      → prev_from a k (assign k v m) ≡ some (k, v)
  unfolding prev_from
  prev_from-assign_new lo a k v [] s h = unfold assign in rw (ltb-false _ _ (le_refl (key.rank k)))
  prev_from-assign_new lo a k v ((i, w) ∷ m) s h =
      elim (Bool-cases (ltb (key.rank k) (key.rank i))) [
        | inl lt ↦
            rw
              (
                assign_before k i v w m lt,
                prev_from_skip a k k v ((i, w) ∷ m) (le_refl (key.rank k)),
              )
              (rw (lt, prev_from))
        | inr gt ↦ elim (Bool-cases (key.rank k == key.rank i)) [
          | inl same ↦ cc (has_same k i w m same)
          | inr ne ↦
              rw (assign_past k i v w m ne gt, prev_from_skip a k i w (assign k v m) (ground arith))
                (prev_from-assign_new (suc (key.rank i)) (some (i, w)) k v m s.1
                  (has_past k i w m ne h))
        ]
      ]

  -- A key that is written for the first time is found with its value.
  pub prev-assign_new :
      (k : K) (v : V) (m : Map K V)
      → IsSorted m
      → has k m ≡ false
      → prev k (assign k v m) ≡ some (k, v)
  unfolding prev
  prev-assign_new k v m s h = prev_from-assign_new 0 none k v m s h

  prev_from_congr :
      (a : Option (K × V)) (k j : K) (m : Map K V)
      → key.rank k ≡ key.rank j
      → prev_from a j m ≡ prev_from a k m
  unfolding prev_from
  prev_from_congr a k j [] e = refl
  prev_from_congr a k j ((i, w) ∷ m) e = rw (e, prev_from_congr (some (i, w)) k j m e)

  -- `prev` goes by the rank of the key.
  pub prev_congr : (k j : K) (m : Map K V) → key.rank k ≡ key.rank j → prev j m ≡ prev k m
  unfolding prev
  prev_congr k j m e = prev_from_congr none k j m e
