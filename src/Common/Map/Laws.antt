-- ===== src/Common/Map/Laws.antt =====
-- The laws of `Map`: reading after writing, order, and what `prev` finds.
use ten_prof.Prelude.{
  ℕ, suc, ◌≤◌, ◌<◌, ◌≡◌, refl, true, false, none, some, [], ◌∷◌, ◌==◌, if◌then◌else◌, arith,
}
use ten_prof.Common.Map.{Key, Map, find, has, assign, erase, IsSortedFrom}

module _ {ℓ κ} {K : Type ℓ} {V : Type κ} ⦃key : Key K⦄ where
  pub find-assign :
      (k j : K) (v : V) (m : Map K V)
      → find j (assign k v m) ≡ (if key.rank j == key.rank k then some v else find j m)
  unfolding find assign
  find-assign k j v [] = refl
  find-assign k j v ((i, w) ∷ m) = ground (arith, find-assign k j v m)

  pub find-assign_same : (k : K) (v : V) (m : Map K V) → find k (assign k v m) ≡ some v
  find-assign_same k v m = ground (arith, find-assign k k v m)

  pub has-find : (k : K) (m : Map K V) → has k m ≡ false → find k m ≡ none
  unfolding find has
  has-find k [] h = refl
  has-find k ((i, w) ∷ m) h = ground (arith, has-find k m)

  pub find-has : (k : K) (m : Map K V) → find k m ≡ none → has k m ≡ false
  unfolding find has
  find-has k [] h = refl
  find-has k ((i, w) ∷ m) h = ground (arith, find-has k m)

  pub IsSortedFrom-weaken :
      (lo hi : ℕ) (m : Map K V) → lo ≤ hi → IsSortedFrom hi m → IsSortedFrom lo m
  IsSortedFrom-weaken lo hi [] h s = tt
  IsSortedFrom-weaken lo hi ((j, w) ∷ m) h s = ground arith

  pub assign-IsSortedFrom :
      (lo : ℕ) (k : K) (v : V) (m : Map K V)
      → lo ≤ key.rank k
      → IsSortedFrom lo m
      → IsSortedFrom lo (assign k v m)
  unfolding assign
  assign-IsSortedFrom lo k v [] h s = ground arith
  assign-IsSortedFrom lo k v ((j, w) ∷ m) h s =
      ground (arith, assign-IsSortedFrom (suc (key.rank j)) k v m)

  pub erase-IsSortedFrom :
      (lo : ℕ) (k : K) (m : Map K V) → IsSortedFrom lo m → IsSortedFrom lo (erase k m)
  unfolding erase
  erase-IsSortedFrom lo k [] s = tt
  erase-IsSortedFrom lo k ((j, w) ∷ m) s = ground (
    arith,
    erase-IsSortedFrom (suc (key.rank j)) k m,
    IsSortedFrom-weaken lo (suc (key.rank j)) m,
  )

  -- Below the first key nothing is found.
  pub find_below :
      (lo : ℕ) (k : K) (m : Map K V) → IsSortedFrom lo m → key.rank k < lo → find k m ≡ none
  unfolding find
  find_below lo k [] s h = refl
  find_below lo k ((j, w) ∷ m) s h = ground (arith, find_below (suc (key.rank j)) k m)

  pub find-erase :
      (lo : ℕ) (k j : K) (m : Map K V)
      → IsSortedFrom lo m
      → find j (erase k m) ≡ (if key.rank j == key.rank k then none else find j m)
  unfolding find erase
  find-erase lo k j [] s = ground arith
  find-erase lo k j ((i, w) ∷ m) s =
      ground (arith, find-erase (suc (key.rank i)) k j m, find_below (suc (key.rank i)) j m)

  -- Taking out what was put in gives the map back.
  pub erase-assign :
      (lo : ℕ) (k : K) (v : V) (m : Map K V)
      → IsSortedFrom lo m
      → find k m ≡ none
      → erase k (assign k v m) ≡ m
  unfolding find erase assign
  erase-assign lo k v [] s h = ground arith
  erase-assign lo k v ((i, w) ∷ m) s h = ground (arith, erase-assign (suc (key.rank i)) k v m)

  -- Below the first key there is nothing to erase.
  pub erase_below :
      (lo : ℕ) (k : K) (m : Map K V) → IsSortedFrom lo m → key.rank k < lo → erase k m ≡ m
  unfolding erase
  erase_below lo k [] s h = refl
  erase_below lo k ((j, w) ∷ m) s h = ground (arith, erase_below (suc (key.rank j)) k m)

  pub has_below :
      (lo : ℕ) (k : K) (m : Map K V) → IsSortedFrom lo m → key.rank k < lo → has k m ≡ false
  unfolding has
  has_below lo k [] s h = refl
  has_below lo k ((j, w) ∷ m) s h = ground (arith, has_below (suc (key.rank j)) k m)

  pub has-erase :
      (lo : ℕ) (k j : K) (m : Map K V)
      → IsSortedFrom lo m
      → has j (erase k m) ≡ (if key.rank j == key.rank k then false else has j m)
  unfolding has erase
  has-erase lo k j [] s = ground arith
  has-erase lo k j ((i, w) ∷ m) s =
      ground (arith, has-erase (suc (key.rank i)) k j m, has_below (suc (key.rank i)) j m)

  pub has-assign :
      (k j : K) (v : V) (m : Map K V)
      → has j (assign k v m) ≡ (if key.rank j == key.rank k then true else has j m)
  unfolding has assign
  has-assign k j v [] = refl
  has-assign k j v ((i, w) ∷ m) = ground (arith, has-assign k j v m)

  pub has_head : (k : K) (v : V) (m : Map K V) → has k ((k, v) ∷ m) ≡ true
  unfolding has
  has_head k v m = ground arith

  pub has-cons : (j k : K) (v : V) (m : Map K V) → has j m ≡ true → has j ((k, v) ∷ m) ≡ true
  unfolding has
  has-cons j k v m h = ground arith
