-- ===== src/Liveness/Merge/Groups.antt =====
-- The merged output names each operation once, and a group's operations have the call path that it
-- prints.
use mathlib.Core.List.{Perm, perm_middle}
use mathlib.Core.List.Perm
use ten_prof.Prelude.{
  ℕ, zero, suc, ◌≤◌, ◌≡◌, refl, true, false, List, [], ◌∷◌, ◌++◌, arith, Bool-cases, ◌⊎◌, inl, inr,
  length, All,
}
use ten_prof.Common.Map.{Map}
use ten_prof.Liveness.Merge.{Equal, same_path, take_same, merge_rounds, merged}

module _ {ℓ} {A : Type ℓ} ⦃equal : Equal A⦄ where
  abbrev pub ids_of : Map ℕ (List A) → List ℕ
  ids_of [] = []
  ids_of ((id, p) ∷ m) = id ∷ ids_of m

  -- The operations that are printed, in the order of the output.
  abbrev pub printed : List (List ℕ × List A) → List ℕ
  printed [] = []
  printed ((ids, path) ∷ gs) = ids ++ printed gs

  take_same-Perm :
      (path : List A) (m : Map ℕ (List A))
      → Perm ((take_same path m).0 ++ ids_of (take_same path m).1) (ids_of m)
  unfolding take_same
  take_same-Perm path [] = Perm.refl []
  take_same-Perm path ((id, p) ∷ m) = elim (Bool-cases (same_path p path)) [
    | inl same ↦ rw (same, take_same) (Perm.cons id (take_same-Perm path m))
    | inr other ↦
        rw (other, take_same)
          (Perm.trans (perm_middle (take_same path m).0 (ids_of (take_same path m).1))
            (Perm.cons id (take_same-Perm path m)))
  ]

  length-take_same : (path : List A) (m : Map ℕ (List A)) → length (take_same path m).1 ≤ length m
  unfolding take_same
  length-take_same path [] = omega arith
  length-take_same path ((id, p) ∷ m) = elim (Bool-cases (same_path p path)) [
    | inl same ↦ rw (same, take_same) (omega (arith, length-take_same path m))
    | inr other ↦ rw (other, take_same) (omega (arith, length-take_same path m))
  ]

  merge_rounds-Perm :
      (n : ℕ) (m : Map ℕ (List A)) → length m ≤ n → Perm (printed (merge_rounds n m)) (ids_of m)
  unfolding merge_rounds
  merge_rounds-Perm zero [] h = Perm.refl []
  merge_rounds-Perm (suc n) [] h = Perm.refl []
  merge_rounds-Perm zero (e ∷ m) h = absurd (omega arith)
  merge_rounds-Perm (suc n) ((id, path) ∷ m) h =
      let rest =
        merge_rounds-Perm n (take_same path m).1 (omega (arith, length-take_same path m)) in
      Perm.cons id (Perm.trans (Perm.append_left (take_same path m).0 rest) (take_same-Perm path m))

  -- No entry has the call path.
  abbrev Lacks : List A → Map ℕ (List A) → Type 0
  Lacks path m = All (λ e. same_path e.1 path ≡ false) m

  -- No later group has the path of an earlier one.
  abbrev pub AreDistinct : List (List ℕ × List A) → Type 0
  AreDistinct [] = Unit
  AreDistinct ((ids, path) ∷ gs) = All (λ g. same_path g.1 path ≡ false) gs × AreDistinct gs

  take_same-Lacks : (path : List A) (m : Map ℕ (List A)) → Lacks path (take_same path m).1
  unfolding take_same
  take_same-Lacks path [] = tt
  take_same-Lacks path ((id, p) ∷ m) = elim (Bool-cases (same_path p path)) [
    | inl same ↦ rw (same, take_same) (take_same-Lacks path m)
    | inr other ↦ rw (other, take_same) (other, take_same-Lacks path m)
  ]

  take_same-All {κ} :
      (P : ℕ × List A → Type κ) (path : List A) (m : Map ℕ (List A))
      → All P m
      → All P (take_same path m).1
  unfolding take_same
  take_same-All P path [] h = tt
  take_same-All P path ((id, p) ∷ m) h = elim (Bool-cases (same_path p path)) [
    | inl same ↦ rw (same, take_same) (take_same-All P path m h.1)
    | inr other ↦ rw (other, take_same) (h.0, take_same-All P path m h.1)
  ]

  merge_rounds-All {κ} :
      (P : List A → Type κ) (n : ℕ) (m : Map ℕ (List A))
      → All (λ e. P e.1) m
      → All (λ g. P g.1) (merge_rounds n m)
  unfolding merge_rounds
  merge_rounds-All P zero m h = tt
  merge_rounds-All P (suc n) [] h = tt
  merge_rounds-All P (suc n) ((id, path) ∷ m) h =
      (h.0, merge_rounds-All P n (take_same path m).1 (take_same-All (λ e. P e.1) path m h.1))

  merge_rounds-AreDistinct : (n : ℕ) (m : Map ℕ (List A)) → AreDistinct (merge_rounds n m)
  unfolding merge_rounds
  merge_rounds-AreDistinct zero m = tt
  merge_rounds-AreDistinct (suc n) [] = tt
  merge_rounds-AreDistinct (suc n) ((id, path) ∷ m) = (
    merge_rounds-All (λ p. same_path p path ≡ false) n (take_same path m).1
        (take_same-Lacks path m),
    merge_rounds-AreDistinct n (take_same path m).1,
  )

  module _ {κ} (P : ℕ → List A → Type κ) where
    -- An operation of a group has a path for which `P` holds and that is the group's.
    abbrev pub IsOf : List A → ℕ → Type (ℓ ⊔ κ)
    IsOf path id = (p : List A) × P id p × ((p ≡ path) ⊎ (same_path p path ≡ true))

    take_same-IsOf :
        (path : List A) (m : Map ℕ (List A))
        → All (λ e. P e.0 e.1) m
        → All (IsOf path) (take_same path m).0
    unfolding take_same
    take_same-IsOf path [] h = tt
    take_same-IsOf path ((id, p) ∷ m) h = elim (Bool-cases (same_path p path)) [
      | inl same ↦ rw (same, take_same) ((p, h.0, inr same), take_same-IsOf path m h.1)
      | inr other ↦ rw (other, take_same) (take_same-IsOf path m h.1)
    ]

    merge_rounds-IsOf :
        (n : ℕ) (m : Map ℕ (List A))
        → All (λ e. P e.0 e.1) m
        → All (λ g. All (IsOf g.1) g.0) (merge_rounds n m)
    unfolding merge_rounds
    merge_rounds-IsOf zero m h = tt
    merge_rounds-IsOf (suc n) [] h = tt
    merge_rounds-IsOf (suc n) ((id, path) ∷ m) h = (
      ((path, h.0, inl refl), take_same-IsOf path m h.1),
      merge_rounds-IsOf n (take_same path m).1 (take_same-All (λ e. P e.0 e.1) path m h.1),
    )

    -- The merged output names each operation once; the operations of a group have the call path
    -- that is printed with it, or one that compares equal, and no later group has a path that
    -- compares equal to it.
    pub merged_lem :
        (m : Map ℕ (List A))
        → All (λ e. P e.0 e.1) m
        → Perm (printed (merged m)) (ids_of m)
          × All (λ g. All (IsOf g.1) g.0) (merged m)
          × AreDistinct (merged m)
    unfolding merged
    merged_lem m h = (
      merge_rounds-Perm (length m) m (omega arith),
      merge_rounds-IsOf (length m) m h,
      merge_rounds-AreDistinct (length m) m,
    )
