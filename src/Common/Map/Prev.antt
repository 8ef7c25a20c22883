-- ===== src/Common/Map/Prev.antt =====
-- What `prev` finds: the entry of the greatest key that is not above the given one.
use mathlib.Core.Option.{some-injective}
use ten_prof.Prelude.{
  subst, ℕ, suc, ◌≤◌, ◌<◌, ◌≡◌, refl, true, false, Option, none, some, [], ◌∷◌, ltb, ◌==◌, ◌⊎◌, inl,
  inr, arith, Bool-cases, ltb→lt, ltb-false,
}
use ten_prof.Common.Map.{Key, Map, find, has, prev, prev_from, IsSortedFrom}

module _ {ℓ κ} {K : Type ℓ} {V : Type κ} ⦃key : Key K⦄ where
  -- The entry `e` is that of the greatest key of `m` that is not above `k`.
  abbrev pub IsGreatest : K → Map K V → K × V → Type (ℓ ⊔ κ)
  IsGreatest k m e =
      (has e.0 m ≡ true)
      × (find e.0 m ≡ some e.1)
      × (key.rank e.0 ≤ key.rank k)
      × ((j : K) → has j m ≡ true → key.rank j ≤ key.rank k → key.rank j ≤ key.rank e.0)

  -- No key of a sorted map is below its bound.
  pub le_of_has :
      (lo : ℕ) (j : K) (m : Map K V) → IsSortedFrom lo m → has j m ≡ true → lo ≤ key.rank j
  unfolding has
  le_of_has lo j [] s h = cc
  le_of_has lo j ((i, w) ∷ m) s h = ground (arith, le_of_has (suc (key.rank i)) j m)

  pub has_tail :
      (i : K) (w : V) (j : K) (m : Map K V)
      → has j ((i, w) ∷ m) ≡ true
      → (key.rank j == key.rank i) ≡ false
      → has j m ≡ true
  unfolding has
  has_tail i w j m h ne = rw (ne, has) at h

  -- Every key of `m` is above `k`.
  abbrev pub IsAbove : K → Map K V → Type ℓ
  IsAbove k m = (j : K) → has j m ≡ true → key.rank k < key.rank j

  IsAbove-cons :
      (k i : K) (w : V) (m : Map K V)
      → IsSortedFrom (suc (key.rank i)) m
      → key.rank k < key.rank i
      → IsAbove k ((i, w) ∷ m)
  unfolding has
  IsAbove-cons k i w m s lt j h = ground (arith, le_of_has (suc (key.rank i)) j m)

  IsGreatest-head :
      (k i : K) (w : V) (m : Map K V)
      → key.rank i ≤ key.rank k
      → IsAbove k m
      → IsGreatest k ((i, w) ∷ m) (i, w)
  unfolding has find
  IsGreatest-head k i w m le above =
      (ground arith, ground arith, le, λ j h le'. ground (arith, above j))

  IsGreatest-tail :
      (k i : K) (w : V) (m : Map K V) (e : K × V)
      → IsSortedFrom (suc (key.rank i)) m
      → IsGreatest k m e
      → IsGreatest k ((i, w) ∷ m) e
  unfolding has find
  IsGreatest-tail k i w m e s g = (
    ground (arith, g.0),
    ground (arith, g.1, le_of_has (suc (key.rank i)) e.0 m s g.0),
    g.2,
    λ j h le'. ground (arith, le_of_has (suc (key.rank i)) e.0 m s g.0, g.3 j),
  )

  prev_from-finds :
      (lo : ℕ) (a : Option (K × V)) (k : K) (m : Map K V) (e : K × V)
      → IsSortedFrom lo m
      → prev_from a k m ≡ some e
      → ((a ≡ some e) × IsAbove k m) ⊎ IsGreatest k m e
  unfolding prev_from
  prev_from-finds lo a k [] e s h = inl (h, λ j h. unfold has in cc)
  prev_from-finds lo a k ((i, w) ∷ m) e s h = elim (Bool-cases (ltb (key.rank k) (key.rank i))) [
    | inl t ↦ inl (rw (t, prev_from) at h, IsAbove-cons k i w m s.1 (ltb→lt _ _ t))
    | inr t ↦
        elim (prev_from-finds (suc (key.rank i)) (some (i, w)) k m e s.1 (rw (t, prev_from) at h)) [
          | inl found ↦ inr (
              subst (IsGreatest k ((i, w) ∷ m)) (some-injective _ _ found.0)
                (IsGreatest-head k i w m (ground arith) found.1))
          | inr g ↦ inr (IsGreatest-tail k i w m e s.1 g)
        ]
  ]

  -- `prev` returns the entry of the greatest key that is not above `k`.
  pub prev-IsGreatest :
      (lo : ℕ) (k : K) (m : Map K V) (e : K × V)
      → IsSortedFrom lo m
      → prev k m ≡ some e
      → IsGreatest k m e
  unfolding prev
  prev-IsGreatest lo k m e s h = elim (prev_from-finds lo none k m e s h) [
    | inl found ↦ cc (found.0)
    | inr g ↦ g
  ]

  pub prev_from_skip :
      (a : Option (K × V)) (k i : K) (w : V) (m : Map K V)
      → key.rank i ≤ key.rank k
      → prev_from a k ((i, w) ∷ m) ≡ prev_from (some (i, w)) k m
  unfolding prev_from
  prev_from_skip a k i w m le = rw (ltb-false _ _ le)

  prev_from_given :
      (d : K × V) (k : K) (m : Map K V) → (e : K × V) × (prev_from (some d) k m ≡ some e)
  unfolding prev_from
  prev_from_given d k [] = (d, refl)
  prev_from_given d k ((i, w) ∷ m) = elim (Bool-cases (ltb (key.rank k) (key.rank i))) [
    | inl stop ↦ (d, rw (stop, prev_from))
    | inr on ↦ let ih = prev_from_given (i, w) k m in (ih.0, rw (on, prev_from) ih.1)
  ]

  prev_from-some :
      (lo : ℕ) (a : Option (K × V)) (k j : K) (m : Map K V)
      → IsSortedFrom lo m
      → has j m ≡ true
      → key.rank j ≤ key.rank k
      → (e : K × V) × (prev_from a k m ≡ some e)
  unfolding prev_from has
  prev_from-some lo a k j [] s h le = cc
  prev_from-some lo a k j ((i, w) ∷ m) s h le = elim (Bool-cases (key.rank j == key.rank i)) [
    | inl same ↦ rw (prev_from_skip a k i w m (ground arith)) (prev_from_given (i, w) k m)
    | inr ne ↦
        let t = has_tail i w j m h ne in
        rw (prev_from_skip a k i w m (omega (arith, le_of_has (suc (key.rank i)) j m s.1 t)))
          (prev_from-some (suc (key.rank i)) (some (i, w)) k j m s.1 t le)
  ]

  -- Where some key is not above `k`, `prev` finds an entry, and none of those keys is above its key.
  pub prev-some :
      (lo : ℕ) (k j : K) (m : Map K V)
      → IsSortedFrom lo m
      → has j m ≡ true
      → key.rank j ≤ key.rank k
      → (e : K × V) × (prev k m ≡ some e) × IsGreatest k m e
  unfolding prev
  prev-some lo k j m s h le =
      let found = prev_from-some lo none k j m s h le in
      (found.0, found.1, prev-IsGreatest lo k m found.0 s (unfold prev in found.1))
