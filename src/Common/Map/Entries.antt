-- ===== src/Common/Map/Entries.antt =====
-- What holds of every entry of a `Map`.
use mathlib.Core.Option.{some-injective}
use ten_prof.Prelude.{
  Option, none, subst, ◌≡◌, refl, false, true, some, [], ◌∷◌, ◌==◌, ltb, All, arith, Bool-cases,
  inl, inr,
}
use ten_prof.Common.Map.{Key, Map, find, has, assign, erase, prev, prev_from}

module _ {ℓ κ} {K : Type ℓ} {V : Type κ} ⦃key : Key K⦄ where
  -- `find` goes by the rank of the key.
  pub find_congr : (k j : K) (m : Map K V) → key.rank k ≡ key.rank j → find k m ≡ find j m
  unfolding find
  find_congr k j [] e = refl
  find_congr k j ((i, w) ∷ m) e = rw (e, find_congr k j m e)

  pub has_of_find : (k : K) (v : V) (m : Map K V) → find k m ≡ some v → has k m ≡ true
  unfolding find has
  has_of_find k v [] e = cc
  has_of_find k v ((i, w) ∷ m) e = elim (Bool-cases (key.rank k == key.rank i)) [
    | inl same ↦ rw same
    | inr ne ↦ rw ne (has_of_find k v m (rw ne at e))
  ]

  module _ {ι} (P : K × V → Type ι) where
    pub All-assign_new :
        (k : K) (v : V) (m : Map K V) → has k m ≡ false → P (k, v) → All P m → All P (assign k v m)
    unfolding has assign
    All-assign_new k v [] h p a = (p, tt)
    All-assign_new k v ((i, w) ∷ m) h p a = elim (Bool-cases (key.rank k == key.rank i)) [
      | inl same ↦ cc (rw (same, has) at h)
      | inr ne ↦ elim (Bool-cases (ltb (key.rank k) (key.rank i))) [
        | inl lt ↦ rw (ne, assign) (rw lt (p, a))
        | inr gt ↦ rw (ne, assign) (rw gt (a.0, All-assign_new k v m (rw (ne, has) at h) p a.1))
      ]
    ]

    pub All-assign :
        (k : K) (v : V) (m : Map K V)
        → ((j : K) → key.rank k ≡ key.rank j → P (j, v))
        → All P m
        → All P (assign k v m)
    unfolding assign
    All-assign k v [] p a = (p k refl, tt)
    All-assign k v ((i, w) ∷ m) p a = elim (Bool-cases (key.rank k == key.rank i)) [
      | inl same ↦ rw (same, assign) (p i (ground arith), a.1)
      | inr ne ↦ elim (Bool-cases (ltb (key.rank k) (key.rank i))) [
        | inl lt ↦ rw (ne, assign) (rw lt (p k refl, a))
        | inr gt ↦ rw (ne, assign) (rw gt (a.0, All-assign k v m p a.1))
      ]
    ]

    pub All-erase : (k : K) (m : Map K V) → All P m → All P (erase k m)
    unfolding erase
    All-erase k [] a = tt
    All-erase k ((i, w) ∷ m) a = elim (Bool-cases (key.rank k == key.rank i)) [
      | inl same ↦ rw (same, erase) a.1
      | inr ne ↦ rw (ne, erase) (a.0, All-erase k m a.1)
    ]

    All-prev_from :
        (last : Option (K × V)) (k : K) (m : Map K V) (e : K × V)
        → (last ≡ some e → P e)
        → All P m
        → prev_from last k m ≡ some e
        → P e
    unfolding prev_from
    All-prev_from last k [] e p a h = p h
    All-prev_from last k ((i, w) ∷ m) e p a h = elim (Bool-cases (ltb (key.rank k) (key.rank i))) [
      | inl lt ↦ p (rw (lt, prev_from) at h)
      | inr ge ↦
          All-prev_from (some (i, w)) k m e (λ same. subst P (some-injective _ _ same) a.0) a.1
            (rw (ge, prev_from) at h)
    ]

    -- So it holds of the entry that `prev` finds.
    pub All-prev : (k : K) (m : Map K V) (e : K × V) → All P m → prev k m ≡ some e → P e
    unfolding prev
    All-prev k m e a h = All-prev_from none k m e (λ same. cc) a h
