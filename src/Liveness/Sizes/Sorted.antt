-- ===== src/Liveness/Sizes/Sorted.antt =====
-- The sort of the sizes returns the same entries, the largest first.
use mathlib.Core.List.{Perm, Permᴰ}
use mathlib.Core.List.Perm
use native.Mathlib.Bridge.{le_prop}
use mathlib.Core.Logic.{∥∥₁_elim}
use mathlib.Core.Option.{some-injective}
use ten_prof.Prelude.{
  ℕ, zero, suc, ◌+◌, ◌-◌, ◌≤◌, ◌<◌, ◌≡◌, refl, sym, ap, false, ◌⊎◌, inl, inr, some, List, [], ◌∷◌,
  ltb, ◌==◌, arith, Bool-cases, ltb→lt, length, get_elem?, All, subst,
}
use ten_prof.Liveness.{MemoryEntry}
use ten_prof.Liveness.Sizes.{scan, set_at, select, select_rounds, sort_sizes}

-- No entry is larger than `x`.
abbrev pub IsBound : MemoryEntry → List MemoryEntry → Type 0
IsBound x es = All (λ e. e.size ≤ x.size) es

-- No entry is smaller than one that comes after it.
abbrev pub IsFalling : List MemoryEntry → Type 0
IsFalling [] = Unit
IsFalling (e ∷ es) = IsBound e es × IsFalling es

IsBound-mono :
    (x y : MemoryEntry) (es : List MemoryEntry) → x.size ≤ y.size → IsBound x es → IsBound y es
IsBound-mono x y [] le b = tt
IsBound-mono x y (e ∷ es) le b = (omega (arith, b.0), IsBound-mono x y es le b.1)

-- A scan that ends at `r` is at a largest entry: where it began, or at one that it passed.
abbrev IsScanned : ℕ → MemoryEntry → ℕ → List MemoryEntry → ℕ × MemoryEntry → Type 0
IsScanned index temp j es r =
    IsBound r.1 es
    × (temp.size ≤ r.1.size)
    × ((r ≡ (index, temp)) ⊎ ((k : ℕ) × (r.0 ≡ j + k) × (get_elem? es k ≡ some r.1)))

IsScanned-up :
    (index : ℕ) (temp : MemoryEntry) (j : ℕ) (e : MemoryEntry) (es : List MemoryEntry)
    (r : ℕ × MemoryEntry)
    → temp.size < e.size
    → IsScanned j e (suc j) es r
    → IsScanned index temp j (e ∷ es) r
IsScanned-up index temp j e es r lt (bound, le, place) = (
  (le, bound),
  omega arith,
  elim place [
    | inl same ↦ inr (0, rw same (omega arith), ap (λ p. some p.1) (sym same))
    | inr (k, at, there) ↦ inr (suc k, omega (arith, at), there)
  ],
)

IsScanned-on :
    (index : ℕ) (temp : MemoryEntry) (j : ℕ) (e : MemoryEntry) (es : List MemoryEntry)
    (r : ℕ × MemoryEntry)
    → e.size ≤ temp.size
    → IsScanned index temp (suc j) es r
    → IsScanned index temp j (e ∷ es) r
IsScanned-on index temp j e es r ge (bound, le, place) = (
  (omega arith, bound),
  le,
  elim place [ inl same ↦ inl same | inr (k, at, there) ↦ inr (suc k, omega (arith, at), there) ],
)

scan-IsScanned :
    (index : ℕ) (temp : MemoryEntry) (j : ℕ) (es : List MemoryEntry)
    → IsScanned index temp j es (scan index temp j es)
unfolding scan
scan-IsScanned index temp j [] = (tt, omega arith, inl refl)
scan-IsScanned index temp j (e ∷ es) = elim (Bool-cases (ltb temp.size e.size)) [
  | inl lt ↦
      subst (IsScanned index temp j (e ∷ es))
        (let eq : scan j e (suc j) es ≡ scan index temp j (e ∷ es) = rw (lt, scan) refl in eq)
        (IsScanned-up index temp j e es _ (ltb→lt _ _ lt) (scan-IsScanned j e (suc j) es))
  | inr ge ↦
      subst (IsScanned index temp j (e ∷ es))
        (let eq : scan index temp (suc j) es ≡ scan index temp j (e ∷ es) = rw (ge, scan) refl in
          eq)
        (IsScanned-on index temp j e es _ (ground arith) (scan-IsScanned index temp (suc j) es))
]

set_at-Perm :
    (k : ℕ) (a x : MemoryEntry) (es : List MemoryEntry)
    → get_elem? es k ≡ some x
    → Perm (x ∷ set_at k a es) (a ∷ es)
set_at-Perm k a x [] there = cc
set_at-Perm zero a x (e ∷ es) there =
    subst (λ y. Perm (x ∷ a ∷ es) (a ∷ y ∷ es)) (sym (some-injective e x there)) (Perm.swap a x es)
set_at-Perm (suc k) a x (e ∷ es) there =
    Perm.trans (Perm.swap e x (set_at k a es))
      (Perm.trans (Perm.cons e (set_at-Perm k a x es there)) (Perm.swap a e es))

set_at-IsBound :
    (k : ℕ) (a x : MemoryEntry) (es : List MemoryEntry)
    → a.size ≤ x.size
    → IsBound x es
    → IsBound x (set_at k a es)
set_at-IsBound k a x [] le b = tt
set_at-IsBound zero a x (e ∷ es) le b = (le, b.1)
set_at-IsBound (suc k) a x (e ∷ es) le b = (b.0, set_at-IsBound k a x es le b.1)

length-set_at :
    (k : ℕ) (a : MemoryEntry) (es : List MemoryEntry) → length (set_at k a es) ≡ length es
length-set_at k a [] = refl
length-set_at zero a (e ∷ es) = refl
length-set_at (suc k) a (e ∷ es) = omega (arith, length-set_at k a es)

-- A round puts the largest entry in front.
select_lem :
    (e : MemoryEntry) (es : List MemoryEntry)
    → Perm ((select e es).0 ∷ (select e es).1) (e ∷ es)
      × IsBound (select e es).0 (select e es).1
      × (length (select e es).1 ≡ length es)
unfolding select
select_lem e es =
    let (bound, le, place) = scan-IsScanned 0 e 1 es in
    elim place [
      | inl same ↦ rw (same, select) (Perm.refl (e ∷ es), rw same at bound, refl)
      | inr (k, at, there) ↦
          let away : ((scan 0 e 1 es).0 == 0) ≡ false = ground arith in
          let position : (scan 0 e 1 es).0 - 1 ≡ k = omega arith in
          rw (away, select, position)
            (
              set_at-Perm k e (scan 0 e 1 es).1 es there,
              set_at-IsBound k e (scan 0 e 1 es).1 es le bound,
              length-set_at k e es,
            )
    ]

IsBound-prop : (x : MemoryEntry) (es : List MemoryEntry) → IsProp (IsBound x es)
IsBound-prop x [] = hlevel
IsBound-prop x (e ∷ es) = let ih = IsBound-prop x es in λ p q i. (le_prop p.0 q.0 i, ih p.1 q.1 i)

IsBound-Permᴰ :
    (x : MemoryEntry) (xs ys : List MemoryEntry) → Permᴰ xs ys → IsBound x xs → IsBound x ys
IsBound-Permᴰ x xs ys (Permᴰ.nil) b = tt
IsBound-Permᴰ x xs ys (Permᴰ.cons e p) b =
    (subst (λ y. y.size ≤ x.size) e b.0, IsBound-Permᴰ x _ _ p b.1)
IsBound-Permᴰ x xs ys (Permᴰ.swap e f) b =
    (subst (λ y. y.size ≤ x.size) f b.1.0, (subst (λ y. y.size ≤ x.size) e b.0, b.1.1))
IsBound-Permᴰ x xs ys (Permᴰ.trans p q) b = IsBound-Permᴰ x _ _ q (IsBound-Permᴰ x _ _ p b)

select_rounds-Perm : (n : ℕ) (es : List MemoryEntry) → Perm (select_rounds n es) es
unfolding select_rounds
select_rounds-Perm (suc n) (e ∷ es) =
    Perm.trans (Perm.cons (select e es).0 (select_rounds-Perm n (select e es).1))
      (select_lem e es).0
select_rounds-Perm zero es = Perm.refl es
select_rounds-Perm (suc n) [] = Perm.refl []

IsBound-Perm :
    (x : MemoryEntry) (xs ys : List MemoryEntry) → Perm xs ys → IsBound x xs → IsBound x ys
IsBound-Perm x xs ys p b = ∥∥₁_elim p (IsBound-prop x ys) (λ d. IsBound-Permᴰ x xs ys d b)

select_rounds-IsFalling :
    (n : ℕ) (es : List MemoryEntry) → length es ≤ suc n → IsFalling (select_rounds n es)
unfolding select_rounds
select_rounds-IsFalling (suc n) (e ∷ es) h =
    let (perm, bound, same) = select_lem e es in
    (
      IsBound-Perm (select e es).0 _ _ (Perm.symm (select_rounds-Perm n (select e es).1)) bound,
      select_rounds-IsFalling n (select e es).1 (omega (arith, same)),
    )
select_rounds-IsFalling zero [] h = tt
select_rounds-IsFalling (suc n) [] h = tt
select_rounds-IsFalling zero (e ∷ []) h = (tt, tt)
select_rounds-IsFalling zero (e ∷ f ∷ es) h = absurd (omega arith)

-- The sort of a list of sizes that is not empty returns the same entries, none smaller than one
-- after it.
pub sort_sizes-IsFalling :
    (e : MemoryEntry) (es : List MemoryEntry)
    → (sorted : List MemoryEntry) × (sort_sizes (e ∷ es) ≡ some sorted)
      × Perm sorted (e ∷ es)
      × IsFalling sorted
unfolding sort_sizes
sort_sizes-IsFalling e es = (
  select_rounds (length es) (e ∷ es),
  refl,
  select_rounds-Perm (length es) (e ∷ es),
  select_rounds-IsFalling (length es) (e ∷ es) (omega arith),
)
