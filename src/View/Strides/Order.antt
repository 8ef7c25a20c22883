-- ===== src/View/Strides/Order.antt =====
-- What `sort_tensor_strides` does to the order of the dimensions.
use mathlib.Core.List.{Perm}
use mathlib.Core.List.Perm
use ten_prof.Prelude.{
  ℕ, zero, suc, ◌-◌, ◌≤◌, ◌<◌, ◌≡◌, refl, ap, sym, ◌∙◌, Bool, true, false, List, [], ◌∷◌, ltb,
  arith, Bool-cases, inl, inr, ltb-false, ltb→lt,
}
use ten_prof.View.{Dimension, Tensor}
use ten_prof.View.Strides.{signed, pass, rounds, sort_dims, sort_tensor_strides}

-- The strides fall, or stay the same, from each dimension to the next.
abbrev pub IsDescending : List Dimension → Type 0
IsDescending [] = Unit
IsDescending (a ∷ []) = Unit
IsDescending (a ∷ b ∷ ds) = (signed b.stride ≤ signed a.stride) × IsDescending (b ∷ ds)

pass-Perm : (n : ℕ) (swapped : Bool) (ds : List Dimension) → Perm (pass n swapped ds) ds
unfolding pass
pass-Perm (suc n) swapped (a ∷ b ∷ ds) =
    elim (Bool-cases (ltb (signed a.stride) (signed b.stride))) [
      | inl lt ↦ rw lt (Perm.trans (Perm.cons b (pass-Perm n true (a ∷ ds))) (Perm.swap a b ds))
      | inr ge ↦ rw ge (elim (Bool-cases swapped) [
        | inl on ↦ rw on (Perm.cons a (pass-Perm n true (b ∷ ds)))
        | inr stop ↦ rw stop (Perm.refl (a ∷ b ∷ ds))
      ])
    ]
pass-Perm _ swapped ds = Perm.refl ds

rounds-Perm : (n : ℕ) (ds : List Dimension) → Perm (rounds n ds) ds
unfolding rounds
rounds-Perm zero ds = Perm.refl ds
rounds-Perm (suc n) ds =
    Perm.trans (rounds-Perm n (pass (suc n) false ds)) (pass-Perm (suc n) false ds)

-- Sorting keeps the dimensions of a tensor, each size with its stride, and everything else.
sort_tensor_strides-Perm :
    (t : Tensor)
    → Perm (sort_tensor_strides t).dims t.dims
      × (record (sort_tensor_strides t) { dims = t.dims } ≡ t)
unfolding sort_tensor_strides sort_dims
sort_tensor_strides-Perm t = (rounds-Perm (t.dim - 1) t.dims, refl)

-- Where the first stride is not below the second, every round stops at its first comparison.
rounds_stop :
    (n : ℕ) (a b : Dimension) (ds : List Dimension)
    → signed b.stride ≤ signed a.stride
    → rounds n (a ∷ b ∷ ds) ≡ a ∷ b ∷ ds
unfolding rounds
rounds_stop zero a b ds h = refl
rounds_stop (suc n) a b ds h = rw (ltb-false _ _ h) (rounds_stop n a b ds h)

-- A tensor whose first stride is not below its second is returned as it is: whatever the other
-- strides are, they are not sorted.
pub sort_tensor_strides_stops :
    (t : Tensor) (a b : Dimension) (ds : List Dimension)
    → t.dims ≡ a ∷ b ∷ ds
    → signed b.stride ≤ signed a.stride
    → sort_tensor_strides t ≡ t
unfolding sort_tensor_strides sort_dims
sort_tensor_strides_stops t a b ds shape h i = record t {
  dims = (ap (rounds (t.dim - 1)) shape ∙ rounds_stop (t.dim - 1) a b ds h ∙ sym shape) i;
}

-- A tensor of two dimensions comes back with its strides in descending order.
sort_tensor_strides_two :
    (t : Tensor) (a b : Dimension)
    → t.dim ≡ 2
    → t.dims ≡ a ∷ b ∷ []
    → IsDescending (sort_tensor_strides t).dims
unfolding sort_tensor_strides sort_dims
sort_tensor_strides_two t a b two shape =
    rw (shape, two, rounds)
      (elim (Bool-cases (ltb (signed a.stride) (signed b.stride))) [
        | inl lt ↦ rw lt (omega (arith, ltb→lt _ _ lt))
        | inr ge ↦ rw ge (ground arith)
      ])

-- A tensor whose first stride is not below the second, and whose third is above the second, in the
-- signed order, comes back with strides that are not descending.
pub sort_tensor_strides_unsorted :
    (t : Tensor) (a b c : Dimension) (ds : List Dimension)
    → t.dims ≡ a ∷ b ∷ c ∷ ds
    → signed b.stride ≤ signed a.stride
    → signed b.stride < signed c.stride
    → ¬ IsDescending (sort_tensor_strides t).dims
sort_tensor_strides_unsorted t a b c ds shape h rise =
    rw (sort_tensor_strides_stops t a b (c ∷ ds) shape h, shape) (λ d. omega arith)
