-- ===== src/View/Address.antt =====
-- redshow/include/analysis/torch_view.h: the search for the start of the row, plane and so on that
-- holds an address, dimension by dimension.
pub mod Floor
use ten_prof.Prelude.{
  ℕ, zero, suc, ◌+◌, ◌-◌, ◌*◌, ◌/◌, ◌%◌, u64_mod, Bool, true, false, not, Option, none, some, List,
  [], ◌∷◌, ltb, leb, ◌==◌, if◌then◌else◌,
}
use ten_prof.View.{Dimension, Node}

-- `find_local_starting_address`, with fuel for its recursion; `none` means that the fuel ran out.
-- Sizes and strides are not negative.
unfoldable pub find_local_starting_address : ℕ → ℕ → ℕ → ℕ → ℕ → ℕ → Option ℕ
find_local_starting_address zero init size stride itemsize hit = none
find_local_starting_address (suc fuel) init size stride itemsize hit =
    let half = (size - 1) / 2 in
    let sit = (init + half * itemsize * stride) % u64_mod in
    let next = (sit + itemsize * stride) % u64_mod in
    let lower = find_local_starting_address fuel init half stride itemsize hit in
    let upper = find_local_starting_address fuel next (size - size / 2) stride itemsize hit in
    if leb 1 size
    then if sit == hit
      then some sit
      else if ltb hit sit
      then lower
      else if ltb hit next
      then some sit
      else if not (stride == 0)
      then upper
      else some sit
    else some 0

-- The loop of `find_closest_starting_address` over all dimensions but the last.
unfoldable pub closest_from : ℕ → ℕ → List Dimension → ℕ → ℕ → ℕ → Option ℕ
unfolding find_local_starting_address
closest_from fuel zero ds itemsize hit sit = some sit
closest_from fuel (suc n) [] itemsize hit sit = some sit
closest_from fuel (suc n) (d ∷ ds) itemsize hit sit =
    elim (find_local_starting_address fuel sit d.size d.stride itemsize hit) [
      | none ↦ none
      | some zero ↦ some 0
      | some (suc s) ↦ closest_from fuel n ds itemsize hit (suc s)
    ]

unfoldable pub find_closest_starting_address : ℕ → Node → ℕ → ℕ → Option ℕ
unfolding closest_from
find_closest_starting_address fuel n itemsize hit =
    if leb n.dim 1
    then some n.data_ptr
    else closest_from fuel (n.dim - 1) n.dims itemsize hit n.data_ptr
