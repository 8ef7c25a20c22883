-- ===== src/View/Strides.antt =====
-- redshow/include/analysis/torch_view.h: `sort_tensor_strides`, both overloads, which is to put the
-- dimensions of a tensor in the order of falling strides before an address is searched in it.
pub mod Order
use ten_prof.Prelude.{
  ℕ, zero, suc, ◌+◌, ◌-◌, ◌%◌, ◌^◌, u64_mod, Bool, true, false, List, [], ◌∷◌, ltb, if◌then◌else◌,
}
use ten_prof.View.{Dimension, Tensor, Node}

-- The order of `int64_t`, on the bits of the numbers.
abbrev pub signed : ℕ → ℕ
signed a = (a + 2 ^ 63) % u64_mod

-- The inner loop: `n` comparisons are left, and `swapped` is as the last of them left it. The
-- second test of its body breaks the loop.
unfoldable pub pass : ℕ → Bool → List Dimension → List Dimension
pass (suc n) swapped (a ∷ b ∷ ds) =
    let swap = b ∷ pass n true (a ∷ ds) in
    let go_on = a ∷ pass n true (b ∷ ds) in
    if ltb (signed a.stride) (signed b.stride) then swap else if swapped then go_on else a ∷ b ∷ ds
pass _ swapped ds = ds

-- The outer loop: the next round makes `n` comparisons.
unfoldable pub rounds : ℕ → List Dimension → List Dimension
unfolding pass
rounds zero ds = ds
rounds (suc n) ds = rounds n (pass (suc n) false ds)

unfoldable pub sort_dims : ℕ → List Dimension → List Dimension
unfolding rounds
sort_dims dim ds = rounds (dim - 1) ds

-- `sort_tensor_strides` of a tensor, which is copied.
unfoldable pub sort_tensor_strides : Tensor → Tensor
unfolding sort_dims
sort_tensor_strides t = record t { dims = sort_dims t.dim t.dims }

-- `sort_tensor_strides` of a node, in place.
unfoldable pub sort_node_strides : Node → Node
unfolding sort_dims
sort_node_strides n =
    if n.is_sorted then n else record n { dims = sort_dims n.dim n.dims; is_sorted = true }
