-- ===== src/View/Find.antt =====
-- redshow/include/analysis/torch_view.h: `ViewNode::find_node`, the walk down a tree, and
-- `find_root_node`, the binary search for the tree whose block holds a range.
pub mod Tree
pub mod Search
use mathlib.Core.Option.{or_else}
use ten_prof.Prelude.{
  ℕ, zero, suc, ◌+◌, ◌-◌, ◌/◌, ◌%◌, Bool, true, false, ◌&&◌, Option, none, some, List, [], ◌∷◌, ltb,
  leb, ◌==◌, length, get_elem?, if◌then◌else◌,
}
use ten_prof.View.{Tensor, Node, ViewNode, Children, view, nil, cons, node_of, end_of}

-- `operator==` of a node and the temporary object for `data_ptr` and `metadata_ptr`.
unfoldable pub is_same : ℕ → ℕ → Node → Bool
is_same data_ptr metadata_ptr n = (n.data_ptr == data_ptr) && (n.metadata_ptr == metadata_ptr)

unfoldable mutual
  -- `find_node`: `none` is a null pointer.
  pub find_node : ℕ → ℕ → ViewNode → Option ViewNode
  find_node d m (view n cs) =
      let below = find_child d m cs in if is_same d m n then some (view n cs) else below

  -- The loop over the children, which returns at the first hit.
  pub find_child : ℕ → ℕ → Children → Option ViewNode
  find_child d m nil = none
  find_child d m (cons c cs) = or_else (find_node d m c) (find_child d m cs)

-- The loop of `find_root_node` between `low` and `high`, with at most as many rounds as the fuel says.
unfoldable pub search_roots : List ViewNode → ℕ → ℕ → ℕ → ℕ → ℕ → Option ViewNode
search_roots roots r_start r_end zero low high = none
search_roots roots r_start r_end (suc fuel) low high =
    let mid = low + (high - low) / 2 in
    let right = search_roots roots r_start r_end fuel (mid + 1) high in
    let left = search_roots roots r_start r_end fuel low (mid - 1) in
    if leb low high
    then elim (get_elem? roots mid) [
      | none ↦ none
      | some root ↦
          let n = node_of root in
          if leb n.first r_start && leb r_end n.second
          then some root
          else if ltb n.first r_start
          then right
          else if ltb r_start n.first
          then (if mid == 0 then none else left)
          else none
    ]
    else none

-- `find_root_node`: the vector that it returns holds one root or none.
unfoldable pub find_root_node : List ViewNode → ℕ → ℕ → Option ViewNode
unfolding search_roots
find_root_node [] r_start r_end = none
find_root_node (root ∷ roots) r_start r_end =
    search_roots (root ∷ roots) r_start r_end (length (root ∷ roots)) 0 (length (root ∷ roots) - 1)
