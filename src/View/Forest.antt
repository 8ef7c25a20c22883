-- ===== src/View/Forest.antt =====
-- redshow/include/analysis/torch_view.h: `update_view_forest`, which files a captured tensor, and
-- `delete_forest_tree`, which frees the trees of a block of memory that PyTorch gives back.
pub mod Tracked
pub mod Freed
pub mod Returns
use ten_prof.Prelude.{
  ℕ, suc, ◌+◌, ◌%◌, u64_mod, Bool, true, false, ◌&&◌, Option, none, some, List, [], ◌∷◌, ◌++◌, ◌==◌,
  ltb, leb, if◌then◌else◌, length, map,
}
use ten_prof.Common.Map.{Map, find, assign, erase, u64_key}
use ten_prof.Operation.{MemoryRange, range_key}
use ten_prof.View.{
  Tensor, Node, ViewNode, Children, view, nil, cons, node_of, children_of, is_undefined, end_of,
  root_node, child_node,
}
use ten_prof.View.Find.{find_node, find_root_node}
use ten_prof.View.State.{
  TorchView, PyStateCtx, OpData, Line, opening, leaf, closing, gap, insert_live, erase_live,
  view_state, push_state,
}

abbrev pub snoc : Children → ViewNode → Children
snoc nil v = cons v nil
snoc (cons c cs) v = cons c (snoc cs v)

unfoldable mutual
  -- `p->_children.push_back(child)`, wherever the node at `p` stands.
  pub push_child : ℕ → ViewNode → ViewNode → ViewNode
  push_child p child (view n cs) =
      let below = push_children p child cs in
      view n (if n.this == p then snoc below child else below)

  pub push_children : ℕ → ViewNode → Children → Children
  push_children p child nil = nil
  push_children p child (cons c cs) = cons (push_child p child c) (push_children p child cs)

-- The loop over the inputs of the operator: the first that is a node of the tree and whose block
-- holds the start of the tensor is the parent.
unfoldable pub find_parent : ℕ → ViewNode → List Tensor → Option ViewNode
find_parent data_ptr root [] = none
find_parent data_ptr root (t ∷ inputs) =
    let rest = find_parent data_ptr root inputs in
    if is_undefined t then rest else elim (find_node t.data_ptr t.metadata_ptr root) [
      | none ↦ rest
      | some v ↦
          if leb (node_of v).first data_ptr && leb data_ptr (node_of v).second then some v else rest
    ]

-- `_roots.insert(std::lower_bound(...), root)`, by `data_ptr`.
unfoldable pub insert_root : ViewNode → List ViewNode → List ViewNode
insert_root root [] = root ∷ []
insert_root root (r ∷ roots) =
    if ltb (node_of r).data_ptr (node_of root).data_ptr
    then r ∷ insert_root root roots
    else root ∷ r ∷ roots

-- A tensor that lies in no block of the forest becomes a root at the address `this`.
unfoldable pub add_root : Tensor → ℕ → ℕ → TorchView → TorchView
unfolding insert_root view_state insert_live root_node
add_root t global_id this v = record v {
  live_nodes = insert_live this v.live_nodes;
  roots = insert_root (view (root_node this global_id t) nil) v.roots;
  call_path_map = assign global_id (view_state t v ∷ []) v.call_path_map;
}

-- A new view becomes a child of `parent`, at the address `this`.
unfoldable pub add_child : Tensor → ℕ → ℕ → Node → TorchView → TorchView
unfolding push_child view_state insert_live child_node
add_child t global_id this parent v =
    let node = view (child_node this global_id t parent.first parent.second) nil in
    record v {
      live_nodes = insert_live this v.live_nodes;
      roots = map (push_child parent.this node) v.roots;
      call_path_map = assign global_id (view_state t v ∷ []) v.call_path_map;
    }

-- `_op_stack.top().input_output_data`; no caller comes here with an empty stack.
unfoldable pub top_inputs : List OpData → List Tensor
top_inputs [] = []
top_inputs (op ∷ ops) = op.tensor_data

-- What follows the loop over the inputs: without a parent the result is a null pointer.
unfoldable pub attach : Tensor → ℕ → ℕ → TorchView → Option ViewNode → Option ℕ × TorchView
unfolding add_child
attach t global_id this v none = (none, v)
attach t global_id this v (some parent) = (some this, add_child t global_id this (node_of parent) v)

-- In a block that the forest knows: the tensor is a node of the tree, or a new view.
unfoldable pub file_view :
    Tensor → ℕ → ℕ → TorchView → ViewNode → Option ViewNode → Option ℕ × TorchView
unfolding attach find_parent top_inputs push_state view_state
file_view t global_id this v root (some found) = (
  some (node_of found).this,
  record v { call_path_map = push_state (node_of found).view_id (view_state t v) v.call_path_map },
)
file_view t global_id this v root none =
    attach t global_id this v (find_parent t.data_ptr root (top_inputs v.op_stack))

unfoldable pub file_tensor : Tensor → ℕ → ℕ → TorchView → Option ViewNode → Option ℕ × TorchView
unfolding file_view add_root
file_tensor t global_id this v none = (some this, add_root t global_id this v)
file_tensor t global_id this v (some root) =
    file_view t global_id this v root (find_node t.data_ptr t.metadata_ptr root)

-- `update_view_forest`: the node's address, or a null pointer, and the forest.
unfoldable pub update_view_forest : Tensor → ℕ → ℕ → TorchView → Option ℕ × TorchView
unfolding end_of file_tensor
update_view_forest t global_id this v =
    file_tensor t global_id this v (find_root_node v.roots t.data_ptr (end_of t))

-- `is_leaf_node`.
unfoldable pub is_leaf_node : Children → Bool
is_leaf_node nil = true
is_leaf_node (cons c cs) = false

unfoldable mutual
  -- `delete_children_nodes`: what it prints, and the members that it changes.
  pub delete_children_nodes : ViewNode → TorchView → TorchView
  delete_children_nodes (view n cs) v =
      let printed = delete_each cs (record v {
        forest_tree_out = v.forest_tree_out ++ opening n.view_id n.data_ptr n.pc_access ∷ [];
      }) in
      if is_leaf_node cs
      then record v {
        forest_tree_out = v.forest_tree_out ++ leaf n.view_id n.data_ptr n.pc_access ∷ [];
      }
      else record printed { forest_tree_out = printed.forest_tree_out ++ closing n.view_id ∷ [] }

  -- Its loop over the children.
  pub delete_each : Children → TorchView → TorchView
  delete_each nil v = v
  delete_each (cons c cs) v =
      let v' = delete_children_nodes c (record v {
        viewnode_mem_range_map = erase (node_of c).view_id v.viewnode_mem_range_map;
      }) in
      delete_each cs (record v' { live_nodes = erase_live (node_of c).this v'.live_nodes })

-- `ctxid_pcs.empty()`.
unfoldable pub no_pcs : Map ℕ (List ℕ) → Bool
no_pcs [] = true
no_pcs (e ∷ m) = false

-- `size() <= 1 && at(0).ctxid_pcs.empty()`; `none` is the `std::out_of_range` of `at(0)`.
unfoldable pub unaccessed : List PyStateCtx → Option Bool
unfolding no_pcs
unaccessed [] = none
unaccessed (state ∷ []) = some (no_pcs state.ctxid_pcs)
unaccessed (state ∷ state' ∷ states) = some false

-- A root with no children whose call paths saw no access; a missing entry is an empty one.
unfoldable pub is_unused : ViewNode → TorchView → Option Bool
unfolding is_leaf_node unaccessed
is_unused (view n cs) v =
    if is_leaf_node cs
    then elim (find n.view_id v.call_path_map) [ none ↦ none | some states ↦ unaccessed states ]
    else some false

-- One root is freed, by whether it is unused.
unfoldable pub release : ViewNode → TorchView → Option Bool → Option TorchView
unfolding delete_children_nodes erase_live
release root v none = none
release root v (some true) = some (record v {
  call_path_map = erase (node_of root).view_id v.call_path_map;
  live_nodes = erase_live (node_of root).this v.live_nodes;
})
release root v (some false) =
    let v' = delete_children_nodes root (record v {
      viewnode_mem_range_map = erase (node_of root).view_id v.viewnode_mem_range_map;
    }) in
    some (record v' {
      forest_tree_out = v'.forest_tree_out ++ gap ∷ [];
      live_nodes = erase_live (node_of root).this v'.live_nodes;
    })

unfoldable pub free_root : ViewNode → TorchView → Option TorchView
unfolding is_unused release
free_root root v = release root v (is_unused root v)

-- A root that stays in front of those that are decided next.
keep : ViewNode → Option (List ViewNode × TorchView) → Option (List ViewNode × TorchView)
keep root none = none
keep root (some (roots, v)) = some (root ∷ roots, v)

-- The loop of `delete_forest_tree` over the roots behind the iterator: those that stay, and the members.
unfoldable pub sweep : ℕ → ℕ → List ViewNode → TorchView → Option (List ViewNode × TorchView)
unfolding free_root keep
sweep start limit [] v = some ([], v)
sweep start limit (root ∷ rest) v = elim (ltb limit (node_of root).second) [
  | true ↦ some (root ∷ rest, v)
  | false ↦ elim (leb start (node_of root).first) [
    | true ↦ elim (free_root root v) [ none ↦ none | some v' ↦ sweep start limit rest v' ]
    | false ↦ keep root (sweep start limit rest v)
  ]
]

-- `std::lower_bound` by `data_ptr`, and the sweep from there on.
unfoldable pub sweep_from : ℕ → ℕ → List ViewNode → TorchView → Option (List ViewNode × TorchView)
unfolding sweep keep
sweep_from start limit [] v = some ([], v)
sweep_from start limit (root ∷ rest) v = elim (ltb (node_of root).data_ptr start) [
  | true ↦ keep root (sweep_from start limit rest v)
  | false ↦ sweep start limit (root ∷ rest) v
]

-- The loop over the snapshot, which drops the ranges that start in the freed block.
unfoldable pub drop_ranges : ℕ → ℕ → Map MemoryRange ℕ → Map MemoryRange ℕ
drop_ranges start limit [] = []
drop_ranges start limit ((range, p) ∷ m) =
    let rest = drop_ranges start limit m in
    if leb start range.start && leb range.start limit then rest else (range, p) ∷ rest

-- `delete_forest_tree` for a block of `total_allocated` bytes at `mem_start_addr`.
unfoldable pub delete_forest_tree : ℕ → ℕ → TorchView → Option TorchView
unfolding sweep_from drop_ranges
delete_forest_tree mem_start_addr total_allocated v =
    let limit = (mem_start_addr + total_allocated) % u64_mod in
    let dropped = record v {
      torchview_memory_snapshot = drop_ranges mem_start_addr limit v.torchview_memory_snapshot;
    } in
    elim (sweep_from mem_start_addr limit v.roots dropped) [
      | none ↦ none
      | some (roots, v') ↦ some (record v' { roots = roots })
    ]
