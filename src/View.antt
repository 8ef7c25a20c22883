-- ===== src/View.antt =====
-- redshow/include/analysis/torch_view.h: the view forest. A tree of the forest holds the views of one
-- storage: the root is the first tensor that was seen there, a child a view that an operator made of
-- its parent. The forest owns its nodes; `this` is a node's address, by which the snapshot, the input
-- table and the set of live nodes refer to it. An `int64_t` is its bit pattern.
pub mod Names
pub mod Find
pub mod Strides
pub mod Address
pub mod State
pub mod Forest
pub mod Blocks
pub mod Touch
use ten_prof.Prelude.{
  ℕ, suc, ◌+◌, ◌-◌, ◌*◌, ◌%◌, ◌^◌, min, take, u64_mod, Bool, true, false, ◌&&◌, ◌||◌, Option, none,
  some, List, [], ◌∷◌, ◌++◌, ltb, leb, ◌==◌, if◌then◌else◌,
}
use ten_prof.Common.Map.{Map}

-- `sizes[i]` and `strides[i]`, for one `i`.
pub record Dimension : Type 0 where
  pub size : ℕ
  pub stride : ℕ

-- `torch_monitor_callback_tensor_data_t`.
pub record Tensor : Type 0 where
  pub index : ℕ
  pub numel : ℕ
  pub dim : ℕ
  pub dtype : ℕ
  pub itemsize : ℕ
  pub storage_offset : ℕ
  pub dims : List Dimension
  pub data_ptr : ℕ
  pub metadata_ptr : ℕ

-- `ViewNode` without its children; `first` and `second` are `mem_block_range`.
pub record Node : Type 0 where
  pub this : ℕ
  pub view_id : ℕ
  pub index : ℕ
  pub numel : ℕ
  pub dim : ℕ
  pub dtype : ℕ
  pub itemsize : ℕ
  pub storage_offset : ℕ
  pub dims : List Dimension
  pub data_ptr : ℕ
  pub metadata_ptr : ℕ
  pub first : ℕ
  pub second : ℕ
  pub is_sorted : Bool
  pub is_memory_write_pc : Bool
  pub pc_access : Map ℕ ℕ

mutual
  pub data ViewNode : Type 0 where
    view : Node → Children → ViewNode

  pub data Children : Type 0 where
    nil : Children
    cons : ViewNode → Children → Children

abbrev pub node_of : ViewNode → Node
node_of (view n cs) = n

abbrev pub children_of : ViewNode → Children
children_of (view n cs) = cs

-- `tensor.index == -1 || tensor.numel <= 0`, the test that skips an argument that is no tensor.
unfoldable pub is_undefined : Tensor → Bool
is_undefined t = (t.index == u64_mod - 1) || ((t.numel == 0) || leb (2 ^ 63) t.numel)

-- One past the last byte of a tensor, in `u64`.
unfoldable pub end_of : Tensor → ℕ
end_of t = (t.data_ptr + t.itemsize * t.numel) % u64_mod

abbrev pub max_dimension : ℕ
max_dimension = 128

-- The constructor for a root node, at the address `this`.
unfoldable pub root_node : ℕ → ℕ → Tensor → Node
unfolding end_of
root_node this view_id t = record {
  this = this;
  view_id = view_id;
  index = t.index;
  numel = t.numel;
  dim = t.dim;
  dtype = t.dtype;
  itemsize = t.itemsize;
  storage_offset = t.storage_offset;
  dims = take (min max_dimension t.dim) t.dims;
  data_ptr = t.data_ptr;
  metadata_ptr = t.metadata_ptr;
  first = t.data_ptr;
  second = end_of t;
  is_sorted = true;
  is_memory_write_pc = false;
  pc_access = [];
}

-- The constructor for any other node, in the block of its parent.
unfoldable pub child_node : ℕ → ℕ → Tensor → ℕ → ℕ → Node
unfolding root_node
child_node this view_id t first second = record (root_node this view_id t) {
  first = first;
  second = second;
  is_sorted = false;
}

abbrev mutual
  -- What holds of a node and of all below it.
  pub AllNodes : (Node → Type 0) → ViewNode → Type 0
  AllNodes P (view n cs) = P n × AllChildren P cs

  pub AllChildren : (Node → Type 0) → Children → Type 0
  AllChildren P nil = Unit
  AllChildren P (cons c cs) = AllNodes P c × AllChildren P cs
