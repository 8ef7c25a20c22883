-- ===== src/View/State.antt =====
-- redshow/include/analysis/torch_view.h: the members of `TorchView` that the view forest is kept in.
use ten_prof.Prelude.{
  ℕ, suc, none, some, List, [], ◌∷◌, ◌++◌, ◌==◌, if◌then◌else◌, take, contains, map, min,
}
use ten_prof.Common.Map.{Map, find, assign, u64_key}
use ten_prof.Operation.{MemoryRange, range_key}
use ten_prof.View.{Tensor, ViewNode}
use ten_prof.View.Names.{copy_cstr, append_domain}

-- `mem_object_t`.
pub data MemObject : Type 0 where
  view_node memory_block init_type : MemObject

-- One frame of a Python call path, `python_state_t`; its names fit 512 bytes.
pub record PythonState : Type 0 where
  pub file_name : List ℕ
  pub function_name : List ℕ
  pub function_first_lineno : ℕ
  pub lineno : ℕ

pub record PyStateCtx : Type 0 where
  pub index : ℕ
  pub num_states : ℕ
  pub py_state : List PythonState
  pub object_type : MemObject
  pub ctxid_pcs : Map ℕ (List ℕ)

-- `torch_monitor_op_data_t`, as far as it is read.
pub record OpData : Type 0 where
  pub name : List ℕ
  pub tensor_data : List Tensor

-- A line that a deleted tree leaves in `forest.txt`: the accesses of a node by their PCs.
pub data Line : Type 0 where
  opening : ℕ → ℕ → Map ℕ ℕ → Line
  leaf : ℕ → ℕ → Map ℕ ℕ → Line
  closing : ℕ → Line
  gap : Line

pub record TorchView : Type 0 where
  pub roots : List ViewNode
  pub live_nodes : List ℕ
  pub call_path_map : Map ℕ (List PyStateCtx)
  pub viewnode_mem_range_map : Map ℕ (List MemoryRange)
  pub torchview_memory_snapshot : Map MemoryRange ℕ
  pub op_stack : List OpData
  pub domain_name : List (List ℕ)
  pub num_states : ℕ
  pub python_states : List PythonState
  pub forest_tree_out : List Line

-- `_live_nodes.insert(p)`.
unfoldable pub insert_live : ℕ → List ℕ → List ℕ
insert_live p live = if contains p live then live else p ∷ live

-- `_live_nodes.erase(p)`.
unfoldable pub erase_live : ℕ → List ℕ → List ℕ
erase_live p [] = []
erase_live p (q ∷ live) = let rest = erase_live p live in if p == q then rest else q ∷ rest

abbrev pub max_num_states : ℕ
max_num_states = 30

-- The first frame with the domain behind its function's name.
unfoldable pub mark_domain : List (List ℕ) → ℕ → List PythonState → List PythonState
mark_domain (domain ∷ ds) (suc n) (s ∷ states) =
    record s { function_name = append_domain s.function_name 512 (some domain) } ∷ states
mark_domain ds n states = states

-- One frame, copied into the buffers of `python_state_t`.
copy_frame : PythonState → PythonState
unfolding copy_cstr
copy_frame s = record s {
  file_name = copy_cstr [] (some s.file_name) 512;
  function_name = copy_cstr [] (some s.function_name) 512;
}

-- The `_state` that `update_view_forest` records: the frames of the Python call path, the first of
-- them with the innermost domain, as a view node's.
unfoldable pub view_state : Tensor → TorchView → PyStateCtx
unfolding mark_domain copy_frame
view_state t v = record {
  index = t.index;
  num_states = v.num_states;
  py_state =
      mark_domain v.domain_name v.num_states
        (map copy_frame (take (min v.num_states max_num_states) v.python_states));
  object_type = view_node;
  ctxid_pcs = [];
}

-- `call_path_map[id].push_back(state)`.
unfoldable pub push_state : ℕ → PyStateCtx → Map ℕ (List PyStateCtx) → Map ℕ (List PyStateCtx)
push_state id state m = elim (find id m) [
  | none ↦ assign id (state ∷ []) m
  | some states ↦ assign id (states ++ state ∷ []) m
]
