-- ===== src/Tests/Forest.antt =====
-- A forest with one storage and a view of it: the runs of redshow/include/analysis/torch_view.h on it.
use ten_prof.Prelude.{
  ◌<◌, ◌+◌, ◌%◌, u64_mod, ℕ, ◌≡◌, ◌↔◌, ◌⊎◌, refl, subst, false, none, some, [], ◌∷◌, arith,
  get_elem?, ℕ_discrete, dec_lt,
}
use ten_prof.Common.Map.{find, has, assign, erase, IsSorted, u64_key}
use ten_prof.Operation.{range_key}
use ten_prof.View.{
  Tensor, ViewNode, view, nil, cons, node_of, root_node, child_node, AllNodes, end_of, is_undefined,
}
use ten_prof.View.Names.{append_domain}
use ten_prof.View.Find.{is_same, find_node, find_root_node}
use ten_prof.View.Find.Tree.{IsIn, find_node_lem}
use ten_prof.View.Find.Search.{Holds, AreDisjoint, find_root_node_lem}
use ten_prof.View.State.{TorchView, view_state}
use ten_prof.View.Forest.{update_view_forest, delete_forest_tree}
use ten_prof.View.Forest.Tracked.{IsTracked, count, count_roots, update_view_forest-IsTracked}
use ten_prof.View.Touch.{update_node_total_access}
use ten_prof.View.Touch.Counts.{update_node_total_access_lem, accesses_roots, hits}
use ten_prof.View.Blocks.{
  MemoryBlock, register_memory_block, unregister_memory_block,
  unregister_memory_block-register_memory_block,
}
use ten_prof.View.Forest.Returns.{HavePaths, delete_forest_tree_returns}
use ten_prof.View.Forest.Freed.{delete_forest_tree-IsTracked}

-- A matrix of 4 rows and 8 columns of 4 bytes at 1000.
abbrev matrix : Tensor
matrix = record {
  index = 0;
  numel = 32;
  dim = 2;
  dtype = 6;
  itemsize = 4;
  storage_offset = 0;
  dims = record { size = 4; stride = 8 } ∷ record { size = 8; stride = 1 } ∷ [];
  data_ptr = 1000;
  metadata_ptr = 50;
}

-- Its last row.
abbrev row : Tensor
row = record matrix {
  numel = 8;
  dim = 1;
  dims = record { size = 8; stride = 1 } ∷ [];
  data_ptr = 1096;
  metadata_ptr = 51;
}

abbrev nothing : TorchView
nothing = record {
  roots = [];
  live_nodes = [];
  call_path_map = [];
  viewnode_mem_range_map = [];
  torchview_memory_snapshot = [];
  op_stack = record { name = []; tensor_data = matrix ∷ [] } ∷ [];
  domain_name = [];
  num_states = 0;
  python_states = [];
  forest_tree_out = [];
}

program : Unit {0}
unfolding ℕ_discrete dec_lt find has assign erase append_domain root_node child_node end_of is_same
    find_node find_root_node view_state is_undefined update_view_forest delete_forest_tree count
    count_roots
program = tt

abbrev tree : ViewNode
tree = view (root_node 11 1 matrix) (cons (view (child_node 12 2 row 1000 1128) nil) nil)

abbrev one_tree : TorchView
one_tree = record nothing {
  roots = tree ∷ [];
  live_nodes = 12 ∷ 11 ∷ [];
  call_path_map = (1, view_state matrix nothing ∷ []) ∷ (2, view_state row nothing ∷ []) ∷ [];
}

-- A second tensor, elsewhere.
abbrev vector : Tensor
vector = record row { data_ptr = 5000; metadata_ptr = 52 }

two_trees : (update_view_forest vector 3 13 one_tree).1.live_nodes ≡ 13 ∷ 12 ∷ 11 ∷ []
unfolding program
two_trees = refl

filed_one : TorchView
filed_one = (update_view_forest matrix 1 11 nothing).1

-- The matrix, and then its row, are filed as a root and a child of it.
filed_two : (update_view_forest row 2 12 filed_one).1 ≡ one_tree
unfolding program filed_one
filed_two = refl

one_free : count_roots 12 filed_one.roots ≡ 0
unfolding program filed_one
one_free = refl

nothing-IsTracked : IsTracked nothing
unfolding program
nothing-IsTracked p = refl

one_tree-IsTracked : IsTracked one_tree
unfolding filed_one count_roots
one_tree-IsTracked = subst IsTracked filed_two (
    update_view_forest-IsTracked row 2 12 filed_one one_free
      (update_view_forest-IsTracked matrix 1 11 nothing refl nothing-IsTracked))

fresh : count_roots 13 one_tree.roots ≡ 0
unfolding program
fresh = refl

update_view_forest-IsTracked_example : IsTracked (update_view_forest vector 3 13 one_tree).1
update_view_forest-IsTracked_example =
    update_view_forest-IsTracked vector 3 13 one_tree fresh one_tree-IsTracked

-- The storage is freed: both nodes go.
abbrev freed : TorchView
unfolding program
freed = record one_tree {
  roots = [];
  live_nodes = [];
  forest_tree_out = elim (delete_forest_tree 1000 128 one_tree) [
    | none ↦ []
    | some v ↦ v.forest_tree_out
  ];
}

freed_all : delete_forest_tree 1000 128 one_tree ≡ some freed
unfolding program
freed_all = refl

delete_forest_tree-IsTracked_example : IsTracked freed
delete_forest_tree-IsTracked_example =
    delete_forest_tree-IsTracked 1000 128 one_tree freed one_tree-IsTracked freed_all

find_node_lem_example :
    ((x : ViewNode) × (find_node 1096 51 tree ≡ some x)
      × IsIn x tree
      × ((node_of x).data_ptr ≡ 1096)
      × ((node_of x).metadata_ptr ≡ 51))
    ⊎ ((find_node 1096 51 tree ≡ none) × AllNodes (λ n. is_same 1096 51 n ≡ false) tree)
find_node_lem_example = find_node_lem 1096 51 tree

abbrev second : ViewNode
second = view (root_node 13 3 vector) nil

in_order : AreDisjoint (tree ∷ second ∷ [])
unfolding program
in_order = ground arith

find_root_node_lem_example :
    (find_root_node (tree ∷ second ∷ []) 1096 1128 ≡ some tree)
    ↔ ((k : ℕ) × (get_elem? (tree ∷ second ∷ []) k ≡ some tree) × Holds tree 1096 1128)
find_root_node_lem_example =
    find_root_node_lem (tree ∷ second ∷ []) 1096 1128 tree in_order (omega arith)

update_node_total_access_lem_example :
    (v' : TorchView) × (update_node_total_access (12 ∷ 99 ∷ 12 ∷ []) 8200 one_tree ≡ some v')
    × IsTracked v'
    × ((q n : ℕ)
        → accesses_roots q 8200 one_tree.roots ≡ some n
        → n < u64_mod
        → accesses_roots q 8200 v'.roots ≡ some ((n + hits q (12 ∷ 99 ∷ 12 ∷ [])) % u64_mod))
update_node_total_access_lem_example =
    update_node_total_access_lem (12 ∷ 99 ∷ 12 ∷ []) 8200 one_tree one_tree-IsTracked

stranger : count_roots 99 one_tree.roots ≡ 0
unfolding program
stranger = refl

abbrev block_at : ℕ → MemoryBlock
block_at ptr = record {
  block_id = 1;
  device_type = 1;
  ptr = ptr;
  size = 512;
  total_allocated = 512;
  total_reserved = 1024;
}

unregister_memory_block-register_memory_block_example :
    unregister_memory_block 4096 (register_memory_block (block_at 4096) (block_at 1024 ∷ []))
    ≡ block_at 1024 ∷ []
unregister_memory_block-register_memory_block_example =
    unregister_memory_block-register_memory_block (block_at 4096) (block_at 1024 ∷ []) (refl, tt)

paths-IsSorted : IsSorted one_tree.call_path_map
paths-IsSorted = (omega arith, (omega arith, tt))

tree-HavePaths : HavePaths one_tree.call_path_map one_tree.roots
unfolding program
tree-HavePaths = ((view_state matrix nothing, [], refl), tt, tt)

delete_forest_tree_returns_example :
    (v' : TorchView) × (delete_forest_tree 1000 128 one_tree ≡ some v')
delete_forest_tree_returns_example =
    delete_forest_tree_returns 1000 128 one_tree paths-IsSorted tree-HavePaths
