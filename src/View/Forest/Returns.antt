-- ===== src/View/Forest/Returns.antt =====
-- When giving back a block returns: the call paths that its loop reads are there.
use ten_prof.Prelude.{
  ℕ, ◌≡◌, ◌∙◌, refl, sym, subst, Bool, true, false, some, List, [], ◌∷◌, ◌+◌, ◌%◌, ltb, leb, ◌==◌,
  u64_mod, All, Bool-cases, inl, inr, ◌⊎◌,
}
use ten_prof.Common.Map.{Map, find, erase, IsSorted, u64_key}
use ten_prof.Common.Map.Laws.{find-erase, erase-IsSortedFrom}
use ten_prof.View.{ViewNode, Children, view, nil, cons, node_of}
use ten_prof.View.State.{PyStateCtx, TorchView}
use ten_prof.View.Forest.{
  is_leaf_node, delete_children_nodes, delete_each, is_unused, no_pcs, unaccessed, keep, release,
  free_root, sweep, sweep_from, drop_ranges, delete_forest_tree,
}

abbrev pub Paths : Type 0
Paths = Map ℕ (List PyStateCtx)

-- The node has a call path.
abbrev pub HasPath : Paths → ViewNode → Type 0
HasPath m root =
    (state : PyStateCtx) × (states : List PyStateCtx) × (find (node_of root).view_id m
      ≡ some (state ∷ states))

-- Each root has a call path, and no two roots share their id.
abbrev pub HavePaths : Paths → List ViewNode → Type 0
HavePaths m [] = Unit
HavePaths m (root ∷ roots) =
    HasPath m root
    × All (λ r. ((node_of r).view_id == (node_of root).view_id) ≡ false) roots
    × HavePaths m roots

mutual
  unfolding delete_children_nodes

  delete_children_nodes-paths :
      (x : ViewNode) (v : TorchView) → (delete_children_nodes x v).call_path_map ≡ v.call_path_map
  delete_children_nodes-paths (view n cs) v = elim (Bool-cases (is_leaf_node cs)) [
    | inl here ↦ rw here refl
    | inr below ↦ rw below (delete_each-paths cs _)
  ]

  delete_each-paths :
      (cs : Children) (v : TorchView) → (delete_each cs v).call_path_map ≡ v.call_path_map
  delete_each-paths nil v = refl
  delete_each-paths (cons c cs) v = delete_each-paths cs _ ∙ delete_children_nodes-paths c _

unaccessed_returns :
    (s : PyStateCtx) (states : List PyStateCtx) → (b : Bool) × (unaccessed (s ∷ states) ≡ some b)
unfolding unaccessed
unaccessed_returns s [] = (no_pcs s.ctxid_pcs, refl)
unaccessed_returns s (s' ∷ states) = (false, refl)

is_unused_returns :
    (root : ViewNode) (v : TorchView)
    → HasPath v.call_path_map root
    → (b : Bool) × (is_unused root v ≡ some b)
unfolding is_unused
is_unused_returns (view n cs) v (state, states, there) = elim (Bool-cases (is_leaf_node cs)) [
  | inr below ↦ rw (below, is_unused) (false, refl)
  | inl here ↦ rw (here, is_unused) (rw (there, is_unused) (unaccessed_returns state states))
]

-- A root that is freed leaves the call paths, or takes its own along.
free_root_returns :
    (root : ViewNode) (v : TorchView)
    → HasPath v.call_path_map root
    → (v' : TorchView) × (free_root root v ≡ some v')
      × ((v'.call_path_map ≡ v.call_path_map)
          ⊎ (v'.call_path_map ≡ erase (node_of root).view_id v.call_path_map))
unfolding free_root release
free_root_returns root v path =
    let (b, e) = is_unused_returns root v path in rw (e, free_root) (by_use b)
  where
    by_use :
        (b : Bool)
        → (v' : TorchView) × (release root v (some b) ≡ some v')
          × ((v'.call_path_map ≡ v.call_path_map)
              ⊎ (v'.call_path_map ≡ erase (node_of root).view_id v.call_path_map))
    by_use true = (_, refl, inr refl)
    by_use false = (_, refl, inl (delete_children_nodes-paths root _))

HavePaths-erase :
    (id : ℕ) (m : Paths) (roots : List ViewNode)
    → IsSorted m
    → All (λ r. ((node_of r).view_id == id) ≡ false) roots
    → HavePaths m roots
    → HavePaths (erase id m) roots
HavePaths-erase id m [] sorted others paths = tt
HavePaths-erase id m (root ∷ roots) sorted others ((state, states, there), distinct, rest) = (
  (state, states, rw (find-erase 0 id (node_of root).view_id m sorted) (rw others.0 there)),
  distinct,
  HavePaths-erase id m roots sorted others.1 rest,
)

sweep_returns :
    (start limit : ℕ) (roots : List ViewNode) (v : TorchView)
    → IsSorted v.call_path_map
    → HavePaths v.call_path_map roots
    → (result : List ViewNode × TorchView) × (sweep start limit roots v ≡ some result)
unfolding sweep keep
sweep_returns start limit [] v sorted paths = (([], v), refl)
sweep_returns start limit (root ∷ rest) v sorted paths =
    elim (Bool-cases (ltb limit (node_of root).second)) [
      | inl past ↦ rw (past, sweep) (_, refl)
      | inr within ↦ elim (Bool-cases (leb start (node_of root).first)) [
        | inr before ↦
            let (result, e) = sweep_returns start limit rest v sorted paths.2 in
            rw (within, sweep) (rw (before, sweep) (rw (e, keep) (_, refl)))
        | inl here ↦
            let (v', freed, left) = free_root_returns root v paths.0 in
            let m' : IsSorted v'.call_path_map × HavePaths v'.call_path_map rest = elim left [
              | inl same ↦
                  subst (λ (m : Paths). IsSorted m × HavePaths m rest) (sym same) (sorted, paths.2)
              | inr less ↦
                  subst (λ (m : Paths). IsSorted m × HavePaths m rest) (sym less)
                    (
                      erase-IsSortedFrom 0 (node_of root).view_id v.call_path_map sorted,
                      HavePaths-erase (node_of root).view_id v.call_path_map rest sorted paths.1
                          paths.2,
                    )
            ] in
            rw (within, sweep)
              (rw (here, sweep) (rw (freed, sweep) (sweep_returns start limit rest v' m'.0 m'.1)))
      ]
    ]

sweep_from_returns :
    (start limit : ℕ) (roots : List ViewNode) (v : TorchView)
    → IsSorted v.call_path_map
    → HavePaths v.call_path_map roots
    → (result : List ViewNode × TorchView) × (sweep_from start limit roots v ≡ some result)
unfolding sweep_from keep
sweep_from_returns start limit [] v sorted paths = (([], v), refl)
sweep_from_returns start limit (root ∷ rest) v sorted paths =
    elim (Bool-cases (ltb (node_of root).data_ptr start)) [
      | inl before ↦
          let (result, e) = sweep_from_returns start limit rest v sorted paths.2 in
          rw (before, sweep_from) (rw (e, keep) (_, refl))
      | inr at ↦ rw (at, sweep_from) (sweep_returns start limit (root ∷ rest) v sorted paths)
    ]

-- Giving back a block returns, if every root has a call path, no two roots share their id and the
-- ids of the call paths rise.
pub delete_forest_tree_returns :
    (mem_start_addr total_allocated : ℕ) (v : TorchView)
    → IsSorted v.call_path_map
    → HavePaths v.call_path_map v.roots
    → (v' : TorchView) × (delete_forest_tree mem_start_addr total_allocated v ≡ some v')
unfolding delete_forest_tree
delete_forest_tree_returns mem_start_addr total_allocated v sorted paths =
    let limit : ℕ = (mem_start_addr + total_allocated) % u64_mod in
    let dropped : TorchView = record v {
      torchview_memory_snapshot = drop_ranges mem_start_addr limit v.torchview_memory_snapshot;
    } in
    let (result, e) = sweep_from_returns mem_start_addr limit v.roots dropped sorted paths in
    rw (e, delete_forest_tree) (_, refl)
