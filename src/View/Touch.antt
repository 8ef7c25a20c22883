-- ===== src/View/Touch.antt =====
-- redshow/include/analysis/torch_view.h: the counts of accesses that the nodes keep by PC, and the
-- guard against nodes that are gone.
pub mod Counts
use ten_prof.Prelude.{
  ◌<◌, subst, Bool, true, Option, Option-cases, ◌>>=◌, to_eq, ℕ, ◌+◌, ◌%◌, ◌≡◌, ◌∙◌, refl, sym, ap,
  u64_mod, false, none, some, List, [], ◌∷◌, ◌==◌, if◌then◌else◌, map, contains, arith, Bool-cases,
  inl, inr,
}
use ten_prof.Common.Map.{Map, find, assign, u64_key}
use ten_prof.Common.Map.Laws.{find-assign_same}
use ten_prof.View.{Node, ViewNode, Children, view, nil, cons}
use ten_prof.View.State.{TorchView}
use ten_prof.View.Forest.Tracked.{one_if, count, count_children, count_roots, IsTracked}

-- `pc_access[pc]++`, or `pc_access[pc] = 1`.
unfoldable pub count_access : ℕ → Map ℕ ℕ → Map ℕ ℕ
count_access pc m = elim (find pc m) [
  | none ↦ assign pc 1 m
  | some n ↦ assign pc ((n + 1) % u64_mod) m
]

unfoldable pub touch_node : ℕ → ℕ → Node → Node
unfolding count_access
touch_node p pc n = if n.this == p then record n { pc_access = count_access pc n.pc_access } else n

unfoldable mutual
  -- The node at `p` counts one access, wherever it stands.
  pub touch : ℕ → ℕ → ViewNode → ViewNode
  touch p pc (view n cs) = view (touch_node p pc n) (touch_children p pc cs)

  pub touch_children : ℕ → ℕ → Children → Children
  touch_children p pc nil = nil
  touch_children p pc (cons c cs) = cons (touch p pc c) (touch_children p pc cs)

-- `viter->pc_access`, for a pointer into the forest; any other is to freed memory, which is `none`.
unfoldable pub touch_at : ℕ → ℕ → TorchView → Option TorchView
unfolding touch
touch_at p pc v =
    if count_roots p v.roots == 0
    then none
    else some (record v { roots = map (touch p pc) v.roots })

-- One round: a pointer that is not live is skipped.
unfoldable pub touch_live : ℕ → ℕ → TorchView → Option TorchView
unfolding touch_at
touch_live p pc v = if contains p v.live_nodes then touch_at p pc v else some v

-- `update_node_total_access`.
unfoldable pub update_node_total_access : List ℕ → ℕ → TorchView → Option TorchView
unfolding touch_live
update_node_total_access [] pc v = some v
update_node_total_access (p ∷ view_nodes) pc v =
    touch_live p pc v >>= update_node_total_access view_nodes pc
