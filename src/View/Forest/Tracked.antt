-- ===== src/View/Forest/Tracked.antt =====
-- `_live_nodes` holds exactly the nodes of the forest, each of which stands in it once: after
-- any call a pointer that passes the test for liveness is a node that was not freed.
use mathlib.Core.Option.{some-injective}
use native.Mathlib.Nat.{le_trans}
use ten_prof.Prelude.{
  zero, ap, ◌&&◌, get_elem?, ℕ, suc, ◌+◌, ◌*◌, ◌≤◌, ◌≡◌, refl, ◌∙◌, Bool, Option, none, some, List,
  [], ◌∷◌, ◌==◌, ltb, leb, contains, map, if◌then◌else◌, arith, Bool-cases, Option-cases, inl, inr,
}
use ten_prof.View.{
  Tensor, Node, ViewNode, Children, view, nil, cons, node_of, root_node, child_node, is_undefined,
  end_of,
}
use ten_prof.View.Find.{find_node, find_root_node}
use ten_prof.View.Find.Tree.{IsIn, IsUnder, here, below, first, later, find_node-IsIn}
use ten_prof.View.Find.Search.{find_root_node_at}
use ten_prof.View.State.{TorchView, insert_live, erase_live}
use ten_prof.View.Forest.{
  find_parent, top_inputs, snoc, push_child, push_children, insert_root, add_root, add_child,
  attach, file_view, file_tensor, update_view_forest,
}

abbrev pub one_if : Bool → ℕ
one_if b = if b then 1 else 0

unfoldable mutual
  -- How often the address `p` stands in a tree.
  pub count : ℕ → ViewNode → ℕ
  count p (view n cs) = one_if (n.this == p) + count_children p cs

  pub count_children : ℕ → Children → ℕ
  count_children p nil = 0
  count_children p (cons c cs) = count p c + count_children p cs

unfoldable pub count_roots : ℕ → List ViewNode → ℕ
count_roots p [] = 0
count_roots p (r ∷ roots) = count p r + count_roots p roots

-- The test for liveness, as a number.
abbrev pub live : ℕ → List ℕ → ℕ
live p l = one_if (contains p l)

-- Each node stands in the forest once and is tracked; nothing else is.
abbrev pub IsTracked : TorchView → Type 0
IsTracked v = (p : ℕ) → count_roots p v.roots ≡ live p v.live_nodes

live-insert_live :
    (p q : ℕ) (l : List ℕ) → live p (insert_live q l) ≡ (if p == q then 1 else live p l)
unfolding insert_live
live-insert_live p q l = ground (arith)

pub live-erase_live :
    (p q : ℕ) (l : List ℕ) → live p (erase_live q l) ≡ (if p == q then 0 else live p l)
unfolding erase_live
live-erase_live p q [] = ground arith
live-erase_live p q (x ∷ l) = ground (arith, live-erase_live p q l)

count_children-snoc :
    (p : ℕ) (cs : Children) (v : ViewNode)
    → count_children p (snoc cs v) ≡ count_children p cs + count p v
unfolding count
count_children-snoc p nil v = omega arith
count_children-snoc p (cons c cs) v = omega (arith, count_children-snoc p cs v)

-- A leaf that is pushed below each node at `q` counts as often as `q` stands there.
mutual
  unfolding count push_child

  count-push_child :
      (p q : ℕ) (leaf t : ViewNode)
      → count p (push_child q leaf t) ≡ count p t + count q t * count p leaf
  count-push_child p q leaf (view n cs) = elim (Bool-cases (n.this == q)) [
    | inl hit ↦ rw hit (
        omega (
          arith,
          count_children-snoc p (push_children q leaf cs) leaf,
          count-push_children p q leaf cs,
        ))
    | inr miss ↦ rw miss (omega (arith, count-push_children p q leaf cs))
  ]

  count-push_children :
      (p q : ℕ) (leaf : ViewNode) (cs : Children)
      → count_children p (push_children q leaf cs)
        ≡ count_children p cs + count_children q cs * count p leaf
  count-push_children p q leaf nil = omega arith
  count-push_children p q leaf (cons c cs) =
      omega (arith, count-push_child p q leaf c, count-push_children p q leaf cs)

count_roots-push_child :
    (p q : ℕ) (leaf : ViewNode) (roots : List ViewNode)
    → count_roots p (map (push_child q leaf) roots)
      ≡ count_roots p roots + count_roots q roots * count p leaf
unfolding count_roots
count_roots-push_child p q leaf [] = omega arith
count_roots-push_child p q leaf (r ∷ roots) =
    omega (arith, count-push_child p q leaf r, count_roots-push_child p q leaf roots)

count_roots-insert_root :
    (p : ℕ) (r : ViewNode) (roots : List ViewNode)
    → count_roots p (insert_root r roots) ≡ count p r + count_roots p roots
unfolding count_roots insert_root
count_roots-insert_root p r [] = omega arith
count_roots-insert_root p r (x ∷ roots) =
    elim (Bool-cases (ltb (node_of x).data_ptr (node_of r).data_ptr)) [
      | inl lt ↦ rw lt (omega (arith, count_roots-insert_root p r roots))
      | inr ge ↦ rw ge
    ]

count_leaf : (p : ℕ) (n : Node) → count p (view n nil) ≡ one_if (n.this == p)
unfolding count
count_leaf p n = omega arith

tally :
    (this p : ℕ) (roots : List ViewNode) (l : ℕ)
    → count_roots this roots ≡ 0
    → count_roots p roots ≡ l
    → one_if (this == p) + count_roots p roots ≡ (if p == this then 1 else l)
tally this p roots l fresh e = ground arith

-- A new root at an address that is not in use.
add_root-IsTracked :
    (t : Tensor) (global_id this : ℕ) (v : TorchView)
    → count_roots this v.roots ≡ 0
    → IsTracked v
    → IsTracked (add_root t global_id this v)
unfolding add_root root_node
add_root-IsTracked t global_id this v fresh tracked p =
    rw (count_roots-insert_root p _ v.roots, count_leaf, live-insert_live p this v.live_nodes)
      (tally this p v.roots (live p v.live_nodes) fresh (tracked p))

one_if_same : (n : ℕ) → one_if (n == n) ≡ 1
one_if_same n = ground arith

count_self : (x : ViewNode) → 1 ≤ count (node_of x).this x
unfolding count
count_self (view n cs) = omega (arith, one_if_same n.this)

-- A node of a tree is counted in it.
mutual
  unfolding count

  IsIn-count : {x t : ViewNode} → IsIn x t → 1 ≤ count (node_of x).this t
  IsIn-count {x} here = count_self x
  IsIn-count (below under) = omega (arith, IsUnder-count under)

  IsUnder-count :
      {x : ViewNode} {cs : Children} → IsUnder x cs → 1 ≤ count_children (node_of x).this cs
  IsUnder-count (first place) = omega (arith, IsIn-count place)
  IsUnder-count (later under) = omega (arith, IsUnder-count under)

-- The parent that `update_view_forest` finds stands in the root.
find_parent-IsIn :
    (d : ℕ) (root : ViewNode) (inputs : List Tensor) (x : ViewNode)
    → find_parent d root inputs ≡ some x
    → IsIn x root
unfolding find_parent
find_parent-IsIn d root [] x e = cc
find_parent-IsIn d root (t ∷ inputs) x e = elim (Bool-cases (is_undefined t)) [
  | inl skip ↦ find_parent-IsIn d root inputs x (rw skip at e)
  | inr on ↦ elim (Option-cases (find_node t.data_ptr t.metadata_ptr root)) [
    | inl missing ↦ find_parent-IsIn d root inputs x (rw missing at (rw on at e))
    | inr (y, found) ↦ elim (Bool-cases (leb (node_of y).first d && leb d (node_of y).second)) [
      | inl inside ↦
          let same : y ≡ x = some-injective _ _ (rw inside at (rw found at (rw on at e))) in
          (find_node-IsIn t.data_ptr t.metadata_ptr root x (found ∙ ap some same)).0
      | inr outside ↦ find_parent-IsIn d root inputs x (rw outside at (rw found at (rw on at e)))
    ]
  ]
]

count_at :
    (k p : ℕ) (roots : List ViewNode) (root : ViewNode)
    → get_elem? roots k ≡ some root
    → count p root ≤ count_roots p roots
unfolding count_roots
count_at k p [] root e = cc
count_at zero p (r ∷ roots) root e = rw (some-injective _ _ e) (omega arith)
count_at (suc k) p (r ∷ roots) root e = omega (arith, count_at k p roots root e)

-- A new view at an address that is not in use, below a node that is there.
add_child-IsTracked :
    (t : Tensor) (global_id this : ℕ) (parent : Node) (v : TorchView)
    → count_roots this v.roots ≡ 0
    → 1 ≤ count_roots parent.this v.roots
    → IsTracked v
    → IsTracked (add_child t global_id this parent v)
unfolding add_child child_node root_node
add_child-IsTracked t global_id this parent v fresh there tracked p =
    let once : count_roots parent.this v.roots ≡ 1 = ground (arith, tracked parent.this) in
    rw
      (
        count_roots-push_child p parent.this _ v.roots,
        once,
        count_leaf,
        live-insert_live p this v.live_nodes,
      )
      (omega (arith, tally this p v.roots (live p v.live_nodes) fresh (tracked p)))

file_tensor-IsTracked :
    (t : Tensor) (global_id this : ℕ) (v : TorchView) (root : Option ViewNode)
    → find_root_node v.roots t.data_ptr (end_of t) ≡ root
    → count_roots this v.roots ≡ 0
    → IsTracked v
    → IsTracked (file_tensor t global_id this v root).1
unfolding file_tensor
file_tensor-IsTracked t global_id this v none e fresh tracked =
    add_root-IsTracked t global_id this v fresh tracked
file_tensor-IsTracked t global_id this v (some root) e fresh tracked =
    filed (find_node t.data_ptr t.metadata_ptr root)
  where
    attached :
        (parent : Option ViewNode)
        → find_parent t.data_ptr root (top_inputs v.op_stack) ≡ parent
        → IsTracked (attach t global_id this v parent).1
    attached none f = tracked
    attached (some parent) f =
        let (k, at_k) = find_root_node_at v.roots t.data_ptr (end_of t) root e in
        add_child-IsTracked t global_id this (node_of parent) v fresh
          (le_trans (IsIn-count (find_parent-IsIn t.data_ptr root (top_inputs v.op_stack) parent f))
            (count_at k (node_of parent).this v.roots root at_k))
          tracked

    filed : (x : Option ViewNode) → IsTracked (file_view t global_id this v root x).1
    filed (some x) = tracked
    filed none = attached (find_parent t.data_ptr root (top_inputs v.op_stack)) refl

-- Filing a tensor at an address that no node has keeps each node of the forest at one place and
-- the set of live nodes equal to the forest.
pub update_view_forest-IsTracked :
    (t : Tensor) (global_id this : ℕ) (v : TorchView)
    → count_roots this v.roots ≡ 0
    → IsTracked v
    → IsTracked (update_view_forest t global_id this v).1
unfolding update_view_forest
update_view_forest-IsTracked t global_id this v =
    file_tensor-IsTracked t global_id this v (find_root_node v.roots t.data_ptr (end_of t)) refl
