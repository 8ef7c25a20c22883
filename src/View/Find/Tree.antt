-- ===== src/View/Find/Tree.antt =====
-- The walk down a tree finds a node for the two pointers exactly when the tree has one.
use ten_prof.Prelude.{
  ℕ, ◌≡◌, refl, true, false, none, some, if◌then◌else◌, arith, Bool-cases, Option-cases, inl, inr,
  ◌⊎◌, subst, ◌∙◌, sym,
}
use mathlib.Core.Option.{some-injective, or_else}
use ten_prof.View.{Node, ViewNode, Children, view, nil, cons, node_of, AllNodes, AllChildren}
use ten_prof.View.Find.{is_same, find_node, find_child}

mutual
  -- `x` is a node of the tree, or of the trees.
  pub data IsIn (x : ViewNode) : ViewNode → Type 0 where
    here : IsIn x x
    below : {n : Node} {cs : Children} → IsUnder x cs → IsIn x (view n cs)

  pub data IsUnder (x : ViewNode) : Children → Type 0 where
    first : {c : ViewNode} {cs : Children} → IsIn x c → IsUnder x (cons c cs)
    later : {c : ViewNode} {cs : Children} → IsUnder x cs → IsUnder x (cons c cs)

find_node-view :
    (d m : ℕ) (n : Node) (cs : Children)
    → find_node d m (view n cs) ≡ (if is_same d m n then some (view n cs) else find_child d m cs)
unfolding find_node
find_node-view d m n cs = refl

find_child-cons :
    (d m : ℕ) (c : ViewNode) (cs : Children)
    → find_child d m (cons c cs) ≡ or_else (find_node d m c) (find_child d m cs)
unfolding find_node
find_child-cons d m c cs = refl

find_child-nil : (d m : ℕ) → find_child d m nil ≡ none
unfolding find_node
find_child-nil d m = refl

mutual
  unfolding or_else

  pub find_node-IsIn :
      (d m : ℕ) (t x : ViewNode)
      → find_node d m t ≡ some x
      → IsIn x t × (is_same d m (node_of x) ≡ true)
  find_node-IsIn d m (view n cs) x e = elim (Bool-cases (is_same d m n)) [
    | inl hit ↦
        let same : view n cs ≡ x = some-injective _ _ (rw (find_node-view d m n cs, hit) at e) in
        subst (λ y. IsIn y (view n cs) × (is_same d m (node_of y) ≡ true)) same (here, hit)
    | inr miss ↦
        let under = find_child_in d m cs x (rw (find_node-view d m n cs, miss) at e) in
        (below under.0, under.1)
  ]

  find_child_in :
      (d m : ℕ) (cs : Children) (x : ViewNode)
      → find_child d m cs ≡ some x
      → IsUnder x cs × (is_same d m (node_of x) ≡ true)
  find_child_in d m nil x e = let e' : none ≡ some x = sym (find_child-nil d m) ∙ e in cc
  find_child_in d m (cons c cs) x e = elim (Option-cases (find_node d m c)) [
    | inl missing ↦
        let rest = find_child_in d m cs x (rw (find_child-cons d m c cs, missing) at e) in
        (later rest.0, rest.1)
    | inr (y, found) ↦
        let same : some y ≡ some x = rw (find_child-cons d m c cs, found) at e in
        let hit = find_node-IsIn d m c x (found ∙ same) in (first hit.0, hit.1)
  ]

mutual
  unfolding or_else

  find_node-none :
      (d m : ℕ) (t : ViewNode) → find_node d m t ≡ none → AllNodes (λ n. is_same d m n ≡ false) t
  find_node-none d m (view n cs) e = elim (Bool-cases (is_same d m n)) [
    | inl hit ↦ let e' : some (view n cs) ≡ none = rw (find_node-view d m n cs, hit) at e in cc
    | inr miss ↦ (miss, find_child-none d m cs (rw (find_node-view d m n cs, miss) at e))
  ]

  find_child-none :
      (d m : ℕ) (cs : Children)
      → find_child d m cs ≡ none
      → AllChildren (λ n. is_same d m n ≡ false) cs
  find_child-none d m nil e = tt
  find_child-none d m (cons c cs) e = elim (Option-cases (find_node d m c)) [
    | inl missing ↦ (
      find_node-none d m c missing,
      find_child-none d m cs (rw (find_child-cons d m c cs, missing) at e),
    )
    | inr (y, found) ↦ let e' : some y ≡ none = rw (find_child-cons d m c cs, found) at e in cc
  ]

-- The walk over a tree returns a node of the tree with the two pointers, or nothing when no node
-- of the tree has them.
pub find_node_lem :
    (d m : ℕ) (t : ViewNode)
    → ((x : ViewNode) × (find_node d m t ≡ some x)
        × IsIn x t
        × ((node_of x).data_ptr ≡ d)
        × ((node_of x).metadata_ptr ≡ m))
      ⊎ ((find_node d m t ≡ none) × AllNodes (λ n. is_same d m n ≡ false) t)
find_node_lem d m t = elim (Option-cases (find_node d m t)) [
  | inl missing ↦ inr (missing, find_node-none d m t missing)
  | inr (x, found) ↦
      let (place, same) = find_node-IsIn d m t x found in
      inl (x, found, place, unfold is_same in ground arith, unfold is_same in ground arith)
]
