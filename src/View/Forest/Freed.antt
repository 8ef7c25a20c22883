-- ===== src/View/Forest/Freed.antt =====
-- `delete_forest_tree` untracks exactly the nodes that it frees.
use mathlib.Core.Option.{some-injective}
use ten_prof.Prelude.{
  ap, subst, ◌%◌, u64_mod, ℕ, ◌+◌, ◌≡◌, refl, sym, ◌∙◌, Bool, true, false, Option, none, some, List,
  [], ◌∷◌, ◌==◌, ltb, leb, contains, if◌then◌else◌, arith, Bool-cases, Option-cases, inl, inr,
}
use ten_prof.View.{Node, ViewNode, Children, view, nil, cons, node_of, children_of}
use ten_prof.View.State.{TorchView}
use ten_prof.View.Forest.{
  is_leaf_node, delete_children_nodes, delete_each, is_unused, release, free_root, keep, sweep,
  sweep_from, delete_forest_tree, drop_ranges,
}
use ten_prof.View.Forest.Tracked.{
  one_if, count, count_children, count_roots, live, IsTracked, live-erase_live,
}

merge :
    (p : ℕ) (c : ViewNode) (b l : ℕ)
    → (if ltb 0 b
        then 0
        else if p == (node_of c).this
        then 0
        else if ltb 0 (count_children p (children_of c))
        then 0
        else l)
      ≡ (if ltb 0 (count p c + b) then 0 else l)
unfolding count
merge p (view n cs) b l = ground arith

merge_last :
    (p : ℕ) (c : ViewNode) (l : ℕ)
    → (if p == (node_of c).this
        then 0
        else if ltb 0 (count_children p (children_of c))
        then 0
        else l)
      ≡ (if ltb 0 (count p c) then 0 else l)
unfolding count
merge_last p (view n cs) l = ground arith

count_leaf_children : (p : ℕ) (cs : Children) → is_leaf_node cs ≡ true → count_children p cs ≡ 0
unfolding is_leaf_node count
count_leaf_children p nil h = refl
count_leaf_children p (cons c cs) h = cc

delete_each_leaf : (cs : Children) (v : TorchView) → is_leaf_node cs ≡ true → delete_each cs v ≡ v
unfolding is_leaf_node delete_children_nodes
delete_each_leaf nil v h = refl
delete_each_leaf (cons c cs) v h = cc

-- Freeing untracks exactly the freed nodes.
mutual
  unfolding count delete_children_nodes

  live-delete_children_nodes :
      (p : ℕ) (t : ViewNode) (v : TorchView)
      → live p (delete_children_nodes t v).live_nodes
        ≡ (if ltb 0 (count_children p (children_of t)) then 0 else live p v.live_nodes)
  live-delete_children_nodes p (view n cs) v = elim (Bool-cases (is_leaf_node cs)) [
    | inl is_leaf ↦ rw is_leaf (rw (count_leaf_children p cs is_leaf))
    | inr inner ↦ rw inner (live-delete_each p cs _)
  ]

  live-delete_each :
      (p : ℕ) (cs : Children) (v : TorchView)
      → live p (delete_each cs v).live_nodes
        ≡ (if ltb 0 (count_children p cs) then 0 else live p v.live_nodes)
  live-delete_each p nil v = refl
  live-delete_each p (cons c cs) v =
      live-delete_each p cs _
      ∙ ap (λ (l : ℕ). if ltb 0 (count_children p cs) then 0 else l)
          (live-erase_live p (node_of c).this _
            ∙ ap (λ (l : ℕ). if p == (node_of c).this then 0 else l)
                (live-delete_children_nodes p c _))
      ∙ merge p c (count_children p cs) (live p v.live_nodes)

unused_leaf :
    (n : Node) (cs : Children) (v : TorchView)
    → is_unused (view n cs) v ≡ some true
    → is_leaf_node cs ≡ true
unfolding is_unused is_leaf_node
unused_leaf n nil v h = refl
unused_leaf n (cons c cs) v h = let e : false ≡ true = some-injective _ _ h in cc

live-release :
    (p : ℕ) (root : ViewNode) (v v' : TorchView) (u : Option Bool)
    → is_unused root v ≡ u
    → release root v u ≡ some v'
    → live p v'.live_nodes ≡ (if ltb 0 (count p root) then 0 else live p v.live_nodes)
unfolding release count
live-release p root v v' none unused e = cc
live-release p (view n cs) v v' (some true) unused e =
    ap (λ (w : TorchView). live p w.live_nodes) (sym (some-injective _ _ e))
    ∙ live-erase_live p n.this v.live_nodes
    ∙ rw (count_leaf_children p cs (unused_leaf n cs v unused)) (ground arith)
live-release p root v v' (some false) unused e =
    ap (λ (w : TorchView). live p w.live_nodes) (sym (some-injective _ _ e))
    ∙ live-erase_live p (node_of root).this _
    ∙ ap (λ (l : ℕ). if p == (node_of root).this then 0 else l)
        (live-delete_children_nodes p root _)
    ∙ merge_last p root (live p v.live_nodes)

split_live :
    (a b : ℕ) (here : Bool) → a + b ≡ one_if here → b ≡ (if ltb 0 a then 0 else one_if here)
split_live a b true e = ground arith
split_live a b false e = ground arith

-- What holds of the roots and the members that a sweep returns, if it is not stopped by an exception.
abbrev pub Ends : (List ViewNode → TorchView → Type 0) → Option (List ViewNode × TorchView) → Type 0
Ends P none = Unit
Ends P (some (roots, v)) = P roots v

-- The nodes of the roots and those counted in `others` are what is tracked.
abbrev Tracks : (ℕ → ℕ) → List ViewNode → TorchView → Type 0
Tracks others roots v = (p : ℕ) → count_roots p roots + others p ≡ live p v.live_nodes

keep-Tracks :
    (others : ℕ → ℕ) (root : ViewNode) (r : Option (List ViewNode × TorchView))
    → Ends (Tracks (λ p. count p root + others p)) r
    → Ends (Tracks others) (keep root r)
unfolding keep count_roots
keep-Tracks others root none h = tt
keep-Tracks others root (some (roots, v)) h = λ p. omega (arith, h p)

pass_over :
    (others : ℕ → ℕ) (root : ViewNode) (rest : List ViewNode) (v : TorchView)
    → Tracks others (root ∷ rest) v
    → Tracks (λ p. count p root + others p) rest v
unfolding count_roots
pass_over others root rest v tracked p = omega (arith, tracked p)

freed-Tracks :
    (others : ℕ → ℕ) (root : ViewNode) (rest : List ViewNode) (v v' : TorchView)
    → Tracks others (root ∷ rest) v
    → free_root root v ≡ some v'
    → Tracks others rest v'
unfolding count_roots free_root
freed-Tracks others root rest v v' tracked e p =
    let freed = live-release p root v v' (is_unused root v) refl e in
    split_live (count p root) (count_roots p rest + others p) (contains p v.live_nodes)
      (omega (arith, tracked p))
    ∙ sym freed

sweep-Tracks :
    (start limit : ℕ) (roots : List ViewNode) (others : ℕ → ℕ) (v : TorchView)
    → Tracks others roots v
    → Ends (Tracks others) (sweep start limit roots v)
unfolding sweep
sweep-Tracks start limit [] others v tracked = tracked
sweep-Tracks start limit (root ∷ rest) others v tracked =
    elim (Bool-cases (ltb limit (node_of root).second)) [
      | inl stop ↦ rw (stop, sweep) tracked
      | inr on ↦ elim (Bool-cases (leb start (node_of root).first)) [
        | inr before ↦
            rw (on, sweep)
              (rw (before, sweep)
                (keep-Tracks others root _ (
                  sweep-Tracks start limit rest (λ p. count p root + others p) v
                    (pass_over others root rest v tracked))))
        | inl inside ↦ elim (Option-cases (free_root root v)) [
          | inl fault ↦ rw (on, sweep) (rw (inside, sweep) (rw (fault, sweep) tt))
          | inr (v', freed) ↦
              rw (on, sweep)
                (rw (inside, sweep)
                  (rw (freed, sweep)
                    (sweep-Tracks start limit rest others v'
                      (freed-Tracks others root rest v v' tracked freed))))
        ]
      ]
    ]

sweep_from-Tracks :
    (start limit : ℕ) (roots : List ViewNode) (others : ℕ → ℕ) (v : TorchView)
    → Tracks others roots v
    → Ends (Tracks others) (sweep_from start limit roots v)
unfolding sweep_from
sweep_from-Tracks start limit [] others v tracked = tracked
sweep_from-Tracks start limit (root ∷ rest) others v tracked =
    elim (Bool-cases (ltb (node_of root).data_ptr start)) [
      | inl before ↦
          rw (before, sweep_from)
            (keep-Tracks others root _ (
              sweep_from-Tracks start limit rest (λ p. count p root + others p) v
                (pass_over others root rest v tracked)))
      | inr at ↦ rw (at, sweep_from) (sweep-Tracks start limit (root ∷ rest) others v tracked)
    ]

-- When giving back a block returns, each node that is left in the forest stands there once and is
-- in the set of live nodes, and no other address is in it, if that held before.
pub delete_forest_tree-IsTracked :
    (mem_start_addr total_allocated : ℕ) (v v' : TorchView)
    → IsTracked v
    → delete_forest_tree mem_start_addr total_allocated v ≡ some v'
    → IsTracked v'
unfolding delete_forest_tree
delete_forest_tree-IsTracked mem_start_addr total_allocated v v' tracked e =
    let limit : ℕ = (mem_start_addr + total_allocated) % u64_mod in
    let dropped : TorchView = record v {
      torchview_memory_snapshot = drop_ranges mem_start_addr limit v.torchview_memory_snapshot;
    } in
    swept (sweep_from mem_start_addr limit v.roots dropped) refl (
      sweep_from-Tracks mem_start_addr limit v.roots (λ p. 0) dropped
        (λ p. omega (arith, tracked p)))
  where
    swept :
        (r : Option (List ViewNode × TorchView))
        → sweep_from mem_start_addr
            ((mem_start_addr + total_allocated) % u64_mod)
            v.roots
            (record v {
              torchview_memory_snapshot =
                  drop_ranges mem_start_addr
                    ((mem_start_addr + total_allocated) % u64_mod)
                    v.torchview_memory_snapshot;
            })
          ≡ r
        → Ends (Tracks (λ p. 0)) r
        → IsTracked v'
    swept none same h = let e' : none ≡ some v' = rw (same, delete_forest_tree) at e in cc
    swept (some (roots, w)) same h =
        let e' : some (record w { roots = roots }) ≡ some v' = rw (same, delete_forest_tree) at e in
        subst IsTracked (some-injective _ _ e') (λ p. omega (arith, h p))
