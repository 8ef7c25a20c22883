-- ===== src/View/Touch/Counts.antt =====
-- What the calls of `update_node_total_access` leave of the forest and of the counts.
use ten_prof.Prelude.{
  ◌<◌, subst, Bool, true, Option, Option-cases, to_eq, ℕ, ◌+◌, ◌%◌, ◌≡◌, ◌∙◌, refl, sym, ap,
  u64_mod, false, none, some, List, [], ◌∷◌, ◌==◌, if◌then◌else◌, map, contains, arith, Bool-cases,
  inl, inr,
}
use ten_prof.Common.Map.{Map, find, u64_key}
use ten_prof.Common.Map.Laws.{find-assign_same}
use ten_prof.View.{Node, ViewNode, Children, view, nil, cons}
use ten_prof.View.State.{TorchView}
use ten_prof.View.Forest.Tracked.{one_if, count, count_children, count_roots, IsTracked}
use ten_prof.View.Touch.{
  count_access, touch_node, touch, touch_children, touch_at, touch_live, update_node_total_access,
}

touch_node-this : (p pc : ℕ) (n : Node) → (touch_node p pc n).this ≡ n.this
unfolding touch_node
touch_node-this p pc n = ground arith

mutual
  unfolding count touch

  count-touch : (q p pc : ℕ) (x : ViewNode) → count q (touch p pc x) ≡ count q x
  count-touch q p pc (view n cs) =
      rw (touch_node-this p pc n)
        (ap (λ k. one_if (n.this == q) + k) (count_children-touch_children q p pc cs))

  count_children-touch_children :
      (q p pc : ℕ) (cs : Children) → count_children q (touch_children p pc cs) ≡ count_children q cs
  count_children-touch_children q p pc nil = refl
  count_children-touch_children q p pc (cons c cs) =
      rw (count-touch q p pc c, count_children-touch_children q p pc cs) refl

count_roots-touch :
    (q p pc : ℕ) (roots : List ViewNode)
    → count_roots q (map (touch p pc) roots) ≡ count_roots q roots
unfolding count_roots
count_roots-touch q p pc [] = refl
count_roots-touch q p pc (r ∷ roots) =
    rw (count-touch q p pc r, count_roots-touch q p pc roots) refl

-- The count of accesses by the instruction at `pc` of the first node at `p`.
unfoldable pub first_of : Option ℕ → Option ℕ → Option ℕ
first_of none rest = rest
first_of (some n) rest = some n

unfoldable pub count_of : ℕ → Map ℕ ℕ → ℕ
count_of pc m = elim (find pc m) [ none ↦ 0 | some n ↦ n ]

unfoldable mutual
  unfolding first_of count_of

  pub accesses : ℕ → ℕ → ViewNode → Option ℕ
  accesses q pc (view n cs) =
      if n.this == q then some (count_of pc n.pc_access) else accesses_children q pc cs

  pub accesses_children : ℕ → ℕ → Children → Option ℕ
  accesses_children q pc nil = none
  accesses_children q pc (cons c cs) = first_of (accesses q pc c) (accesses_children q pc cs)

unfoldable pub accesses_roots : ℕ → ℕ → List ViewNode → Option ℕ
unfolding accesses first_of
accesses_roots q pc [] = none
accesses_roots q pc (r ∷ roots) = first_of (accesses q pc r) (accesses_roots q pc roots)

-- The count at `pc`, one higher for a touch of the node.
unfoldable pub raised : Bool → Option ℕ → Option ℕ
raised hit none = none
raised hit (some n) = some (if hit then (n + 1) % u64_mod else n)

count_of-count_access :
    (pc : ℕ) (m : Map ℕ ℕ) → count_of pc (count_access pc m) ≡ (count_of pc m + 1) % u64_mod
unfolding count_of count_access
count_of-count_access pc m = elim (Option-cases (find pc m)) [
  | inl new ↦
      rw (new, count_access) (rw (find-assign_same pc 1 m, count_of) (rw (new, count_of) refl))
  | inr (n, old) ↦
      rw (old, count_access) (rw (find-assign_same pc _ m, count_of) (rw (old, count_of) refl))
]

raised-first_of :
    (hit : Bool) (a b : Option ℕ)
    → first_of (raised hit a) (raised hit b) ≡ raised hit (first_of a b)
unfolding first_of raised
raised-first_of hit none b = refl
raised-first_of hit (some n) b = refl

touched_node :
    (q p pc : ℕ) (n : Node)
    → (n.this == q) ≡ true
    → count_of pc (touch_node p pc n).pc_access
      ≡ (if q == p then (count_of pc n.pc_access + 1) % u64_mod else count_of pc n.pc_access)
unfolding touch_node
touched_node q p pc n here = rw (to_eq n.this q here) (elim (Bool-cases (q == p)) [
  | inl hit ↦ rw hit (count_of-count_access pc n.pc_access)
  | inr miss ↦ rw miss refl
])

mutual
  unfolding accesses touch raised

  accesses-touch :
      (q p pc : ℕ) (x : ViewNode) → accesses q pc (touch p pc x) ≡ raised (q == p) (accesses q pc x)
  accesses-touch q p pc (view n cs) = elim (Bool-cases (n.this == q)) [
    | inl here ↦ rw (touch_node-this p pc n, here) (ap some (touched_node q p pc n here))
    | inr other ↦ rw (touch_node-this p pc n, other) (accesses_children-touch q p pc cs)
  ]

  accesses_children-touch :
      (q p pc : ℕ) (cs : Children)
      → accesses_children q pc (touch_children p pc cs)
        ≡ raised (q == p) (accesses_children q pc cs)
  accesses_children-touch q p pc nil = refl
  accesses_children-touch q p pc (cons c cs) =
      rw (accesses-touch q p pc c, accesses_children-touch q p pc cs) (raised-first_of (q == p) _ _)

accesses_roots-touch :
    (q p pc : ℕ) (roots : List ViewNode)
    → accesses_roots q pc (map (touch p pc) roots) ≡ raised (q == p) (accesses_roots q pc roots)
unfolding accesses_roots raised
accesses_roots-touch q p pc [] = refl
accesses_roots-touch q p pc (r ∷ roots) =
    rw (accesses-touch q p pc r, accesses_roots-touch q p pc roots) (raised-first_of (q == p) _ _)

mutual
  unfolding count accesses first_of

  accesses_gone : (q pc : ℕ) (x : ViewNode) → count q x ≡ 0 → accesses q pc x ≡ none
  accesses_gone q pc (view n cs) gone = elim (Bool-cases (n.this == q)) [
    | inl here ↦
        let some_here : 1 + count_children q cs ≡ 0 = rw here at gone in
        absurd (omega (arith, some_here))
    | inr other ↦
        let below : 0 + count_children q cs ≡ 0 = rw other at gone in
        rw other (accesses_children_gone q pc cs (omega (arith, below)))
  ]

  accesses_children_gone :
      (q pc : ℕ) (cs : Children) → count_children q cs ≡ 0 → accesses_children q pc cs ≡ none
  accesses_children_gone q pc nil gone = refl
  accesses_children_gone q pc (cons c cs) gone =
      rw
        (
          accesses_gone q pc c (omega (arith, gone)),
          accesses_children_gone q pc cs (omega (arith, gone)),
        )
        refl

accesses_roots_gone :
    (q pc : ℕ) (roots : List ViewNode) → count_roots q roots ≡ 0 → accesses_roots q pc roots ≡ none
unfolding count_roots accesses_roots first_of
accesses_roots_gone q pc [] gone = refl
accesses_roots_gone q pc (r ∷ roots) gone =
    rw
      (
        accesses_gone q pc r (omega (arith, gone)),
        accesses_roots_gone q pc roots (omega (arith, gone)),
      )
      refl

-- A pointer that is not live has no count.
not_there :
    (p q pc : ℕ) (v : TorchView)
    → contains p v.live_nodes ≡ false
    → IsTracked v
    → accesses_roots q pc v.roots ≡ raised (q == p) (accesses_roots q pc v.roots)
unfolding raised
not_there p q pc v off tracked = elim (Option-cases (accesses_roots q pc v.roots)) [
  | inl missing ↦ rw missing refl
  | inr (n, there) ↦ elim (Bool-cases (q == p)) [
    | inr other ↦ rw (there, other) refl
    | inl same ↦
        let gone = accesses_roots_gone p pc v.roots (tracked p ∙ ap one_if off) in
        let e : none ≡ some n =
          sym gone ∙ subst (λ x. accesses_roots x pc v.roots ≡ some n) (to_eq q p same) there in
        cc
  ]
]

-- A round returns, and counts an access of the node, if it is there.
touch_live_lem :
    (p pc : ℕ) (v : TorchView)
    → IsTracked v
    → (v' : TorchView) × (touch_live p pc v ≡ some v')
      × IsTracked v'
      × ((q : ℕ) → accesses_roots q pc v'.roots ≡ raised (q == p) (accesses_roots q pc v.roots))
unfolding touch_live touch_at
touch_live_lem p pc v tracked = elim (Bool-cases (contains p v.live_nodes)) [
  | inl on ↦
      let here : count_roots p v.roots ≡ 1 = tracked p ∙ ap one_if on in
      rw (on, here)
        (
          record v { roots = map (touch p pc) v.roots },
          refl,
          λ q. count_roots-touch q p pc v.roots ∙ tracked q,
          λ q. accesses_roots-touch q p pc v.roots,
        )
  | inr off ↦ rw off (v, refl, tracked, λ q. not_there p q pc v off tracked)
]

-- How often a pointer is in the list.
unfoldable pub hits : ℕ → List ℕ → ℕ
hits q [] = 0
hits q (p ∷ ps) = one_if (q == p) + hits q ps

raised_add :
    (hit : Bool) (n h : ℕ)
    → n < u64_mod
    → (n' : ℕ) × (raised hit (some n) ≡ some n')
      × (n' < u64_mod)
      × ((n' + h) % u64_mod ≡ (n + (one_if hit + h)) % u64_mod)
unfolding raised
raised_add true n h word = ((n + 1) % u64_mod, refl, omega arith, omega arith)
raised_add false n h word = (n, refl, word, omega arith)

-- If the set of live nodes equals the forest, counting accesses by a PC through any pointers
-- returns, so that no freed node is touched, and keeps each node at one place and the set equal to
-- the forest; the count of a node at that PC, if it is a word, rises by as often as the pointer to
-- the node is given, modulo 2 to the 64.
pub update_node_total_access_lem :
    (view_nodes : List ℕ) (pc : ℕ) (v : TorchView)
    → IsTracked v
    → (v' : TorchView) × (update_node_total_access view_nodes pc v ≡ some v')
      × IsTracked v'
      × ((q n : ℕ)
          → accesses_roots q pc v.roots ≡ some n
          → n < u64_mod
          → accesses_roots q pc v'.roots ≡ some ((n + hits q view_nodes) % u64_mod))
unfolding update_node_total_access hits
update_node_total_access_lem [] pc v tracked =
    (v, refl, tracked, λ q n found word. found ∙ ap some (omega (arith, word)))
update_node_total_access_lem (p ∷ view_nodes) pc v tracked =
    let (next, returns, tracked', one) = touch_live_lem p pc v tracked in
    let (v', rest, tracked'', all) = update_node_total_access_lem view_nodes pc next tracked' in
    rw returns (
      v',
      rest,
      tracked'',
      λ q n found word.
          let (n', is_raised, word', sum) = raised_add (q == p) n (hits q view_nodes) word in
          all q n' (one q ∙ ap (raised (q == p)) found ∙ is_raised) word' ∙ ap some sum,
    )
