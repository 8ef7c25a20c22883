-- ===== src/View/Find/Search.antt =====
-- The binary search against the roots' order: it finds the tree whose block holds a range.
use ten_prof.Prelude.{
  ℕ, zero, suc, ◌+◌, ◌-◌, ◌/◌, ◌≤◌, ◌<◌, ◌≡◌, refl, ap, ◌∙◌, sym, ◌&&◌, Option, none, some, List,
  [], ◌∷◌, ltb, leb, ◌==◌, length, get_elem?, if◌then◌else◌, arith, Bool-cases, Option-cases, inl,
  inr, subst, le→leb, ◌⊎◌, ◌↔◌,
}
use mathlib.Core.Option.{some-injective}
use ten_prof.View.{ViewNode, node_of}
use ten_prof.View.Find.{search_roots, find_root_node}

-- The block of the root holds the range from `s` to `e`.
abbrev pub Holds : ViewNode → ℕ → ℕ → Type 0
Holds root s e = ((node_of root).first ≤ s) × (e ≤ (node_of root).second)

-- Every block starts at `lo` or later.
abbrev pub StartFrom : ℕ → List ViewNode → Type 0
StartFrom lo [] = Unit
StartFrom lo (root ∷ roots) = (lo ≤ (node_of root).first) × StartFrom lo roots

-- The roots are in the order of their blocks, which do not overlap.
abbrev pub AreDisjoint : List ViewNode → Type 0
AreDisjoint [] = Unit
AreDisjoint (root ∷ roots) =
    StartFrom (suc (node_of root).first) roots
    × StartFrom (node_of root).second roots
    × AreDisjoint roots

StartFrom-at :
    (lo i : ℕ) (roots : List ViewNode) (x : ViewNode)
    → StartFrom lo roots
    → get_elem? roots i ≡ some x
    → lo ≤ (node_of x).first
StartFrom-at lo i [] x s e = cc
StartFrom-at lo zero (root ∷ roots) x s e =
    subst (λ r. lo ≤ (node_of r).first) (some-injective _ _ e) s.0
StartFrom-at lo (suc i) (root ∷ roots) x s e = StartFrom-at lo i roots x s.1 e

-- Of two roots the one that stands first has the earlier block.
disjoint_at :
    (i j : ℕ) (roots : List ViewNode) (x y : ViewNode)
    → AreDisjoint roots
    → i < j
    → get_elem? roots i ≡ some x
    → get_elem? roots j ≡ some y
    → ((node_of x).first < (node_of y).first) × ((node_of x).second ≤ (node_of y).first)
disjoint_at i j [] x y d lt ex ey = cc
disjoint_at zero zero (root ∷ roots) x y d lt ex ey = absurd (omega arith)
disjoint_at (suc i) zero (root ∷ roots) x y d lt ex ey = absurd (omega arith)
disjoint_at zero (suc j) (root ∷ roots) x y d lt ex ey =
    subst (λ r. ((node_of r).first < (node_of y).first) × ((node_of r).second ≤ (node_of y).first))
      (some-injective _ _ ex) (StartFrom-at _ j roots y d.0 ey, StartFrom-at _ j roots y d.1 ey)
disjoint_at (suc i) (suc j) (root ∷ roots) x y d lt ex ey =
    disjoint_at i j roots x y d.2 (omega arith) ex ey

get_elem?-some :
    (i : ℕ) (roots : List ViewNode)
    → i < length roots
    → (x : ViewNode) × (get_elem? roots i ≡ some x)
get_elem?-some i [] h = absurd (omega arith)
get_elem?-some zero (x ∷ xs) h = (x, refl)
get_elem?-some (suc i) (x ∷ xs) h = get_elem?-some i xs (omega arith)

at_lt_length :
    (roots : List ViewNode) (i : ℕ) (x : ViewNode) → get_elem? roots i ≡ some x → i < length roots
at_lt_length [] i x e = cc
at_lt_length (y ∷ ys) zero x e = omega arith
at_lt_length (y ∷ ys) (suc i) x e = omega (arith, at_lt_length ys i x e)

-- One round of the loop at the root in the middle.
abbrev round : List ViewNode → ℕ → ℕ → ℕ → ℕ → ℕ → ViewNode → Option ViewNode
round roots s e fuel low high root =
    let n = node_of root in
    let mid = low + (high - low) / 2 in
    if leb n.first s && leb e n.second
    then some root
    else if ltb n.first s
    then search_roots roots s e fuel (mid + 1) high
    else if ltb s n.first
    then (if mid == 0 then none else search_roots roots s e fuel low (mid - 1))
    else none

search_roots_step :
    (roots : List ViewNode) (s e fuel low high : ℕ) (root : ViewNode)
    → low ≤ high
    → get_elem? roots (low + (high - low) / 2) ≡ some root
    → search_roots roots s e (suc fuel) low high ≡ round roots s e fuel low high root
unfolding search_roots
search_roots_step roots s e fuel low high root le at_mid = rw (le→leb _ _ le) (rw at_mid)

-- A root that holds the range is returned; else the search goes on towards the range.
round_here :
    (roots : List ViewNode) (s e fuel low high : ℕ) (root : ViewNode)
    → Holds root s e
    → round roots s e fuel low high root ≡ some root
round_here roots s e fuel low high root h = ground arith

round_right :
    (roots : List ViewNode) (s e fuel low high : ℕ) (root : ViewNode)
    → (node_of root).first < s
    → (node_of root).second < e
    → round roots s e fuel low high root
      ≡ search_roots roots s e fuel (low + (high - low) / 2 + 1) high
round_right roots s e fuel low high root lt past = ground arith

round_left :
    (roots : List ViewNode) (s e fuel low high : ℕ) (root : ViewNode)
    → s < (node_of root).first
    → 0 < low + (high - low) / 2
    → round roots s e fuel low high root
      ≡ search_roots roots s e fuel low (low + (high - low) / 2 - 1)
round_left roots s e fuel low high root lt pos = ground arith

order : (a b : ℕ) → ((a < b) ⊎ (a ≡ b)) ⊎ (b < a)
order a b = ground arith

module _ (roots : List ViewNode) (s e k : ℕ) (x : ViewNode) (d : AreDisjoint roots)
    (at_k : get_elem? roots k ≡ some x) (holds : Holds x s e) (nonempty : s < e) where
  search_finds :
      (fuel low high : ℕ)
      → low ≤ k
      → k ≤ high
      → high < length roots
      → high < low + fuel
      → search_roots roots s e fuel low high ≡ some x
  search_finds zero low high lo hi bound enough = absurd (omega arith)
  search_finds (suc fuel) low high lo hi bound enough =
      let mid : ℕ = low + (high - low) / 2 in
      let (root, at_mid) = get_elem?-some mid roots (omega arith) in
      search_roots_step roots s e fuel low high root (omega arith) at_mid ∙ elim (order mid k) [
        | inl (inl lt) ↦
            let (first, second) = disjoint_at mid k roots root x d lt at_mid at_k in
            round_right roots s e fuel low high root (omega arith) (omega arith)
            ∙ search_finds fuel (mid + 1) high (omega arith) hi bound (omega arith)
        | inl (inr same) ↦
            let root_x : root ≡ x =
              some-injective _ _ (sym at_mid ∙ ap (get_elem? roots) same ∙ at_k) in
            rw root_x (round_here roots s e fuel low high x holds)
        | inr gt ↦
            let (first, second) = disjoint_at k mid roots x root d gt at_k at_mid in
            round_left roots s e fuel low high root (omega arith) (omega arith)
            ∙ search_finds fuel low (mid - 1) lo (omega arith) (omega arith) (omega arith)
      ]

round_cases :
    (roots : List ViewNode) (s e fuel low high : ℕ) (root x : ViewNode)
    → round roots s e fuel low high root ≡ some x
    → ((root ≡ x) × Holds root s e)
      ⊎ (search_roots roots s e fuel (low + (high - low) / 2 + 1) high ≡ some x)
      ⊎ (search_roots roots s e fuel low (low + (high - low) / 2 - 1) ≡ some x)
round_cases roots s e fuel low high root x h = ground arith

search_roots_stop :
    (roots : List ViewNode) (s e fuel low high : ℕ) (x : ViewNode)
    → search_roots roots s e (suc fuel) low high ≡ some x
    → (root : ViewNode) × (get_elem? roots (low + (high - low) / 2) ≡ some root)
      × (round roots s e fuel low high root ≡ some x)
unfolding search_roots
search_roots_stop roots s e fuel low high x h = elim (Bool-cases (leb low high)) [
  | inr stop ↦ let h' : none ≡ some x = rw stop at h in cc
  | inl on ↦ elim (Option-cases (get_elem? roots (low + (high - low) / 2))) [
    | inl missing ↦ let h' : none ≡ some x = rw missing at (rw on at h) in cc
    | inr (root, found) ↦ (root, found, rw found at (rw on at h))
  ]
]

-- Whatever is returned is one of the roots and holds the range.
search_roots_sound :
    (roots : List ViewNode) (s e fuel low high : ℕ) (x : ViewNode)
    → search_roots roots s e fuel low high ≡ some x
    → (k : ℕ) × (get_elem? roots k ≡ some x) × Holds x s e
search_roots_sound roots s e zero low high x h = unfold search_roots in cc
search_roots_sound roots s e (suc fuel) low high x h =
    let (root, found, h') = search_roots_stop roots s e fuel low high x h in
    elim (round_cases roots s e fuel low high root x h') [
      | inl (same, holds) ↦
          (low + (high - low) / 2, found ∙ ap some same, subst (λ r. Holds r s e) same holds)
      | inr (inl right) ↦ search_roots_sound roots s e fuel _ high x right
      | inr (inr left) ↦ search_roots_sound roots s e fuel low _ x left
    ]

-- Among roots whose blocks are in order and do not overlap, the binary search for a range that is
-- not empty returns a root exactly when it is one of the roots and its block holds the range; its
-- rounds suffice.
pub find_root_node_lem :
    (roots : List ViewNode) (s e : ℕ) (x : ViewNode)
    → AreDisjoint roots
    → s < e
    → (find_root_node roots s e ≡ some x) ↔ ((k : ℕ) × (get_elem? roots k ≡ some x) × Holds x s e)
unfolding find_root_node
find_root_node_lem [] s e x d nonempty = (λ h. cc, λ (k, at_k, holds). cc)
find_root_node_lem (root ∷ roots) s e x d nonempty = (
  search_roots_sound (root ∷ roots) s e (length (root ∷ roots)) 0 (length (root ∷ roots) - 1) x,
  λ found.
      let inside = at_lt_length (root ∷ roots) found.0 x found.1 in
      search_finds (root ∷ roots) s e found.0 x d found.1 found.2 nonempty (length (root ∷ roots)) 0
        (length (root ∷ roots) - 1) (omega arith) (omega arith) (omega arith) (omega arith),
)

-- A root that is found stands among the roots.
pub find_root_node_at :
    (roots : List ViewNode) (s e : ℕ) (x : ViewNode)
    → find_root_node roots s e ≡ some x
    → (k : ℕ) × (get_elem? roots k ≡ some x)
unfolding find_root_node
find_root_node_at [] s e x h = cc
find_root_node_at (root ∷ roots) s e x h =
    let found =
      search_roots_sound (root ∷ roots) s e (length (root ∷ roots)) 0 (length (root ∷ roots) - 1) x
        h in
    (found.0, found.1)
