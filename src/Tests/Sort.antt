-- ===== src/Tests/Sort.antt =====
-- A sort of symbols by their PCs, which stands for `std::sort` in the tests.
use mathlib.Core.List.{Perm}
use mathlib.Core.List.Perm
use ten_prof.Prelude.{
  ℕ, ◌≤◌, List, [], ◌∷◌, ltb, if◌then◌else◌, arith, Bool-cases, inl, inr, ltb→lt,
}
use ten_prof.Redshow.Symbols.{Symbol}
use ten_prof.Redshow.Symbols.Transform.{IsSortedFrom}

-- One insertion of the sort by `pc`, behind the symbols with the same `pc`.
unfoldable pub insert_symbol : Symbol → List Symbol → List Symbol
insert_symbol s [] = s ∷ []
insert_symbol s (t ∷ symbols) =
    if ltb s.pc t.pc then s ∷ t ∷ symbols else t ∷ insert_symbol s symbols

-- The symbols in the order of their PCs.
unfoldable pub sort_symbols : List Symbol → List Symbol
unfolding insert_symbol
sort_symbols [] = []
sort_symbols (s ∷ symbols) = insert_symbol s (sort_symbols symbols)

insert_symbol-IsSortedFrom :
    (lo : ℕ) (s : Symbol) (symbols : List Symbol)
    → lo ≤ s.pc
    → IsSortedFrom lo symbols
    → IsSortedFrom lo (insert_symbol s symbols)
unfolding insert_symbol
insert_symbol-IsSortedFrom lo s [] le sorted = (le, tt)
insert_symbol-IsSortedFrom lo s (t ∷ symbols) le sorted = elim (Bool-cases (ltb s.pc t.pc)) [
  | inl before ↦ rw before (le, (omega (arith, ltb→lt _ _ before), sorted.1))
  | inr after ↦
      rw after (sorted.0, insert_symbol-IsSortedFrom t.pc s symbols (ground arith) sorted.1)
]

insert_symbol-Perm :
    (s : Symbol) (symbols : List Symbol) → Perm (insert_symbol s symbols) (s ∷ symbols)
unfolding insert_symbol
insert_symbol-Perm s [] = Perm.refl (s ∷ [])
insert_symbol-Perm s (t ∷ symbols) = elim (Bool-cases (ltb s.pc t.pc)) [
  | inl before ↦ rw before (Perm.refl (s ∷ t ∷ symbols))
  | inr after ↦
      rw after (Perm.trans (Perm.cons t (insert_symbol-Perm s symbols)) (Perm.swap s t symbols))
]

-- The sort returns the same symbols in the order of their PCs.
pub sort_symbols_lem :
    (symbols : List Symbol)
    → IsSortedFrom 0 (sort_symbols symbols) × Perm (sort_symbols symbols) symbols
unfolding sort_symbols
sort_symbols_lem [] = (tt, Perm.refl [])
sort_symbols_lem (s ∷ symbols) =
    let (sorted, same) = sort_symbols_lem symbols in
    (
      insert_symbol-IsSortedFrom 0 s (sort_symbols symbols) (omega arith) sorted,
      Perm.trans (insert_symbol-Perm s (sort_symbols symbols)) (Perm.cons s same),
    )
