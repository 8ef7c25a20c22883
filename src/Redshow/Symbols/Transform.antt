-- ===== src/Redshow/Symbols/Transform.antt =====
-- Which function `transform_pc` finds.
use ten_prof.Prelude.{
  ℕ, ◌≤◌, ◌<◌, ◌≡◌, refl, ◌⊎◌, inl, inr, none, some, List, [], ◌∷◌, ltb, arith, Bool-cases, All,
  ltb→lt,
}
use ten_prof.Redshow.Symbols.{Symbol, symbol_from, real_pc, transform_pc}

-- The symbols' PCs do not fall, and none is below `lo`.
abbrev pub IsSortedFrom : ℕ → List Symbol → Type 0
IsSortedFrom lo [] = Unit
IsSortedFrom lo (s ∷ symbols) = (lo ≤ s.pc) × IsSortedFrom s.pc symbols

-- One of the symbols is `s`.
abbrev pub IsOne : Symbol → List Symbol → Type 0
IsOne s [] = ⊥
IsOne s (t ∷ symbols) = (t ≡ s) ⊎ IsOne s symbols

IsSortedFrom-le :
    (lo lo' : ℕ) (symbols : List Symbol)
    → lo' ≤ lo
    → IsSortedFrom lo symbols
    → IsSortedFrom lo' symbols
IsSortedFrom-le lo lo' [] le sorted = tt
IsSortedFrom-le lo lo' (s ∷ symbols) le sorted = (omega (arith, sorted.0), sorted.1)

above :
    (pc lo : ℕ) (symbols : List Symbol)
    → pc < lo
    → IsSortedFrom lo symbols
    → All (λ s. pc < s.pc) symbols
above pc lo [] lt sorted = tt
above pc lo (s ∷ symbols) lt sorted =
    (omega (arith, sorted.0), above pc s.pc symbols (omega (arith, sorted.0)) sorted.1)

-- Every symbol starts past the PC, or not after the symbol that was found.
abbrev pub IsLast : ℕ → Symbol → List Symbol → Type 0
IsLast pc s symbols = All (λ t. (pc < t.pc) ⊎ (t.pc ≤ s.pc)) symbols

past-IsLast :
    (pc : ℕ) (s : Symbol) (symbols : List Symbol)
    → All (λ t. pc < t.pc) symbols
    → IsLast pc s symbols
past-IsLast pc s [] a = tt
past-IsLast pc s (t ∷ symbols) a = (inl a.0, past-IsLast pc s symbols a.1)

symbol_from_lem :
    (pc : ℕ) (last : Symbol) (symbols : List Symbol)
    → IsSortedFrom last.pc symbols
    → last.pc ≤ pc
    → (s : Symbol) × (symbol_from (some last) pc symbols ≡ some s)
      × ((last ≡ s) ⊎ IsOne s symbols)
      × (s.pc ≤ pc)
      × (last.pc ≤ s.pc)
      × IsLast pc s symbols
unfolding symbol_from
symbol_from_lem pc last [] sorted le = (last, refl, inl refl, le, omega arith, tt)
symbol_from_lem pc last (t ∷ symbols) sorted le = elim (Bool-cases (ltb pc t.pc)) [
  | inl past ↦
      let lt : pc < t.pc = ltb→lt _ _ past in
      rw past (
        last,
        refl,
        inl refl,
        le,
        omega arith,
        (inl lt, past-IsLast pc last symbols (above pc t.pc symbols lt sorted.1)),
      )
  | inr here ↦
      let (s, found, one, low, high, rest) = symbol_from_lem pc t symbols sorted.1 (ground arith) in
      rw here (s, found, inr one, low, omega (arith, sorted.0), (inr high, rest))
]

-- In a vector that is sorted by PC, a PC below every symbol has no function; any other is given to
-- a symbol that does not start after it and that no other such symbol starts after, as an offset
-- from it.
pub transform_pc_lem :
    (pc : ℕ) (symbols : List Symbol)
    → IsSortedFrom 0 symbols
    → ((transform_pc pc symbols ≡ none) × All (λ s. pc < s.pc) symbols)
      ⊎ ((s : Symbol) × (transform_pc pc symbols ≡ some (real_pc pc s))
          × IsOne s symbols
          × (s.pc ≤ pc)
          × IsLast pc s symbols)
unfolding transform_pc symbol_from
transform_pc_lem pc [] sorted = inl (refl, tt)
transform_pc_lem pc (t ∷ symbols) sorted = elim (Bool-cases (ltb pc t.pc)) [
  | inl past ↦
      let lt : pc < t.pc = ltb→lt _ _ past in
      rw (past, transform_pc) (inl (refl, (lt, above pc t.pc symbols lt sorted.1)))
  | inr here ↦
      let (s, found, one, low, high, rest) = symbol_from_lem pc t symbols sorted.1 (ground arith) in
      rw (here, transform_pc) (rw (found, transform_pc) (inr (s, refl, one, low, (inr high, rest))))
]
