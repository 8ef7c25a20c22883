-- ===== src/Redshow/Cubins/Lookup.antt =====
-- What a trace finds of a module once it is registered, noted or taken back.
use ten_prof.Prelude.{
  ℕ, ◌≡◌, refl, ◌∙◌, ap, true, false, ◌&&◌, Option, none, some, List, [], ◌∷◌, if◌then◌else◌, inl,
  inr, ◌⊎◌, ◌==◌, Bool-cases, Option-cases, subst, ==_iff,
}
use ten_prof.Common.Map.{Map, find, has, assign, erase, IsSorted, u64_key}
use ten_prof.Common.Map.Laws.{find-assign, find-assign_same, find-erase, find-has}
use ten_prof.Common.Map.Entries.{has_of_find}
use ten_prof.Operation.{success, error_not_exist_entry, error_duplicate_entry}
use mathlib.Core.List.{Perm}
use ten_prof.Redshow.Symbols.{Symbol}
use ten_prof.Redshow.Symbols.Transform.{IsSortedFrom}
use ten_prof.Redshow.Cubins.{
  InstructionGraph, Cubin, Cubins, Analyzed, no_modules, assign_pcs, enter_cubin, has_symbols,
  cubin_register, cubin_cache_register, drop_empty, cubin_unregister, lookup, lookup_cache,
  look_again, load_cubin,
}

-- The modules that are loaded of a cubin.
unfoldable pub modules : ℕ → Map ℕ Cubin → Map ℕ (List Symbol)
modules cubin_id m = elim (find cubin_id m) [ none ↦ [] | some cubin ↦ cubin.symbols ]

-- The symbols that are loaded for a module of a cubin.
abbrev pub symbols_in : ℕ → ℕ → Map ℕ Cubin → Option (List Symbol)
symbols_in cubin_id mod_id m = find mod_id (modules cubin_id m)

modules-assign :
    (i cubin_id : ℕ) (cubin : Cubin) (m : Map ℕ Cubin)
    → modules i (assign cubin_id cubin m) ≡ (if i == cubin_id then cubin.symbols else modules i m)
unfolding modules
modules-assign i cubin_id cubin m = elim (Bool-cases (i == cubin_id)) [
  | inl same ↦ rw (find-assign cubin_id i cubin m, modules) (rw (same, modules) refl)
  | inr ne ↦ rw (find-assign cubin_id i cubin m, modules) (rw (ne, modules) refl)
]

symbols_in-assign :
    (i j cubin_id mod_id : ℕ) (symbols : List Symbol) (cubin : Cubin) (m : Map ℕ Cubin)
    → cubin.symbols ≡ assign mod_id symbols (modules cubin_id m)
    → symbols_in i j (assign cubin_id cubin m)
      ≡ (if (i == cubin_id) && (j == mod_id) then some symbols else symbols_in i j m)
symbols_in-assign i j cubin_id mod_id symbols cubin m made = elim (Bool-cases (i == cubin_id)) [
  | inr ne ↦ rw (modules-assign i cubin_id cubin m) (rw ne refl)
  | inl same ↦
      let at : i ≡ cubin_id = (==_iff i cubin_id).0 same in
      rw (modules-assign i cubin_id cubin m)
        (rw same (rw (made, find-assign mod_id j symbols (modules cubin_id m), at) refl))
]

-- Registering a module that is not loaded makes its symbols found and leaves those of every other
-- module; a module that is loaded is refused as a duplicate and nothing changes.
pub enter_cubin_lem :
    (cubin_id mod_id : ℕ) (path : List ℕ) (symbols : List Symbol) (graph : InstructionGraph)
    (c : Cubins) (i j : ℕ)
    → ((symbols_in cubin_id mod_id c.cubin_map ≡ none)
        × ((enter_cubin cubin_id mod_id path symbols graph c).0 ≡ success)
        × (symbols_in i j (enter_cubin cubin_id mod_id path symbols graph c).1.cubin_map ≡ (
            if (i == cubin_id) && (j == mod_id) then some symbols else symbols_in i j c.cubin_map)))
      ⊎ ((old : List Symbol) × (symbols_in cubin_id mod_id c.cubin_map ≡ some old)
          × (enter_cubin cubin_id mod_id path symbols graph c ≡ (error_duplicate_entry, c)))
unfolding enter_cubin
enter_cubin_lem cubin_id mod_id path symbols graph c i j =
    elim (Option-cases (find cubin_id c.cubin_map)) [
      | inl new ↦
          let none_yet : modules cubin_id c.cubin_map ≡ [] =
            unfold modules in rw (new, modules) refl in
          rw (new, enter_cubin)
            (inl (
              rw none_yet (unfold find in refl),
              refl,
              symbols_in-assign i j cubin_id mod_id symbols _ c.cubin_map (rw none_yet refl),
            ))
      | inr (cubin, there) ↦
          let loaded : modules cubin_id c.cubin_map ≡ cubin.symbols =
            unfold modules in rw (there, modules) refl in
          elim (Option-cases (find mod_id cubin.symbols)) [
            | inl new ↦
                let absent : has mod_id cubin.symbols ≡ false = find-has mod_id cubin.symbols new in
                rw (there, enter_cubin)
                  (rw absent (
                    inl (
                      rw loaded new,
                      refl,
                      symbols_in-assign i j cubin_id mod_id symbols _ c.cubin_map (rw loaded refl),
                    )))
            | inr (old, known) ↦
                let present : has mod_id cubin.symbols ≡ true =
                  has_of_find mod_id old cubin.symbols known in
                rw (there, enter_cubin) (rw present (inr (old, rw loaded known, refl)))
          ]
    ]

modules-erase :
    (i cubin_id : ℕ) (m : Map ℕ Cubin)
    → IsSorted m
    → modules i (erase cubin_id m) ≡ (if i == cubin_id then [] else modules i m)
unfolding modules
modules-erase i cubin_id m sorted = elim (Bool-cases (i == cubin_id)) [
  | inl same ↦ rw (find-erase 0 cubin_id i m sorted, modules) (rw (same, modules) refl)
  | inr ne ↦ rw (find-erase 0 cubin_id i m sorted, modules) (rw (ne, modules) refl)
]

no_modules_nil : (m : Map ℕ (List Symbol)) → no_modules m ≡ true → m ≡ []
unfolding no_modules
no_modules_nil [] e = refl
no_modules_nil (x ∷ m) e = let e' : false ≡ true = e in cc

modules-drop_empty :
    (i cubin_id : ℕ) (cubin : Cubin) (m : Map ℕ Cubin)
    → IsSorted m
    → modules i (drop_empty cubin_id cubin m)
      ≡ (if i == cubin_id then cubin.symbols else modules i m)
unfolding drop_empty
modules-drop_empty i cubin_id cubin m sorted = elim (Bool-cases (no_modules cubin.symbols)) [
  | inl gone ↦ rw (gone, no_modules_nil cubin.symbols gone) (modules-erase i cubin_id m sorted)
  | inr left ↦ rw left (modules-assign i cubin_id cubin m)
]

-- Taking back a module of a loaded cubin makes its symbols unknown and leaves those of every other
-- module; for a cubin that is not loaded the call fails and nothing changes. The ids of the cubins
-- and of the modules rise.
pub cubin_unregister_lem :
    (cubin_id mod_id : ℕ) (c : Cubins) (i j : ℕ)
    → IsSorted c.cubin_map
    → IsSorted (modules cubin_id c.cubin_map)
    → ((find cubin_id c.cubin_map ≡ none)
        × (cubin_unregister cubin_id mod_id c ≡ (error_not_exist_entry, c)))
      ⊎ ((cubin : Cubin) × (find cubin_id c.cubin_map ≡ some cubin)
          × ((cubin_unregister cubin_id mod_id c).0 ≡ success)
          × (symbols_in i j (cubin_unregister cubin_id mod_id c).1.cubin_map
              ≡ (if (i == cubin_id) && (j == mod_id) then none else symbols_in i j c.cubin_map)))
unfolding cubin_unregister
cubin_unregister_lem cubin_id mod_id c i j sorted inner =
    elim (Option-cases (find cubin_id c.cubin_map)) [
      | inl missing ↦ inl (missing, rw (missing, cubin_unregister) refl)
      | inr (cubin, there) ↦
          let loaded : modules cubin_id c.cubin_map ≡ cubin.symbols =
            unfold modules in rw (there, modules) refl in
          rw (there, cubin_unregister)
            (inr (
              cubin,
              refl,
              refl,
              elim (Bool-cases (i == cubin_id)) [
                | inr ne ↦ rw (modules-drop_empty i cubin_id _ c.cubin_map sorted) (rw ne refl)
                | inl same ↦
                    let at : i ≡ cubin_id = (==_iff i cubin_id).0 same in
                    rw (modules-drop_empty i cubin_id _ c.cubin_map sorted) (
                      rw same (
                        rw
                          (
                            find-erase 0 mod_id j cubin.symbols (subst IsSorted loaded inner),
                            at,
                            loaded,
                          )
                          refl))
              ],
            ))
    ]

lookup-assign :
    (cubin_id mod_id : ℕ) (cubin : Cubin) (symbols : List Symbol) (c : Cubins)
    → cubin.symbols ≡ assign mod_id symbols []
    → lookup cubin_id mod_id (record c { cubin_map = assign cubin_id cubin c.cubin_map })
      ≡ some (symbols, cubin.inst_graph)
unfolding lookup
lookup-assign cubin_id mod_id cubin symbols c made =
    rw (find-assign_same cubin_id cubin c.cubin_map, lookup)
      (rw (made, lookup) (rw (find-assign_same mod_id symbols [], lookup) refl))

-- What a fresh note of a cubin holds.
noted_lem :
    (cubin_id mod_id nsymbols : ℕ) (symbol_pcs path : List ℕ) (c : Cubins)
    → find cubin_id c.cubin_cache_map ≡ none
    → let noted = (cubin_cache_register cubin_id mod_id nsymbols symbol_pcs path c).1 in
      (noted.cubin_map ≡ c.cubin_map)
      × (lookup_cache cubin_id mod_id noted ≡ some (nsymbols, symbol_pcs, path))
unfolding cubin_cache_register lookup_cache
noted_lem cubin_id mod_id nsymbols symbol_pcs path c new =
    rw (new, cubin_cache_register)
      (
        refl,
        rw (find-assign_same cubin_id _ c.cubin_cache_map, lookup_cache)
            (rw (find-assign_same mod_id symbol_pcs [], lookup_cache) refl),
      )

lookup_missing :
    (cubin_id mod_id : ℕ) (c : Cubins)
    → find cubin_id c.cubin_map ≡ none
    → lookup cubin_id mod_id c ≡ none
unfolding lookup
lookup_missing cubin_id mod_id c new = rw (new, lookup) refl

-- A cubin that is not loaded is registered, and then found.
look_again_new :
    (cubin_id mod_id : ℕ) (path : List ℕ) (symbols : List Symbol) (graph : InstructionGraph)
    (c : Cubins)
    → find cubin_id c.cubin_map ≡ none
    → let loaded = look_again cubin_id mod_id (enter_cubin cubin_id mod_id path symbols graph c) in
      (loaded.0 ≡ success) × (loaded.1 ≡ some (symbols, graph))
unfolding enter_cubin look_again
look_again_new cubin_id mod_id path symbols graph c new =
    let cubin : Cubin = record {
      cubin_id = cubin_id;
      path = path;
      symbols = assign mod_id symbols [];
      inst_graph = graph;
    } in
    rw (new, enter_cubin)
      (rw (lookup-assign cubin_id mod_id cubin symbols c refl, look_again) (refl, refl))

-- A module of a cubin that is neither loaded nor noted, once noted, is loaded when a trace asks
-- for it: its symbols with its own PCs, in the order of the PCs, and its graph. Its file can be
-- analyzed or does not exist, and the sort returns the same symbols in that order.
pub load_cubin-cubin_cache_register :
    (analyze_cubin : List ℕ → ℕ → Analyzed) (sort_symbols : List Symbol → List Symbol)
    (cubin_id mod_id nsymbols : ℕ) (symbol_pcs path : List ℕ) (c : Cubins)
    → ((l : List Symbol) → IsSortedFrom 0 (sort_symbols l) × Perm (sort_symbols l) l)
    → find cubin_id c.cubin_map ≡ none
    → find cubin_id c.cubin_cache_map ≡ none
    → has_symbols (analyze_cubin path nsymbols).status ≡ true
    → let noted = (cubin_cache_register cubin_id mod_id nsymbols symbol_pcs path c).1 in
      let loaded = load_cubin analyze_cubin sort_symbols cubin_id mod_id noted in
      let own = assign_pcs (analyze_cubin path nsymbols).symbols symbol_pcs in
      (loaded.0 ≡ success)
      × (loaded.1 ≡ some (sort_symbols own, (analyze_cubin path nsymbols).inst_graph))
      × IsSortedFrom 0 (sort_symbols own)
      × Perm (sort_symbols own) own
unfolding load_cubin cubin_register
load_cubin-cubin_cache_register analyze_cubin sort_symbols cubin_id mod_id nsymbols symbol_pcs path
      c sorts new uncached fine =
    let noted : Cubins = (cubin_cache_register cubin_id mod_id nsymbols symbol_pcs path c).1 in
    let (same, there) = noted_lem cubin_id mod_id nsymbols symbol_pcs path c uncached in
    let still : find cubin_id noted.cubin_map ≡ none = ap (find cubin_id) same ∙ new in
    let found : ((load_cubin analyze_cubin sort_symbols cubin_id mod_id noted).0 ≡ success)
        × ((load_cubin analyze_cubin sort_symbols cubin_id mod_id noted).1
            ≡ some (
              sort_symbols (assign_pcs (analyze_cubin path nsymbols).symbols symbol_pcs),
              (analyze_cubin path nsymbols).inst_graph,
            )) =
      rw (lookup_missing cubin_id mod_id noted still, load_cubin)
        (rw (there, load_cubin)
          (rw (fine, cubin_register) (look_again_new cubin_id mod_id path _ _ noted still))) in
    let sorted = sorts (assign_pcs (analyze_cubin path nsymbols).symbols symbol_pcs) in
    (found.0, found.1, sorted.0, sorted.1)
