-- ===== src/Redshow/Cubins.antt =====
-- redshow/src/redshow.cpp and redshow/include/binutils/cubin.h: the binaries that are loaded, and
-- those that are only noted until a trace asks for them.
pub mod Lookup
use ten_prof.Prelude.{ℕ, Bool, true, false, not, Option, none, some, List, [], ◌∷◌, if◌then◌else◌}
use ten_prof.Common.Map.{Map, find, has, assign, erase, u64_key}
use ten_prof.Operation.{
  Status, success, error_not_exist_entry, error_duplicate_entry, error_no_such_file,
}
use ten_prof.Redshow.Symbols.{Symbol}
use ten_prof.Redshow.Access.{AccessKind}

-- The graph is kept as what a trace asks of its nodes: the access kind of the instruction.
abbrev pub InstructionGraph : Type 0
InstructionGraph = Map ℕ (Option AccessKind)

pub record Cubin : Type 0 where
  pub cubin_id : ℕ
  pub path : List ℕ
  pub symbols : Map ℕ (List Symbol)
  pub inst_graph : InstructionGraph

pub record CubinCache : Type 0 where
  pub cubin_id : ℕ
  pub nsymbols : ℕ
  pub symbol_pcs : Map ℕ (List ℕ)
  pub path : List ℕ

-- `cubin_map` and `cubin_cache_map`.
pub record Cubins : Type 0 where
  pub cubin_map : Map ℕ Cubin
  pub cubin_cache_map : Map ℕ CubinCache

-- What `analyze_cubin` leaves: its status, the symbols and the graph. It reads a file of
-- instructions and parses it.
pub record Analyzed : Type 0 where
  pub status : Status
  pub symbols : List Symbol
  pub inst_graph : InstructionGraph

-- `symbols[i].pc = symbol_pcs[i]`.
unfoldable pub assign_pcs : List Symbol → List ℕ → List Symbol
assign_pcs (s ∷ symbols) (pc ∷ pcs) = record s { pc = pc } ∷ assign_pcs symbols pcs
assign_pcs symbols _ = symbols

-- What follows the analysis of the cubin, when there are symbols.
unfoldable pub enter_cubin :
    ℕ → ℕ → List ℕ → List Symbol → InstructionGraph → Cubins → Status × Cubins
enter_cubin cubin_id mod_id path symbols inst_graph c = elim (find cubin_id c.cubin_map) [
  | none ↦ (
    success,
    record c {
      cubin_map =
          assign cubin_id
            (record {
              cubin_id = cubin_id;
              path = path;
              symbols = assign mod_id symbols [];
              inst_graph = inst_graph;
            })
            c.cubin_map;
    },
  )
  | some cubin ↦ if has mod_id cubin.symbols then (error_duplicate_entry, c) else (
    success,
    record c {
      cubin_map =
          assign cubin_id (record cubin { symbols = assign mod_id symbols cubin.symbols })
            c.cubin_map;
    },
  )
]

-- `result == REDSHOW_SUCCESS || result == REDSHOW_ERROR_NO_SUCH_FILE`.
unfoldable pub has_symbols : Status → Bool
has_symbols success = true
has_symbols error_no_such_file = true
has_symbols other = false

module _ (analyze_cubin : List ℕ → ℕ → Analyzed) (sort_symbols : List Symbol → List Symbol) where
  -- `redshow_cubin_register`; `sort_symbols` is the `std::sort` of a range of symbols.
  unfoldable pub cubin_register : ℕ → ℕ → ℕ → List ℕ → List ℕ → Cubins → Status × Cubins
  cubin_register cubin_id mod_id nsymbols symbol_pcs path c =
      let analyzed = analyze_cubin path nsymbols in
      if has_symbols analyzed.status
      then enter_cubin cubin_id mod_id path (sort_symbols (assign_pcs analyzed.symbols symbol_pcs))
          analyzed.inst_graph c
      else (analyzed.status, c)

-- `redshow_cubin_cache_register`; of a cubin that is there the path and the count of symbols stay.
unfoldable pub cubin_cache_register : ℕ → ℕ → ℕ → List ℕ → List ℕ → Cubins → Status × Cubins
cubin_cache_register cubin_id mod_id nsymbols symbol_pcs path c =
    elim (find cubin_id c.cubin_cache_map) [
      | none ↦ (
        success,
        record c {
          cubin_cache_map =
              assign cubin_id
                (record {
                  cubin_id = cubin_id;
                  nsymbols = nsymbols;
                  symbol_pcs = assign mod_id symbol_pcs [];
                  path = path;
                })
                c.cubin_cache_map;
        },
      )
      | some cache ↦ if has mod_id cache.symbol_pcs then (error_duplicate_entry, c) else (
        success,
        record c {
          cubin_cache_map =
              assign cubin_id
                (record cache { symbol_pcs = assign mod_id symbol_pcs cache.symbol_pcs })
                c.cubin_cache_map;
        },
      )
    ]

-- `symbols.size() == 0`.
unfoldable pub no_modules : Map ℕ (List Symbol) → Bool
no_modules [] = true
no_modules (e ∷ m) = false

-- `cubin_map.erase(cubin_id)`, if no module is left.
unfoldable pub drop_empty : ℕ → Cubin → Map ℕ Cubin → Map ℕ Cubin
unfolding no_modules
drop_empty cubin_id cubin m =
    if no_modules cubin.symbols then erase cubin_id m else assign cubin_id cubin m

-- `redshow_cubin_unregister`.
unfoldable pub cubin_unregister : ℕ → ℕ → Cubins → Status × Cubins
unfolding drop_empty
cubin_unregister cubin_id mod_id c = elim (find cubin_id c.cubin_map) [
  | none ↦ (error_not_exist_entry, c)
  | some cubin ↦ (
    success,
    record c {
      cubin_map =
          drop_empty cubin_id (record cubin { symbols = erase mod_id cubin.symbols }) c.cubin_map;
    },
  )
]

-- The symbols and the graph that a trace of the module is analyzed with.
unfoldable pub lookup : ℕ → ℕ → Cubins → Option (List Symbol × InstructionGraph)
lookup cubin_id mod_id c = elim (find cubin_id c.cubin_map) [
  | none ↦ none
  | some cubin ↦ elim (find mod_id cubin.symbols) [
    | none ↦ none
    | some symbols ↦ some (symbols, cubin.inst_graph)
  ]
]

-- The noted cubin of a module: its count of symbols, its PCs and its path.
unfoldable pub lookup_cache : ℕ → ℕ → Cubins → Option (ℕ × List ℕ × List ℕ)
lookup_cache cubin_id mod_id c = elim (find cubin_id c.cubin_cache_map) [
  | none ↦ none
  | some cache ↦ elim (find mod_id cache.symbol_pcs) [
    | none ↦ none
    | some symbol_pcs ↦ some (cache.nsymbols, symbol_pcs, cache.path)
  ]
]

-- After a registration, the second look.
unfoldable pub look_again :
    ℕ → ℕ → Status × Cubins → Status × Option (List Symbol × InstructionGraph) × Cubins
look_again cubin_id mod_id (success, c) = elim (lookup cubin_id mod_id c) [
  | none ↦ (error_not_exist_entry, none, c)
  | some found ↦ (success, some found, c)
]
look_again cubin_id mod_id (failed, c) = (failed, none, c)

module _ (analyze_cubin : List ℕ → ℕ → Analyzed) (sort_symbols : List Symbol → List Symbol) where
  -- The first part of `trace_analyze`: a cubin that is not loaded is loaded from the cache.
  unfoldable pub load_cubin :
      ℕ → ℕ → Cubins → Status × Option (List Symbol × InstructionGraph) × Cubins
  load_cubin cubin_id mod_id c = elim (lookup cubin_id mod_id c) [
    | some found ↦ (success, some found, c)
    | none ↦ elim (lookup_cache cubin_id mod_id c) [
      | none ↦ (error_not_exist_entry, none, c)
      | some (nsymbols, symbol_pcs, path) ↦
          look_again cubin_id mod_id
            (cubin_register analyze_cubin sort_symbols cubin_id mod_id nsymbols symbol_pcs path c)
    ]
  ]
