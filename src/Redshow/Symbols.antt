-- ===== src/Redshow/Symbols.antt =====
-- redshow/include/binutils/symbol.h and real_pc.h: from a PC at run time to the function it is in.
pub mod Transform
use ten_prof.Prelude.{
  ℕ, ◌+◌, ◌-◌, ◌%◌, u64_mod, Bool, true, false, Option, none, some, List, [], ◌∷◌, ltb,
  if◌then◌else◌, map, ◌≤◌,
}

pub record Symbol : Type 0 where
  pub cubin_id : ℕ
  pub index : ℕ
  pub offset : ℕ
  pub pc : ℕ

pub record RealPc : Type 0 where
  pub cubin_id : ℕ
  pub function_index : ℕ
  pub pc_offset : ℕ
  pub cubin_offset : ℕ

-- `std::upper_bound` by `pc` and one step back: `last` is the symbol behind the iterator.
unfoldable pub symbol_from : Option Symbol → ℕ → List Symbol → Option Symbol
symbol_from last pc [] = last
symbol_from last pc (s ∷ symbols) =
    let rest = symbol_from (some s) pc symbols in if ltb pc s.pc then last else rest

-- The PC as an offset in the symbol's function and in its cubin.
unfoldable pub real_pc : ℕ → Symbol → RealPc
real_pc pc s = record {
  cubin_id = s.cubin_id;
  function_index = s.index;
  pc_offset = pc - s.pc;
  cubin_offset = (pc - s.pc + s.offset) % u64_mod;
}

-- `SymbolVector::transform_pc`.
unfoldable pub transform_pc : ℕ → List Symbol → Option RealPc
unfolding symbol_from real_pc
transform_pc pc symbols = elim (symbol_from none pc symbols) [
  | none ↦ none
  | some s ↦ some (real_pc pc s)
]

-- `redshow_record_view_t`.
pub record RecordView : Type 0 where
  pub function_index : ℕ
  pub pc_offset : ℕ
  pub memory_id : ℕ
  pub memory_op_id : ℕ
  pub red_count : ℕ
  pub access_count : ℕ

-- One round of `transform_data_views`.
unfoldable pub transform_view : List Symbol → RecordView → RecordView
unfolding transform_pc
transform_view symbols v = elim (transform_pc v.pc_offset symbols) [
  | none ↦ v
  | some real ↦ record v { function_index = real.function_index; pc_offset = real.pc_offset }
]

-- `transform_data_views` on the views of a record.
unfoldable pub transform_data_views : List Symbol → List RecordView → List RecordView
unfolding transform_view
transform_data_views symbols views = map (transform_view symbols) views
