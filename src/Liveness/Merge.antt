-- ===== src/Liveness/Merge.antt =====
-- redshow/src/analysis/memory_liveness.cpp: the loops of `output_merged_torch_python_states` and of
-- `output_torch_libunwind_backtrace`, which print each call path once, below the operations that have
-- it, and erase what is printed.
pub mod Groups
use ten_prof.Prelude.{ℕ, zero, suc, Bool, true, false, ◌&&◌, List, [], ◌∷◌, ◌==◌, length}
use ten_prof.Common.Map.{Map}
use ten_prof.View.State.{PythonState}
use ten_prof.Liveness.{Frame}

-- `operator==` of a vector's items.
pub record Equal {ℓ} (A : Type ℓ) : Type ℓ where
  pub same : A → A → Bool

-- `std::string::compare(...) == 0`.
unfoldable pub same_text : List ℕ → List ℕ → Bool
same_text [] [] = true
same_text (a ∷ xs) (b ∷ ys) = (a == b) && same_text xs ys
same_text xs ys = false

unfoldable pub same_state : PythonState → PythonState → Bool
unfolding same_text
same_state s t =
    same_text s.file_name t.file_name
    && same_text s.function_name t.function_name
    && (s.function_first_lineno == t.function_first_lineno)
    && (s.lineno == t.lineno)

unfoldable pub same_frame : Frame → Frame → Bool
unfolding same_text
same_frame s t = (s.pc == t.pc) && (s.offset == t.offset) && same_text s.frame t.frame

instance abbrev pub state_equal : Equal PythonState
state_equal = record { same = same_state }

instance abbrev pub frame_equal : Equal Frame
frame_equal = record { same = same_frame }

module _ {ℓ} {A : Type ℓ} ⦃equal : Equal A⦄ where
  unfoldable pub same_path : List A → List A → Bool
  same_path [] [] = true
  same_path (a ∷ xs) (b ∷ ys) = equal.same a b && same_path xs ys
  same_path xs ys = false

  -- The inner loop: the operations with the call path, and the entries that are left.
  unfoldable pub take_same : List A → Map ℕ (List A) → List ℕ × Map ℕ (List A)
  unfolding same_path
  take_same path [] = ([], [])
  take_same path ((id, p) ∷ m) =
      let (ids, rest) = take_same path m in
      elim (same_path p path) [ true ↦ (id ∷ ids, rest) | false ↦ (ids, (id, p) ∷ rest) ]

  -- The outer loop, on fuel: what is printed, group by group.
  unfoldable pub merge_rounds : ℕ → Map ℕ (List A) → List (List ℕ × List A)
  unfolding take_same
  merge_rounds (suc n) ((id, path) ∷ m) =
      let (ids, rest) = take_same path m in (id ∷ ids, path) ∷ merge_rounds n rest
  merge_rounds n m = []

  unfoldable pub merged : Map ℕ (List A) → List (List ℕ × List A)
  unfolding merge_rounds
  merged m = merge_rounds (length m) m
