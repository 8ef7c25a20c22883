-- ===== src/Liveness/Sizes.antt =====
-- redshow/src/analysis/memory_liveness.cpp: the selection sort of `output_memory_size_list` and of
-- `output_submemory_size_list`, by falling sizes.
pub mod Sorted
use ten_prof.Prelude.{
  ℕ, zero, suc, ◌-◌, true, false, Option, none, some, List, [], ◌∷◌, ◌==◌, ltb, if◌then◌else◌,
  length,
}
use ten_prof.Liveness.{MemoryEntry}

-- The inner loop: `es` are the entries from `j` on.
unfoldable pub scan : ℕ → MemoryEntry → ℕ → List MemoryEntry → ℕ × MemoryEntry
scan index temp j [] = (index, temp)
scan index temp j (e ∷ es) = elim (ltb temp.size e.size) [
  | true ↦ scan j e (suc j) es
  | false ↦ scan index temp (suc j) es
]

-- `list[k] = e`.
abbrev pub set_at {ℓ} : {A : Type ℓ} → ℕ → A → List A → List A
set_at k e [] = []
set_at zero e (x ∷ xs) = e ∷ xs
set_at (suc k) e (x ∷ xs) = x ∷ set_at k e xs

-- A round of the outer loop, on the entries from `i` on; positions are counted from `i`.
unfoldable pub select : MemoryEntry → List MemoryEntry → MemoryEntry × List MemoryEntry
unfolding scan
select e es =
    let (index, temp) = scan 0 e 1 es in
    if index == 0 then (e, es) else (temp, set_at (index - 1) e es)

unfoldable pub select_rounds : ℕ → List MemoryEntry → List MemoryEntry
unfolding select
select_rounds (suc n) (e ∷ es) = let (x, xs) = select e es in x ∷ select_rounds n xs
select_rounds n es = es

-- The sort; on an empty list `size() - 1` wraps and the first round reads past the end, which is
-- `none`.
unfoldable pub sort_sizes : List MemoryEntry → Option (List MemoryEntry)
unfolding select_rounds
sort_sizes [] = none
sort_sizes (e ∷ es) = some (select_rounds (length es) (e ∷ es))
