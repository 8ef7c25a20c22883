-- ===== src/Redshow/Registry/Answers.antt =====
-- What `redshow_memory_query` and `redshow_memory_ranges_get` answer, by the map of live memories.
use mathlib.Core.Option.{some-injective}
use mathlib.Core.List.{map, append_assoc, append-nil}
use ten_prof.Prelude.{
  ℕ, ◌+◌, ◌-◌, ◌%◌, ◌≤◌, ◌≡◌, ◌≢◌, refl, sym, ◌∙◌, ap, u64_mod, true, Option, none, some, List, [],
  ◌∷◌, ◌++◌, arith, le→leb,
}
use ten_prof.Common.Map.{find, has, prev, u64_key}
use ten_prof.Common.Map.Entries.{find_congr, All-prev, has_of_find}
use ten_prof.Common.Map.Prev.{prev-some}
use ten_prof.Operation.{MemoryRange, Memory, success, range_key}
use ten_prof.Redshow.Registry.{MemoryMap, Snapshots, Registry}
use ten_prof.Redshow.Registry.Live.{live, live-prev}
use ten_prof.Redshow.Registry.Invariant.{IsWellFormed, IsEntry, live-IsMemoryMap}
use ten_prof.Redshow.Registry.Query.{Answer, query_map, memory_query, write_ranges, ranges_get}

unfoldable pub answer_in : ℕ → Option MemoryMap → Option Answer
answer_in address none = none
answer_in address (some m) = query_map address m

-- A query reads the map that its operation sees.
pub memory_query-live :
    (h address : ℕ) (r : Registry)
    → memory_query h address r ≡ answer_in address (live h r.memory_snapshot)
unfolding memory_query live answer_in
memory_query-live h address r = ground arith

abbrev pub probe : ℕ → MemoryRange
probe start = record { start = start; end = 0 }

-- What a query writes for a memory that it found.
abbrev pub answer : ℕ → MemoryRange → Memory → Answer
answer start range mem = record {
  memory_id = mem.ctx_id;
  memory_op_id = mem.op_id;
  shadow_start = (mem.value + (start - range.start)) % u64_mod;
  len = mem.len;
}

pub query_map_found :
    (start : ℕ) (range : MemoryRange) (mem : Memory) (m : MemoryMap)
    → prev (probe start) m ≡ some (range, mem)
    → start ≤ range.end
    → query_map start m ≡ some (answer start range mem)
unfolding query_map
query_map_found start range mem m found le = rw (found, query_map) (rw (le→leb _ _ le))

-- In a well-formed registry, an address from the start of a live memory to one past its end is
-- answered by that memory, unless another live memory starts in between.
pub memory_query_complete :
    (h address : ℕ) (r : Registry) (m : MemoryMap) (range : MemoryRange) (mem : Memory)
    → IsWellFormed r
    → live h r.memory_snapshot ≡ some m
    → find range m ≡ some mem
    → mem.memory_range ≡ range
    → range.start ≤ address
    → address ≤ range.end
    → ((other : MemoryRange)
        → has other m ≡ true
        → other.start ≤ address
        → other.start ≤ range.start)
    → memory_query h address r ≡ some (answer address range mem)
unfolding answer_in
memory_query_complete h address r m range mem v seen there own low high between =
    let valid = live-IsMemoryMap h r.memory_snapshot m v.memories seen in
    let (e, found, greatest) =
      prev-some 0 (probe address) range m valid.0 (has_of_find range mem m there) low in
    let same : e.0.start ≡ range.start = omega (
      arith,
      between e.0 greatest.0 greatest.2,
      greatest.3 range (has_of_find range mem m there) low,
    ) in
    let value : e.1 ≡ mem =
      some-injective _ _ (sym greatest.1 ∙ find_congr e.0 range m same ∙ there) in
    let place : e.0 ≡ range =
      (All-prev (IsEntry h) (probe address) m e valid.1 found).0
      ∙ ap (λ (x : Memory). x.memory_range) value
      ∙ own in
    rw (memory_query-live h address r, seen, answer_in)
      (query_map_found address range mem m (found ∙ ap some (λ i. (place i, value i))) high)

-- The ranges that are written: those of the live memories, in the order of their starts.
write_ranges-append :
    (m : MemoryMap) (out : List MemoryRange)
    → write_ranges m out ≡ out ++ map (λ (e : MemoryRange × Memory). e.0) m
unfolding write_ranges
write_ranges-append [] out = sym (append-nil out)
write_ranges-append ((range, mem) ∷ m) out =
    write_ranges-append m (out ++ range ∷ []) ∙ append_assoc out (range ∷ []) _

-- If the operation sees a map that is not empty, the ranges of all its memories are written, in
-- their order, whatever the limit is.
pub ranges_get_all :
    (h limit : ℕ) (s : Snapshots) (m : MemoryMap)
    → live h s ≡ some m
    → m ≢ []
    → ranges_get h limit s ≡ (success, map (λ (e : MemoryRange × Memory). e.0) m)
unfolding ranges_get
ranges_get_all h limit s [] seen some_live = absurd (some_live refl)
ranges_get_all h limit s (e ∷ m) seen some_live =
    let (id, found) = live-prev h s (e ∷ m) seen in
    rw (found, ranges_get)
      (ap (λ (l : List MemoryRange). (success, l)) (write_ranges-append (e ∷ m) []))
