-- ===== src/Redshow/Trace/Regions.antt =====
-- How a contiguous region of addresses is divided among the live memories.
use ten_prof.Prelude.{
  ℕ, zero, suc, ◌+◌, ◌-◌, ◌%◌, ◌≤◌, ◌<◌, ◌≡◌, ◌≢◌, refl, sym, ◌∙◌, ◌⊎◌, inl, inr, u64_mod, Bool,
  false, not, ◌&&◌, none, some, List, [], ◌∷◌, ◌++◌, ltb, leb, ◌==◌, min, All, arith, Bool-cases,
  Option-cases, ltb→lt, ltb-false, subst,
}
use mathlib.Core.Option.{some-injective}
use ten_prof.Common.Map.{prev}
use ten_prof.Operation.{MemoryRange, Memory, success, range_key}
use ten_prof.Redshow.Registry.{MemoryMap}
use ten_prof.Redshow.Access.{Target, target}
use ten_prof.Redshow.Trace.{
  Calls, Launch, region_part, in_front, split_region, report_parts, trace_analyze_address_analysis,
}

-- The memory that `prev` finds for an address: its range holds the address, and its operation is
-- known.
abbrev pub IsIn : MemoryMap → ℕ → MemoryRange → Memory → Type 0
IsIn m address range mem =
    (prev (record { start = address; end = address }) m ≡ some (range, mem))
    × (range.start ≤ address)
    × (address < range.end)
    × (mem.op_id ≢ 0)

-- The parts follow each other without a gap from `pos` on, each in one live memory and none past
-- `end`, up to `end` or to the first address that `IsIn` finds no memory for.
abbrev pub Tiles : MemoryMap → ℕ → ℕ → List Target → Type 0
Tiles m end pos [] = (end ≤ pos) ⊎ ((range : MemoryRange) (mem : Memory) → ¬ IsIn m pos range mem)
Tiles m end pos (part ∷ parts) =
    (part.memory_range.start ≡ pos)
    × (pos < part.memory_range.end)
    × (part.memory_range.end ≤ end)
    × ((range : MemoryRange) × (mem : Memory) × IsIn m pos range mem
        × (part.memory_range.end ≤ range.end)
        × (part.op_id ≡ mem.op_id)
        × (part.ctx_id ≡ mem.ctx_id))
    × Tiles m end part.memory_range.end parts

-- What a round finds, by the memory that the address lies in.
region_part_lem :
    (m : MemoryMap) (end pos : ℕ)
    → ((region_part m end pos ≡ none)
        × ((range : MemoryRange) (mem : Memory) → ¬ IsIn m pos range mem))
      ⊎ ((range : MemoryRange) × (mem : Memory) × IsIn m pos range mem
          × (region_part m end pos
              ≡ some (
                target mem.op_id mem.ctx_id pos (min end range.end - pos),
                range.end,
                min end range.end,
              )))
unfolding region_part
region_part_lem m end pos = elim (Option-cases (prev (record { start = pos; end = pos }) m)) [
  | inl missing ↦ inl (rw (missing, region_part) refl, λ range mem here. cc)
  | inr ((range, mem), found) ↦
      elim (Bool-cases (leb range.start pos && ltb pos range.end && not (mem.op_id == 0))) [
        | inl here ↦ inr (
          range,
          mem,
          (found, ground arith, ground arith, ground arith),
          rw (found, region_part) (rw here refl),
        )
        | inr gone ↦ inl (
          rw (found, region_part) (rw gone refl),
          λ range' mem' here.
              let test : (MemoryRange × Memory) → Bool =
                λ e. leb e.0.start pos && ltb pos e.0.end && not (e.1.op_id == 0) in
              let same : (range, mem) ≡ (range', mem') = some-injective _ _ (sym found ∙ here.0) in
              let fails : (leb range'.start pos && ltb pos range'.end && not (mem'.op_id == 0))
                  ≡ false =
                subst (λ e. test e ≡ false) same gone in
              ground (arith, here.1, here.2, here.3),
        )
      ]
]

-- A part in front of parts that tile the rest.
part-Tiles :
    (m : MemoryMap) (end pos : ℕ) (range : MemoryRange) (mem : Memory) (parts : List Target)
    → end < u64_mod
    → pos < end
    → IsIn m pos range mem
    → Tiles m end (min end range.end) parts
    → Tiles m end pos (target mem.op_id mem.ctx_id pos (min end range.end - pos) ∷ parts)
unfolding target
part-Tiles m end pos range mem parts word more here tiles =
    let stop : ℕ = min end range.end in
    let last : (pos + (stop - pos)) % u64_mod ≡ stop = omega (arith, here.1, here.2) in
    (
      refl,
      omega (arith, last, here.1, here.2),
      omega (arith, last),
      (range, mem, here, omega (arith, last), refl, refl),
      subst (λ (p : ℕ). Tiles m end p parts) (sym last) tiles,
    )

-- With a round for each byte of the region the loop ends: what it reports tiles the region.
pub split_region_lem :
    (fuel : ℕ) (m : MemoryMap) (end addr_start addr_end : ℕ)
    → end < u64_mod
    → end - addr_end ≤ fuel
    → (addr_end < end → addr_start ≡ addr_end)
    → (parts : List Target) × (split_region fuel m end addr_start addr_end ≡ some parts)
      × Tiles m end addr_end parts
unfolding split_region in_front
split_region_lem zero m end addr_start addr_end word enough together =
    rw (ltb-false addr_end end (omega arith), split_region) ([], refl, inl (omega arith))
split_region_lem (suc fuel) m end addr_start addr_end word enough together =
    elim (Bool-cases (ltb addr_end end)) [
      | inr done ↦ rw (done, split_region) ([], refl, inl (ground arith))
      | inl more ↦
          let same : addr_start ≡ addr_end = together (ltb→lt _ _ more) in
          rw (more, split_region)
            (rw same (elim (region_part_lem m end addr_end) [
              | inl (stop, none_here) ↦ rw stop ([], refl, inr none_here)
              | inr (range, mem, here, part) ↦
                  let (parts, e, tiles) =
                    split_region_lem fuel m end range.end (min end range.end) word
                      (omega (arith, ltb→lt _ _ more, here.1, here.2)) (λ lt. omega arith) in
                  rw part (
                    rw (e, in_front)
                      (
                        target mem.op_id mem.ctx_id addr_end (min end range.end - addr_end) ∷ parts,
                        refl,
                        part-Tiles m end addr_end range mem parts word (ltb→lt _ _ more) here tiles,
                      ))
            ]))
    ]

-- The parts of each region, for the regions in turn.
abbrev pub AllTile : MemoryMap → List MemoryRange → List (List Target) → Type 0
AllTile m [] [] = Unit
AllTile m [] (parts ∷ rest) = ⊥
AllTile m (region ∷ regions) [] = ⊥
AllTile m (region ∷ regions) (parts ∷ rest) =
    Tiles m region.end region.start parts × AllTile m regions rest

-- The calls for the parts of all regions.
abbrev pub reported : Launch → ℕ → List (List Target) → Calls
reported l flags [] = []
reported l flags (parts ∷ rest) = report_parts l flags parts ++ reported l flags rest

-- The analysis of a buffer of regions whose ends are words ends and succeeds within one round for
-- each byte, and what it reports tiles each region: parts in order and without a gap, each inside
-- the memory that the map finds for its start, the last that starts at or before it, and with the
-- ids of that memory, up to the end of the region or to an address that the memory found for it
-- does not hold, or for which none is found or one with the operation id 0.
pub trace_analyze_address_analysis_lem :
    (l : Launch) (flags : ℕ) (regions : List MemoryRange)
    → All (λ r. r.end < u64_mod) regions
    → (found : List (List Target)) × (trace_analyze_address_analysis l flags regions
        ≡ some (success, reported l flags found))
      × AllTile l.memory_map regions found
unfolding trace_analyze_address_analysis
trace_analyze_address_analysis_lem l flags [] words = ([], refl, tt)
trace_analyze_address_analysis_lem l flags (region ∷ regions) words =
    let (found, e, tiles) = trace_analyze_address_analysis_lem l flags regions words.1 in
    let (parts, split, tile) =
      split_region_lem (region.end - region.start) l.memory_map region.end region.start region.start
        words.0 (omega arith) (λ more. refl) in
    rw (split, trace_analyze_address_analysis)
      (rw (e, trace_analyze_address_analysis) (parts ∷ found, refl, (tile, tiles)))
