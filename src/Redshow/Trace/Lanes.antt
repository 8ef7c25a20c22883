-- ===== src/Redshow/Trace/Lanes.antt =====
-- What the analyses are told of the accesses of a warp.
use ten_prof.Prelude.{
  ℕ, suc, ◌+◌, ◌%◌, ◌≤◌, ◌<◌, ◌≡◌, true, ◌≢◌, refl, ap, inl, inr, u64_mod, ◌&&◌, none, some, List,
  [], ◌∷◌, leb, ◌==◌, All, All-append, arith, Bool-cases, Option-cases, subst,
}
use mathlib.Core.Option.{some-injective}
use ten_prof.Common.Map.{prev}
use ten_prof.Operation.{MemoryRange, Memory, AnalysisType, Status, success, range_key}
use ten_prof.Redshow.Registry.{MemoryMap}
use ten_prof.Redshow.Symbols.{transform_pc}
use ten_prof.Redshow.Access.{Target, target, AddressRecord, Call, unit_access, to_each, bit}
use ten_prof.Redshow.Trace.{
  Calls, Launch, Site, outside, inside, unknown, site, patch_memory, patch_lanes, then_rest,
  trace_analyze_address_patch,
}

-- The target, which does not wrap around, lies in a live memory of the map, and has that memory's ids.
abbrev pub IsLive : MemoryMap → Target → Type 0
IsLive m t =
    (range : MemoryRange) × (mem : Memory) × (prev
        (record { start = t.memory_range.start; end = t.memory_range.start }) m
      ≡ some (range, mem))
    × (mem.memory_range.start ≤ t.memory_range.start)
    × (t.memory_range.start ≤ t.memory_range.end)
    × (t.memory_range.end ≤ mem.memory_range.end)
    × (t.op_id ≡ mem.op_id)
    × (t.ctx_id ≡ mem.ctx_id)
    × (mem.op_id ≢ 0)

-- The memory of a site, or another.
abbrev held : Memory → Site → Memory
held other (inside mem) = mem
held other outside = other
held other unknown = other

site_lem :
    (m : MemoryMap) (address size : ℕ) (mem : Memory)
    → site m address size ≡ inside mem
    → (range : MemoryRange) × (prev (record { start = address; end = address }) m
        ≡ some (range, mem))
      × (mem.memory_range.start ≤ address)
      × ((address + size) % u64_mod ≤ mem.memory_range.end)
unfolding site
site_lem m address size mem e =
    elim (Option-cases (prev (record { start = address; end = address }) m)) [
      | inl missing ↦ let e' : unknown ≡ inside mem = rw (missing, site) at e in cc
      | inr ((range, found), here) ↦
          elim (Bool-cases (
            leb found.memory_range.start address
            && leb ((address + size) % u64_mod) found.memory_range.end)) [
              | inr past ↦ let e' : outside ≡ inside mem = rw past at (rw (here, site) at e) in cc
              | inl within ↦
                  let e' : inside found ≡ inside mem = rw within at (rw (here, site) at e) in
                  let same : found ≡ mem = ap (held mem) e' in
                  (
                    range,
                    subst
                        (λ (x : Memory).
                          prev (record { start = address; end = address }) m ≡ some (range, x))
                        same here,
                    subst (λ (x : Memory). x.memory_range.start ≤ address) same (ground arith),
                    subst (λ (x : Memory). (address + size) % u64_mod ≤ x.memory_range.end) same
                        (ground arith),
                  )
            ]
    ]

patch_memory-IsLive :
    (m : MemoryMap) (address size : ℕ) (t : Target)
    → address + size < u64_mod
    → patch_memory m address size ≡ some t
    → IsLive m t
unfolding patch_memory target
patch_memory-IsLive m address size t fits e = by_site (site m address size) refl
  where
    by_site : (s : Site) → site m address size ≡ s → IsLive m t
    by_site outside at = let e' : none ≡ some t = rw (at, patch_memory) at e in cc
    by_site unknown at = let e' : none ≡ some t = rw (at, patch_memory) at e in cc
    by_site (inside mem) at = elim (Bool-cases (mem.op_id == 0)) [
      | inl zero_id ↦ let e' : none ≡ some t = rw zero_id at (rw (at, patch_memory) at e) in cc
      | inr known ↦
          let e' : some (target mem.op_id mem.ctx_id address size) ≡ some t =
            rw known at (rw (at, patch_memory) at e) in
          let (range, found, low, high) = site_lem m address size mem at in
          subst (IsLive m) (some-injective _ _ e')
            (range, mem, found, low, omega (arith, fits), high, refl, refl, ground arith)
    ]

-- What is told of a memory is told of a live one.
abbrev pub IsAttributed : MemoryMap → Call → Type 0
IsAttributed m (unit_access a) = IsLive m a.memory
IsAttributed m other = Unit

to_each-All :
    (enabled : List AnalysisType) (m : MemoryMap) (call : Call)
    → IsAttributed m call
    → All (λ c. IsAttributed m c.1) (to_each enabled call)
unfolding to_each
to_each-All [] m call a = tt
to_each-All (e ∷ enabled) m call a = (a, to_each-All enabled m call a)

-- The accesses of the active threads from `j` on end in the 64 bits of an address.
abbrev pub Fits : AddressRecord → ℕ → List ℕ → Type 0
Fits r j [] = Unit
Fits r j (address ∷ rest) =
    (bit r.active j ≡ true → address + r.size < u64_mod) × Fits r (suc j) rest

patch_lanes-IsAttributed :
    (l : Launch) (r : AddressRecord) (j : ℕ) (addresses : List ℕ)
    → Fits r j addresses
    → All (λ c. IsAttributed l.memory_map c.1) (patch_lanes l r j addresses).1
unfolding patch_lanes
patch_lanes-IsAttributed l r j [] fits = tt
patch_lanes-IsAttributed l r j (address ∷ rest) fits =
    let later = patch_lanes-IsAttributed l r (suc j) rest fits.1 in
    elim (Bool-cases (bit r.active j)) [
      | inr off ↦ rw (off, patch_lanes) later
      | inl on ↦ elim (Option-cases (patch_memory l.memory_map address r.size)) [
        | inl skipped ↦ rw (on, patch_lanes) (rw (skipped, patch_lanes) later)
        | inr (t, attributed) ↦ elim (Option-cases (transform_pc r.pc l.symbols)) [
          | inl lost ↦
              rw (on, patch_lanes) (rw (attributed, patch_lanes) (rw (lost, patch_lanes) tt))
          | inr (real, found) ↦
              rw (on, patch_lanes)
                (rw (attributed, patch_lanes)
                  (rw (found, patch_lanes)
                    (All-append _ _ _
                      (to_each-All l.enabled l.memory_map _
                        (patch_memory-IsLive l.memory_map address r.size t (fits.0 on) attributed))
                      later)))
        ]
      ]
    ]

then_rest-All :
    (P : AnalysisType × Call → Type 0) (here rest : Status × Calls)
    → All P here.1
    → All P rest.1
    → All P (then_rest here rest).1
unfolding then_rest
then_rest-All P (success, calls) rest a b = All-append P calls rest.1 a b
then_rest-All P (failed, calls) rest a b = a

-- Where no access of an active thread ends past the 64 bits of an address, every access that the
-- analyses are told of for a buffer of addresses, whether or not its analysis fails, starts and
-- ends in a live memory and carries the ids of that memory.
pub trace_analyze_address_patch-IsAttributed :
    (l : Launch) (records : List AddressRecord)
    → All (λ r. Fits r 0 r.address) records
    → All (λ c. IsAttributed l.memory_map c.1) (trace_analyze_address_patch l records).1
unfolding trace_analyze_address_patch
trace_analyze_address_patch-IsAttributed l [] fits = tt
trace_analyze_address_patch-IsAttributed l (r ∷ records) fits =
    then_rest-All _ (patch_lanes l r 0 r.address) (trace_analyze_address_patch l records)
      (patch_lanes-IsAttributed l r 0 r.address fits.0)
      (trace_analyze_address_patch-IsAttributed l records fits.1)
