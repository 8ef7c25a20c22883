-- ===== src/Liveness/Memories/Usage.antt =====
-- The memory usage and its peak, against the memories that are live.
use mathlib.Core.Option.{some-injective}
use ten_prof.Prelude.{
  ℕ, ◌+◌, ◌≤◌, ◌<◌, ◌≡◌, refl, sym, ap, ◌∙◌, inl, inr, false, some, none, [], ◌∷◌, u64_mod, ◌==◌,
  arith, Bool-cases, to_eq,
}
use ten_prof.Common.Map.{Map, find, has, assign, erase, try_emplace, IsSorted, u64_key}
use ten_prof.Common.Map.Laws.{
  find-assign, find-assign_same, find-erase, assign-IsSortedFrom, erase-IsSortedFrom, has-find,
}
use ten_prof.Operation.{Memory, Memfree}
use ten_prof.Liveness.{MemoryOperation, Ledger}
use ten_prof.Liveness.Memories.{allocate, release}

-- The bytes of the memories of a map.
abbrev pub total : Map ℕ Memory → ℕ
total [] = 0
total ((id, mem) ∷ m) = mem.len + total m

total-assign :
    (id : ℕ) (mem : Memory) (m : Map ℕ Memory)
    → has id m ≡ false
    → total (assign id mem m) ≡ mem.len + total m
unfolding has assign
total-assign id mem [] new = refl
total-assign id mem ((j, w) ∷ m) new = ground (arith, total-assign id mem m)

total-erase :
    (id : ℕ) (mem : Memory) (m : Map ℕ Memory)
    → find id m ≡ some mem
    → mem.len + total (erase id m) ≡ total m
unfolding find erase
total-erase id mem [] there = cc
total-erase id mem ((j, w) ∷ m) there = elim (Bool-cases (id == j)) [
  | inl same ↦
      rw (same, erase)
        (ap (λ (v : Memory). v.len + total m)
          (sym (some-injective w mem (rw (same, find) at there))))
  | inr other ↦ rw (other, erase) (omega (arith, total-erase id mem m (rw (other, find) at there)))
]

-- Each address that is mapped is the start of the live memory with that id, and each live memory is
-- mapped by its start.
pub record IsLinked (addresses : Map ℕ ℕ) (memories : Map ℕ Memory) : Type 0 where
  pub mapped :
      (start id : ℕ)
      → find start addresses ≡ some id
      → (mem : Memory) × (find id memories ≡ some mem) × (mem.memory_range.start ≡ start)
  pub live :
      (id : ℕ) (mem : Memory)
      → find id memories ≡ some mem
      → find mem.memory_range.start addresses ≡ some id

pub assign-IsLinked :
    (op : Memory) (addresses : Map ℕ ℕ) (memories : Map ℕ Memory)
    → IsLinked addresses memories
    → find op.op_id memories ≡ none
    → find op.memory_range.start addresses ≡ none
    → IsLinked (assign op.memory_range.start op.op_id addresses) (assign op.op_id op memories)
assign-IsLinked op addresses memories v new free = record {
  mapped = λ start id e. elim (Bool-cases (start == op.memory_range.start)) [
    | inl same ↦
        let eq =
          some-injective op.op_id id
            (rw (find-assign op.memory_range.start start op.op_id addresses, same) at e) in
        (op, rw (sym eq) (find-assign_same op.op_id op memories), sym (to_eq _ _ same))
    | inr other ↦
        let old = rw (find-assign op.memory_range.start start op.op_id addresses, other) at e in
        let (mem, there, starts) = v.mapped start id old in
        elim (Bool-cases (id == op.op_id)) [
          | inl clash ↦ cc (rw (to_eq id op.op_id clash) at there, new)
          | inr away ↦ (mem, rw (find-assign op.op_id id op memories, away) there, starts)
        ]
  ];
  live = λ id mem e. elim (Bool-cases (id == op.op_id)) [
    | inl same ↦
        let eq = some-injective op mem (rw (find-assign op.op_id id op memories, same) at e) in
        rw (sym eq)
          (rw (to_eq id op.op_id same) (find-assign_same op.memory_range.start op.op_id addresses))
    | inr other ↦
        let old = v.live id mem (rw (find-assign op.op_id id op memories, other) at e) in
        elim (Bool-cases (mem.memory_range.start == op.memory_range.start)) [
          | inl clash ↦
              cc (rw (to_eq mem.memory_range.start op.memory_range.start clash) at old, free)
          | inr away ↦
              rw (find-assign op.memory_range.start mem.memory_range.start op.op_id addresses, away)
                old
        ]
  ];
}

-- A memory is mapped at one address.
one_start :
    (s t id : ℕ) (addresses : Map ℕ ℕ) (memories : Map ℕ Memory)
    → IsLinked addresses memories
    → find s addresses ≡ some id
    → find t addresses ≡ some id
    → s ≡ t
one_start s t id addresses memories v e f =
    let (m, a, starts) = v.mapped s id e in
    let (n, b, starts') = v.mapped t id f in
    sym starts
    ∙ ap (λ (o : Memory). o.memory_range.start) (some-injective m n (sym a ∙ b))
    ∙ starts'

pub erase-IsLinked :
    (start id : ℕ) (addresses : Map ℕ ℕ) (memories : Map ℕ Memory)
    → IsSorted addresses
    → IsSorted memories
    → IsLinked addresses memories
    → find start addresses ≡ some id
    → IsLinked (erase start addresses) (erase id memories)
erase-IsLinked start id addresses memories sa sm v there = record {
  mapped = λ s i e. elim (Bool-cases (s == start)) [
    | inl same ↦ cc (rw (find-erase 0 start s addresses sa, same) at e)
    | inr other ↦
        let old = rw (find-erase 0 start s addresses sa, other) at e in
        let (mem, at, starts) = v.mapped s i old in
        elim (Bool-cases (i == id)) [
          | inl clash ↦
              let same =
                one_start s start id addresses memories v (rw (to_eq i id clash) at old) there in
              absurd (ground (arith, same, other))
          | inr away ↦ (mem, rw (find-erase 0 id i memories sm, away) at, starts)
        ]
  ];
  live = λ i mem e. elim (Bool-cases (i == id)) [
    | inl same ↦ cc (rw (find-erase 0 id i memories sm, same) at e)
    | inr other ↦
        let old = v.live i mem (rw (find-erase 0 id i memories sm, other) at e) in
        elim (Bool-cases (mem.memory_range.start == start)) [
          | inl clash ↦
              let same = some-injective i id (sym (rw (to_eq _ start clash) at old) ∙ there) in
              absurd (ground (arith, same, other))
          | inr away ↦ rw (find-erase 0 start mem.memory_range.start addresses sa, away) old
        ]
  ];
}

-- What holds of a ledger between two operations: its maps are linked, the usage is the bytes of the
-- live memories, and it is not above the peak.
pub record IsBalanced (l : Ledger) : Type 0 where
  pub sorted_addresses : IsSorted l.addresses_map
  pub sorted_memories : IsSorted l.current_memories
  pub linked : IsLinked l.addresses_map l.current_memories
  pub usage : l.current_memory_usage ≡ total l.current_memories
  pub fits : total l.current_memories < u64_mod
  pub peak : l.current_memory_usage ≤ l.current_memory_peak

-- An allocation with a new id and a new start, which fits 64 bits together with the live memories,
-- keeps the ledger balanced: addresses and live memories map to each other, the usage is the bytes
-- of the live memories, and the peak is not below it.
pub allocate-IsBalanced :
    (op : Memory) (mem_op : MemoryOperation) (l : Ledger)
    → IsBalanced l
    → has op.op_id l.current_memories ≡ false
    → has op.memory_range.start l.addresses_map ≡ false
    → op.len + total l.current_memories < u64_mod
    → IsBalanced (allocate op mem_op l)
unfolding allocate try_emplace
allocate-IsBalanced op mem_op l v new free room = record {
  sorted_addresses = rw free (
      assign-IsSortedFrom 0 op.memory_range.start op.op_id l.addresses_map (omega arith)
        v.sorted_addresses);
  sorted_memories =
      rw new (assign-IsSortedFrom 0 op.op_id op l.current_memories (omega arith) v.sorted_memories);
  linked =
      rw (new, free)
        (assign-IsLinked op l.addresses_map l.current_memories v.linked
          (has-find op.op_id l.current_memories new)
          (has-find op.memory_range.start l.addresses_map free));
  usage = rw (new, total-assign op.op_id op l.current_memories new) (omega (arith, v.usage, room));
  fits = rw (new, total-assign op.op_id op l.current_memories new) room;
  peak = ground arith;
}

-- In a balanced ledger, a free at the start of a live memory, of its length, returns and keeps the
-- ledger balanced.
pub release-IsBalanced :
    (op : Memfree) (mem_op : MemoryOperation) (l : Ledger) (id : ℕ) (mem : Memory)
    → IsBalanced l
    → find op.memory_range.start l.addresses_map ≡ some id
    → find id l.current_memories ≡ some mem
    → op.len ≡ mem.len
    → (l' : Ledger) × (release op mem_op l ≡ some (id, l')) × IsBalanced l'
unfolding release
release-IsBalanced op mem_op l id mem v mapped live len =
    let left = total-erase id mem l.current_memories live in
    rw (mapped, release)
      (
        _,
        refl,
        record {
          sorted_addresses =
              erase-IsSortedFrom 0 op.memory_range.start l.addresses_map v.sorted_addresses;
          sorted_memories = erase-IsSortedFrom 0 id l.current_memories v.sorted_memories;
          linked =
              erase-IsLinked op.memory_range.start id l.addresses_map l.current_memories
                v.sorted_addresses v.sorted_memories v.linked mapped;
          usage = omega (arith, v.usage, v.fits, left, len);
          fits = omega (arith, v.fits, left);
          peak = omega (arith, v.usage, v.fits, v.peak, left, len);
        },
      )
