-- ===== src/Liveness/Callbacks/Held.antt =====
-- The memories that the analysis holds live, when it is told of an allocation.
use mathlib.Core.Option.{some-injective}
use ten_prof.Prelude.{
  ℕ, ◌≡◌, refl, sym, ap, ◌∙◌, true, false, Option, none, some, List, [], ◌==◌, arith, Bool-cases,
  inl, inr, ltb,
}
use ten_prof.Common.Map.{Map, find, has, assign, try_emplace, IsSorted, u64_key}
use ten_prof.Common.Map.Laws.{assign-IsSortedFrom, find-assign, find-has, has-find}
use ten_prof.Operation.{MemoryRange, Memory, memory_host, range_key}
use ten_prof.Redshow.Registry.{MemoryMap}
use ten_prof.Liveness.{memory_alloc, Dependencies, Liveness}
use ten_prof.Liveness.Memories.{allocate}
use ten_prof.Liveness.Update.Owners.{
  holders, holders-update_global_op_id_start, holders-update_graph_at_malloc,
}
use ten_prof.Liveness.Callbacks.{
  update_op_node, update_ctx_node, update_stream_for_ops, memory_op_callback,
}
use ten_prof.Liveness.Graph.{has_node}
use ten_prof.Liveness.Graph.Rising.{has-try_emplace, has-try_emplace_same}
use ten_prof.Liveness.Update.{update_global_op_id_start, update_graph_at_malloc}
use ten_prof.Liveness.Callbacks.Copied.{op_noted}

abbrev pub id_of : Option Memory → Option ℕ
id_of none = none
id_of (some mem) = some mem.op_id

-- The analysis maps the starts of the live memories, and no other address, to their ids, and knows
-- who owns and who reads each of them.
pub record IsHeld (m : MemoryMap) (l : Liveness) : Type 0 where
  pub addresses :
      (range : MemoryRange) → find range.start l.main.addresses_map ≡ id_of (find range m)
  pub sorted : IsSorted l.main.addresses_map
  pub owned :
      (id start : ℕ)
      → find start l.main.addresses_map ≡ some id
      → has id l.dependencies.obj_ownership_map ≡ true
  pub readers :
      (id start : ℕ)
      → find start l.main.addresses_map ≡ some id
      → has id l.dependencies.read_nodes ≡ true

-- What an allocation leaves of the members that the coupling is about.
pub main-update_op_node : (op ctx : ℕ) (l : Liveness) → (update_op_node op ctx l).main ≡ l.main
unfolding update_op_node
main-update_op_node op ctx l = elim (Bool-cases (ltb memory_host op)) [
  | inl above ↦ rw (above, update_op_node) refl
  | inr under ↦ rw (under, update_op_node) refl
]

main-memory_op_callback :
    (op : Memory) (l : Liveness)
    → (memory_op_callback op false [] [] l).main ≡ allocate op memory_alloc l.main
unfolding memory_op_callback update_ctx_node update_stream_for_ops
main-memory_op_callback op l =
    ap (allocate op memory_alloc) (main-update_op_node op.op_id op.ctx_id _)

graph-started : (op : ℕ) (d : Dependencies) → (update_global_op_id_start op d).graph ≡ d.graph
unfolding update_global_op_id_start
graph-started op d = elim (Bool-cases (ltb op d.global_op_id_start)) [
  | inl lower ↦ rw (lower, update_global_op_id_start) refl
  | inr higher ↦ rw (higher, update_global_op_id_start) refl
]

holders-memory_op_callback :
    (op : Memory) (l : Liveness)
    → has_node op.op_id l.dependencies.graph ≡ false
    → holders (memory_op_callback op false [] [] l).dependencies ≡ (
      try_emplace op.op_id op.op_id l.dependencies.obj_ownership_map,
      try_emplace op.op_id [] l.dependencies.read_nodes,
    )
unfolding memory_op_callback update_ctx_node update_stream_for_ops
holders-memory_op_callback op l new =
    let started = update_global_op_id_start op.op_id l.dependencies in
    let start = op_noted op.op_id op.ctx_id (record l { dependencies = started }) in
    let fresh : has_node op.op_id started.graph ≡ false =
      ap (has_node op.op_id) (graph-started op.op_id l.dependencies) ∙ new in
    ap (λ (p : Map ℕ ℕ × Map ℕ (List ℕ)). (p.0, try_emplace op.op_id [] p.1))
      (ap (λ d. holders (update_graph_at_malloc op.op_id op.stream_id memory_alloc d)) start
        ∙ holders-update_graph_at_malloc op.op_id op.stream_id memory_alloc started fresh
        ∙ ap (λ (p : Map ℕ ℕ × Map ℕ (List ℕ)). (try_emplace op.op_id op.op_id p.0, p.1))
            (holders-update_global_op_id_start op.op_id l.dependencies))

mapped :
    (op : Memory) (l : Liveness)
    → find op.memory_range.start l.main.addresses_map ≡ none
    → (allocate op memory_alloc l.main).addresses_map
      ≡ assign op.memory_range.start op.op_id l.main.addresses_map
unfolding allocate try_emplace
mapped op l free = rw (find-has op.memory_range.start l.main.addresses_map free) refl

-- An id that is mapped, or is the new one, has an entry.
entered {ℓ} :
    {V : Type ℓ} (op : ℕ) (v : V) (id start s : ℕ) (addresses : Map ℕ ℕ) (m : Map ℕ V)
    → (find s addresses ≡ some id → has id m ≡ true)
    → find s (assign start op addresses) ≡ some id
    → has id (try_emplace op v m) ≡ true
entered op v id start s addresses m old e = elim (Bool-cases (s == start)) [
  | inl same ↦
      let eq = some-injective op id (rw (find-assign start s op addresses, same) at e) in
      rw (sym eq) (has-try_emplace_same op v m)
  | inr other ↦ has-try_emplace op id v m (old (rw (find-assign start s op addresses, other) at e))
]

same_ids :
    (op : Memory) (m : MemoryMap) (l : Liveness)
    → IsHeld m l
    → (range : MemoryRange)
    → find range.start (assign op.memory_range.start op.op_id l.main.addresses_map)
      ≡ id_of (find range (assign op.memory_range op m))
same_ids op m l v range =
    rw
      (
        find-assign op.memory_range.start range.start op.op_id l.main.addresses_map,
        find-assign op.memory_range range op m,
      )
      (elim (Bool-cases (range.start == op.memory_range.start)) [
        | inl same ↦ rw (same, id_of) refl
        | inr other ↦ rw other (v.addresses range)
      ])

-- The new memory is held with the others.
pub allocated-IsHeld :
    (op : Memory) (m : MemoryMap) (l : Liveness)
    → IsHeld m l
    → has op.memory_range m ≡ false
    → has_node op.op_id l.dependencies.graph ≡ false
    → IsHeld (assign op.memory_range op m) (memory_op_callback op false [] [] l)
allocated-IsHeld op m l v new fresh =
    let free : find op.memory_range.start l.main.addresses_map ≡ none =
      v.addresses op.memory_range ∙ ap id_of (has-find op.memory_range m new) in
    let own = holders-memory_op_callback op l fresh in
    record {
      addresses =
          λ range. rw (main-memory_op_callback op l, mapped op l free) (same_ids op m l v range);
      sorted =
          rw (main-memory_op_callback op l, mapped op l free)
            (assign-IsSortedFrom 0 op.memory_range.start op.op_id l.main.addresses_map (omega arith)
              v.sorted);
      owned = λ id start e.
          let e' = rw (main-memory_op_callback op l, mapped op l free) at e in
          ap (λ (p : Map ℕ ℕ × Map ℕ (List ℕ)). has id p.0) own
          ∙ entered op.op_id op.op_id id op.memory_range.start start l.main.addresses_map
              l.dependencies.obj_ownership_map (λ there. v.owned id start there) e';
      readers = λ id start e.
          let e' = rw (main-memory_op_callback op l, mapped op l free) at e in
          ap (λ (p : Map ℕ ℕ × Map ℕ (List ℕ)). has id p.1) own
          ∙ entered op.op_id [] id op.memory_range.start start l.main.addresses_map
              l.dependencies.read_nodes (λ there. v.readers id start there) e';
    }
