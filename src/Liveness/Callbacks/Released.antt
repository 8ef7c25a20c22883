-- ===== src/Liveness/Callbacks/Released.antt =====
-- The memories that the analysis holds live, when it is told of a free.
use ten_prof.Prelude.{
  ℕ, ◌≡◌, refl, ap, ◌∙◌, true, false, some, List, [], ◌==◌, arith, Bool-cases, Option-cases, inl,
  inr,
}
use ten_prof.Common.Map.{Map, find, has, assign, erase, IsSorted, u64_key}
use ten_prof.Common.Map.Laws.{erase-IsSortedFrom, find-erase, has-assign, find-has}
use ten_prof.Operation.{MemoryRange, Memory, Memfree, range_key}
use ten_prof.Redshow.Registry.{MemoryMap}
use ten_prof.Liveness.{memory_free, Ledger, Dependencies, Liveness}
use ten_prof.Liveness.Memories.{release}
use ten_prof.Liveness.Update.Owners.{update_graph_at_free_returns}
use ten_prof.Liveness.Callbacks.{
  update_op_node, update_ctx_node, update_stream_for_ops, memfree_op_callback,
}
use ten_prof.Liveness.Callbacks.Copied.{op_noted, context_noted}
use ten_prof.Liveness.Callbacks.Held.{id_of, IsHeld, main-update_op_node}

release_mapped :
    (op : Memfree) (l : Ledger) (id : ℕ)
    → find op.memory_range.start l.addresses_map ≡ some id
    → (ledger : Ledger) × (release op memory_free l ≡ some (id, ledger))
      × (ledger.addresses_map ≡ erase op.memory_range.start l.addresses_map)
unfolding release
release_mapped op l id e = rw (e, release) (_, refl, refl)

has-some : {V : Type 0} (k : ℕ) (m : Map ℕ V) → has k m ≡ true → (v : V) × (find k m ≡ some v)
has-some k m there = elim (Option-cases (find k m)) [
  | inl missing ↦ cc (find-has k m missing, there)
  | inr (v, found) ↦ (v, found)
]

-- An id that is still mapped had its entry before.
kept_entry :
    {V : Type 0} (k : ℕ) (v : V) (id start s : ℕ) (addresses : Map ℕ ℕ) (m : Map ℕ V)
    → IsSorted addresses
    → (find s addresses ≡ some id → has id m ≡ true)
    → find s (erase start addresses) ≡ some id
    → has id (assign k v m) ≡ true
kept_entry k v id start s addresses m sorted old e = elim (Bool-cases (s == start)) [
  | inl same ↦ cc (rw (find-erase 0 start s addresses sorted, same) at e)
  | inr other ↦
      let there = old (rw (find-erase 0 start s addresses sorted, other) at e) in
      rw (has-assign k id v m) (ground (arith, there))
]

ids_left :
    (range : MemoryRange) (m : MemoryMap) (l : Liveness)
    → IsHeld m l
    → IsSorted m
    → (r : MemoryRange)
    → find r.start (erase range.start l.main.addresses_map) ≡ id_of (find r (erase range m))
ids_left range m l v sorted r =
    rw
      (
        find-erase 0 range.start r.start l.main.addresses_map v.sorted,
        find-erase 0 range r m sorted,
      )
      (elim (Bool-cases (r.start == range.start)) [
        | inl same ↦ rw (same, id_of) refl
        | inr other ↦ rw other (v.addresses r)
      ])

-- The free of a memory that is held returns, and the others are held.
pub freed-IsHeld :
    (op : Memfree) (m : MemoryMap) (mem : Memory) (l : Liveness)
    → IsHeld m l
    → IsSorted m
    → find op.memory_range m ≡ some mem
    → (l' : Liveness) × (memfree_op_callback op false [] [] l ≡ some l')
      × IsHeld (erase op.memory_range m) l'
unfolding memfree_op_callback
freed-IsHeld op m mem l v sorted there =
    let before = update_ctx_node op.ctx_id memory_free (
      update_stream_for_ops op.stream_id op.op_id memory_free
        (update_op_node op.op_id op.ctx_id l)) in
    let main : before.main ≡ l.main =
      unfold update_ctx_node update_stream_for_ops in main-update_op_node op.op_id op.ctx_id l in
    let same : before.dependencies ≡ l.dependencies =
      context_noted op.stream_id op.op_id op.ctx_id memory_free
        (update_op_node op.op_id op.ctx_id l)
      ∙ op_noted op.op_id op.ctx_id l in
    let start = v.addresses op.memory_range ∙ ap id_of there in
    let start' = ap (λ (x : Ledger). find op.memory_range.start x.addresses_map) main ∙ start in
    let (ledger, released, left) = release_mapped op before.main mem.op_id start' in
    let (owner, owned) =
      has-some mem.op_id l.dependencies.obj_ownership_map (v.owned mem.op_id _ start) in
    let (rs, found) = has-some mem.op_id l.dependencies.read_nodes (v.readers mem.op_id _ start) in
    let (d, grown, hold) =
      update_graph_at_free_returns op.op_id op.stream_id mem.op_id memory_free before.dependencies
        owner rs (ap (λ (x : Dependencies). find mem.op_id x.obj_ownership_map) same ∙ owned)
        (ap (λ (x : Dependencies). find mem.op_id x.read_nodes) same ∙ found) in
    let addresses = left ∙ ap (λ (x : Ledger). erase op.memory_range.start x.addresses_map) main in
    let holders' =
      hold
      ∙ ap
          (λ (x : Dependencies).
            (assign mem.op_id op.op_id x.obj_ownership_map, assign mem.op_id [] x.read_nodes))
          same in
    (
      record before { main = ledger; dependencies = d },
      rw (released, grown, memfree_op_callback) refl,
      record {
        addresses = λ range. rw addresses (ids_left op.memory_range m l v sorted range);
        sorted =
            rw addresses (erase-IsSortedFrom 0 op.memory_range.start l.main.addresses_map v.sorted);
        owned = λ id s e.
            ap (λ (p : Map ℕ ℕ × Map ℕ (List ℕ)). has id p.0) holders'
            ∙ kept_entry mem.op_id op.op_id id op.memory_range.start s l.main.addresses_map
                l.dependencies.obj_ownership_map v.sorted (λ h. v.owned id s h) (rw addresses at e);
        readers = λ id s e.
            ap (λ (p : Map ℕ ℕ × Map ℕ (List ℕ)). has id p.1) holders'
            ∙ kept_entry mem.op_id [] id op.memory_range.start s l.main.addresses_map
                l.dependencies.read_nodes v.sorted (λ h. v.readers id s h) (rw addresses at e);
      },
    )
