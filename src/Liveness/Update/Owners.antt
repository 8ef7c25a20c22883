-- ===== src/Liveness/Update/Owners.antt =====
-- What an allocation and a free do to the owners and the readers of the memories.
use ten_prof.Prelude.{
  ℕ, ◌≡◌, refl, ap, ◌∙◌, false, some, List, [], ◌∷◌, Bool-cases, Option-cases, inl, inr, ltb,
  contains,
}
use ten_prof.Common.Map.{Map, find, assign, try_emplace, u64_key}
use ten_prof.Liveness.{MemoryOperation, Dependencies}
use ten_prof.Liveness.Graph.{has_node}
use ten_prof.Liveness.Update.{
  update_global_op_id_start, update_stream_nodes, meet_node, push_edge, data_edge, follow_stream,
  users_of, free_readers, own, update_graph_at_malloc, update_graph_at_free,
}

-- The owners and the readers of all memories.
abbrev pub holders : Dependencies → Map ℕ ℕ × Map ℕ (List ℕ)
holders d = (d.obj_ownership_map, d.read_nodes)

pub holders-update_global_op_id_start :
    (op : ℕ) (d : Dependencies) → holders (update_global_op_id_start op d) ≡ holders d
unfolding update_global_op_id_start
holders-update_global_op_id_start op d = elim (Bool-cases (ltb op d.global_op_id_start)) [
  | inl lower ↦ rw (lower, update_global_op_id_start) refl
  | inr higher ↦ rw (higher, update_global_op_id_start) refl
]

holders-meet_node :
    (op : ℕ) (op_type : MemoryOperation) (d : Dependencies)
    → holders (meet_node op op_type d) ≡ holders d
unfolding meet_node
holders-meet_node op op_type d = elim (Bool-cases (has_node op d.graph)) [
  | inl old ↦ rw (old, meet_node) refl
  | inr new ↦ rw (new, meet_node) refl
]

holders-update_stream_nodes :
    (op stream_id : ℕ) (d : Dependencies) → holders (update_stream_nodes op stream_id d) ≡ holders d
unfolding update_stream_nodes
holders-update_stream_nodes op stream_id d = elim (Option-cases (find stream_id d.stream_nodes)) [
  | inl missing ↦ rw (missing, update_stream_nodes) refl
  | inr (nodes, there) ↦
      rw (there, update_stream_nodes)
        (elim (Bool-cases (contains op nodes)) [ inl old ↦ rw old refl | inr new ↦ rw new refl ])
]

holders-follow_stream :
    (op stream_id : ℕ) (d : Dependencies) → holders (follow_stream op stream_id d) ≡ holders d
unfolding follow_stream
holders-follow_stream op stream_id d = elim (Option-cases (find stream_id d.stream_ownership_map)) [
  | inl missing ↦ rw (missing, follow_stream) refl
  | inr (o, there) ↦ rw (there, follow_stream) (unfold push_edge in refl)
]

holders-free_readers :
    (op obj : ℕ) (rs : List ℕ) (d : Dependencies) → holders (free_readers op obj rs d) ≡ holders d
unfolding free_readers
holders-free_readers op obj [] d = refl
holders-free_readers op obj (r ∷ rs) d =
    holders-free_readers op obj rs (push_edge (data_edge r op) _ d) ∙ (unfold push_edge in refl)

-- A new allocation owns its memory.
pub holders-update_graph_at_malloc :
    (op stream_id : ℕ) (op_type : MemoryOperation) (d : Dependencies)
    → has_node op d.graph ≡ false
    → holders (update_graph_at_malloc op stream_id op_type d)
      ≡ (try_emplace op op d.obj_ownership_map, d.read_nodes)
unfolding update_graph_at_malloc
holders-update_graph_at_malloc op stream_id op_type d new =
    rw (new, update_graph_at_malloc)
      (holders-follow_stream op stream_id _
        ∙ holders-update_stream_nodes op stream_id _
        ∙ ap (λ p. (try_emplace op op p.0, p.1)) (holders-meet_node op op_type d))

-- A free of a memory that has an owner and readers returns, and owns it.
pub update_graph_at_free_returns :
    (op stream_id obj : ℕ) (op_type : MemoryOperation) (d : Dependencies) (owner : ℕ) (rs : List ℕ)
    → find obj d.obj_ownership_map ≡ some owner
    → find obj d.read_nodes ≡ some rs
    → (d' : Dependencies) × (update_graph_at_free op stream_id obj op_type d ≡ some d')
      × (holders d' ≡ (assign obj op d.obj_ownership_map, assign obj [] d.read_nodes))
unfolding update_graph_at_free
update_graph_at_free_returns op stream_id obj op_type d owner rs owned found =
    let met = holders-meet_node op op_type d in
    let owned' = ap (λ (p : Map ℕ ℕ × Map ℕ (List ℕ)). find obj p.0) met ∙ owned in
    let found' = ap (λ (p : Map ℕ ℕ × Map ℕ (List ℕ)). find obj p.1) met ∙ found in
    rw (owned', found', update_graph_at_free)
      (
        _,
        refl,
        holders-follow_stream op stream_id _
            ∙ holders-update_stream_nodes op stream_id _
            ∙ (unfold own in
                (ap (λ p. (assign obj op p.0, assign obj [] p.1))
                  (holders-free_readers op obj (users_of owner rs) _ ∙ met))),
      )
