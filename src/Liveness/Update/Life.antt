-- ===== src/Liveness/Update/Life.antt =====
-- An allocation and a free in the dependency graph.
use mathlib.Core.Option.{some-injective}
use ten_prof.Prelude.{
  ℕ, suc, ◌≤◌, ◌≡◌, refl, subst, true, false, some, [], ◌∷◌, arith, Bool-cases, Option-cases, inl,
  inr, All-mono,
}
use ten_prof.Common.Map.{find, try_emplace, u64_key}
use ten_prof.Liveness.{MemoryOperation, Dependencies, edge_key}
use ten_prof.Liveness.Graph.{has_node}
use ten_prof.Liveness.Graph.Rising.{All-try_emplace}
use ten_prof.Liveness.Update.{meet_node, users_of, update_graph_at_malloc, update_graph_at_free}
use ten_prof.Liveness.Update.Rising.{
  IsGrown, IsPast-mono, contains_head, All-find, update_stream_nodes-IsGrown, own-IsGrown,
  free_readers-IsGrown,
}
use ten_prof.Liveness.Update.Accesses.{users-AreEarlier}
use ten_prof.Liveness.Update.Entered.{
  IsBelow, IsGrown-IsBelow, meet_node-IsGrown, follow_new-IsGrown,
}

-- A new memory is owned by its allocation.
owned :
    (op : ℕ) (d : Dependencies)
    → IsGrown false [] op d
    → IsGrown false
        (op ∷ [])
        op
        (record d { obj_ownership_map = try_emplace op op d.obj_ownership_map })
owned op d v = record {
  graph = v.graph;
  current = v.current;
  bound = v.bound;
  streams = v.streams;
  owners =
      All-try_emplace _ op op d.obj_ownership_map
        (v.current, omega arith, inl (contains_head op []))
        (All-mono _ _ d.obj_ownership_map
          (λ e h. IsPast-mono false _ op d.graph.nodes e.1 (λ f. cc) h) v.owners);
  readers =
      All-mono _ _ d.read_nodes
        (λ e h.
          All-mono _ _ e.1 (λ r past. IsPast-mono false _ op d.graph.nodes r (λ f. cc) past) h)
        v.readers;
}

-- An allocation keeps the edges rising below the next operation.
pub update_graph_at_malloc-IsBelow :
    (b op stream_id : ℕ) (op_type : MemoryOperation) (d : Dependencies)
    → b ≤ op
    → IsBelow b d
    → IsBelow (suc op) (update_graph_at_malloc op stream_id op_type d)
unfolding update_graph_at_malloc
update_graph_at_malloc-IsBelow b op stream_id op_type d le v =
    let met = meet_node-IsGrown b op op_type d le v in
    elim (Bool-cases (has_node op d.graph)) [
      | inl old ↦ absurd (omega (arith, le, v.bound op (unfold has_node in old)))
      | inr new ↦
          rw (new, update_graph_at_malloc)
            (IsGrown-IsBelow true (op ∷ []) op _ (
              follow_new-IsGrown (op ∷ []) op stream_id _ (
                update_stream_nodes-IsGrown false op (op ∷ []) stream_id _
                  (owned op (meet_node op op_type d) met))))
    ]

-- A free keeps the edges rising below the next operation.
pub update_graph_at_free-IsBelow :
    (b op stream_id obj : ℕ) (op_type : MemoryOperation) (d d' : Dependencies)
    → b ≤ op
    → IsBelow b d
    → update_graph_at_free op stream_id obj op_type d ≡ some d'
    → IsBelow (suc op) d'
unfolding update_graph_at_free
update_graph_at_free-IsBelow b op stream_id obj op_type d d' le v e =
    let met = meet_node-IsGrown b op op_type d le v in
    elim (Option-cases (find obj (meet_node op op_type d).obj_ownership_map)) [
      | inl missing ↦ cc (rw (missing, update_graph_at_free) at e)
      | inr (owner, owned) ↦ elim (Option-cases (find obj (meet_node op op_type d).read_nodes)) [
        | inl missing ↦ cc (rw (owned, missing, update_graph_at_free) at e)
        | inr (rs, found) ↦
            let users =
              users-AreEarlier false op false (meet_node op op_type d).graph.nodes owner rs refl
                (All-find _ obj owner _ met.owners owned) (All-find _ obj rs _ met.readers found) in
            let freed = free_readers-IsGrown false op [] obj (users_of owner rs) _ met users in
            subst (IsBelow (suc op))
              (some-injective _ _ (rw (owned, found, update_graph_at_free) at e))
              (IsGrown-IsBelow true (obj ∷ []) op _ (
                follow_new-IsGrown (obj ∷ []) op stream_id _ (
                  update_stream_nodes-IsGrown false op (obj ∷ []) stream_id _
                    (own-IsGrown false op [] obj _ freed))))
      ]
    ]
