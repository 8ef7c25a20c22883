-- ===== src/Liveness/Callbacks/Copied.antt =====
-- The call for a copy or a fill keeps the edges of the dependency graph rising.
use mathlib.Core.Option.{some-injective}
use ten_prof.Prelude.{
  ℕ, suc, ◌≤◌, ◌≡◌, refl, sym, ap, ◌∙◌, subst, true, false, Option, none, some, [], ◌∷◌, ◌==◌,
  arith, Bool-cases, Option-cases, inl, inr, ◌⊎◌, ltb, All-mono, contains, bind_some,
}
use ten_prof.Common.Map.{u64_key}
use ten_prof.Operation.{Memcpy, Memset, memory_host}
use ten_prof.Liveness.{
  MemoryOperation, memory_set, memory_copyt, memory_copyf, AccessType, read, write, Ledger,
  Liveness, Dependencies,
}
use ten_prof.Liveness.Update.{update_graph_at_access}
use ten_prof.Liveness.Update.Entered.{
  IsBelow, IsGrown-IsBelow, update_graph_at_access-IsGrown, update_graph_at_access_again,
}
use ten_prof.Liveness.Callbacks.{
  update_op_node, update_ctx_node, update_stream_for_ops, copy_side, memcpy_op_callback,
  memset_op_callback, set_sub, copy_memories, copy_submemories,
}

-- What the other members of the analysis are does not matter to the graph.
pub noted :
    (stream_id op_id ctx_id : ℕ) (op : MemoryOperation) (l : Liveness)
    → (update_stream_for_ops stream_id op_id op (update_ctx_node ctx_id op l)).dependencies
      ≡ l.dependencies
unfolding update_stream_for_ops update_ctx_node
noted stream_id op_id ctx_id op l = refl

pub context_noted :
    (stream_id op_id ctx_id : ℕ) (op : MemoryOperation) (l : Liveness)
    → (update_ctx_node ctx_id op (update_stream_for_ops stream_id op_id op l)).dependencies
      ≡ l.dependencies
unfolding update_stream_for_ops update_ctx_node
context_noted stream_id op_id ctx_id op l = refl

pub op_noted :
    (op_id ctx_id : ℕ) (l : Liveness)
    → (update_op_node op_id ctx_id l).dependencies ≡ l.dependencies
unfolding update_op_node
op_noted op_id ctx_id l = elim (Bool-cases (ltb memory_host op_id)) [
  | inl above ↦ rw (above, update_op_node) refl
  | inr below ↦ rw (below, update_op_node) refl
]

copy_side_host :
    (op_id ctx_id mem stream_id : ℕ) (op : MemoryOperation) (access : AccessType) (l : Liveness)
    → (mem == memory_host) ≡ true
    → copy_side op_id ctx_id mem stream_id op access l ≡ some l
unfolding copy_side
copy_side_host op_id ctx_id mem stream_id op access l h = rw (h, copy_side) refl

copy_side_device :
    (op_id ctx_id mem stream_id : ℕ) (op : MemoryOperation) (access : AccessType) (l l' : Liveness)
    → (mem == memory_host) ≡ false
    → copy_side op_id ctx_id mem stream_id op access l ≡ some l'
    → update_graph_at_access op_id op stream_id mem access l.dependencies ≡ some l'.dependencies
unfolding copy_side
copy_side_device op_id ctx_id mem stream_id op access l l' h e =
    let (d, found, rest) = bind_some _ _ l' (rw (h, copy_side) at e) in
    subst (λ d'. update_graph_at_access op_id op stream_id mem access d' ≡ some l'.dependencies)
      (noted stream_id op_id ctx_id op l)
      (found ∙ ap (λ (x : Liveness). some x.dependencies) (some-injective _ l' rest))

-- An operation leaves the graph as it is, or enters itself.
abbrev IsKeptOr : ℕ → ℕ → Dependencies → Dependencies → Type 0
IsKeptOr b op d d' = (d' ≡ d) ⊎ IsBelow b d'

pub IsBelow-mono : (a b : ℕ) (d : Dependencies) → a ≤ b → IsBelow a d → IsBelow b d
IsBelow-mono a b d le v = record {
  graph = v.graph;
  bound = λ k h. omega (arith, le, v.bound k h);
  streams = All-mono _ _ d.stream_ownership_map (λ e h. (h.0, omega (arith, le, h.1))) v.streams;
  owners = All-mono _ _ d.obj_ownership_map (λ e h. (h.0, omega (arith, le, h.1))) v.owners;
  readers =
      All-mono _ _ d.read_nodes (λ e h. All-mono _ _ e.1 (λ r k. (k.0, omega (arith, le, k.1))) h)
        v.readers;
}

-- Both sides of a copy.
copy_sides-IsBelow :
    (b op ctx src dst src_stream dst_stream : ℕ) (l l1 l2 : Liveness)
    → b ≤ op
    → IsBelow b l.dependencies
    → (dst == src) ≡ false ⊎ (dst == memory_host) ≡ true
    → copy_side op ctx src src_stream memory_copyf read l ≡ some l1
    → copy_side op ctx dst dst_stream memory_copyt write l1 ≡ some l2
    → IsBelow (suc op) l2.dependencies
copy_sides-IsBelow b op ctx src dst src_stream dst_stream l l1 l2 le v apart e f =
    elim (Bool-cases (src == memory_host)) [
      | inl host ↦
          let same =
            some-injective l l1
              (sym (copy_side_host op ctx src src_stream memory_copyf read l host) ∙ e) in
          let v1 = subst (λ (x : Liveness). IsBelow b x.dependencies) same v in
          elim (Bool-cases (dst == memory_host)) [
            | inl host' ↦
                let same' =
                  some-injective l1 l2
                    (sym (copy_side_host op ctx dst dst_stream memory_copyt write l1 host') ∙ f) in
                subst (λ (x : Liveness). IsBelow (suc op) x.dependencies) same'
                  (IsBelow-mono b (suc op) l1.dependencies (omega arith) v1)
            | inr device' ↦ IsGrown-IsBelow true (dst ∷ []) op l2.dependencies (
                update_graph_at_access-IsGrown b op memory_copyt dst_stream dst write _ _ le v1
                  (copy_side_device op ctx dst dst_stream memory_copyt write l1 l2 device' f))
          ]
      | inr device ↦
          let g1 =
            update_graph_at_access-IsGrown b op memory_copyf src_stream src read _ _ le v
              (copy_side_device op ctx src src_stream memory_copyf read l l1 device e) in
          elim (Bool-cases (dst == memory_host)) [
            | inl host' ↦
                let same' =
                  some-injective l1 l2
                    (sym (copy_side_host op ctx dst dst_stream memory_copyt write l1 host') ∙ f) in
                subst (λ (x : Liveness). IsBelow (suc op) x.dependencies) same'
                  (IsGrown-IsBelow true (src ∷ []) op l1.dependencies g1)
            | inr device' ↦
                let new : contains dst (src ∷ []) ≡ false = ground (arith, apart, device') in
                IsGrown-IsBelow true (dst ∷ src ∷ []) op l2.dependencies (
                  update_graph_at_access_again (src ∷ []) op memory_copyt dst_stream dst write _ _
                    g1 new
                    (copy_side_device op ctx dst dst_stream memory_copyt write l1 l2 device' f))
          ]
    ]

-- The members of sub-memories are apart from the graph.
set_sub-dependencies :
    (s : Option Ledger) (l l' : Liveness) → set_sub l s ≡ some l' → l'.dependencies ≡ l.dependencies
unfolding set_sub
set_sub-dependencies none l l' e = cc
set_sub-dependencies (some s) l l' e =
    ap (λ (x : Liveness). x.dependencies) (sym (some-injective _ l' e))

pub memcpy-IsBelow :
    (b : ℕ) (op : Memcpy) (l l' : Liveness)
    → b ≤ op.op_id
    → IsBelow b l.dependencies
    → (op.dst_memory_op_id == op.src_memory_op_id) ≡ false
      ⊎ (op.dst_memory_op_id == memory_host) ≡ true
    → memcpy_op_callback op l ≡ some l'
    → IsBelow (suc op.op_id) l'.dependencies
unfolding memcpy_op_callback copy_memories
memcpy-IsBelow b op l l' le v apart e =
    let (copied, sides, rest) = bind_some _ _ l' e in
    let (l1, e1, e2) = bind_some _ _ copied sides in
    subst (IsBelow (suc op.op_id))
      (sym (set_sub-dependencies (copy_submemories op copied.sub) copied l' rest))
      (copy_sides-IsBelow b op.op_id op.ctx_id op.src_memory_op_id op.dst_memory_op_id
        op.src_stream_id op.dst_stream_id (update_op_node op.op_id op.ctx_id l) l1 copied le
        (subst (IsBelow b) (sym (op_noted op.op_id op.ctx_id l)) v) apart e1 e2)

pub memset-IsBelow :
    (b : ℕ) (op : Memset) (l l' : Liveness)
    → b ≤ op.op_id
    → IsBelow b l.dependencies
    → memset_op_callback op l ≡ some l'
    → IsBelow (suc op.op_id) l'.dependencies
unfolding memset_op_callback
memset-IsBelow b op l l' le v e =
    let before =
      update_stream_for_ops op.stream_id op.op_id memory_set
        (update_ctx_node op.ctx_id memory_set (update_op_node op.op_id op.ctx_id l)) in
    let same =
      noted op.stream_id op.op_id op.ctx_id memory_set (update_op_node op.op_id op.ctx_id l)
      ∙ op_noted op.op_id op.ctx_id l in
    elim (Option-cases (
      update_graph_at_access op.op_id memory_set op.stream_id op.memory_op_id write
        before.dependencies)) [
          | inl missing ↦ cc (rw (missing, memset_op_callback) at e)
          | inr (d, found) ↦
              subst (IsBelow (suc op.op_id))
                (sym (set_sub-dependencies _ _ l' (rw (found, memset_op_callback) at e)))
                (IsGrown-IsBelow true (op.memory_op_id ∷ []) op.op_id d (
                  update_graph_at_access-IsGrown b op.op_id memory_set op.stream_id op.memory_op_id
                    write before.dependencies d le (subst (IsBelow b) (sym same) v) found))
        ]
