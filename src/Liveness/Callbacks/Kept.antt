-- ===== src/Liveness/Callbacks/Kept.antt =====
-- A call of the analysis keeps the edges of the dependency graph rising.
use mathlib.Core.Option.{some-injective}
use ten_prof.Prelude.{
  ℕ, suc, ◌≤◌, ◌≡◌, refl, sym, ap, ◌∙◌, subst, Bool, true, false, some, List, [], ◌==◌, arith,
  Bool-cases, Option-cases, inl, inr, ◌⊎◌, ltb,
}
use ten_prof.Common.Map.{try_emplace, u64_key}
use ten_prof.Operation.{
  Memory, Memfree, Kernel, Operation, kernel, memory, memfree, memcpy, memset, memory_host,
}
use ten_prof.View.State.{PythonState}
use ten_prof.Liveness.{
  memory_alloc, memory_free, memory_access, submemory_free, sub_free, Frame, Liveness, Dependencies,
}
use ten_prof.Liveness.Graph.Rising.{All-try_emplace}
use ten_prof.Liveness.Update.{update_global_op_id_start, update_graph_at_free}
use ten_prof.Liveness.Update.Entered.{IsBelow}
use ten_prof.Liveness.Update.Life.{update_graph_at_malloc-IsBelow, update_graph_at_free-IsBelow}
use ten_prof.Liveness.Memories.{release}
use ten_prof.Liveness.Callbacks.{
  update_op_node, update_ctx_node, update_stream_for_ops, trace_back, memory_op_callback,
  memfree_op_callback, kernel_op_callback, op_callback, no_submemories, trace_kernel,
}
use ten_prof.Liveness.Callbacks.Copied.{
  noted, context_noted, op_noted, IsBelow-mono, memcpy-IsBelow, memset-IsBelow,
}

started-IsBelow :
    (b op_id : ℕ) (d : Dependencies) → IsBelow b d → IsBelow b (update_global_op_id_start op_id d)
unfolding update_global_op_id_start
started-IsBelow b op_id d v = elim (Bool-cases (ltb op_id d.global_op_id_start)) [
  | inl lower ↦
      rw (lower, update_global_op_id_start)
        record {
          graph = v.graph;
          bound = v.bound;
          streams = v.streams;
          owners = v.owners;
          readers = v.readers;
        }
  | inr higher ↦ rw (higher, update_global_op_id_start) v
]

no_readers-IsBelow :
    (b op_id : ℕ) (d : Dependencies)
    → IsBelow b d
    → IsBelow b (record d { read_nodes = try_emplace op_id [] d.read_nodes })
no_readers-IsBelow b op_id d v = record {
  graph = v.graph;
  bound = v.bound;
  streams = v.streams;
  owners = v.owners;
  readers = All-try_emplace _ op_id [] d.read_nodes tt v.readers;
}

memory-IsBelow :
    (b : ℕ) (op : Memory) (is_submemory : Bool) (frames : List Frame) (states : List PythonState)
    (l : Liveness)
    → b ≤ op.op_id
    → IsBelow b l.dependencies
    → IsBelow (suc op.op_id) (memory_op_callback op is_submemory frames states l).dependencies
unfolding memory_op_callback update_stream_for_ops update_ctx_node trace_back
memory-IsBelow b op true frames states l le v =
    IsBelow-mono b (suc op.op_id) _ (omega arith) (started-IsBelow b op.op_id l.dependencies v)
memory-IsBelow b op false frames states l le v = no_readers-IsBelow (suc op.op_id) op.op_id _ (
    update_graph_at_malloc-IsBelow b op.op_id op.stream_id memory_alloc _ le
      (rw (op_noted op.op_id op.ctx_id _) (started-IsBelow b op.op_id l.dependencies v)))

memfree-IsBelow :
    (b : ℕ) (op : Memfree) (is_submemory : Bool) (frames : List Frame) (states : List PythonState)
    (l l' : Liveness)
    → b ≤ op.op_id
    → IsBelow b l.dependencies
    → memfree_op_callback op is_submemory frames states l ≡ some l'
    → IsBelow (suc op.op_id) l'.dependencies
unfolding memfree_op_callback trace_back
memfree-IsBelow b op true frames states l l' le v e =
    let traced = trace_back op.op_id sub_free frames states l in
    elim (Option-cases (release op submemory_free traced.sub)) [
      | inl missing ↦ cc (rw (missing, memfree_op_callback) at e)
      | inr ((id, ledger), found) ↦
          subst (IsBelow (suc op.op_id))
            (ap (λ (x : Liveness). x.dependencies)
              (some-injective _ l' (rw (found, memfree_op_callback) at e)))
            (IsBelow-mono b (suc op.op_id) l.dependencies (omega arith) v)
    ]
memfree-IsBelow b op false frames states l l' le v e =
    let before = update_ctx_node op.ctx_id memory_free (
      update_stream_for_ops op.stream_id op.op_id memory_free
        (update_op_node op.op_id op.ctx_id l)) in
    let same =
      context_noted op.stream_id op.op_id op.ctx_id memory_free
        (update_op_node op.op_id op.ctx_id l)
      ∙ op_noted op.op_id op.ctx_id l in
    elim (Option-cases (release op memory_free before.main)) [
      | inl missing ↦ cc (rw (missing, memfree_op_callback) at e)
      | inr ((id, ledger), found) ↦
          elim (Option-cases
            (update_graph_at_free op.op_id op.stream_id id memory_free before.dependencies)) [
              | inl missing ↦ cc (rw (found, missing, memfree_op_callback) at e)
              | inr (d, grown) ↦
                  subst (IsBelow (suc op.op_id))
                    (ap (λ (x : Liveness). x.dependencies)
                      (some-injective _ l' (rw (found, grown, memfree_op_callback) at e)))
                    (update_graph_at_free-IsBelow b op.op_id op.stream_id id memory_free
                      before.dependencies d le (subst (IsBelow b) (sym same) v) grown)
            ]
    ]

trace_kernel-dependencies :
    (op_id : ℕ) (states : List PythonState) (l : Liveness)
    → (trace_kernel op_id states l).dependencies ≡ l.dependencies
unfolding trace_kernel
trace_kernel-dependencies op_id states l = elim (Bool-cases (no_submemories l)) [
  | inl empty ↦ rw (empty, trace_kernel) refl
  | inr some_left ↦ rw (some_left, trace_kernel) refl
]

kernel-IsBelow :
    (b : ℕ) (op : Kernel) (states : List PythonState) (l : Liveness)
    → IsBelow b l.dependencies
    → IsBelow b (kernel_op_callback op states l).dependencies
unfolding kernel_op_callback
kernel-IsBelow b op states l v =
    subst (IsBelow b)
      (sym (
        trace_kernel-dependencies op.op_id states _
        ∙ noted op.stream_id op.op_id op.ctx_id memory_access (update_op_node op.op_id op.ctx_id l)
        ∙ op_noted op.op_id op.ctx_id l))
      v

-- The bound of the ids after a call: a kernel is entered when it is analyzed.
unfoldable pub next_bound : ℕ → Operation → ℕ
next_bound b (kernel op) = b
next_bound b (memory op) = suc op.op_id
next_bound b (memfree op) = suc op.op_id
next_bound b (memcpy op) = suc op.op_id
next_bound b (memset op) = suc op.op_id

-- The operation is not an earlier one than `b`, and no copy within one memory of the device.
abbrev pub IsNext : ℕ → Operation → Type 0
IsNext b (kernel op) = Unit
IsNext b (memory op) = b ≤ op.op_id
IsNext b (memfree op) = b ≤ op.op_id
IsNext b (memset op) = b ≤ op.op_id
IsNext b (memcpy op) =
    (b ≤ op.op_id)
    × ((op.dst_memory_op_id == op.src_memory_op_id) ≡ false
        ⊎ (op.dst_memory_op_id == memory_host) ≡ true)

-- A call that returns keeps the edges of the graph rising, below a bound that follows its operation.
pub op_callback-IsBelow :
    (b : ℕ) (op : Operation) (is_submemory : Bool) (frames : List Frame) (states : List PythonState)
    (l l' : Liveness)
    → IsNext b op
    → IsBelow b l.dependencies
    → op_callback op is_submemory frames states l ≡ some l'
    → IsBelow (next_bound b op) l'.dependencies
unfolding op_callback next_bound
op_callback-IsBelow b (kernel op) sub frames states l l' next v e =
    subst (λ (x : Liveness). IsBelow b x.dependencies) (some-injective _ l' e)
      (kernel-IsBelow b op states l v)
op_callback-IsBelow b (memory op) sub frames states l l' next v e =
    subst (λ (x : Liveness). IsBelow (suc op.op_id) x.dependencies) (some-injective _ l' e)
      (memory-IsBelow b op sub frames states l next v)
op_callback-IsBelow b (memfree op) sub frames states l l' next v e =
    memfree-IsBelow b op sub frames states l l' next v e
op_callback-IsBelow b (memcpy op) sub frames states l l' next v e =
    memcpy-IsBelow b op l l' next.0 v next.1 e
op_callback-IsBelow b (memset op) sub frames states l l' next v e =
    memset-IsBelow b op l l' next v e
