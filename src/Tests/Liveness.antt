-- ===== src/Tests/Liveness.antt =====
-- Runs of the analysis of redshow/src/analysis/memory_liveness.cpp: an allocation by operation 7, and
-- copies into and within it.
use mathlib.Core.List.{Perm}
use ten_prof.Prelude.{
  ℕ, ◌≡◌, ◌≤◌, refl, false, none, some, Option, List, [], ◌∷◌, inl, arith, ◌>>=◌, ℕ_discrete,
  dec_lt, All,
}
use ten_prof.Common.Map.{Map, find, has, assign, erase, prev, try_emplace, u64_key}
use ten_prof.Operation.{
  Memory, Memfree, Memcpy, memory, memfree, memcpy, memory_host, memory_liveness,
}
use ten_prof.Liveness.{
  MemoryOperation, memory_alloc, memory_copyt, memory_copyf, memory_free, MemoryEntry, Ledger,
  EdgeIndex, Frame, read, write, data_dependency, Liveness, edge_key,
}
use ten_prof.Liveness.Memories.{
  memory_operation_register, note, allocate, release, hit_entries, raise_optimal, update_aux_hit,
}
use ten_prof.Liveness.Memories.Usage.{IsBalanced, allocate-IsBalanced, release-IsBalanced}
use ten_prof.Liveness.Memories.Kept.{operation_at, memory_operation_register_lem}
use ten_prof.Liveness.Graph.{
  edges_at, link, unlink, has_node, has_edge, add_node, add_edge, remove_edge, remove_edges,
  remove_node, sources, get_no_inedge_nodes,
}
use ten_prof.Liveness.Update.{
  update_global_op_id_start, update_stream_nodes, meet_node, push_edge, follow_stream,
  update_graph_at_malloc, users_of, free_readers, own, update_graph_at_free, depend, depend_readers,
  follow_access, access_object, update_graph_at_access, access_of, update_graph_at_kernel,
  stream_edge, data_edge,
}
use ten_prof.Liveness.Callbacks.{
  update_op_node, update_ctx_node, is_copy, update_stream_for_ops, trace_back, memory_op_callback,
  memfree_op_callback, no_submemories, trace_kernel, kernel_op_callback, values_between, note_all,
  note_range, note_source, copy_side, copy_memories, copy_submemories, set_sub, memcpy_op_callback,
  memset_op_callback, op_callback, begin_main, begin_sub, analysis_begin,
}
use ten_prof.Liveness.Callbacks.Kept.{next_bound}
use ten_prof.Liveness.Callbacks.Reach.{
  new-IsBelow, new_liveness, no_ledger, Reach, Reach-topological_order,
}
use ten_prof.Liveness.Callbacks.Coupled.{IsCoupled, IsFollowed, Registry-IsCoupled}
use ten_prof.Redshow.Registry.{Registry, memory_register, memory_unregister}
use ten_prof.Redshow.Registry.Live.{basis}
use ten_prof.Liveness.Order.{is_empty, remove_nodes, layers, topological_order}
use ten_prof.Liveness.Order.Shrink.{IsSound}
use ten_prof.Liveness.Order.Loops.{Any, layers_never}
use ten_prof.Liveness.Sizes.{scan, select, select_rounds, sort_sizes}
use ten_prof.Liveness.Sizes.Sorted.{IsFalling, sort_sizes-IsFalling}
use ten_prof.Liveness.Merge.{merged, frame_equal}
use ten_prof.Liveness.Merge.Groups.{printed, IsOf, AreDistinct, merged_lem}
use ten_prof.Liveness.Graph.Rising.{no_graph-IsSound, add_node-IsSound, add_edge-IsSound}
use ten_prof.Liveness.Order.Layered.{IsOrder}

program : Unit {0}
unfolding ℕ_discrete dec_lt find has assign erase prev try_emplace memory_operation_register note
    allocate release hit_entries raise_optimal update_aux_hit edges_at link unlink has_node has_edge
    add_node add_edge remove_edge remove_edges remove_node sources get_no_inedge_nodes
    update_global_op_id_start update_stream_nodes meet_node push_edge follow_stream
    update_graph_at_malloc users_of free_readers own update_graph_at_free depend depend_readers
    follow_access access_object update_graph_at_access access_of update_graph_at_kernel
    update_op_node update_ctx_node is_copy update_stream_for_ops trace_back memory_op_callback
    memfree_op_callback no_submemories trace_kernel kernel_op_callback values_between note_all
    note_range note_source copy_side copy_memories copy_submemories set_sub memcpy_op_callback
    memset_op_callback op_callback begin_main begin_sub analysis_begin is_empty remove_nodes layers
    topological_order scan select select_rounds sort_sizes next_bound operation_at
program = tt

abbrev block : Memory
block = record {
  op_id = 7;
  ctx_id = 1;
  stream_id = 0;
  memory_range = record { start = 100; end = 200 };
  len = 100;
  value = 0;
}

abbrev given_back : Memfree
given_back = record {
  op_id = 9;
  ctx_id = 3;
  stream_id = 0;
  memory_range = record { start = 100; end = 200 };
  len = 100;
}

-- A copy by operation 8 from `src` to `dst`.
abbrev copy : ℕ → ℕ → Memcpy
copy src dst = record {
  op_id = 8;
  ctx_id = 2;
  src_memory_op_id = src;
  src_stream_id = 0;
  src_start = 100;
  src_shadow_start = 0;
  dst_memory_op_id = dst;
  dst_stream_id = 0;
  dst_start = 150;
  dst_shadow_start = 0;
  len = 10;
}

unfoldable allocated : Liveness
unfolding program
allocated = memory_op_callback block false [] [] new_liveness

-- The copy from the host and the free follow the allocation.
in_order :
    (op_callback (memcpy (copy memory_host 7)) false [] [] allocated
      >>= (λ l. op_callback (memfree given_back) false [] [] l)
      >>= (λ l. topological_order l.dependencies.graph))
    ≡ some ((7 ∷ []) ∷ (8 ∷ []) ∷ (9 ∷ []) ∷ [])
unfolding program allocated
in_order = refl

sorted_sizes :
    sort_sizes (
      record { op_id = 7; size = 100 }
      ∷ record { op_id = 8; size = 300 }
      ∷ record { op_id = 9; size = 200 }
      ∷ [])
    ≡ some (
        record { op_id = 8; size = 300 }
        ∷ record { op_id = 9; size = 200 }
        ∷ record { op_id = 7; size = 100 }
        ∷ [])
unfolding program
sorted_sizes = refl

-- The result of a call, or what was before it.
abbrev after : Option Liveness → Liveness → Liveness
after none l = l
after (some l') l = l'

unfoldable copied : Liveness
unfolding program allocated
copied = after (op_callback (memcpy (copy memory_host 7)) false [] [] allocated) allocated

copied-Reach : Reach 9 copied
unfolding program allocated copied
copied-Reach =
    Reach.callback 8 (memcpy (copy memory_host 7)) false [] [] allocated copied
      (Reach.callback 0 (memory block) false [] [] new_liveness allocated Reach.start (omega arith)
        refl)
      (omega arith, inl refl) refl

Reach-topological_order_example :
    (ls : List (List ℕ)) × (topological_order copied.dependencies.graph ≡ some ls)
    × IsOrder copied.dependencies.graph ls
Reach-topological_order_example = Reach-topological_order 9 copied copied-Reach

-- After a copy within the memory, the graph has the edge of operation 8 to itself.
unfoldable self_copied : Liveness
unfolding program allocated
self_copied = after (op_callback (memcpy (copy 7 7)) false [] [] allocated) allocated

abbrev self_edge : EdgeIndex
self_edge = record { from = 8; to = 8; edge_type = data_dependency }

self_copied-IsSound : IsSound Any self_copied.dependencies.graph
unfolding program allocated self_copied
self_copied-IsSound =
    add_edge-IsSound Any self_edge ((7, write) ∷ []) _
      (add_edge-IsSound Any (data_edge 7 8) ((7, read) ∷ []) _
        (add_edge-IsSound Any (stream_edge 7 8) [] _
          (add_node-IsSound Any 8 _ _ (add_node-IsSound Any 7 _ _ (no_graph-IsSound Any) refl) refl)
          tt refl)
        tt refl)
      tt refl

layers_never_example : layers 100 self_copied.dependencies.graph ≡ none
unfolding program allocated self_copied
layers_never_example =
    layers_never 100 8 self_edge self_copied.dependencies.graph
      (record { sound = self_copied-IsSound; from = refl; to = refl; node = refl; loop = refl })

no_ledger-IsBalanced : IsBalanced no_ledger
unfolding program
no_ledger-IsBalanced = record {
  sorted_addresses = tt;
  sorted_memories = tt;
  linked = record { mapped = λ start id e. cc; live = λ id mem e. cc };
  usage = refl;
  fits = omega arith;
  peak = omega arith;
}

allocate-IsBalanced_example : IsBalanced (allocate block memory_alloc no_ledger)
unfolding program
allocate-IsBalanced_example =
    allocate-IsBalanced block memory_alloc no_ledger no_ledger-IsBalanced refl refl (omega arith)

held-IsBalanced : IsBalanced (allocate block memory_alloc no_ledger)
unfolding program
held-IsBalanced =
    allocate-IsBalanced block memory_alloc no_ledger no_ledger-IsBalanced refl refl (omega arith)

release-IsBalanced_example :
    (l : Ledger) × (release given_back memory_free (allocate block memory_alloc no_ledger)
      ≡ some (7, l))
    × IsBalanced l
unfolding program
release-IsBalanced_example =
    release-IsBalanced given_back memory_free (allocate block memory_alloc no_ledger) 7 block
      held-IsBalanced refl refl refl

abbrev noted : Map ℕ (Map ℕ MemoryOperation)
noted = (7, (7, memory_alloc) ∷ (8, memory_copyf) ∷ []) ∷ []

memory_operation_register_lem_example :
    operation_at 7 8 (memory_operation_register 7 8 memory_copyt noted) ≡ some memory_copyf
unfolding program
memory_operation_register_lem_example = memory_operation_register_lem 7 8 7 8 memory_copyt noted

sort_sizes-IsFalling_example :
    (sorted : List MemoryEntry) × (sort_sizes
        (record { op_id = 7; size = 100 } ∷ record { op_id = 8; size = 300 } ∷ [])
      ≡ some sorted)
    × Perm sorted (record { op_id = 7; size = 100 } ∷ record { op_id = 8; size = 300 } ∷ [])
    × IsFalling sorted
sort_sizes-IsFalling_example =
    sort_sizes-IsFalling (record { op_id = 7; size = 100 }) (record { op_id = 8; size = 300 } ∷ [])

abbrev frame : Frame
frame = record { pc = 16; offset = 4; frame = [] }

abbrev paths : Map ℕ (List Frame)
paths = (7, frame ∷ []) ∷ (8, []) ∷ (9, frame ∷ []) ∷ []

-- What holds of the call paths of the operations here.
abbrev IsPath : ℕ → List Frame → Type 0
IsPath id path = 7 ≤ id

merged_lem_example :
    Perm (printed (merged paths)) (7 ∷ 8 ∷ 9 ∷ [])
    × All (λ g. All (IsOf IsPath g.1) g.0) (merged paths)
    × AreDistinct (merged paths)
merged_lem_example = merged_lem IsPath paths (omega arith, (omega arith, (omega arith, tt)))

-- A registry at its start, where only the memory liveness is enabled.
abbrev new_registry : Registry
new_registry = record {
  memory_snapshot = [];
  sub_memory_snapshot = [];
  analysis_enabled = memory_liveness ∷ [];
  mini_host_op_id = 0;
}

new_registry-IsCoupled : IsCoupled 0 new_registry new_liveness
unfolding find has basis
new_registry-IsCoupled = record {
  sorted = tt;
  map = [];
  sorted_map = tt;
  seen = record { keys = λ j there. cc; seen = λ k above. refl };
  held = record {
    addresses = λ range. refl;
    sorted = tt;
    owned = λ id start e. cc;
    readers = λ id start e. cc;
  };
  below = new-IsBelow;
}

Registry-IsCoupled_example :
    IsFollowed 8 new_liveness (memory_register 0 5 7 256 512 0 new_registry)
    × IsFollowed 8 new_liveness (memory_unregister 0 5 7 256 512 new_registry)
Registry-IsCoupled_example =
    Registry-IsCoupled 0 0 5 7 256 512 0 new_registry new_liveness (omega arith) refl
      new_registry-IsCoupled
