-- ===== src/Liveness/Callbacks/Reach.antt =====
-- The states that the calls of the analysis lead to, and what the flush finds in them.
use ten_prof.Prelude.{ℕ, suc, ◌≤◌, ◌<◌, ◌≡◌, Bool, Option, some, List, [], ◌-◌, u64_mod}
use ten_prof.Common.Map.{has, u64_key}
use ten_prof.Operation.{Operation}
use ten_prof.View.State.{PythonState}
use ten_prof.Liveness.{Frame, Ledger, Dependencies, Liveness}
use ten_prof.Liveness.Graph.Rising.{no_graph-IsSound}
use ten_prof.Liveness.Memories.{AuxEntry}
use ten_prof.Liveness.Order.{topological_order}
use ten_prof.Liveness.Order.Layered.{IsOrder}
use ten_prof.Liveness.Order.Returns.{topological_order_returns}
use ten_prof.Liveness.Update.Entered.{IsBelow}
use ten_prof.Liveness.Callbacks.{op_callback, analysis_begin}
use ten_prof.Liveness.Callbacks.Kept.{IsNext, next_bound, op_callback-IsBelow}
use ten_prof.Liveness.Callbacks.Kernels.{accessed, AreApart, analysis_begin-IsBelow}

-- The initial values of the members.
abbrev pub no_ledger : Ledger
no_ledger = record {
  memories = [];
  current_memories = [];
  addresses_map = [];
  memory_size_list = [];
  operations = [];
  current_memory_usage = 0;
  current_memory_peak = 0;
  optimal_memory_peak = 0;
  memory_peak_kernel = 0;
  memory_size_log = [];
}

abbrev pub no_dependencies : Dependencies
no_dependencies = record {
  obj_ownership_map = [];
  stream_ownership_map = [];
  stream_nodes = [];
  read_nodes = [];
  edge_list = [];
  graph = record { incoming_edges = []; outcoming_edges = []; edges = []; nodes = [] };
  global_op_id_start = u64_mod - 1;
}

abbrev pub new_liveness : Liveness
new_liveness = record {
  op_node = [];
  kernel_op_node = [];
  ctx_node = [];
  op_to_stream = [];
  stream_to_op = [];
  main = no_ledger;
  sub = no_ledger;
  torch_python_states = [];
  sub_op_node = [];
  memory_libunwind_frames = [];
  dependencies = no_dependencies;
}

-- The calls that the tool makes of the analysis, each of which returns: operations and kernels with
-- ids from `b` on, and no copy within one memory.
pub data Reach : ℕ → Liveness → Type 0 where
  start : Reach 0 new_liveness
  callback :
      (b : ℕ) (op : Operation) (is_submemory : Bool) (frames : List Frame)
      (states : List PythonState) (l l' : Liveness)
      → Reach b l
      → IsNext b op
      → op_callback op is_submemory frames states l ≡ some l'
      → Reach (next_bound b op) l'
  begin :
      (b op_id stream_id : ℕ) (aux torch_aux : Option (List AuxEntry)) (l l' : Liveness)
      → Reach b l
      → b ≤ op_id
      → AreApart [] (accessed aux l.main.addresses_map)
      → analysis_begin aux torch_aux op_id stream_id l ≡ some l'
      → Reach (suc op_id) l'

pub new-IsBelow : IsBelow 0 no_dependencies
unfolding has
new-IsBelow = record {
  graph = no_graph-IsSound (λ a b. a < b);
  bound = λ k h. cc;
  streams = tt;
  owners = tt;
  readers = tt;
}

-- In each state that is reached the edges rise.
Reach-IsBelow : (b : ℕ) (l : Liveness) → Reach b l → IsBelow b l.dependencies
Reach-IsBelow _ _ (Reach.start) = new-IsBelow
Reach-IsBelow _ _ (Reach.callback b op sub frames states l l' r next e) =
    op_callback-IsBelow b op sub frames states l l' next (Reach-IsBelow b l r) e
Reach-IsBelow _ _ (Reach.begin b op_id stream_id aux torch_aux l l' r le apart e) =
    analysis_begin-IsBelow b op_id stream_id aux torch_aux l l' le (Reach-IsBelow b l r) apart e

-- After any calls that return, by operations whose ids rise, with no copy within one memory and no
-- memory twice among the entries of a kernel, the topological order is found: each node of the
-- dependency graph is in a layer, and each edge goes from a layer to a later one.
pub Reach-topological_order :
    (b : ℕ) (l : Liveness)
    → Reach b l
    → (ls : List (List ℕ)) × (topological_order l.dependencies.graph ≡ some ls)
      × IsOrder l.dependencies.graph ls
Reach-topological_order b l r =
    topological_order_returns l.dependencies.graph (Reach-IsBelow b l r).graph
