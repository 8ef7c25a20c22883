-- ===== src/Redshow/Registry/Collect.antt =====
-- redshow/src/redshow.cpp: `redshow_analysis_begin`, the end of `redshow_analyze`, and
-- `redshow_analysis_end`, which drops the snapshots that no later analysis asks for.
pub mod Kept
use ten_prof.Prelude.{
  ◌++◌, ℕ, Bool, true, false, not, ◌&&◌, ◌||◌, Option, none, some, List, [], ◌∷◌, ltb, ◌==◌, max,
  min, if◌then◌else◌,
}
use ten_prof.Common.Map.{Map, erase, u64_key}
use ten_prof.Operation.{AnalysisType, data_flow, Status, success, error_not_register_callback}
use ten_prof.Redshow.Registry.{MemoryMap, Snapshots, Registry}

is_data_flow : AnalysisType → Bool
is_data_flow data_flow = true
is_data_flow other = false

-- `analysis_enabled.has(REDSHOW_ANALYSIS_DATA_FLOW)`.
unfoldable pub has_data_flow : List AnalysisType → Bool
unfolding is_data_flow
has_data_flow [] = false
has_data_flow (a ∷ rest) = is_data_flow a || has_data_flow rest

-- The first loop of `redshow_analysis_end`: the ids below `mini`, and the greatest of them.
unfoldable pub old_ids : ℕ → Snapshots → List ℕ → ℕ → List ℕ × ℕ
old_ids mini [] ids greatest = (ids, greatest)
old_ids mini ((id, memory_map) ∷ m) ids greatest =
    let old = ltb id mini in
    old_ids mini m (if old then ids ++ id ∷ [] else ids) (if old then max id greatest else greatest)

-- The second loop, which keeps the greatest.
unfoldable pub erase_old : List ℕ → ℕ → Snapshots → Snapshots
erase_old [] greatest m = m
erase_old (id ∷ ids) greatest m = erase_old ids greatest (if id == greatest then m else erase id m)

-- `redshow_analysis_end` between lock and unlock.
unfoldable pub collect : ℕ → Snapshots → Snapshots
unfolding old_ids erase_old
collect mini m = let found = old_ids mini m [] 0 in erase_old found.0 found.1 m

unfoldable pub analysis_begin : Registry → Status × Registry
analysis_begin r = (success, record r { mini_host_op_id = 0 })

-- The end of `redshow_analyze`, once the trace has been analyzed: `logging` tells whether a callback is registered.
unfoldable pub note_analyzed : Bool → ℕ → Registry → Status × Registry
note_analyzed logging host_op_id r =
    if logging
    then (
      success,
      record r {
        mini_host_op_id =
            if r.mini_host_op_id == 0
            then host_op_id
            else if ltb host_op_id r.mini_host_op_id
            then host_op_id
            else r.mini_host_op_id;
      },
    )
    else (error_not_register_callback, r)

unfoldable pub analysis_end : Registry → Status × Registry
unfolding collect has_data_flow
analysis_end r =
    if not (r.mini_host_op_id == 0) && not (has_data_flow r.analysis_enabled)
    then (success, record r { memory_snapshot = collect r.mini_host_op_id r.memory_snapshot })
    else (error_not_register_callback, r)
