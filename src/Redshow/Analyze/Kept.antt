-- ===== src/Redshow/Analyze/Kept.antt =====
-- A kernel that was analyzed keeps the snapshot that its later queries read.
use ten_prof.Prelude.{
  ℕ, ◌≤◌, ◌≡◌, refl, sym, subst, ◌∙◌, ap, Bool, true, false, Option, none, some, List, arith,
}
use mathlib.Core.Option.{some-injective}
use ten_prof.Common.Map.{IsSorted, u64_key}
use ten_prof.Operation.{Status, success, error_not_register_callback}
use ten_prof.Redshow.Registry.{Registry}
use ten_prof.Redshow.Registry.Query.{memory_query}
use ten_prof.Redshow.Registry.Collect.{note_analyzed, analysis_end}
use ten_prof.Redshow.Registry.Collect.Kept.{memory_query-analysis_end}
use ten_prof.Redshow.Trace.{Calls}
use ten_prof.Redshow.Symbols.{Symbol}
use ten_prof.Redshow.Analyze.{Buffer, Settings, Kernel, finish, analyzed, trace_analyze, analyze}
use ten_prof.Redshow.Cubins.{Cubins, Analyzed}

-- A kernel whose analysis is logged is noted in `mini_host_op_id`, and the memories stay.
note_analyzed_lem :
    (h : ℕ) (r : Registry)
    → ((note_analyzed true h r).1.mini_host_op_id ≤ h)
      × ((note_analyzed true h r).1.memory_snapshot ≡ r.memory_snapshot)
unfolding note_analyzed
note_analyzed_lem h r = (ground arith, refl)

memory_query-note_analyzed :
    (h k start : ℕ) (r : Registry)
    → memory_query k start (note_analyzed true h r).1 ≡ memory_query k start r
unfolding note_analyzed memory_query
memory_query-note_analyzed h k start r = refl

memory_query-finish :
    (logging : Bool) (h start : ℕ) (r : Registry) (status : Status)
    → IsSorted r.memory_snapshot
    → (finish logging h r status).0 ≡ success
    → memory_query h start (analysis_end (finish logging h r status).1).1 ≡ memory_query h start r
unfolding finish
memory_query-finish true h start r success sorted ok =
    let (low, same) = note_analyzed_lem h r in
    memory_query-analysis_end (note_analyzed true h r).1 h start (subst IsSorted (sym same) sorted)
      low
    ∙ memory_query-note_analyzed h h start r
memory_query-finish false h start r success sorted ok =
    let e : error_not_register_callback ≡ success = unfold note_analyzed in ok in cc
memory_query-finish logging h start r failed sorted ok = cc

-- When the trace of a kernel is analyzed with success, the end of the analysis drops no snapshot
-- that the kernel's operation reads: every query by it is answered as before the analysis. The ids
-- of the snapshots rise.
pub memory_query-analyze :
    (analyze_cubin : List ℕ → ℕ → Analyzed) (sort_symbols : List Symbol → List Symbol)
    (logging : Bool) (k : Kernel) (s : Settings) (buffer : Buffer) (r r' : Registry) (c : Cubins)
    (calls : Calls) (start : ℕ)
    → IsSorted r.memory_snapshot
    → (analyze analyze_cubin sort_symbols logging k s buffer r c).0 ≡ some (success, r', calls)
    → memory_query k.host_op_id start (analysis_end r').1 ≡ memory_query k.host_op_id start r
unfolding analyze analyzed
memory_query-analyze analyze_cubin sort_symbols logging k s buffer r r' c calls start sorted e =
    by_result (trace_analyze analyze_cubin sort_symbols k s buffer r c).0 e
  where
    by_result :
        (result : Option (Status × Calls))
        → analyzed logging k r result ≡ some (success, r', calls)
        → memory_query k.host_op_id start (analysis_end r').1 ≡ memory_query k.host_op_id start r
    by_result none e' = cc
    by_result (some (status, made)) e' =
        let same : (
          (finish logging k.host_op_id r status).0,
          (finish logging k.host_op_id r status).1,
          made,
        )
            ≡ (success, r', calls) =
          some-injective _ _ e' in
        subst
          (λ (x : Registry).
            memory_query k.host_op_id start (analysis_end x).1 ≡ memory_query k.host_op_id start r)
          (ap (λ (x : Status × Registry × Calls). x.1) same)
          (memory_query-finish logging k.host_op_id start r status sorted
            (ap (λ (x : Status × Registry × Calls). x.0) same))
