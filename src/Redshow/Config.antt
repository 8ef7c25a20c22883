-- ===== src/Redshow/Config.antt =====
-- redshow/src/redshow.cpp and redshow/include/analysis/analysis.h: the options, and the set of
-- enabled analyses, an object for each with the options that its base class keeps.
pub mod Enabled
use ten_prof.Prelude.{ℕ, Bool, true, false, Option, none, some, List, [], ◌∷◌, if◌then◌else◌, map}
use ten_prof.Common.Map.{Key, Map, find, has, assign, erase, u64_key}
use ten_prof.Operation.{
  AnalysisType, spatial_redundancy, temporal_redundancy, value_pattern, data_flow, memory_profile,
  memory_heatmap, memory_liveness, data_dependency, torch_monitor, torch_view, Status, success,
  error_not_exist_entry, error_no_such_approx, error_no_such_data_type, error_no_such_analysis,
}
use ten_prof.Redshow.Access.{DataType, data_unknown, data_float, data_int}

-- The numbers of `redshow_analysis_type_t`.
unfoldable pub type_number : AnalysisType → ℕ
type_number spatial_redundancy = 1
type_number temporal_redundancy = 2
type_number value_pattern = 3
type_number data_flow = 4
type_number memory_profile = 5
type_number memory_heatmap = 6
type_number memory_liveness = 7
type_number data_dependency = 8
type_number torch_monitor = 9
type_number torch_view = 10

instance abbrev pub analysis_key : Key AnalysisType
analysis_key = record { rank = type_number }

-- `_configs` and `_dtoh` of an `Analysis`; a callback is known by its address.
pub record Analysis : Type 0 where
  pub configs : Map ℕ Bool
  pub dtoh : Option ℕ

-- The static variables of the configuration; a directory is its name.
pub record Config : Type 0 where
  pub analysis_enabled : Map AnalysisType Analysis
  pub output_dir : Map AnalysisType (List ℕ)
  pub default_data_type : DataType
  pub decimal_degree_f32 : ℕ
  pub decimal_degree_f64 : ℕ
  pub log_data_callback : Option ℕ
  pub record_data_callback : Option ℕ
  pub pc_views_limit : ℕ
  pub mem_views_limit : ℕ

unfoldable pub output_dir_config : AnalysisType → Option (List ℕ) → Config → Status × Config
output_dir_config analysis none c = (success, c)
output_dir_config analysis (some dir) c =
    (success, record c { output_dir = assign analysis dir c.output_dir })

unfoldable pub data_type_config : DataType → Config → Status × Config
data_type_config data_float c = (success, record c { default_data_type = data_float })
data_type_config data_int c = (success, record c { default_data_type = data_int })
data_type_config data_unknown c = (error_no_such_data_type, c)

-- `redshow_approx_level_t`, or another number.
pub data ApproxLevel : Type 0 where
  approx_none approx_min approx_low approx_mid approx_high approx_max : ApproxLevel
  approx_other : ℕ → ApproxLevel

unfoldable pub set_degrees : ℕ → ℕ → Config → Status × Config
set_degrees f32 f64 c = (success, record c { decimal_degree_f32 = f32; decimal_degree_f64 = f64 })

unfoldable pub approx_level_config : ApproxLevel → Config → Status × Config
unfolding set_degrees
approx_level_config approx_none c = set_degrees 23 52 c
approx_level_config approx_min c = set_degrees 20 46 c
approx_level_config approx_low c = set_degrees 15 36 c
approx_level_config approx_mid c = set_degrees 11 28 c
approx_level_config approx_high c = set_degrees 7 20 c
approx_level_config approx_max c = set_degrees 3 12 c
approx_level_config (approx_other n) c = (error_no_such_approx, c)

unfoldable pub approx_get : Config → ℕ × ℕ
approx_get c = (c.decimal_degree_f32, c.decimal_degree_f64)

abbrev pub new_analysis : Analysis
new_analysis = record { configs = []; dtoh = none }

-- `emplace`: an analysis that is enabled already stays as it is.
unfoldable pub emplace : AnalysisType → Map AnalysisType Analysis → Map AnalysisType Analysis
emplace a m = if has a m then m else assign a new_analysis m

-- `redshow_analysis_enable`; `none` is a number that is no analysis.
unfoldable pub analysis_enable : Option AnalysisType → Config → Status × Config
unfolding emplace
analysis_enable none c = (error_no_such_analysis, c)
analysis_enable (some a) c = (success, record c { analysis_enabled = emplace a c.analysis_enabled })

-- `redshow_analysis_enabled`.
unfoldable pub is_enabled : AnalysisType → Config → Status
is_enabled a c = if has a c.analysis_enabled then success else error_not_exist_entry

unfoldable pub analysis_disable : AnalysisType → Config → Status × Config
analysis_disable a c = (success, record c { analysis_enabled = erase a c.analysis_enabled })

unfoldable pub analysis_config : AnalysisType → ℕ → Bool → Config → Status × Config
analysis_config a config_type enable c = elim (find a c.analysis_enabled) [
  | none ↦ (success, c)
  | some analysis ↦ (
    success,
    record c {
      analysis_enabled =
          assign a (record analysis { configs = assign config_type enable analysis.configs })
            c.analysis_enabled;
    },
  )
]

unfoldable pub log_data_callback_register : Option ℕ → Config → Status × Config
log_data_callback_register func c = (success, record c { log_data_callback = func })

unfoldable pub record_data_callback_register : Option ℕ → ℕ → ℕ → Config → Status × Config
record_data_callback_register func pc_views mem_views c = (
  success,
  record c { record_data_callback = func; pc_views_limit = pc_views; mem_views_limit = mem_views },
)

-- `redshow_tool_dtoh_register`: every analysis that is enabled is given the function.
unfoldable pub tool_dtoh_register : Option ℕ → Config → Status × Config
tool_dtoh_register func c = (
  success,
  record c {
    analysis_enabled =
        map (λ (e : AnalysisType × Analysis). (e.0, record e.1 { dtoh = func })) c.analysis_enabled;
  },
)
