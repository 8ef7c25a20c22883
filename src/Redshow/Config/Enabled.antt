-- ===== src/Redshow/Config/Enabled.antt =====
-- The set of enabled analyses under the calls that change it.
use ten_prof.Prelude.{◌≡◌, refl, none, some, ◌==◌, if◌then◌else◌, arith, Bool-cases, inl, inr}
use ten_prof.Common.Map.{find, has, erase, IsSorted, u64_key}
use ten_prof.Common.Map.Laws.{find-assign, find-assign_same, find-erase, find-has}
use ten_prof.Common.Map.Entries.{has_of_find}
use ten_prof.Operation.{AnalysisType, success, error_not_exist_entry}
use ten_prof.Redshow.Config.{
  Config, new_analysis, emplace, analysis_enable, is_enabled, analysis_disable, analysis_key,
  type_number,
}

-- Enabling an analysis makes it enabled, with a new object unless it has one; every other stays as
-- it was.
analysis_enable_lem :
    (a b : AnalysisType) (c : Config)
    → let m = (analysis_enable (some a) c).1.analysis_enabled in
      (is_enabled a (analysis_enable (some a) c).1 ≡ success)
      × (find b m ≡ (
          if type_number b == type_number a
          then (if has a c.analysis_enabled then find b c.analysis_enabled else some new_analysis)
          else find b c.analysis_enabled))
unfolding analysis_enable emplace is_enabled
analysis_enable_lem a b c = elim (Bool-cases (has a c.analysis_enabled)) [
  | inl old ↦ rw old (
    rw old refl,
    elim (Bool-cases (type_number b == type_number a)) [
      | inl same ↦ rw same refl
      | inr ne ↦ rw ne refl
    ],
  )
  | inr new ↦ rw new (
    rw (has_of_find a new_analysis _ (find-assign_same a new_analysis c.analysis_enabled)) refl,
    find-assign a b new_analysis c.analysis_enabled,
  )
]

-- Disabling an analysis takes out that analysis alone, if the types of the enabled ones rise.
analysis_disable_lem :
    (a b : AnalysisType) (c : Config)
    → IsSorted c.analysis_enabled
    → let m = (analysis_disable a c).1.analysis_enabled in
      (is_enabled a (analysis_disable a c).1 ≡ error_not_exist_entry)
      × (find b m ≡ (if type_number b == type_number a then none else find b c.analysis_enabled))
unfolding analysis_disable is_enabled
analysis_disable_lem a b c sorted =
    let gone : find a (erase a c.analysis_enabled) ≡ none =
      ground (arith, find-erase 0 a a c.analysis_enabled sorted) in
    (
      rw (find-has a (erase a c.analysis_enabled) gone) refl,
      find-erase 0 a b c.analysis_enabled sorted,
    )
