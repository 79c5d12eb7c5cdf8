-- ===== src/Config/Tightening/Tests.antt =====
-- Runs of the merge and of the validation on small configurations.
use apohara_agentguard.Prelude.{
  codes, true, false, [], ◌∷◌, some, ◌≡◌, refl, ok, contains, split_once, strip_prefix,
  contains_char, eq_text, to_ascii_lowercase, trim,
}
use apohara_agentguard.Config.{
  Config, default_config, effective_thresholds, is_allowed, glob_match, is_component_disabled,
  level_preset, no_env_disable,
}
use apohara_agentguard.Config.Tightening.Sound.{Tightens, merge_tightening-Tightens}
use apohara_agentguard.Config.Tightening.Effects.{only_custom_blocks}
use apohara_agentguard.Config.Tightening.{
  TighteningPresence, check_subset, merge_thresholds, merge_allow_list, merge_custom_blocks,
  merge_tool_rules, merge_disable, merge_disabled, merge_normalize, merge_packs,
  merge_community_enabled, merge_community_dir, merge_policy, merge_tightening,
}

abbrev user : Config
user = record default_config {
  allow_list = codes "ls" ∷ codes "git status" ∷ [];
  custom_blocks = record { pattern = codes "rm"; severity = 9; category = codes "fs" } ∷ [];
  disable = true;
}

abbrev project : Config
project = record default_config {
  allow_list = codes "ls" ∷ [];
  thresholds = record { block_at = 6; warn_at = 4 };
}

abbrev keys : TighteningPresence
keys = record only_custom_blocks {
  custom_blocks = false;
  allow_list = true;
  thresholds_block_at = true;
  thresholds_warn_at = true;
}

abbrev merged : Config
merged = record user {
  allow_list = codes "ls" ∷ [];
  thresholds = record { block_at = 6; warn_at = 4 };
}

user-project_merge : merge_tightening user project keys ≡ ok merged
unfolding merge_tightening merge_thresholds merge_allow_list merge_custom_blocks merge_tool_rules
    merge_disable merge_disabled merge_normalize merge_packs merge_community_enabled
    merge_community_dir merge_policy check_subset effective_thresholds eq_text
user-project_merge = refl

merge_tightening-Tightens_example : Tightens user merged
merge_tightening-Tightens_example = merge_tightening-Tightens user project keys user-project_merge

merged_allows : is_allowed merged (codes "ls -la") ≡ true
unfolding is_allowed glob_match contains split_once strip_prefix contains_char
merged_allows = refl

merged_off : is_component_disabled merged (codes "gate") no_env_disable ≡ true
unfolding is_component_disabled
merged_off = refl

-- The raw cutoffs may rise under a level preset that hides them on both sides.
abbrev hidden : Config
hidden = record default_config {
  thresholds = record { block_at = 1; warn_at = 1 };
  level = some (codes "strict");
}

abbrev only_level : TighteningPresence
only_level = record only_custom_blocks { custom_blocks = false; level = true }

raw_cutoffs_rise :
    merge_tightening hidden (record default_config { level = some (codes "strict") }) only_level
    ≡ ok (record hidden { thresholds = record { block_at = 7; warn_at = 4 } })
unfolding merge_tightening merge_thresholds merge_allow_list merge_custom_blocks merge_tool_rules
    merge_disable merge_disabled merge_normalize merge_packs merge_community_enabled
    merge_community_dir merge_policy effective_thresholds level_preset to_ascii_lowercase trim
    eq_text
raw_cutoffs_rise = refl
