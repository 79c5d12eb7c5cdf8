-- ===== src/Config/Validate.antt =====
-- `Config::validate` of src/config.rs, and the cross-field invariants that it checks.
mod Tests
use apohara_agentguard.Prelude.{
  ℕ, ◌≤◌, Text, Bool, true, false, Option, none, some, List, [], ◌∷◌, ◌≡◌, ◌≢◌, ◌↔◌, refl, arith,
  All, ltb, is_empty, Result, ok, err, ◌>>◌, refuse_if, Bool-cases,
}
use apohara_agentguard.Verdict.{Thresholds}
use apohara_agentguard.Config.{Config, CustomBlock, ToolRule, level_preset}

abbrev pub max_severity : ℕ
max_severity = 9

pub data ConfigError : Type 0 where
  inverted_thresholds : ℕ → ℕ → ConfigError
  unknown_level : Text → ConfigError
  empty_pattern : ConfigError
  block_severity rule_severity : ℕ → ConfigError

check_thresholds : Thresholds → Result ConfigError Unit
check_thresholds t = refuse_if (ltb t.block_at t.warn_at) (inverted_thresholds t.warn_at t.block_at)

known_preset : Text → Option Thresholds → Result ConfigError Unit
known_preset level none = err (unknown_level level)
known_preset level (some t) = ok tt

check_level : Option Text → Result ConfigError Unit
unfolding known_preset
check_level none = ok tt
check_level (some level) = known_preset level (level_preset level)

check_blocks : List CustomBlock → Result ConfigError Unit
check_blocks [] = ok tt
check_blocks (b ∷ bs) = do
  refuse_if (is_empty b.pattern) empty_pattern
  refuse_if (ltb max_severity b.severity) (block_severity b.severity)
  check_blocks bs

check_rules : List ToolRule → Result ConfigError Unit
check_rules [] = ok tt
check_rules (r ∷ rs) = do
  refuse_if (ltb max_severity r.severity) (rule_severity r.severity)
  check_rules rs

unfoldable pub validate : Config → Result ConfigError Unit
unfolding check_thresholds check_level check_blocks check_rules
validate c = do
  check_thresholds c.thresholds
  check_level c.level
  check_blocks c.custom_blocks
  check_rules c.tool_rules

abbrev pub BlockIsValid : CustomBlock → Type 0
BlockIsValid b = (b.pattern ≢ []) × (b.severity ≤ max_severity)

abbrev pub RuleIsValid : ToolRule → Type 0
RuleIsValid r = r.severity ≤ max_severity

abbrev pub LevelIsKnown : Option Text → Type 0
LevelIsKnown none = Unit
LevelIsKnown (some level) = level_preset level ≢ none

pub record IsValid (c : Config) : Type 0 where
  pub ordered : c.thresholds.warn_at ≤ c.thresholds.block_at
  pub level : LevelIsKnown c.level
  pub blocks : All BlockIsValid c.custom_blocks
  pub rules : All RuleIsValid c.tool_rules

check_blocks_iff : (bs : List CustomBlock) → (check_blocks bs ≡ ok tt) ↔ All BlockIsValid bs
unfolding check_blocks
check_blocks_iff [] = (λ h. tt, λ h. refl)
check_blocks_iff (b ∷ bs) = ground (arith, check_blocks_iff bs)

check_rules_iff : (rs : List ToolRule) → (check_rules rs ≡ ok tt) ↔ All RuleIsValid rs
unfolding check_rules
check_rules_iff [] = (λ h. tt, λ h. refl)
check_rules_iff (r ∷ rs) = ground (arith, check_rules_iff rs)

check_level_iff : (l : Option Text) → (check_level l ≡ ok tt) ↔ LevelIsKnown l
unfolding check_level
check_level_iff none = (λ h. tt, λ h. refl)
check_level_iff (some l) = ground arith

-- A configuration is accepted exactly when its cutoffs are in order, its level names a preset,
-- no block pattern is empty and no severity leaves the scale.
pub validate_iff : (c : Config) → (validate c ≡ ok tt) ↔ IsValid c
unfolding validate
validate_iff c =
    ground (
      arith,
      check_blocks_iff c.custom_blocks,
      check_rules_iff c.tool_rules,
      check_level_iff c.level,
    )
