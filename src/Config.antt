-- ===== src/Config.antt =====
-- src/config.rs: the configuration, its lookups and its validation.
pub mod Validate
pub mod Tightening
use apohara_agentguard.Prelude.{
  ℕ, Text, codes, Bool, true, false, not, ◌&&◌, ◌||◌, Option, none, some, List, [], ◌∷◌, any,
  filter, is_nil, map, eq_text, contains_text, is_empty, contains, contains_char, split_char,
  split_once, starts_with, ends_with, trim, to_ascii_lowercase, if◌then◌else◌,
}
use apohara_agentguard.Verdict.{Thresholds, default_thresholds}

pub record CustomBlock : Type 0 where
  pub pattern : Text
  pub severity : ℕ
  pub category : Text

pub record ToolRule : Type 0 where
  pub tool : Text
  pub arg : Text
  pub pattern : Text
  pub severity : ℕ

-- `AuditConfig` of src/audit/mod.rs
pub record AuditConfig : Type 0 where
  pub enabled : Bool
  pub path : Option Text
  pub include_command : Bool

pub record CanaryConfig : Type 0 where
  pub enabled : Bool

pub record PolicyConfig : Type 0 where
  pub file : Option Text

pub record CommunityPacksConfig : Type 0 where
  pub enabled : List Text
  pub dir : Option Text

pub record Config : Type 0 where
  pub allow_list : List Text
  pub custom_blocks : List CustomBlock
  pub thresholds : Thresholds
  pub disable : Bool
  pub normalize : Bool
  pub audit : AuditConfig
  pub packs : List Text
  pub tool_rules : List ToolRule
  pub disabled : List Text
  pub level : Option Text
  pub canary : CanaryConfig
  pub policy : PolicyConfig
  pub community_packs : CommunityPacksConfig

abbrev pub default_config : Config
default_config = record {
  allow_list = [];
  custom_blocks = [];
  thresholds = default_thresholds;
  disable = false;
  normalize = true;
  audit = record { enabled = false; path = none; include_command = false };
  packs = [];
  tool_rules = [];
  disabled = [];
  level = none;
  canary = record { enabled = false };
  policy = record { file = none };
  community_packs = record { enabled = []; dir = none };
}

-- The walk of `glob_match` over the parts. `first` is `i == 0`; the text is what stands behind
-- the cursor, and the result is what stands behind the last part.
glob_parts : Bool → Bool → List Text → Text → Option Text
glob_parts anchored first [] text = some text
glob_parts anchored first (part ∷ parts) text = elim (split_once text part) [
  | none ↦ none
  | some (before, after) ↦
      if first && anchored && not (is_empty before)
      then none
      else glob_parts anchored false parts after
]

abbrev ends_here : Bool → Option Text → Bool
ends_here anchored none = false
ends_here anchored (some rest) = not (anchored && not (is_empty rest))

pub glob_match : Text → Text → Bool
unfolding glob_parts
glob_match pattern text =
    let parts = filter (λ p. not (is_empty p)) (split_char b'*' pattern) in
    if not (contains_char pattern b'*')
    then contains text pattern
    else if is_nil parts
    then true
    else ends_here (not (ends_with pattern (codes "*")))
        (glob_parts (not (starts_with pattern (codes "*"))) true parts text)

unfoldable pub is_allowed : Config → Text → Bool
is_allowed c command = any (λ pattern. glob_match pattern command) c.allow_list

-- `AGENTGUARD_DISABLE`, parsed
pub record EnvDisable : Type 0 where
  pub all : Bool
  pub names : List Text

abbrev pub no_env_disable : EnvDisable
no_env_disable = record { all = false; names = [] }

unfoldable pub parse_env_disable : Text → EnvDisable
parse_env_disable raw =
    let trimmed = to_ascii_lowercase (trim raw) in
    if eq_text trimmed (codes "1") || eq_text trimmed (codes "true")
    then record { all = true; names = [] }
    else record {
      all = false;
      names = filter (λ s. not (is_empty s)) (map trim (split_char b',' trimmed));
    }

abbrev pub same_component : Text → Text → Bool
same_component a b = eq_text (to_ascii_lowercase (trim a)) (to_ascii_lowercase (trim b))

unfoldable pub is_component_disabled : Config → Text → EnvDisable → Bool
is_component_disabled c component env =
    if c.disable || env.all
    then true
    else any (λ d. same_component d component) c.disabled
      || contains_text env.names (to_ascii_lowercase (trim component))

unfoldable pub level_preset : Text → Option Thresholds
level_preset level =
    let name = to_ascii_lowercase (trim level) in
    if eq_text name (codes "strict")
    then some (record { block_at = 7; warn_at = 4 })
    else if eq_text name (codes "high")
    then some (record { block_at = 6; warn_at = 3 })
    else if eq_text name (codes "critical")
    then some (record { block_at = 5; warn_at = 2 })
    else none

abbrev pub preset_or : Option Thresholds → Thresholds → Thresholds
preset_or none t = t
preset_or (some preset) t = preset

abbrev pub of_level : Option Text → Thresholds → Thresholds
of_level none t = t
of_level (some level) t = preset_or (level_preset level) t

unfoldable pub effective_thresholds : Config → Thresholds
effective_thresholds c = of_level c.level c.thresholds
