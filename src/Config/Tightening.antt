-- ===== src/Config/Tightening.antt =====
-- `merge_tightening` of src/config.rs: a project file overlaid on a validated user configuration.
-- Each block of the code sets the fields of its own of `merged`, which starts as a copy of the user
-- configuration; a block is a function to the values that it leaves in those fields.
pub mod Levels
pub mod Lists
pub mod Rules
pub mod Sound
pub mod Effects
pub mod Layered
pub mod Total
mod Tests
use apohara_agentguard.Prelude.{
  ℕ, Text, Bool, true, false, not, ◌&&◌, ◌||◌, Option, none, some, List, [], ◌∷◌, ◌++◌, any, ltb,
  eq_text, contains_text, if◌then◌else◌, Result, ok, err, ◌>>=◌, ◌>>◌, refuse_if,
}
use apohara_agentguard.Prelude.Paths.{same_path}
use apohara_agentguard.Verdict.Severity.{action_rank}
use apohara_agentguard.Verdict.{Thresholds, severity_to_tier}
use apohara_agentguard.Config.{
  Config, CustomBlock, ToolRule, effective_thresholds, of_level, same_component,
}

-- Which keys the project file sets.
pub record TighteningPresence : Type 0 where
  pub thresholds_block_at : Bool
  pub thresholds_warn_at : Bool
  pub allow_list : Bool
  pub custom_blocks : Bool
  pub tool_rules : Bool
  pub disable : Bool
  pub disabled : Bool
  pub normalize : Bool
  pub level : Bool
  pub packs : Bool
  pub policy : Bool
  pub community_packs_enabled : Bool
  pub community_packs_dir : Bool
  pub audit : Bool
  pub canary : Bool

-- One constructor for each `bail!`, and `unreachable_expect` for the panic of an `expect`.
pub data Violation : Type 0 where
  raised_block_at raised_warn_at : ℕ → ℕ → Violation
  added_allowance dropped_block added_disabled dropped_pack dropped_community_pack :
      Text → Violation
  weaker_rule : ToolRule → Violation
  kill_switch normalize_off : Violation
  replaced_community_dir replaced_policy_file : Text → Text → Violation
  unreachable_expect : Violation

abbrev pub Field : Type 0 → Type 0
Field A = Config → Config → TighteningPresence → Result Violation A

pub record Cutoffs : Type 0 where
  pub level : Option Text
  pub thresholds : Thresholds

pub merge_thresholds : Field Cutoffs
merge_thresholds base overlay p =
    let user_eff = effective_thresholds base in
    let proj_eff = effective_thresholds overlay in
    let t : Thresholds = record {
      block_at = if p.thresholds_block_at then overlay.thresholds.block_at else user_eff.block_at;
      warn_at = if p.thresholds_warn_at then overlay.thresholds.warn_at else user_eff.warn_at;
    } in
    if p.level
    then (do
      refuse_if (ltb user_eff.block_at proj_eff.block_at)
          (raised_block_at proj_eff.block_at user_eff.block_at)
      refuse_if (ltb user_eff.warn_at proj_eff.warn_at)
          (raised_warn_at proj_eff.warn_at user_eff.warn_at)
      ok (record { level = overlay.level; thresholds = proj_eff }))
    else if p.thresholds_block_at || p.thresholds_warn_at
    then (do
      refuse_if (ltb user_eff.block_at t.block_at) (raised_block_at t.block_at user_eff.block_at)
      refuse_if (ltb user_eff.warn_at t.warn_at) (raised_warn_at t.warn_at user_eff.warn_at)
      ok (record { level = none; thresholds = t }))
    else ok (record { level = base.level; thresholds = base.thresholds })

-- Each item of the first list is in the second; the error names the first that is not.
check_subset : (Text → Violation) → List Text → List Text → Result Violation Unit
check_subset why [] known = ok tt
check_subset why (x ∷ xs) known = do
  refuse_if (not (contains_text known x)) (why x)
  check_subset why xs known

pub merge_allow_list : Field (List Text)
unfolding check_subset
merge_allow_list base overlay p =
    if p.allow_list
    then (do check_subset added_allowance overlay.allow_list base.allow_list; ok overlay.allow_list)
    else ok base.allow_list

check_blocks_kept : List CustomBlock → List CustomBlock → Result Violation Unit
check_blocks_kept [] project = ok tt
check_blocks_kept (ub ∷ ubs) project = do
  refuse_if (not (any (λ pb. eq_text pb.pattern ub.pattern) project)) (dropped_block ub.pattern)
  check_blocks_kept ubs project

pub merge_custom_blocks : Field (List CustomBlock)
unfolding check_blocks_kept
merge_custom_blocks base overlay p =
    if p.custom_blocks
    then (do check_blocks_kept base.custom_blocks overlay.custom_blocks; ok overlay.custom_blocks)
    else ok base.custom_blocks

-- The identity of a rule: its tool, argument and pattern.
pub same_rule : ToolRule → ToolRule → Bool
same_rule u r = eq_text u.tool r.tool && eq_text u.arg r.arg && eq_text u.pattern r.pattern

pub find_rule : List ToolRule → ToolRule → Option ToolRule
find_rule [] r = none
find_rule (u ∷ us) r = let rest = find_rule us r in if same_rule u r then some u else rest

abbrev pub rank_by : Thresholds → ToolRule → ℕ
rank_by eff r = action_rank (severity_to_tier r.severity eff)

weaker_than : Thresholds → Option ToolRule → ToolRule → Bool
weaker_than eff none pr = false
weaker_than eff (some ur) pr = ltb (rank_by eff pr) (rank_by eff ur)

check_rules : Thresholds → List ToolRule → List ToolRule → Result Violation Unit
unfolding weaker_than find_rule same_rule
check_rules eff [] base = ok tt
check_rules eff (pr ∷ prs) base = do
  refuse_if (weaker_than eff (find_rule base pr) pr) (weaker_rule pr)
  check_rules eff prs base

-- A rule replaces the first of its identity, or is appended.
pub put_rule : List ToolRule → ToolRule → List ToolRule
unfolding same_rule
put_rule [] r = r ∷ []
put_rule (u ∷ us) r = let rest = put_rule us r in if same_rule u r then r ∷ us else u ∷ rest

pub put_rules : List ToolRule → List ToolRule → List ToolRule
unfolding put_rule
put_rules rules [] = rules
put_rules rules (pr ∷ prs) = put_rules (put_rule rules pr) prs

pub merge_tool_rules : Thresholds → Field (List ToolRule)
unfolding check_rules put_rules
merge_tool_rules eff base overlay p =
    if p.tool_rules
    then (do
      check_rules eff overlay.tool_rules base.tool_rules
      ok (put_rules base.tool_rules overlay.tool_rules))
    else ok base.tool_rules

pub merge_disable : Field Bool
merge_disable base overlay p =
    if p.disable
    then (do refuse_if (not base.disable && overlay.disable) kill_switch; ok overlay.disable)
    else ok base.disable

-- The user's spelling of a component that the project names.
find_component : List Text → Text → Option Text
find_component [] c = none
find_component (u ∷ us) c =
    let rest = find_component us c in if same_component u c then some u else rest

check_components : List Text → List Text → Result Violation Unit
check_components [] base = ok tt
check_components (c ∷ cs) base = do
  refuse_if (not (any (λ u. same_component u c) base)) (added_disabled c)
  check_components cs base

expect : Option Text → Result Violation Text
expect none = err unreachable_expect
expect (some u) = ok u

canonical_components : List Text → List Text → Result Violation (List Text)
unfolding find_component expect
canonical_components [] base = ok []
canonical_components (c ∷ cs) base = do
  u ← expect (find_component base c)
  us ← canonical_components cs base
  ok (u ∷ us)

pub merge_disabled : Field (List Text)
unfolding check_components canonical_components
merge_disabled base overlay p =
    if p.disabled
    then (do
      check_components overlay.disabled base.disabled
      names ← canonical_components overlay.disabled base.disabled
      ok names)
    else ok base.disabled

pub merge_normalize : Field Bool
merge_normalize base overlay p =
    if p.normalize
    then (do
      refuse_if (base.normalize && not overlay.normalize) normalize_off
      ok overlay.normalize)
    else ok base.normalize

pub merge_packs : Field (List Text)
unfolding check_subset
merge_packs base overlay p =
    if p.packs
    then (do check_subset dropped_pack base.packs overlay.packs; ok overlay.packs)
    else ok base.packs

pub add_missing : List Text → List Text → List Text
add_missing enabled [] = enabled
add_missing enabled (name ∷ names) =
    add_missing (if contains_text enabled name then enabled else enabled ++ name ∷ []) names

pub merge_community_enabled : Field (List Text)
unfolding check_subset add_missing
merge_community_enabled base overlay p =
    if p.community_packs_enabled
    then (do
      check_subset dropped_community_pack base.community_packs.enabled
          overlay.community_packs.enabled
      ok (add_missing base.community_packs.enabled overlay.community_packs.enabled))
    else ok base.community_packs.enabled

-- A path that the user set is never replaced; the project may set it where the user has none.
bootstrap : (Text → Text → Violation) → Option Text → Option Text → Result Violation (Option Text)
bootstrap why (some user) (some project) =
    if not (same_path project user) then err (why project user) else ok (some user)
bootstrap why (some user) none = ok (some user)
bootstrap why none (some project) = ok (some project)
bootstrap why none none = ok none

pub merge_community_dir : Field (Option Text)
unfolding bootstrap
merge_community_dir base overlay p =
    if p.community_packs_dir
    then bootstrap replaced_community_dir base.community_packs.dir overlay.community_packs.dir
    else ok base.community_packs.dir

pub merge_policy : Field (Option Text)
unfolding bootstrap
merge_policy base overlay p =
    if p.policy
    then bootstrap replaced_policy_file base.policy.file overlay.policy.file
    else ok base.policy.file

pub merge_tightening : Config → Config → TighteningPresence → Result Violation Config
merge_tightening base overlay p = do
  cutoffs ← merge_thresholds base overlay p
  allow_list ← merge_allow_list base overlay p
  custom_blocks ← merge_custom_blocks base overlay p
  tool_rules ← merge_tool_rules (of_level cutoffs.level cutoffs.thresholds) base overlay p
  disable ← merge_disable base overlay p
  disabled ← merge_disabled base overlay p
  normalize ← merge_normalize base overlay p
  packs ← merge_packs base overlay p
  enabled ← merge_community_enabled base overlay p
  dir ← merge_community_dir base overlay p
  file ← merge_policy base overlay p
  ok (record {
    allow_list = allow_list;
    custom_blocks = custom_blocks;
    thresholds = cutoffs.thresholds;
    disable = disable;
    normalize = normalize;
    audit = if p.audit then overlay.audit else base.audit;
    packs = packs;
    tool_rules = tool_rules;
    disabled = disabled;
    level = cutoffs.level;
    canary = if p.canary then overlay.canary else base.canary;
    policy = record { file = file };
    community_packs = record { enabled = enabled; dir = dir };
  })
