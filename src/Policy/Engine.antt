-- ===== src/Policy/Engine.antt =====
-- src/policy/engine.rs: the evaluation of a loaded policy, and the budget counters in memory.
pub mod Rules
pub mod Order
pub mod Budget
mod Tests
use Prim.Native.Nat.{max, min}
use apohara_agentguard.Prelude.{
  ℕ, ◌+◌, ◌-◌, ◌/◌, ◌%◌, ◌^◌, Text, codes, Bool, true, false, not, ◌&&◌, ◌||◌, Option, none, some,
  List, [], ◌∷◌, ◌++◌, any, ltb, length, is_nil, eq_text, split_char, decimal, if◌then◌else◌,
}
use apohara_agentguard.Verdict.{
  Tier, allow, warn, ask, block, Verdict, allow_verdict, warn_verdict, ask_verdict, block_verdict,
  Thresholds, severity_to_tier,
}
use apohara_agentguard.Config.{Config, effective_thresholds}
use apohara_agentguard.Contract.{Json, HookInput, and_then, unwrap_or, bash_command}
use apohara_agentguard.Policy.Matcher.{pattern_matches}
use apohara_agentguard.Policy.Schema
use apohara_agentguard.Policy.Schema.{
  DefaultAction, ToolRule, ToolSpec, ToolBudget, Map, lookup, insert, Budgets, PolicyFile,
}

pub tier_rank_local : Tier → ℕ
tier_rank_local allow = 0
tier_rank_local warn = 1
tier_rank_local ask = 2
tier_rank_local block = 3

pub max_verdict_local : Verdict → Verdict → Verdict
unfolding tier_rank_local
max_verdict_local a b = if ltb (tier_rank_local a.tier) (tier_rank_local b.tier) then b else a

module _ {V : Type 0} (json : Json V) where
  walk : V → List Text → Option V
  walk node [] = some node
  walk node (key ∷ keys) = and_then (json.get node key) (λ child. walk child keys)

  -- `lookup_arg`, here and in src/hook/dispatch.rs
  unfoldable pub lookup_arg : V → Text → Option Text
  unfolding walk
  lookup_arg tool_input arg = and_then (walk tool_input (split_char b'.' arg)) json.as_str

  pub resolve_arg : HookInput V → Text → Text
  unfolding lookup_arg
  resolve_arg input arg =
      if eq_text input.hook_event_name (codes "UserPromptSubmit")
      then if eq_text arg (codes "prompt") then unwrap_or input.prompt [] else []
      else unwrap_or (lookup_arg input.tool_input arg) []

-- The candidate of a rule whose pattern matches; `none` is `continue`, and `ask` is unreachable.
candidate : Tier → Text → Option Verdict
candidate allow reason = none
candidate block reason = some (block_verdict reason)
candidate warn reason = some (warn_verdict reason)
candidate ask reason = none

worse : Option Verdict → Option Verdict → Option Verdict
unfolding max_verdict_local
worse best none = best
worse none (some c) = some c
worse (some prev) (some c) = some (max_verdict_local prev c)

module _ {V : Type 0} (json : Json V) (input : HookInput V) (thresholds : Thresholds) where
  pub rule_verdict : ToolRule → Option Verdict
  unfolding candidate
  rule_verdict rule =
      if not (pattern_matches rule.pattern (resolve_arg json input rule.arg))
      then none
      else candidate (severity_to_tier rule.severity thresholds) rule.reason

  scan_rules : Option Verdict → List ToolRule → Option Verdict
  unfolding worse
  scan_rules best [] = best
  scan_rules best (rule ∷ rules) = scan_rules (worse best (rule_verdict rule)) rules

  scan_specs : Text → Option Verdict → List ToolSpec → Option Verdict
  scan_specs tool best [] = best
  scan_specs tool best (spec ∷ specs) =
      scan_specs tool (if eq_text spec.name tool then scan_rules best spec.rules else best) specs

  pub evaluate_rules : List ToolSpec → Text → Option Verdict
  evaluate_rules tools tool = scan_specs tool none tools

-- `max(1, chars.div_ceil(4))`
unfoldable pub tokens_for : Text → ℕ
tokens_for s = max 1 ((length s + 3) / 4)

unfoldable pub charge_for : {V : Type 0} → Json V → HookInput V → Option (Text × ℕ)
charge_for json input =
    if eq_text input.hook_event_name (codes "PreToolUse")
    then if eq_text (unwrap_or input.tool_name []) (codes "Bash")
      then some (codes "Bash", tokens_for (unwrap_or (bash_command json input) []))
      else none
    else if eq_text input.hook_event_name (codes "UserPromptSubmit")
    then some (codes "UserPromptSubmit", tokens_for (unwrap_or input.prompt []))
    else none

pub record SessionCounters : Type 0 where
  pub tokens : ℕ
  pub tool_invocations : ℕ
  pub per_tool_tokens : Map ℕ
  pub per_tool_invocations : Map ℕ

abbrev pub no_counters : SessionCounters
no_counters = record {
  tokens = 0;
  tool_invocations = 0;
  per_tool_tokens = [];
  per_tool_invocations = [];
}

abbrev pub Counters : Type 0
Counters = List (Option Text × SessionCounters)

abbrev eq_key : Option Text → Option Text → Bool
eq_key none none = true
eq_key (some a) (some b) = eq_text a b
eq_key _ _ = false

-- `counters.entry(key).or_default()`
pub entry_of : Option Text → Counters → SessionCounters
entry_of key [] = no_counters
entry_of key ((k, e) ∷ rest) = if eq_key k key then e else entry_of key rest

pub put_entry : Option Text → SessionCounters → Counters → Counters
put_entry key entry [] = (key, entry) ∷ []
put_entry key entry ((k, e) ∷ rest) =
    if eq_key k key then (key, entry) ∷ rest else (k, e) ∷ put_entry key entry rest

abbrev pub u64_max : ℕ
u64_max = 2 ^ 64 - 1

-- The charge of one event. The session's sums saturate; the sums of a tool wrap, as an
-- unchecked `+=` does in a release build.
pub charge : Text → ℕ → SessionCounters → SessionCounters
unfolding lookup insert
charge tool tokens e = record {
  tokens = min (e.tokens + tokens) u64_max;
  tool_invocations = min (e.tool_invocations + 1) u64_max;
  per_tool_tokens =
      insert tool ((unwrap_or (lookup tool e.per_tool_tokens) 0 + tokens) % 2 ^ 64)
        e.per_tool_tokens;
  per_tool_invocations =
      insert tool ((unwrap_or (lookup tool e.per_tool_invocations) 0 + 1) % 2 ^ 64)
        e.per_tool_invocations;
}

-- `Some(ask)` when a cap is set and `used` is above it
over : Option ℕ → ℕ → (ℕ → Text) → Option Verdict
over none used message = none
over (some cap) used message = if ltb cap used then some (ask_verdict (message cap)) else none

first_verdict : Option Verdict → Option Verdict → Option Verdict
first_verdict none later = later
first_verdict (some v) later = some v

tool_caps : Option ToolBudget → Text → SessionCounters → Option Verdict
unfolding over first_verdict lookup
tool_caps none tool e = none
tool_caps (some tb) tool e =
    first_verdict
      (over tb.max_tokens (unwrap_or (lookup tool e.per_tool_tokens) 0) (λ cap.
        codes "per-tool `"
        ++ tool
        ++ codes "` token budget exceeded: "
        ++ decimal cap
        ++ codes " tokens"))
      (over tb.max_invocations (unwrap_or (lookup tool e.per_tool_invocations) 0) (λ cap.
        codes "per-tool `"
        ++ tool
        ++ codes "` invocation budget exceeded: "
        ++ decimal cap
        ++ codes " invocations"))

pub check_caps : Budgets → Text → ℕ → SessionCounters → Option Verdict
unfolding over first_verdict tool_caps
check_caps budgets tool tokens e =
    first_verdict
      (over budgets.session.max_tokens e.tokens (λ cap.
        codes "session token budget exceeded: "
        ++ decimal cap
        ++ codes " tokens (charged "
        ++ decimal tokens
        ++ codes " for "
        ++ tool
        ++ codes ")"))
      (first_verdict
        (over budgets.session.max_tool_invocations e.tool_invocations (λ cap.
          codes "session invocation budget exceeded: " ++ decimal cap ++ codes " invocations"))
        (tool_caps (lookup tool budgets.per_tool) tool e))

charge_and_check : Budgets → Option Text → Option (Text × ℕ) → Counters → Option Verdict × Counters
unfolding charge check_caps entry_of put_entry
charge_and_check budgets key none counters = (none, counters)
charge_and_check budgets key (some (tool, tokens)) counters =
    let entry = charge tool tokens (entry_of key counters) in
    (check_caps budgets tool tokens entry, put_entry key entry counters)

pub budget_check :
    {V : Type 0} → Json V → Budgets → HookInput V → Counters → Option Verdict × Counters
unfolding charge_and_check
budget_check json budgets input counters =
    charge_and_check budgets input.session_id (charge_for json input) counters

abbrev is_deny : DefaultAction → Bool
is_deny Schema.allow = false
is_deny Schema.deny = true

pub has_explicit_allow : List ToolSpec → Text → Bool
has_explicit_allow tools tool = any (λ t. eq_text t.name tool && not (is_nil t.allow)) tools

allow_or : Option Verdict × Counters → Verdict × Counters
allow_or (none, counters) = (allow_verdict, counters)
allow_or (some v, counters) = (v, counters)

after_rules :
    {V : Type 0}
    → Json V
    → PolicyFile
    → HookInput V
    → Text
    → Counters
    → Option Verdict
    → Verdict × Counters
unfolding allow_or has_explicit_allow
after_rules json file input tool counters (some v) = (v, counters)
after_rules json file input tool counters none =
    if is_deny file.defaults.default_action && not (has_explicit_allow file.tools tool)
    then (
      block_verdict
          (codes "policy default-deny: tool `" ++ tool ++ codes "` is not on the allow list"),
      counters,
    )
    else allow_or (budget_check json file.budgets input counters)

-- `PolicySet::evaluate`
unfoldable pub evaluate :
    {V : Type 0} → Json V → PolicyFile → HookInput V → Config → Counters → Verdict × Counters
unfolding after_rules
evaluate json file input config counters =
    let tool = unwrap_or input.tool_name [] in
    after_rules json file input tool counters
      (evaluate_rules json input (effective_thresholds config) file.tools tool)

-- `PolicySet::rule_count`
pub rule_count : List ToolSpec → ℕ
rule_count [] = 0
rule_count (t ∷ ts) = length t.rules + rule_count ts
