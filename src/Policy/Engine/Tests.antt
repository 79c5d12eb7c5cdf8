-- ===== src/Policy/Engine/Tests.antt =====
-- The engine on a small policy.
use apohara_agentguard.Prelude.{
  ℕ, ◌≤◌, Text, codes, true, false, none, some, List, [], ◌∷◌, ◌≡◌, inl, refl, arith, eq_text,
  split_char, contains_char, contains, split_once, strip_prefix,
}
use apohara_agentguard.Verdict.{default_thresholds, severity_to_tier, block_verdict}
use apohara_agentguard.Config.{default_config, effective_thresholds}
use apohara_agentguard.Contract.{Json, HookInput}
use apohara_agentguard.Policy.Schema
use apohara_agentguard.Policy.Schema.{ToolRule, ToolSpec, Budgets, PolicyFile}
use apohara_agentguard.Policy.Engine.Rules.{rank_of, evaluate_rules_worst}
use apohara_agentguard.Policy.Engine.Budget.{budget_check_fresh}
use apohara_agentguard.Policy.Matcher.{pattern_matches}
use apohara_agentguard.Policy.Engine.{
  walk, lookup_arg, resolve_arg, candidate, worse, rule_verdict, scan_rules, scan_specs,
  evaluate_rules, budget_check, has_explicit_allow,
}

-- A JSON value that is a string, whatever key is asked for.
abbrev json : Json Text
json = record {
  get = λ v key. some v;
  as_str = λ v. some v;
  is_null = λ v. false;
  to_text = λ v. v;
}

abbrev input : HookInput Text
input = record {
  hook_event_name = codes "PreToolUse";
  session_id = none;
  tool_name = some (codes "Bash");
  tool_input = codes "rm -rf /";
  prompt = none;
  tool_response = [];
}

abbrev rm_rule : ToolRule
rm_rule = record {
  arg = codes "command";
  pattern = codes "rm";
  severity = 9;
  reason = codes "no rm";
}

abbrev bash_spec : ToolSpec
bash_spec = record { name = codes "Bash"; allow = []; deny = []; rules = rm_rule ∷ [] }

abbrev budgets : Budgets
budgets = record {
  session = record { max_tokens = none; max_tool_invocations = some 1 };
  per_tool = [];
}

abbrev closed_policy : PolicyFile
closed_policy = record {
  schema_version = 1;
  defaults = record { default_action = Schema.deny };
  tools = bash_spec ∷ [];
  budgets = budgets;
}

abbrev open_policy : PolicyFile
open_policy = record closed_policy { defaults = record { default_action = Schema.allow } }

bash_named : eq_text (codes "Bash") (codes "Bash") ≡ true
unfolding eq_text
bash_named = refl

evaluate_rules_worst_example :
    rank_of (rule_verdict json input default_thresholds rm_rule)
    ≤ rank_of (evaluate_rules json input default_thresholds (bash_spec ∷ []) (codes "Bash"))
evaluate_rules_worst_example =
    evaluate_rules_worst json input default_thresholds (bash_spec ∷ []) (codes "Bash") bash_spec
      rm_rule (inl refl) bash_named (inl refl)

rm_blocked :
    evaluate_rules json input default_thresholds (bash_spec ∷ []) (codes "Bash")
    ≡ some (block_verdict (codes "no rm"))
unfolding evaluate_rules scan_specs scan_rules rule_verdict worse candidate resolve_arg lookup_arg
    walk pattern_matches severity_to_tier eq_text split_char contains_char contains split_once
    strip_prefix
rm_blocked = refl

no_allow_list : has_explicit_allow (bash_spec ∷ []) (codes "Bash") ≡ false
unfolding has_explicit_allow eq_text
no_allow_list = refl

abbrev no_rules : PolicyFile
no_rules = record open_policy { tools = [] }

no_rule_fires :
    evaluate_rules json input (effective_thresholds default_config) [] (codes "Bash") ≡ none
unfolding evaluate_rules scan_specs
no_rule_fires = refl

abbrev two_calls : List (Text × ℕ)
two_calls = (codes "Bash", 3) ∷ (codes "Bash", 4) ∷ []

abbrev both_capped : Budgets
both_capped = record {
  session = record { max_tokens = some 5; max_tool_invocations = some 9 };
  per_tool = [];
}

budget_check_fresh_example : (budget_check json budgets input []).0 ≡ none
budget_check_fresh_example = budget_check_fresh json budgets input 1 refl refl refl (omega arith)
