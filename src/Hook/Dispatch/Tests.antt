-- ===== src/Hook/Dispatch/Tests.antt =====
-- The dispatch of one event, with a tool rule and with a policy that does not load.
use apohara_agentguard.Prelude.{
  ◌≤◌, Text, codes, true, false, Option, none, some, [], ◌∷◌, ◌≡◌, ◌⊎◌, ◌↔◌, inl, refl, err,
  eq_text, split_char, contains, split_once, strip_prefix, contains_char, to_ascii_lowercase,
}
use apohara_agentguard.Verdict.{block_verdict, severity_to_tier}
use apohara_agentguard.Config.{
  Config, ToolRule, default_config, no_env_disable, effective_thresholds,
}
use apohara_agentguard.Contract.{Json, HookInput}
use apohara_agentguard.Policy.Engine.{lookup_arg}
use apohara_agentguard.Policy.Matcher.{arg_pattern_matches}
use apohara_agentguard.Firewall.{timeout}
use apohara_agentguard.Hook.Dispatch.Verdicts.{
  dispatch_pretooluse_strictest, dispatch_pretooluse_rule,
}
use apohara_agentguard.Hook.Dispatch.Run.{Stops, run_with_source-Stops}
use apohara_agentguard.Hook.Dispatch.{
  Services, tier_rank, kill_switch_active, read_env_disable, is_match, rule_matches,
  tool_rule_verdict, policy_engine_evaluate, dispatch_pretooluse_builtin, dispatch_pretooluse,
  run_with_source,
}

-- A JSON value that is a string, whatever key is asked for.
abbrev string_json : Json Text
string_json = record {
  get = λ v key. some v;
  as_str = λ v. some v;
  is_null = λ v. false;
  to_text = λ v. v;
}

abbrev services : Services Text
services = record {
  json = string_json;
  neutralize = λ t. t;
  gate = λ command config. block_verdict command;
  detectors = record {
    hits = λ text. [];
    two_stage_matches = λ id text. false;
    analyze = λ text. none;
    pipeline = λ text. none;
  };
  source = record { get = λ target. err timeout };
  emit_token = λ id. id;
  read_token = λ id. none;
  load_policy = λ path. err (codes "no such file");
  to_lowercase = to_ascii_lowercase;
  home = none;
}

abbrev input : HookInput Text
input = record {
  hook_event_name = codes "PreToolUse";
  session_id = none;
  tool_name = some (codes "Task");
  tool_input = codes "deploy prod";
  prompt = none;
  tool_response = [];
}

abbrev prod_rule : ToolRule
prod_rule = record {
  tool = codes "Task";
  arg = codes "prompt";
  pattern = codes "prod";
  severity = 9;
}

abbrev with_rule : Config
with_rule = record default_config { tool_rules = prod_rule ∷ [] }

abbrev with_policy : Config
with_policy = record default_config { policy = record { file = some (codes "policy.toml") } }

dispatch_pretooluse_strictest_example :
    let v = (dispatch_pretooluse services with_rule no_env_disable input).0 in
    (tier_rank (dispatch_pretooluse_builtin services with_rule no_env_disable input).tier
      ≤ tier_rank v.tier)
    × (tier_rank (tool_rule_verdict services with_rule no_env_disable input).tier
        ≤ tier_rank v.tier)
    × (tier_rank (policy_engine_evaluate services with_rule no_env_disable input).0.tier
        ≤ tier_rank v.tier)
    × ((v ≡ dispatch_pretooluse_builtin services with_rule no_env_disable input)
        ⊎ (v ≡ tool_rule_verdict services with_rule no_env_disable input)
        ⊎ (v ≡ (policy_engine_evaluate services with_rule no_env_disable input).0))
dispatch_pretooluse_strictest_example =
    dispatch_pretooluse_strictest services with_rule no_env_disable input

prod_matches : rule_matches services with_rule no_env_disable input prod_rule ≡ true
unfolding rule_matches is_match lookup_arg arg_pattern_matches eq_text split_char contains
    split_once strip_prefix contains_char
prod_matches = refl

dispatch_pretooluse_rule_example :
    tier_rank (severity_to_tier 9 (effective_thresholds with_rule))
    ≤ tier_rank (dispatch_pretooluse services with_rule no_env_disable input).0.tier
dispatch_pretooluse_rule_example =
    dispatch_pretooluse_rule services with_rule no_env_disable input prod_rule (inl refl)
      prod_matches

abbrev always : Text → Option (HookInput Text)
always stdin = some input

run_with_source-Stops_example :
    ((run_with_source services always none (codes "stdin") with_policy).1 ≡ 2
      ↔ (kill_switch_active with_policy (read_env_disable none) ≡ false)
        × ((i : HookInput Text) × Stops services always none (codes "stdin") with_policy i))
    × (((run_with_source services always none (codes "stdin") with_policy).1 ≡ 2)
        ⊎ ((run_with_source services always none (codes "stdin") with_policy).1 ≡ 0))
run_with_source-Stops_example =
    run_with_source-Stops services always none (codes "stdin") with_policy
