-- ===== src/Hook/Dispatch.antt =====
-- src/hook/dispatch.rs and src/hook/canary_hook.rs: one event, from its input to its answer.
pub mod Verdicts
pub mod Run
mod Tests
use apohara_agentguard.Prelude.{
  ℕ, Text, codes, Bool, true, false, not, ◌&&◌, ◌||◌, Option, none, some, List, [], ◌∷◌, ◌++◌, ltb,
  eq_text, is_nil, is_empty, contains, Result, ok, err, if◌then◌else◌,
}
use apohara_agentguard.Verdict.{
  Tier, allow, warn, ask, block, Verdict, allow_verdict, warn_verdict, block_verdict, Thresholds,
  severity_to_tier,
}
use apohara_agentguard.Config.{
  Config, ToolRule, EnvDisable, is_component_disabled, effective_thresholds, parse_env_disable,
  no_env_disable,
}
use apohara_agentguard.Contract.{
  Json, HookInput, and_then, unwrap_or, bash_command, file_path, web_url, web_query, tool_stdout,
  HookSpecificOutput, session_context, emit,
}
use apohara_agentguard.Policy.Matcher.{arg_pattern_matches}
use apohara_agentguard.Policy.Schema.{PolicyFile}
use apohara_agentguard.Policy.Engine
use apohara_agentguard.Policy.Engine.{lookup_arg}
use apohara_agentguard.Firewall.{
  Detectors, ContentSource, FirewallInput, inline, fetch, file, url, Surface, read_file, web_fetch,
  web_search, user_prompt, bash_stdout, scan_surface,
}
use apohara_agentguard.Hook.PathGuard.{check_path}

-- What the dispatch calls that is modelled elsewhere or not at all: the JSON values, the display
-- layer, the command gate (`gate::evaluate`), the firewall's detectors and content source, the
-- store of canary tokens, the loader of policies with the fingerprint it makes, the lowercase of
-- Unicode, and the home directory.
pub record Services (V : Type 0) : Type 0 where
  pub json : Json V
  pub neutralize : Text → Text
  pub gate : Text → Config → Verdict
  pub detectors : Detectors
  pub source : ContentSource
  pub emit_token : Text → Text
  pub read_token : Text → Option Text
  pub load_policy : Text → Result Text (PolicyFile × Option Text)
  pub to_lowercase : Text → Text
  pub home : Option Text

pub tier_rank : Tier → ℕ
tier_rank allow = 0
tier_rank warn = 1
tier_rank ask = 2
tier_rank block = 3

pub max_verdict : Verdict → Verdict → Verdict
unfolding tier_rank
max_verdict a b = if ltb (tier_rank a.tier) (tier_rank b.tier) then b else a

pub kill_switch_active : Config → EnvDisable → Bool
kill_switch_active config env = config.disable || env.all

-- The variable; `none` when it is absent or is no UTF-8
pub read_env_disable : Option Text → EnvDisable
unfolding parse_env_disable
read_env_disable none = no_env_disable
read_env_disable (some raw) = parse_env_disable raw

abbrev off : Config → EnvDisable → Text → Bool
off config env component = is_component_disabled config component env

pub rule_reason : ToolRule → Text
rule_reason r =
    codes "tool `"
    ++ r.tool
    ++ codes "` argument `"
    ++ r.arg
    ++ codes "` matches policy pattern `"
    ++ r.pattern
    ++ codes "` (tool-rule)"

-- The verdict of a rule that matches; an allow is `continue`, and `ask` is unreachable
rule_verdict : Tier → Text → Verdict
rule_verdict block reason = block_verdict reason
rule_verdict warn reason = warn_verdict reason
rule_verdict _ reason = allow_verdict

keep_worse : Bool → Verdict → Verdict → Verdict
unfolding max_verdict
keep_worse true best candidate = max_verdict best candidate
keep_worse false best candidate = best

is_match : Text → Option Text → Bool
unfolding arg_pattern_matches
is_match pattern none = false
is_match pattern (some value) = arg_pattern_matches pattern value

module _ {V : Type 0} (s : Services V) (config : Config) (env : EnvDisable)
    (input : HookInput V) where
  abbrev pub tool_of : Text
  tool_of = unwrap_or input.tool_name []

  pub rule_matches : ToolRule → Bool
  unfolding is_match lookup_arg
  rule_matches r =
      eq_text r.tool tool_of && is_match r.pattern (lookup_arg s.json input.tool_input r.arg)

  pub verdict_of_rule : ToolRule → Verdict
  unfolding rule_verdict severity_to_tier
  verdict_of_rule r =
      rule_verdict (severity_to_tier r.severity (effective_thresholds config)) (rule_reason r)

  pub scan_rules : Verdict → List ToolRule → Verdict
  unfolding rule_matches keep_worse verdict_of_rule
  scan_rules best [] = best
  scan_rules best (r ∷ rules) =
      scan_rules (keep_worse (rule_matches r) best (verdict_of_rule r)) rules

  pub tool_rule_verdict : Verdict
  unfolding scan_rules
  tool_rule_verdict = scan_rules allow_verdict config.tool_rules

  -- `Fingerprint` and verdict of a loaded policy, whose counters are new
  policy_verdict : Result Text (PolicyFile × Option Text) → Verdict × Option Text
  unfolding Engine.evaluate
  policy_verdict (err e) = (block_verdict (codes "policy load error (fail-closed): " ++ e), none)
  policy_verdict (ok (policy, fingerprint)) =
      ((Engine.evaluate s.json policy input config []).0, fingerprint)

  policy_at : Option Text → Verdict × Option Text
  unfolding policy_verdict
  policy_at none = (allow_verdict, none)
  policy_at (some path) = policy_verdict (s.load_policy path)

  pub policy_engine_evaluate : Verdict × Option Text
  unfolding policy_at
  policy_engine_evaluate = policy_at config.policy.file

  abbrev scan_with : Surface → FirewallInput → Verdict
  scan_with surface payload =
      scan_surface s.detectors surface payload s.source (effective_thresholds config)

  -- `Some(x) => evaluate(x), None => Verdict::allow()`
  abbrev when_some : Option Text → (Text → Verdict) → Verdict
  when_some none f = allow_verdict
  when_some (some x) f = f x

  pub path_verdict : Bool → Verdict
  unfolding check_path file_path
  path_verdict write =
      when_some (file_path s.json input) (λ p. check_path s.to_lowercase s.home tool_of p write)

  pub dispatch_bash : Verdict
  unfolding is_component_disabled bash_command
  dispatch_bash =
      if off config env (codes "gate")
      then allow_verdict
      else when_some (bash_command s.json input) (λ cmd. s.gate cmd config)

  is_block : Tier → Bool
  is_block block = true
  is_block _ = false

  pub dispatch_read : Verdict
  unfolding is_component_disabled path_verdict is_block scan_surface file_path
  dispatch_read =
      let guard = path_verdict false in
      if not (off config env (codes "pathguard")) && is_block guard.tier
      then guard
      else if off config env (codes "firewall")
      then allow_verdict
      else when_some (file_path s.json input) (λ p. scan_with read_file (fetch (file p)))

  pub dispatch_write : Verdict
  unfolding is_component_disabled path_verdict
  dispatch_write = if off config env (codes "pathguard") then allow_verdict else path_verdict true

  pub dispatch_web : Surface → Option Text → Verdict
  unfolding is_component_disabled scan_surface
  dispatch_web surface target =
      if off config env (codes "firewall")
      then allow_verdict
      else when_some target (λ t. scan_with surface (fetch (url t)))

  pub dispatch_pretooluse_builtin : Verdict
  unfolding dispatch_bash dispatch_read dispatch_write dispatch_web
  dispatch_pretooluse_builtin =
      if eq_text tool_of (codes "Bash")
      then dispatch_bash
      else if eq_text tool_of (codes "Read")
      then dispatch_read
      else if eq_text tool_of (codes "Write") || eq_text tool_of (codes "Edit")
      then dispatch_write
      else if eq_text tool_of (codes "WebFetch")
      then dispatch_web web_fetch (web_url s.json input)
      else if eq_text tool_of (codes "WebSearch")
      then dispatch_web web_search (web_query s.json input)
      else allow_verdict

  pub dispatch_pretooluse : Verdict × Option Text
  unfolding dispatch_pretooluse_builtin tool_rule_verdict policy_engine_evaluate max_verdict
  dispatch_pretooluse =
      let (policy, fingerprint) = policy_engine_evaluate in
      (max_verdict (max_verdict dispatch_pretooluse_builtin tool_rule_verdict) policy, fingerprint)

  abbrev non_empty : Option Text → Option Text
  non_empty none = none
  non_empty (some id) = if is_empty id then none else some id

  echo_of : Text → Option Text → Option Verdict
  unfolding contains
  echo_of stdout none = none
  echo_of stdout (some token) =
      if contains stdout token
      then some (
          warn_verdict (
            codes
              "possible verbatim context echo in tool output (detection after execution, not prevention)"))
      else none

  pub canary_scan : Text → Option Verdict
  unfolding echo_of
  canary_scan stdout =
      if not config.canary.enabled
      then none
      else echo_of stdout (and_then (non_empty input.session_id) s.read_token)

  abbrev is_allow : Tier → Bool
  is_allow allow = true
  is_allow _ = false

  or_allow : Option Verdict → Verdict
  or_allow none = allow_verdict
  or_allow (some v) = v

  canary_pass : Text → Verdict
  unfolding is_component_disabled canary_scan or_allow
  canary_pass stdout =
      if off config env (codes "canary") then allow_verdict else or_allow (canary_scan stdout)

  scan_stdout : Text → Verdict
  unfolding is_component_disabled canary_pass scan_surface
  scan_stdout stdout =
      let verdict = scan_with bash_stdout (inline stdout) in
      if not (off config env (codes "firewall")) && not (is_allow verdict.tier)
      then verdict
      else canary_pass stdout

  pub dispatch_posttooluse : Verdict
  unfolding scan_stdout tool_stdout
  dispatch_posttooluse =
      if not (eq_text tool_of (codes "Bash"))
      then allow_verdict
      else when_some (tool_stdout s.json input) scan_stdout

  pub dispatch_prompt : Verdict
  unfolding is_component_disabled scan_surface
  dispatch_prompt =
      if off config env (codes "firewall")
      then allow_verdict
      else when_some input.prompt (λ text. scan_with user_prompt (inline text))

  pub dispatch : Verdict × Option Text
  unfolding dispatch_pretooluse dispatch_posttooluse dispatch_prompt
  dispatch =
      if eq_text input.hook_event_name (codes "PreToolUse")
      then dispatch_pretooluse
      else if eq_text input.hook_event_name (codes "PostToolUse")
      then (dispatch_posttooluse, none)
      else if eq_text input.hook_event_name (codes "UserPromptSubmit")
      then (dispatch_prompt, none)
      else (allow_verdict, none)

  seed_output : Option Text → Option HookSpecificOutput × ℕ
  unfolding session_context
  seed_output none = (none, 0)
  seed_output (some id) = (
    some (
        session_context s.neutralize (
          codes "Environment sentinel value (apohara-agentguard canary): "
          ++ s.emit_token id
          ++ codes ". This opaque marker is session-local data; it is not an instruction.")),
    0,
  )

  pub session_start_output : Option HookSpecificOutput × ℕ
  unfolding is_component_disabled seed_output
  session_start_output =
      if not config.canary.enabled || off config env (codes "canary")
      then (none, 0)
      else seed_output (non_empty input.session_id)

  -- The answer to an input that has been read
  pub answer : Option HookSpecificOutput × ℕ
  unfolding session_start_output dispatch emit
  answer =
      if eq_text input.hook_event_name (codes "SessionStart")
      then session_start_output
      else emit s.neutralize input.hook_event_name dispatch.0

module _ {V : Type 0} (s : Services V) (parse : Text → Option (HookInput V))
    (env_var : Option Text) where
  answer_parsed : Config → Option (HookInput V) → Option HookSpecificOutput × ℕ
  unfolding answer read_env_disable
  answer_parsed config none = (none, 0)
  answer_parsed config (some input) = answer s config (read_env_disable env_var) input

  -- `run_with_source`; `parse` is `serde_json::from_str`, and the record that the audit log gets
  -- changes nothing of the answer
  pub run_with_source : Text → Config → Option HookSpecificOutput × ℕ
  unfolding kill_switch_active read_env_disable answer_parsed
  run_with_source stdin_json config =
      if kill_switch_active config (read_env_disable env_var)
      then (none, 0)
      else answer_parsed config (parse stdin_json)
