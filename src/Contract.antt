-- ===== src/Contract.antt =====
-- src/contract.rs: what the hook reads from its host, and what it answers.
pub mod Capped
pub mod Emission
mod Tests
use apohara_agentguard.Prelude.Cut.{cut}
use apohara_agentguard.Prelude.{
  ℕ, ◌-◌, Text, codes, Bool, true, false, Option, none, some, [], ◌∷◌, ◌++◌, leb, eq_text, byte_len,
  if◌then◌else◌,
}
use apohara_agentguard.Verdict.{Tier, allow, warn, ask, block, Verdict}

-- What the program asks of `serde_json::Value`.
pub record Json (V : Type 0) : Type 0 where
  pub get : V → Text → Option V
  pub as_str : V → Option Text
  pub is_null : V → Bool
  pub to_text : V → Text

pub record HookInput (V : Type 0) : Type 0 where
  pub hook_event_name : Text
  pub session_id : Option Text
  pub tool_name : Option Text
  pub tool_input : V
  pub prompt : Option Text
  pub tool_response : V

abbrev pub and_then : {A B : Type 0} → Option A → (A → Option B) → Option B
and_then none f = none
and_then (some a) f = f a

abbrev pub or_else : {A : Type 0} → Option A → Option A → Option A
or_else none o = o
or_else (some a) o = some a

abbrev pub unwrap_or : {A : Type 0} → Option A → A → A
unwrap_or none d = d
unwrap_or (some a) d = a

module _ {V : Type 0} (json : Json V) (input : HookInput V) where
  unfoldable pub bash_command : Option Text
  bash_command = and_then (json.get input.tool_input (codes "command")) json.as_str

  unfoldable pub file_path : Option Text
  file_path =
      and_then
        (or_else (json.get input.tool_input (codes "file_path"))
          (json.get input.tool_input (codes "path")))
        json.as_str

  unfoldable pub web_url : Option Text
  web_url = and_then (json.get input.tool_input (codes "url")) json.as_str

  unfoldable pub web_query : Option Text
  web_query = and_then (json.get input.tool_input (codes "query")) json.as_str

  -- `tool_stdout` and its borrowed twin `tool_stdout_cow`
  unfoldable pub tool_stdout : Option Text
  tool_stdout =
      let v = input.tool_response in
      if json.is_null v
      then none
      else or_else (json.as_str v) (
          or_else (and_then (json.get v (codes "stdout")) json.as_str)
            (or_else (and_then (json.get v (codes "stderr")) json.as_str) (some (json.to_text v))))

abbrev pub max_context_bytes : ℕ
max_context_bytes = 4096

-- "…", three bytes of UTF-8
abbrev pub ellipsis : Text
ellipsis = 0x2026 ∷ []

pub record HookSpecificOutput : Type 0 where
  pub hook_event_name : Text
  pub permission_decision : Option Text
  pub permission_decision_reason : Option Text
  pub additional_context : Option Text

unfoldable pub is_blocking_event : Text → Bool
is_blocking_event event = eq_text event (codes "PreToolUse")

-- `neutralize` is the display-layer rewriting of src/neutralize.rs.
module _ (neutralize : Text → Text) where
  unfoldable pub cap_reason : Text → Text
  cap_reason reason =
      let text = neutralize reason in
      if leb (byte_len text) max_context_bytes
      then text
      else cut text (max_context_bytes - byte_len ellipsis) ++ ellipsis

  -- `HookOutput::warn`
  unfoldable pub warn_output : Text → Text → HookSpecificOutput
  warn_output event reason = record {
    hook_event_name = event;
    permission_decision = none;
    permission_decision_reason = none;
    additional_context = some (cap_reason reason);
  }

  -- `HookOutput::session_context`
  unfoldable pub session_context : Text → HookSpecificOutput
  session_context context = record {
    hook_event_name = codes "SessionStart";
    permission_decision = none;
    permission_decision_reason = none;
    additional_context = some (cap_reason context);
  }

  -- `HookOutput::deny`
  unfoldable pub deny_output : Text → Text → HookSpecificOutput
  deny_output event reason = record {
    hook_event_name = event;
    permission_decision = some (codes "deny");
    permission_decision_reason = some (cap_reason reason);
    additional_context = none;
  }

  -- `HookOutput::ask`
  unfoldable pub ask_output : Text → Text → HookSpecificOutput
  ask_output event reason = record {
    hook_event_name = event;
    permission_decision = some (codes "ask");
    permission_decision_reason = some (cap_reason reason);
    additional_context = none;
  }

  unfoldable pub emit_tier : Tier → Text → Text → Option HookSpecificOutput × ℕ
  emit_tier allow event reason = (none, 0)
  emit_tier warn event reason = (some (warn_output event reason), 0)
  emit_tier block event reason =
      if is_blocking_event event
      then (some (deny_output event reason), 2)
      else (some (warn_output event reason), 0)
  emit_tier ask event reason =
      if is_blocking_event event
      then (some (ask_output event reason), 0)
      else (some (warn_output event reason), 0)

  -- The answer before it is printed as JSON, and the exit code.
  unfoldable pub emit : Text → Verdict → Option HookSpecificOutput × ℕ
  unfolding emit_tier
  emit event verdict = emit_tier verdict.tier event verdict.reason
