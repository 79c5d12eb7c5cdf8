-- ===== src/Contract/Tests.antt =====
-- The answers to a block before a tool runs and after a prompt.
use apohara_agentguard.Prelude.{◌≤◌, Text, codes, some, ◌≡◌, ◌≢◌, refl, eq_text, byte_len, arith}
use apohara_agentguard.Verdict.{block_verdict}
use apohara_agentguard.Contract.Capped.{byte_len-cap_reason}
use apohara_agentguard.Contract.Emission.{pre_tool_use}
use apohara_agentguard.Contract.{
  max_context_bytes, cap_reason, is_blocking_event, emit_tier, emit, warn_output,
}

abbrev as_it_is : Text → Text
as_it_is t = t

abbrev prompt_event : Text
prompt_event = codes "UserPromptSubmit"

byte_len-cap_reason_example : byte_len (cap_reason as_it_is (codes "no rm")) ≤ max_context_bytes
byte_len-cap_reason_example = byte_len-cap_reason as_it_is (codes "no rm")

prompt_event-ne : prompt_event ≢ pre_tool_use
prompt_event-ne h = ground arith

prompt_block :
    (emit as_it_is prompt_event (block_verdict (codes "no rm"))).0
    ≡ some (warn_output as_it_is prompt_event (codes "no rm"))
unfolding emit emit_tier is_blocking_event eq_text
prompt_block = refl
