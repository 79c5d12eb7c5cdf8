-- ===== src/Contract/Emission.antt =====
-- What each verdict becomes on each event.
use apohara_agentguard.Prelude.{
  Text, codes, none, some, ◌⊎◌, ◌≢◌, inl, inr, ◌≡◌, ◌↔◌, arith, eq_text_iff, Bool-cases,
}
use apohara_agentguard.Verdict.{Tier, Verdict, allow, warn, ask, block}
use apohara_agentguard.Contract.Capped.{Fits, byte_len-cap_reason}
use apohara_agentguard.Contract.{
  HookSpecificOutput, cap_reason, warn_output, deny_output, ask_output, is_blocking_event,
  emit_tier, emit,
}

abbrev pub pre_tool_use : Text
pre_tool_use = codes "PreToolUse"

module _ (neutralize : Text → Text) (event : Text) where
  emit_tier-Fits : (t : Tier) (reason : Text) → Fits (emit_tier neutralize t event reason).0
  unfolding emit_tier warn_output deny_output ask_output
  emit_tier-Fits allow reason = tt
  emit_tier-Fits warn reason = (tt, byte_len-cap_reason neutralize reason)
  emit_tier-Fits ask reason = elim (Bool-cases (is_blocking_event event)) [
    | inl e ↦ rw e (byte_len-cap_reason neutralize reason, tt)
    | inr e ↦ rw e (tt, byte_len-cap_reason neutralize reason)
  ]
  emit_tier-Fits block reason = elim (Bool-cases (is_blocking_event event)) [
    | inl e ↦ rw e (byte_len-cap_reason neutralize reason, tt)
    | inr e ↦ rw e (tt, byte_len-cap_reason neutralize reason)
  ]

  -- Whatever the verdict, no free-text field of the answer passes the cap.
  pub emit-Fits : (v : Verdict) → Fits (emit neutralize event v).0
  unfolding emit
  emit-Fits v = emit_tier-Fits v.tier v.reason

  -- The exit code is 2 for a block before a tool runs, and 0 in every other case.
  pub emit_exit :
      (v : Verdict)
      → ((emit neutralize event v).1 ≡ 2 ↔ (v.tier ≡ block) × (event ≡ pre_tool_use))
        × (((emit neutralize event v).1 ≡ 2) ⊎ ((emit neutralize event v).1 ≡ 0))
  unfolding emit is_blocking_event
  emit_exit v = ground (arith, eq_text_iff event pre_tool_use)

  -- There is no answer exactly for an allow.
  pub emit_silent : (v : Verdict) → (emit neutralize event v).0 ≡ none ↔ v.tier ≡ allow
  unfolding emit is_blocking_event
  emit_silent v = ground (arith, eq_text_iff event pre_tool_use)

  -- An event that cannot be stopped is answered with context alone, never with a permission
  -- decision.
  pub emit_downgrade :
      (v : Verdict) (o : HookSpecificOutput)
      → event ≢ pre_tool_use
      → (emit neutralize event v).0 ≡ some o
      → (o.permission_decision ≡ none)
        × (o.additional_context ≡ some (cap_reason neutralize v.reason))
  unfolding emit is_blocking_event warn_output deny_output ask_output
  emit_downgrade v o = ground (arith, eq_text_iff event pre_tool_use)
