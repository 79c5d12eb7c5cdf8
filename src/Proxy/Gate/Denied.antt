-- ===== src/Proxy/Gate/Denied.antt =====
-- src/proxy/gate.rs: the reasons for which a call is denied.
use apohara_agentguard.Prelude.{
  ◌≡◌, refl, ap, ◌∙◌, arith, Text, Bool, true, false, Option, none, some, List, [], ◌∷◌, In, ◌⊎◌,
  inl, inr, Bool-cases, if◌then◌else◌,
}
use apohara_agentguard.Verdict.{Tier, allow, warn, ask, block, Verdict}
use apohara_agentguard.Config.{Config}
use apohara_agentguard.Gate.Packs.{CommunityRule}
use apohara_agentguard.Gate.Scan.{Outside}
use apohara_agentguard.Gate.{evaluate}
use apohara_agentguard.Proxy.Gate.{
  GateDecision, ArgValue, string, other, is_strict, is_deep_key, check_text, check_argument,
  deep_check, after_policy, evaluate_tool_call, high_confidence_destructive, first_denial,
  allow_call,
}

abbrev is_given : Option GateDecision → Bool
is_given none = false
is_given (some d) = true

given : (o : Option GateDecision) → is_given o ≡ true → (d : GateDecision) × (o ≡ some d)
given none h = cc
given (some d) h = (d, refl)

module _ (outside : Outside) (community : List CommunityRule) (config : Config) where
  check_text-denies :
      (key code : Text) (d : GateDecision)
      → check_text outside community config key code ≡ some d
      → d.allowed ≡ false
  unfolding check_text
  check_text-denies key code d h = ground (arith, h)

  check_argument-denies :
      (key : Text) (arg : ArgValue) (d : GateDecision)
      → check_argument outside community config key arg ≡ some d
      → d.allowed ≡ false
  unfolding check_argument
  check_argument-denies key (string code) d h = elim (Bool-cases (is_deep_key key)) [
    | inl e ↦ check_text-denies key code d (rw (e, check_argument) at h)
    | inr e ↦ let k = rw (e, check_argument) at h in cc
  ]
  check_argument-denies key other d h = cc

  -- The argument is denied by the deep check: a command, under a strict key, that the command gate
  -- blocks, or a text under the authoring key with one of the two shapes.
  pub data IsHarmful (key code : Text) : Type 0 where
    blocked_command :
        is_strict key ≡ true
        → (evaluate outside community code config).tier ≡ block
        → IsHarmful key code
    destructive_shape :
        is_strict key ≡ false → high_confidence_destructive code ≡ true → IsHarmful key code

  check_text-given :
      (key code : Text)
      → IsHarmful key code
      → is_given (check_text outside community config key code) ≡ true
  unfolding check_text
  check_text-given key code (blocked_command s b) = rw (s, b) refl
  check_text-given key code (destructive_shape s b) = rw (s, b) refl

  check_text-harmful :
      (key code : Text)
      → IsHarmful key code
      → (d : GateDecision) × (check_text outside community config key code ≡ some d)
  check_text-harmful key code h =
      given (check_text outside community config key code) (check_text-given key code h)

  check_argument-harmful :
      (key code : Text)
      → is_deep_key key ≡ true
      → IsHarmful key code
      → (d : GateDecision) × (check_argument outside community config key (string code) ≡ some d)
  unfolding check_argument
  check_argument-harmful key code k h = rw k (check_text-harmful key code h)

  denied_first :
      (found : Option GateDecision) (later : GateDecision)
      → ((d : GateDecision) → found ≡ some d → d.allowed ≡ false)
      → later.allowed ≡ false
      → (first_denial outside community config found later).allowed ≡ false
  denied_first none later f h = h
  denied_first (some d) later f h = f d refl

  deep_check-harmful :
      (key code : Text) (args : List (Text × ArgValue))
      → In (key, string code) args
      → is_deep_key key ≡ true
      → IsHarmful key code
      → (deep_check outside community config args).allowed ≡ false
  unfolding deep_check
  deep_check-harmful key code [] m k h = elim m [ ]
  deep_check-harmful key code ((name, arg) ∷ args) (inr m) k h =
      denied_first (check_argument outside community config name arg)
        (deep_check outside community config args) (check_argument-denies name arg)
        (deep_check-harmful key code args m k h)
  deep_check-harmful key code ((name, arg) ∷ args) (inl e) k h =
      let (d, found) = check_argument-harmful key code k h in
      let same : check_argument outside community config name arg ≡ some d =
        ap (λ (a : Text × ArgValue). check_argument outside community config a.0 a.1) e ∙ found in
      rw same (check_argument-denies key (string code) d found)

  after_policy-denies :
      (policy : Verdict) (tool : Text) (args : List (Text × ArgValue)) (tier : Tier)
      → (tier ≡ block)
        ⊎ (tier ≡ ask)
        ⊎ ((key : Text) × (code : Text) × In (key, string code) args
            × (is_deep_key key ≡ true)
            × IsHarmful key code)
      → (after_policy outside community config tool args policy tier).allowed ≡ false
  unfolding after_policy
  after_policy-denies policy tool args block c = refl
  after_policy-denies policy tool args ask c = refl
  after_policy-denies policy tool args allow (inl e) = cc
  after_policy-denies policy tool args allow (inr (inl e)) = cc
  after_policy-denies policy tool args allow (inr (inr (key, code, m, k, h))) =
      deep_check-harmful key code args m k h
  after_policy-denies policy tool args warn (inl e) = cc
  after_policy-denies policy tool args warn (inr (inl e)) = cc
  after_policy-denies policy tool args warn (inr (inr (key, code, m, k, h))) =
      deep_check-harmful key code args m k h

  -- With the kill switch off, a call is denied when the policy blocks it or would ask, and when one of
  -- its arguments under a checked key is harmful: a command that the command gate blocks, or a text
  -- with one of the two destructive shapes under the authoring key.
  pub evaluate_tool_call_denies :
      (policy : Verdict) (tool : Text) (args : List (Text × ArgValue))
      → config.disable ≡ false
      → (policy.tier ≡ block)
        ⊎ (policy.tier ≡ ask)
        ⊎ ((key : Text) × (code : Text) × In (key, string code) args
            × (is_deep_key key ≡ true)
            × IsHarmful key code)
      → (evaluate_tool_call outside community config policy tool args).allowed ≡ false
  unfolding evaluate_tool_call
  evaluate_tool_call_denies policy tool args d c =
      ap
        (λ b.
          (if b
            then allow_call
            else after_policy outside community config tool args policy policy.tier).allowed)
        d
      ∙ after_policy-denies policy tool args policy.tier c
