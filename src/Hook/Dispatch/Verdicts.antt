-- ===== src/Hook/Dispatch/Verdicts.antt =====
-- src/hook/dispatch.rs: the verdicts of the passes, and how they are combined.
use apohara_agentguard.Prelude.{
  ◌≤◌, Text, Bool, true, false, none, some, List, [], ◌∷◌, ◌≡◌, ◌⊎◌, inl, inr, refl, ap, ◌∙◌, arith,
  In, err,
}
use apohara_agentguard.Verdict.{
  Tier, allow, warn, ask, block, Verdict, allow_verdict, severity_to_tier,
}
use apohara_agentguard.Config.{Config, ToolRule, EnvDisable, effective_thresholds}
use apohara_agentguard.Contract.{HookInput}
use apohara_agentguard.Hook.Dispatch.{
  Services, tier_rank, max_verdict, rule_matches, rule_verdict, verdict_of_rule, keep_worse,
  scan_rules, tool_rule_verdict, policy_verdict, policy_at, policy_engine_evaluate,
  dispatch_pretooluse_builtin, dispatch_pretooluse,
}

max_verdict-left : (a b : Verdict) → tier_rank a.tier ≤ tier_rank (max_verdict a b).tier
unfolding max_verdict
max_verdict-left a b = ground arith

max_verdict-right : (a b : Verdict) → tier_rank b.tier ≤ tier_rank (max_verdict a b).tier
unfolding max_verdict
max_verdict-right a b = ground arith

max_verdict-cases : (a b : Verdict) → (max_verdict a b ≡ a) ⊎ (max_verdict a b ≡ b)
unfolding max_verdict
max_verdict-cases a b = ground arith

max_verdict_allow : (a : Verdict) → max_verdict a allow_verdict ≡ a
unfolding max_verdict tier_rank
max_verdict_allow a = ground arith

tier_rank-block : tier_rank block ≡ 3
unfolding tier_rank
tier_rank-block = refl

keep_worse-left :
    (m : Bool) (best v : Verdict) → tier_rank best.tier ≤ tier_rank (keep_worse m best v).tier
unfolding keep_worse
keep_worse-left true best v = max_verdict-left best v
keep_worse-left false best v = omega arith

keep_worse-right :
    (m : Bool) (best v : Verdict)
    → m ≡ true
    → tier_rank v.tier ≤ tier_rank (keep_worse m best v).tier
unfolding keep_worse
keep_worse-right true best v h = max_verdict-right best v
keep_worse-right false best v h = cc

tier_rank_block : (t : Tier) → 3 ≤ tier_rank t → t ≡ block
unfolding tier_rank
tier_rank_block allow h = ground arith
tier_rank_block warn h = ground arith
tier_rank_block ask h = ground arith
tier_rank_block block h = refl

module _ {V : Type 0} (s : Services V) (config : Config) (env : EnvDisable)
    (input : HookInput V) where
  scan_rules-le :
      (best : Verdict) (rules : List ToolRule)
      → tier_rank best.tier ≤ tier_rank (scan_rules s config env input best rules).tier
  unfolding scan_rules
  scan_rules-le best [] = omega arith
  scan_rules-le best (r ∷ rules) =
      let m = rule_matches s config env input r in
      let v = verdict_of_rule s config env input r in
      omega (arith, keep_worse-left m best v, scan_rules-le (keep_worse m best v) rules)

  verdict_of_rule-tier :
      (r : ToolRule)
      → tier_rank (severity_to_tier r.severity (effective_thresholds config))
        ≤ tier_rank (verdict_of_rule s config env input r).tier
  unfolding verdict_of_rule rule_verdict severity_to_tier tier_rank
  verdict_of_rule-tier r = ground arith

  scan_rules_rule :
      (best : Verdict) (rules : List ToolRule) (r : ToolRule)
      → In r rules
      → rule_matches s config env input r ≡ true
      → tier_rank (severity_to_tier r.severity (effective_thresholds config))
        ≤ tier_rank (scan_rules s config env input best rules).tier
  unfolding scan_rules
  scan_rules_rule best [] r m h = elim m [ ]
  scan_rules_rule best (q ∷ rules) r (inl e) h =
      let b = rule_matches s config env input q in
      let v = verdict_of_rule s config env input q in
      omega (
        arith,
        ap (λ x. tier_rank (severity_to_tier x.severity (effective_thresholds config))) e,
        verdict_of_rule-tier q,
        keep_worse-right b best v (ap (rule_matches s config env input) e ∙ h),
        scan_rules-le (keep_worse b best v) rules,
      )
  scan_rules_rule best (q ∷ rules) r (inr m) h =
      scan_rules_rule
        (keep_worse (rule_matches s config env input q) best (verdict_of_rule s config env input q))
        rules r m h

  tool_rule_verdict_rule :
      (r : ToolRule)
      → In r config.tool_rules
      → rule_matches s config env input r ≡ true
      → tier_rank (severity_to_tier r.severity (effective_thresholds config))
        ≤ tier_rank (tool_rule_verdict s config env input).tier
  unfolding tool_rule_verdict
  tool_rule_verdict_rule r m h = scan_rules_rule allow_verdict config.tool_rules r m h

  tool_rule_verdict_none :
      config.tool_rules ≡ [] → tool_rule_verdict s config env input ≡ allow_verdict
  unfolding tool_rule_verdict scan_rules
  tool_rule_verdict_none e = ap (scan_rules s config env input allow_verdict) e

  policy_engine_evaluate-none :
      config.policy.file ≡ none → policy_engine_evaluate s config env input ≡ (allow_verdict, none)
  unfolding policy_engine_evaluate policy_at
  policy_engine_evaluate-none e = ap (policy_at s config env input) e

  policy_engine_evaluate_error :
      (path e : Text)
      → config.policy.file ≡ some path
      → s.load_policy path ≡ err e
      → (policy_engine_evaluate s config env input).0.tier ≡ block
  unfolding policy_engine_evaluate policy_at policy_verdict
  policy_engine_evaluate_error path e p l =
      ap (λ f. (policy_at s config env input f).0.tier) p
      ∙ ap (λ r. (policy_verdict s config env input r).0.tier) l

  -- The answer before a tool runs is at least as strict as each of the three passes, and is the
  -- verdict of one of them.
  pub dispatch_pretooluse_strictest :
      let v = (dispatch_pretooluse s config env input).0 in
      (tier_rank (dispatch_pretooluse_builtin s config env input).tier ≤ tier_rank v.tier)
      × (tier_rank (tool_rule_verdict s config env input).tier ≤ tier_rank v.tier)
      × (tier_rank (policy_engine_evaluate s config env input).0.tier ≤ tier_rank v.tier)
      × ((v ≡ dispatch_pretooluse_builtin s config env input)
          ⊎ (v ≡ tool_rule_verdict s config env input)
          ⊎ (v ≡ (policy_engine_evaluate s config env input).0))
  unfolding dispatch_pretooluse
  dispatch_pretooluse_strictest =
      let b = dispatch_pretooluse_builtin s config env input in
      let r = tool_rule_verdict s config env input in
      let p = (policy_engine_evaluate s config env input).0 in
      (
        omega (arith, max_verdict-left b r, max_verdict-left (max_verdict b r) p),
        omega (arith, max_verdict-right b r, max_verdict-left (max_verdict b r) p),
        max_verdict-right (max_verdict b r) p,
        elim (max_verdict-cases (max_verdict b r) p) [
          | inr e ↦ inr (inr e)
          | inl e ↦ elim (max_verdict-cases b r) [ inl f ↦ inl (e ∙ f) | inr f ↦ inr (inl (e ∙ f)) ]
        ],
      )

  -- Every configured rule that matches counts: the answer is at least as strict as the tier of its
  -- severity.
  pub dispatch_pretooluse_rule :
      (r : ToolRule)
      → In r config.tool_rules
      → rule_matches s config env input r ≡ true
      → tier_rank (severity_to_tier r.severity (effective_thresholds config))
        ≤ tier_rank (dispatch_pretooluse s config env input).0.tier
  dispatch_pretooluse_rule r m h =
      omega (arith, dispatch_pretooluse_strictest.1, tool_rule_verdict_rule r m h)

  -- A policy that is configured and does not load makes the verdict a block, whatever the other passes say.
  pub dispatch_pretooluse_policy_error :
      (path e : Text)
      → config.policy.file ≡ some path
      → s.load_policy path ≡ err e
      → (dispatch_pretooluse s config env input).0.tier ≡ block
  dispatch_pretooluse_policy_error path e p l =
      tier_rank_block (dispatch_pretooluse s config env input).0.tier (
        omega (
          arith,
          dispatch_pretooluse_strictest.2,
          ap tier_rank (policy_engine_evaluate_error path e p l),
          tier_rank-block,
        ))

  -- Without tool rules and without a policy the answer is that of the built-in check.
  pub dispatch_pretooluse_default :
      config.tool_rules ≡ []
      → config.policy.file ≡ none
      → dispatch_pretooluse s config env input
        ≡ (dispatch_pretooluse_builtin s config env input, none)
  unfolding dispatch_pretooluse
  dispatch_pretooluse_default r p =
      let b = dispatch_pretooluse_builtin s config env input in
      ap (λ q. (max_verdict (max_verdict b (tool_rule_verdict s config env input)) q.0, q.1))
        (policy_engine_evaluate-none p)
      ∙ ap (λ v. (max_verdict (max_verdict b v) allow_verdict, none)) (tool_rule_verdict_none r)
      ∙ ap (λ v. (v, none)) (max_verdict_allow (max_verdict b allow_verdict) ∙ max_verdict_allow b)
