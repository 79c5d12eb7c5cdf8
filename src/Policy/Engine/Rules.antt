-- ===== src/Policy/Engine/Rules.antt =====
-- The scan of a policy's rules: the worst verdict of the rules that fire.
use apohara_agentguard.Prelude.{
  ℕ, ◌≤◌, Text, true, Option, none, some, List, [], ◌∷◌, ◌⊎◌, inl, inr, ◌≡◌, ◌↔◌, refl, sym, ap,
  subst, arith, eq_text, if◌then◌else◌, Bool-cases, Any, In,
}
use apohara_agentguard.Verdict.{
  warn, block, Verdict, Thresholds, severity_to_tier, warn_verdict, block_verdict,
}
use apohara_agentguard.Contract.{Json, HookInput}
use apohara_agentguard.Policy.Matcher.{pattern_matches}
use apohara_agentguard.Policy.Schema.{ToolRule, ToolSpec}
use apohara_agentguard.Policy.Engine.{
  tier_rank_local, max_verdict_local, candidate, worse, resolve_arg, rule_verdict, scan_rules,
  scan_specs, evaluate_rules,
}

-- The rank of what has been found so far; finding nothing ranks with an allow.
abbrev pub rank_of : Option Verdict → ℕ
rank_of none = 0
rank_of (some v) = tier_rank_local v.tier

max_verdict_local-left :
    (a b : Verdict) → tier_rank_local a.tier ≤ tier_rank_local (max_verdict_local a b).tier
unfolding max_verdict_local
max_verdict_local-left a b = ground arith

max_verdict_local-right :
    (a b : Verdict) → tier_rank_local b.tier ≤ tier_rank_local (max_verdict_local a b).tier
unfolding max_verdict_local
max_verdict_local-right a b = ground arith

max_verdict_local-cases :
    (a b : Verdict) → (max_verdict_local a b ≡ a) ⊎ (max_verdict_local a b ≡ b)
unfolding max_verdict_local
max_verdict_local-cases a b = ground arith

worse-left : (best c : Option Verdict) → rank_of best ≤ rank_of (worse best c)
unfolding worse
worse-left best none = omega arith
worse-left none (some c) = omega arith
worse-left (some b) (some c) = max_verdict_local-left b c

worse-right : (best c : Option Verdict) → rank_of c ≤ rank_of (worse best c)
unfolding worse
worse-right best none = omega arith
worse-right none (some c) = omega arith
worse-right (some b) (some c) = max_verdict_local-right b c

worse-cases : (best c : Option Verdict) → (worse best c ≡ best) ⊎ (worse best c ≡ c)
unfolding worse
worse-cases best none = inl refl
worse-cases none (some c) = inr refl
worse-cases (some b) (some c) = elim (max_verdict_local-cases b c) [
  | inl e ↦ inl cc
  | inr e ↦ inr cc
]

module _ {V : Type 0} (json : Json V) (input : HookInput V) (thresholds : Thresholds) where
  abbrev verdict_of : ToolRule → Option Verdict
  verdict_of = rule_verdict json input thresholds

  scan_rules-le :
      (best : Option Verdict) (rules : List ToolRule)
      → rank_of best ≤ rank_of (scan_rules json input thresholds best rules)
  unfolding scan_rules
  scan_rules-le best [] = omega arith
  scan_rules-le best (r ∷ rules) =
      omega (arith, worse-left best (verdict_of r), scan_rules-le (worse best (verdict_of r)) rules)

  scan_rules_rule :
      (best : Option Verdict) (rules : List ToolRule) (r : ToolRule)
      → In r rules
      → rank_of (verdict_of r) ≤ rank_of (scan_rules json input thresholds best rules)
  unfolding scan_rules
  scan_rules_rule best [] r h = elim h [ ]
  scan_rules_rule best (s ∷ rules) r (inl e) = omega (
    arith,
    ap (λ x. rank_of (verdict_of x)) e,
    worse-right best (verdict_of s),
    scan_rules-le (worse best (verdict_of s)) rules,
  )
  scan_rules_rule best (s ∷ rules) r (inr h) = scan_rules_rule (worse best (verdict_of s)) rules r h

  scan_rules_source :
      (best : Option Verdict) (rules : List ToolRule) {v : Verdict}
      → scan_rules json input thresholds best rules ≡ some v
      → (best ≡ some v) ⊎ Any (λ r. verdict_of r ≡ some v) rules
  unfolding scan_rules
  scan_rules_source best [] h = inl h
  scan_rules_source best (r ∷ rules) h =
      elim (scan_rules_source (worse best (verdict_of r)) rules h) [
        | inr m ↦ inr (inr m)
        | inl e ↦ elim (worse-cases best (verdict_of r)) [ inl k ↦ inl cc | inr k ↦ inr (inl cc) ]
      ]

  scan_specs-le :
      (tool : Text) (best : Option Verdict) (specs : List ToolSpec)
      → rank_of best ≤ rank_of (scan_specs json input thresholds tool best specs)
  unfolding scan_specs
  scan_specs-le tool best [] = omega arith
  scan_specs-le tool best (s ∷ specs) = elim (Bool-cases (eq_text s.name tool)) [
    | inl e ↦ rw e (
        omega (
          arith,
          scan_rules-le best s.rules,
          scan_specs-le tool (scan_rules json input thresholds best s.rules) specs,
        ))
    | inr e ↦ rw e (scan_specs-le tool best specs)
  ]

  scan_specs_rule :
      (tool : Text) (best : Option Verdict) (specs : List ToolSpec) (spec : ToolSpec) (r : ToolRule)
      → In spec specs
      → eq_text spec.name tool ≡ true
      → In r spec.rules
      → rank_of (verdict_of r) ≤ rank_of (scan_specs json input thresholds tool best specs)
  unfolding scan_specs
  scan_specs_rule tool best [] spec r h e m = elim h [ ]
  scan_specs_rule tool best (s ∷ specs) spec r (inl p) e m =
      let e' = subst (λ x. eq_text x.name tool ≡ true) (sym p) e in
      let m' = subst (λ x. In r x.rules) (sym p) m in
      rw e' (
        omega (
          arith,
          scan_rules_rule best s.rules r m',
          scan_specs-le tool (scan_rules json input thresholds best s.rules) specs,
        ))
  scan_specs_rule tool best (s ∷ specs) spec r (inr h) e m =
      scan_specs_rule tool
        (if eq_text s.name tool then scan_rules json input thresholds best s.rules else best) specs
        spec r h e m

  abbrev pub FromSpec : Text → Verdict → ToolSpec → Type 0
  FromSpec tool v spec =
      (eq_text spec.name tool ≡ true) × Any (λ r. verdict_of r ≡ some v) spec.rules

  scan_specs_source :
      (tool : Text) (best : Option Verdict) (specs : List ToolSpec) {v : Verdict}
      → scan_specs json input thresholds tool best specs ≡ some v
      → (best ≡ some v) ⊎ Any (FromSpec tool v) specs
  unfolding scan_specs
  scan_specs_source tool best [] h = inl h
  scan_specs_source tool best (s ∷ specs) h = elim (Bool-cases (eq_text s.name tool)) [
    | inl e ↦
        elim (scan_specs_source tool (scan_rules json input thresholds best s.rules) specs
          (rw e at h)) [
            | inr m ↦ inr (inr m)
            | inl k ↦ elim (scan_rules_source best s.rules k) [
              | inl b ↦ inl b
              | inr m ↦ inr (inl (e, m))
            ]
          ]
    | inr e ↦ elim (scan_specs_source tool best specs (rw e at h)) [
      | inl b ↦ inl b
      | inr m ↦ inr (inr m)
    ]
  ]

  -- The answer ranks with or above the verdict of every rule of every entry for the tool.
  pub evaluate_rules_worst :
      (tools : List ToolSpec) (tool : Text) (spec : ToolSpec) (r : ToolRule)
      → In spec tools
      → eq_text spec.name tool ≡ true
      → In r spec.rules
      → rank_of (rule_verdict json input thresholds r)
        ≤ rank_of (evaluate_rules json input thresholds tools tool)
  unfolding evaluate_rules
  evaluate_rules_worst tools tool spec r h e m = scan_specs_rule tool none tools spec r h e m

  -- An answer is the verdict of some rule of an entry for the tool.
  pub evaluate_rules_source :
      (tools : List ToolSpec) (tool : Text) (v : Verdict)
      → evaluate_rules json input thresholds tools tool ≡ some v
      → Any (FromSpec tool v) tools
  unfolding evaluate_rules
  evaluate_rules_source tools tool v h = elim (scan_specs_source tool none tools h) [
    | inl e ↦ cc
    | inr m ↦ m
  ]

  -- A rule answers a warning or a block exactly where its pattern matches and its severity reaches
  -- the cutoff.
  pub rule_verdict_iff :
      (r : ToolRule) (v : Verdict)
      → rule_verdict json input thresholds r ≡ some v
        ↔ (pattern_matches r.pattern (resolve_arg json input r.arg) ≡ true)
          × (((severity_to_tier r.severity thresholds ≡ block) × (block_verdict r.reason ≡ v))
              ⊎ ((severity_to_tier r.severity thresholds ≡ warn) × (warn_verdict r.reason ≡ v)))
  unfolding rule_verdict candidate
  rule_verdict_iff r v = ground arith
