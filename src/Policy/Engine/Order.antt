-- ===== src/Policy/Engine/Order.antt =====
-- The order of the stages of an evaluation: rules, then the default action, then the budgets.
use apohara_agentguard.Prelude.{
  ℕ, Text, false, Option, none, some, [], ◌≡◌, ◌⊎◌, inl, inr, refl, arith, Option-cases,
}
use apohara_agentguard.Verdict.{Verdict, allow, ask, block}
use apohara_agentguard.Config.{Config, effective_thresholds}
use apohara_agentguard.Contract.{Json, HookInput, unwrap_or}
use apohara_agentguard.Policy.Schema
use apohara_agentguard.Policy.Schema.{lookup, Budgets, PolicyFile, ToolBudget}
use apohara_agentguard.Policy.Engine.{
  evaluate_rules, over, first_verdict, tool_caps, check_caps, charge_and_check, charge_for,
  budget_check, SessionCounters, Counters, has_explicit_allow, allow_or, after_rules, evaluate,
}

-- A budget says nothing or asks.
abbrev AsksOnly : Option Verdict → Type 0
AsksOnly o = (v : Verdict) → o ≡ some v → v.tier ≡ ask

over-AsksOnly : (cap : Option ℕ) (used : ℕ) (message : ℕ → Text) → AsksOnly (over cap used message)
unfolding over
over-AsksOnly none used message v h = cc
over-AsksOnly (some cap) used message v h = ground arith

tool_caps-AsksOnly :
    (b : Option ToolBudget) (tool : Text) (e : SessionCounters) → AsksOnly (tool_caps b tool e)
unfolding tool_caps over first_verdict
tool_caps-AsksOnly none tool e v h = cc
tool_caps-AsksOnly (some b) tool e v h = ground arith

check_caps-AsksOnly :
    (b : Budgets) (tool : Text) (tokens : ℕ) (e : SessionCounters)
    → AsksOnly (check_caps b tool tokens e)
unfolding check_caps over first_verdict
check_caps-AsksOnly b tool tokens e v h =
    ground (arith, tool_caps-AsksOnly (lookup tool b.per_tool) tool e v)

allow_or_tier :
    (r : Option Verdict × Counters)
    → AsksOnly r.0
    → ((allow_or r).0.tier ≡ allow) ⊎ ((allow_or r).0.tier ≡ ask)
unfolding allow_or
allow_or_tier (none, counters) h = inl refl
allow_or_tier (some v, counters) h = inr (h v refl)

module _ {V : Type 0} (json : Json V) (file : PolicyFile) (input : HookInput V) where
  charge_and_check-AsksOnly :
      (budgets : Budgets) (c : Option (Text × ℕ)) (counters : Counters)
      → AsksOnly (charge_and_check budgets input.session_id c counters).0
  unfolding charge_and_check
  charge_and_check-AsksOnly budgets none counters v h = cc
  charge_and_check-AsksOnly budgets (some (tool, tokens)) counters v h =
      check_caps-AsksOnly budgets tool tokens _ v h

  budget_check-AsksOnly :
      (budgets : Budgets) (counters : Counters)
      → AsksOnly (budget_check json budgets input counters).0
  unfolding budget_check
  budget_check-AsksOnly budgets counters =
      charge_and_check-AsksOnly budgets (charge_for json input) counters

  -- The verdict of a rule is final: it is the answer, and nothing is charged.
  pub evaluate_rule_final :
      (config : Config) (counters : Counters) (v : Verdict)
      → evaluate_rules json input
          (effective_thresholds config)
          file.tools
          (unwrap_or input.tool_name [])
        ≡ some v
      → evaluate json file input config counters ≡ (v, counters)
  unfolding evaluate after_rules
  evaluate_rule_final config counters v h = rw h

  -- A policy that denies by default answers a block for every tool without an allow list, unless a
  -- rule has answered first, and charges nothing.
  pub evaluate_default_deny :
      (config : Config) (counters : Counters)
      → file.defaults.default_action ≡ Schema.deny
      → has_explicit_allow file.tools (unwrap_or input.tool_name []) ≡ false
      → ((evaluate json file input config counters).1 ≡ counters)
        × (((evaluate json file input config counters).0.tier ≡ block)
            ⊎ (some (evaluate json file input config counters).0
                ≡ evaluate_rules json input
                    (effective_thresholds config)
                    file.tools
                    (unwrap_or input.tool_name [])))
  unfolding evaluate after_rules
  evaluate_default_deny config counters d a =
      elim (Option-cases (
        evaluate_rules json input (effective_thresholds config) file.tools
          (unwrap_or input.tool_name []))) [
            | inl e ↦ rw (e, d, a) (refl, inl refl)
            | inr (v, e) ↦ rw e (refl, inr refl)
          ]

  -- Without a rule that fires and without a default deny, the answer is an allow or an ask.
  pub evaluate_budget :
      (config : Config) (counters : Counters)
      → evaluate_rules json input
          (effective_thresholds config)
          file.tools
          (unwrap_or input.tool_name [])
        ≡ none
      → file.defaults.default_action ≡ Schema.allow
      → ((evaluate json file input config counters).0.tier ≡ allow)
        ⊎ ((evaluate json file input config counters).0.tier ≡ ask)
  unfolding evaluate after_rules
  evaluate_budget config counters h d =
      rw (h, d)
        (allow_or_tier (budget_check json file.budgets input counters)
          (budget_check-AsksOnly file.budgets counters))
