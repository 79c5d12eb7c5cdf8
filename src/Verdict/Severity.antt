-- ===== src/Verdict/Severity.antt =====
-- The order of the tiers, and how the severity cutoffs of src/verdict.rs move along it.
use apohara_agentguard.Prelude.{ℕ, ◌≤◌, ◌≢◌, arith}
use apohara_agentguard.Verdict.{Tier, allow, warn, ask, block, Thresholds, severity_to_tier}

-- `action_rank` of src/config.rs
abbrev pub action_rank : Tier → ℕ
action_rank allow = 0
action_rank warn = 1
action_rank ask = 2
action_rank block = 3

-- `t` is at least as strict as `u`.
pub record IsTighter (t u : Thresholds) : Type 0 where
  pub block_le : t.block_at ≤ u.block_at
  pub warn_le : t.warn_at ≤ u.warn_at

-- A severity that does not fall, read by cutoffs that do not rise, gives an action that is no
-- weaker.
pub severity_to_tier_mono :
    (s s' : ℕ) (t u : Thresholds)
    → s ≤ s'
    → IsTighter t u
    → action_rank (severity_to_tier s u) ≤ action_rank (severity_to_tier s' t)
unfolding severity_to_tier
severity_to_tier_mono s s' t u h k = ground arith

pub severity_to_tier-ne-ask : (s : ℕ) (t : Thresholds) → severity_to_tier s t ≢ ask
unfolding severity_to_tier
severity_to_tier-ne-ask s t h = ground arith
