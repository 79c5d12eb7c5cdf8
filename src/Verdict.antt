-- ===== src/Verdict.antt =====
-- src/verdict.rs: the decision that every component returns, and its severity cutoffs.
pub mod Severity
use apohara_agentguard.Prelude.{ℕ, Text, Option, none, some, [], leb, if◌then◌else◌}

pub data Tier : Type 0 where
  allow warn ask block : Tier

pub record Verdict : Type 0 where
  pub tier : Tier
  pub reason : Text
  pub feedback : Option Text

-- `Verdict::allow`, `warn`, `block`, `ask`
abbrev pub allow_verdict : Verdict
allow_verdict = record { tier = allow; reason = []; feedback = none }

abbrev pub warn_verdict : Text → Verdict
warn_verdict reason = record { tier = warn; reason = reason; feedback = none }

abbrev pub block_verdict : Text → Verdict
block_verdict reason = record { tier = block; reason = reason; feedback = none }

abbrev pub ask_verdict : Text → Verdict
ask_verdict reason = record { tier = ask; reason = reason; feedback = none }

abbrev pub with_feedback : Verdict → Text → Verdict
with_feedback v feedback = record v { feedback = some feedback }

pub record Thresholds : Type 0 where
  pub block_at : ℕ
  pub warn_at : ℕ

abbrev pub default_thresholds : Thresholds
default_thresholds = record { block_at = 8; warn_at = 5 }

unfoldable pub severity_to_tier : ℕ → Thresholds → Tier
severity_to_tier sev t =
    if leb t.block_at sev then block else if leb t.warn_at sev then warn else allow
