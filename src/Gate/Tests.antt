-- ===== src/Gate/Tests.antt =====
-- Runs of src/gate/mod.rs.
use apohara_agentguard.Prelude.{
  ℕ, ◌+◌, ◌≤◌, ◌≡◌, refl, codes, List, [], ◌∷◌, ◌++◌, Text, Bool, true, false, contains, none, some,
  ◌&&◌, In, inl, inr, arith, any,
}
use apohara_agentguard.Verdict.{Tier, block, severity_to_tier}
use apohara_agentguard.Verdict.Severity.{action_rank}
use apohara_agentguard.Config.{Config, default_config, is_allowed}
use apohara_agentguard.Gate.Compound.{split_compound}
use apohara_agentguard.Gate.Compound.Quoting.{is_closed}
use apohara_agentguard.Gate.Taxonomy.{rules}
use apohara_agentguard.Gate.Taxonomy.Shape.{effective_match_text}
use apohara_agentguard.Gate.Resolve.Expand.{resolve_assignments}
use apohara_agentguard.Gate.Scan.{Outside, scan_both, enough}
use apohara_agentguard.Gate.Scan.Legs.{Catches, built_in}
use apohara_agentguard.Gate.Scan.Fuel.{scan_both_fuel}
use apohara_agentguard.Gate.Caught.{evaluate_caught, evaluate_sequence, names_var}
use apohara_agentguard.Gate.Level.{evaluate_level}
use apohara_agentguard.Gate.{evaluate}

-- A matcher that finds the two words of a pattern's command and flag.
abbrev small_outside : Outside
small_outside = record {
  is_match = λ pattern s. contains pattern (codes "\\brm\\b") && contains s (codes "rm -rf");
  decode_base64 = λ s. none;
  from_utf8 = λ bytes. none;
  normalize_command = λ command. (command, []);
}

blocks_second_leg : (evaluate small_outside [] (codes "ls; rm -rf ~") default_config).tier ≡ block
unfolding evaluate apohara_agentguard.Config.is_allowed
    apohara_agentguard.Gate.Resolve.Expand.resolve_assignments
    apohara_agentguard.Gate.Compound.split_compound apohara_agentguard.Prelude.contains_char
    apohara_agentguard.Prelude.trim apohara_agentguard.Gate.Taxonomy.Shape.live_substitution_bodies
    apohara_agentguard.Prelude.contains apohara_agentguard.Gate.Decode.decode_and_expand
    apohara_agentguard.Gate.Decode.has_base64_decode_stage
    apohara_agentguard.Gate.Packs.enabled_rules apohara_agentguard.Gate.Taxonomy.rules
    apohara_agentguard.Prelude.Words.contains_ignore_ascii_case
    apohara_agentguard.Gate.Taxonomy.Shape.effective_match_text
    apohara_agentguard.Prelude.starts_with apohara_agentguard.Prelude.Words.split_whitespace
    apohara_agentguard.Prelude.eq_text apohara_agentguard.Gate.Taxonomy.m_fork_bomb
    apohara_agentguard.Gate.Taxonomy.Shape.fetch_pipe_to_shell
    apohara_agentguard.Gate.Taxonomy.Shape.fork_bomb_presplit
    apohara_agentguard.Verdict.severity_to_tier apohara_agentguard.Prelude.is_whitespace
blocks_second_leg = refl

abbrev listed : Text
listed = codes "ls 'a'; rm -rf ~"

abbrev wiped : Text
wiped = codes "rm -rf ~"

not_listed : is_allowed default_config listed ≡ false
unfolding is_allowed
not_listed = refl

second_leg : In wiped (resolve_assignments (split_compound listed))
unfolding split_compound resolve_assignments apohara_agentguard.Prelude.contains_char
    apohara_agentguard.Prelude.trim
second_leg = inr (inl refl)

wiped-Catches : Catches small_outside default_config [] wiped 9
unfolding rules effective_match_text apohara_agentguard.Prelude.contains_char
    apohara_agentguard.Prelude.starts_with apohara_agentguard.Prelude.trim_start
    apohara_agentguard.Prelude.Words.split_whitespace apohara_agentguard.Prelude.eq_text
    apohara_agentguard.Prelude.Words.contains_ignore_ascii_case
wiped-Catches = built_in _ (inl refl) refl refl

evaluate_caught_example :
    action_rank (severity_to_tier 9 default_config.thresholds)
    ≤ action_rank (evaluate small_outside [] listed default_config).tier
evaluate_caught_example =
    evaluate_caught small_outside [] default_config listed listed [] wiped 9 refl not_listed refl
      second_leg wiped-Catches

only_leg : In wiped (split_compound wiped)
unfolding split_compound apohara_agentguard.Prelude.contains_char apohara_agentguard.Prelude.trim
only_leg = inl refl

quoted_closed : is_closed false false false (codes "ls 'a'") ≡ true
unfolding is_closed
quoted_closed = refl

no_variables : any names_var (split_compound (codes "ls 'a'") ++ split_compound wiped) ≡ false
unfolding split_compound apohara_agentguard.Prelude.contains_char apohara_agentguard.Prelude.trim
no_variables = refl

evaluate_sequence_example :
    action_rank (severity_to_tier 9 default_config.thresholds)
    ≤ action_rank (evaluate small_outside [] (codes "ls 'a'" ++ b';' ∷ wiped) default_config).tier
unfolding is_allowed
evaluate_sequence_example =
    evaluate_sequence small_outside [] default_config (codes "ls 'a'") b';' wiped [] wiped 9 refl
      not_listed refl quoted_closed refl no_variables only_leg wiped-Catches

scan_both_fuel_example :
    scan_both small_outside default_config [] (enough small_outside default_config [] + 3) 0
    ≡ scan_both small_outside default_config [] (enough small_outside default_config []) 0
scan_both_fuel_example = scan_both_fuel small_outside default_config [] 3 0 (omega arith)

evaluate_level_example :
    evaluate small_outside [] listed (record default_config { level = some (codes "strict") })
    ≡ evaluate small_outside [] listed default_config
evaluate_level_example =
    evaluate_level small_outside [] default_config (some (codes "strict")) listed
